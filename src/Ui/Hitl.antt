-- ===== src/Ui/Hitl.antt =====
-- s13code/ui/hitl.py: whether an action may resume a parked node.
pub mod Agrees
use s14code.Prelude.{
  ℕ, String, Bool, true, false, not, ◌&&◌, List, [], ◌∷◌, ◌==◌, nat_eq, if◌then◌else◌,
}
use s14code.Json.{
  ℤ, pos, negsuc, Json, null, bool, int, str, arr, obj, Items, nil, cons, Dict, empty, entry,
}
use s14code.Sorting.{sort_by}

pub record PendingAction : Type 0 where
  pub run_id : String
  pub node_id : String
  pub summary : String
  pub params : Dict

-- The reasons of the source's messages.
pub data ResumeReason : Type 0 where
  rejected_by_user args_differ matching_parameters : ResumeReason
  unexpected_action : String → ResumeReason

pub record ResumeDecision : Type 0 where
  pub allowed : Bool
  pub reason : ResumeReason

-- A tuple of the pairs (key, value); a tuple is a list here.
abbrev pub pair_items : List (String × Json) → Items
pair_items [] = nil
pair_items ((k, v) ∷ ps) = cons (arr (cons (str k) (cons v nil))) (pair_items ps)

-- `_canonical`. The keys of a dict are distinct, so the sort never compares two values.
unfoldable mutual
  unfolding sort_by

  pub canonical : Json → Json
  canonical (obj d) = arr (pair_items (sort_by (λ p. p.0) (canonical_pairs d)))
  canonical (arr xs) = arr (canonical_items xs)
  canonical null = null
  canonical (bool b) = bool b
  canonical (int n) = int n
  canonical (str s) = str s

  pub canonical_items : Items → Items
  canonical_items nil = nil
  canonical_items (cons x xs) = cons (canonical x) (canonical_items xs)

  pub canonical_pairs : Dict → List (String × Json)
  canonical_pairs empty = []
  canonical_pairs (entry k v d) = (k, canonical v) ∷ canonical_pairs d

abbrev pub int_eq : ℤ → ℤ → Bool
int_eq (pos m) (pos n) = nat_eq m n
int_eq (negsuc m) (negsuc n) = nat_eq m n
int_eq _ _ = false

-- `True == 1` and `False == 0`
abbrev pub as_int : Bool → ℤ
as_int b = pos (if b then 1 else 0)

-- `==` of two canonical values: neither holds a dict.
unfoldable mutual
  pub same : Json → Json → Bool
  same null null = true
  same (bool a) (bool b) = int_eq (as_int a) (as_int b)
  same (bool a) (int n) = int_eq (as_int a) n
  same (int m) (bool b) = int_eq m (as_int b)
  same (int m) (int n) = int_eq m n
  same (str s) (str t) = s == t
  same (arr xs) (arr ys) = same_items xs ys
  same _ _ = false

  pub same_items : Items → Items → Bool
  same_items nil nil = true
  same_items (cons x xs) (cons y ys) = same x y && same_items xs ys
  same_items _ _ = false

abbrev pub decision : Bool → ResumeReason → ResumeDecision
decision allowed reason = record { allowed = allowed; reason = reason }

unfoldable pub decide_resume : PendingAction → String → Dict → ResumeDecision
unfolding canonical same
decide_resume pending action_name args =
    if action_name == "reject"
    then decision true rejected_by_user
    else if not (action_name == "approve")
    then decision false (unexpected_action action_name)
    else if not (same (canonical (obj args)) (canonical (obj pending.params)))
    then decision false args_differ
    else decision true matching_parameters
