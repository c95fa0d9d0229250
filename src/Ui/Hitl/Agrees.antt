-- ===== src/Ui/Hitl/Agrees.antt =====
-- s13code/ui/hitl.py: what an approval that is allowed says of the arguments.
use s14code.Prelude.{
  ◌≡◌, ◌≢◌, String, refl, ap, ap₂, ◌∙◌, sym, subst, Bool, true, false, not, ◌&&◌, Option, none,
  some, List, [], ◌∷◌, arith, if◌then◌else◌, ◌==◌, eq_iff, eq→path, ne→false, &&-true, eq_refl,
  first, any, All,
}
use s14code.Json.{
  ℤ, pos, negsuc, Json, null, bool, int, str, arr, obj, Items, nil, cons, Dict, empty, entry, get,
}
use s14code.Sorting.{sort_by, IsSingle, first-sort_by, All-sort_by}
use s14code.Ui.Hitl.{
  PendingAction, ResumeReason, pair_items, canonical, canonical_items, canonical_pairs, int_eq,
  as_int, same, same_items, decision, decide_resume,
}

-- The keys of a dict are distinct, as Python's are.
unfoldable pub distinct : Dict → Bool
unfolding get
distinct empty = true
distinct (entry k v d) = elim (get d k) [ none ↦ distinct d | some w ↦ false ]

-- Both are absent, or both are there with the same canonical value.
abbrev pub agree : Option Json → Option Json → Bool
agree none none = true
agree (some v) (some w) = same (canonical v) (canonical w)
agree _ _ = false

-- The value of the first pair with the key.
abbrev lookup : String → List (String × Json) → Option Json
lookup k ps = elim (first (λ p. p.0 == k) ps) [ none ↦ none | some p ↦ some p.1 ]

abbrev both : Option Json → Option Json → Bool
both none none = true
both (some v) (some w) = same v w
both _ _ = false

lookup-cons :
    (k a : String) (v : Json) (ps : List (String × Json))
    → lookup k ((a, v) ∷ ps) ≡ (if a == k then some v else lookup k ps)
lookup-cons k a v ps = ground (arith)

same-head :
    (a k : String) (v w : Json) (ps qs : List (String × Json))
    → same v w ≡ true
    → both (lookup k ps) (lookup k qs) ≡ true
    → both (lookup k ((a, v) ∷ ps)) (lookup k ((a, w) ∷ qs)) ≡ true
same-head a k v w ps qs h rest =
    ap₂ both (lookup-cons k a v ps) (lookup-cons k a w qs) ∙ same-if (a == k)
  where
    same-if :
        (found : Bool)
        → both (if found then some v else lookup k ps) (if found then some w else lookup k qs)
          ≡ true
    same-if true = h
    same-if false = rest

same-pairs :
    (ps qs : List (String × Json)) (k : String)
    → same_items (pair_items ps) (pair_items qs) ≡ true
    → both (lookup k ps) (lookup k qs) ≡ true
unfolding same
same-pairs [] [] k h = refl
same-pairs [] (q ∷ qs) k h = ground (arith)
same-pairs (p ∷ ps) [] k h = ground (arith)
same-pairs ((a, v) ∷ ps) ((b, w) ∷ qs) k h =
    let (head, rest) =
      &&-true (a == b && (same v w && true)) (same_items (pair_items ps) (pair_items qs)) h in
    let (keys, tail) = &&-true (a == b) (same v w && true) head in
    let (values, _) = &&-true (same v w) true tail in
    subst (λ c. both (lookup k ((a, v) ∷ ps)) (lookup k ((c, w) ∷ qs)) ≡ true) (eq→path a b keys)
      (same-head a k v w ps qs values (same-pairs ps qs k rest))

lookup-canonical :
    (d : Dict) (k : String)
    → lookup k (canonical_pairs d) ≡ elim (get d k) [ none ↦ none | some v ↦ some (canonical v) ]
unfolding canonical get
lookup-canonical empty k = refl
lookup-canonical (entry j v d) k = ground (arith, lookup-canonical d k)

any-canonical :
    (d : Dict) (k : String)
    → any (λ p. p.0 == k) (canonical_pairs d) ≡ elim (get d k) [ none ↦ false | some v ↦ true ]
unfolding canonical get
any-canonical empty k = refl
any-canonical (entry j v d) k = ground (arith, any-canonical d k)

distinct-IsSingle :
    (d : Dict) (k : String)
    → distinct d ≡ true
    → IsSingle (λ p. p.0) (λ p. p.0 == k) (canonical_pairs d)
unfolding canonical distinct
distinct-IsSingle empty k h = tt
distinct-IsSingle (entry j v d) k h =
    ground (arith, distinct-IsSingle d k, any-canonical d k, eq_iff j k)

-- A dict's canonical pairs, sorted, are found by key as its entries are.
lookup-sorted :
    (d : Dict) (k : String)
    → distinct d ≡ true
    → lookup k (sort_by (λ p. p.0) (canonical_pairs d))
      ≡ elim (get d k) [ none ↦ none | some v ↦ some (canonical v) ]
lookup-sorted d k h =
    ap (λ (o : Option (String × Json)). elim o [ none ↦ none | some p ↦ some p.1 ])
      (first-sort_by (λ p. p.0) (λ p. p.0 == k) (canonical_pairs d) (distinct-IsSingle d k h))
    ∙ lookup-canonical d k

both-agree :
    (o p : Option Json)
    → both
        (elim o [ none ↦ none | some v ↦ some (canonical v) ])
        (elim p [ none ↦ none | some v ↦ some (canonical v) ])
      ≡ agree o p
both-agree none none = refl
both-agree none (some w) = refl
both-agree (some v) none = refl
both-agree (some v) (some w) = refl

same-agree :
    (args params : Dict) (k : String)
    → distinct args ≡ true
    → distinct params ≡ true
    → same (canonical (obj args)) (canonical (obj params)) ≡ true
    → agree (get args k) (get params k) ≡ true
unfolding canonical same
same-agree args params k da dp h =
    sym (both-agree (get args k) (get params k))
    ∙ sym (ap₂ both (lookup-sorted args k da) (lookup-sorted params k dp))
    ∙ same-pairs (sort_by (λ p. p.0) (canonical_pairs args))
        (sort_by (λ p. p.0) (canonical_pairs params)) k h

allowed_by :
    (rejects approves matches : Bool) (r s t u : ResumeReason)
    → (if rejects
        then decision true r
        else if not approves
        then decision false s
        else if not matches
        then decision false t
        else decision true u).allowed
      ≡ true
    → rejects ≡ false
    → (approves ≡ true) × (matches ≡ true)
allowed_by true approves matches r s t u h other = ground (arith)
allowed_by false false matches r s t u h other = ground (arith)
allowed_by false true false r s t u h other = ground (arith)
allowed_by false true true r s t u h other = (refl, refl)

-- Where the keys of the arguments and of the parked parameters are distinct, an action other
-- than `reject` that `decide_resume` allows is `approve`, and its arguments agree with the
-- parked parameters at every key: both lack the key, or both have it with values of the same
-- canonical form.
pub decide_resume-agree :
    (pending : PendingAction) (action_name : String) (args : Dict) (key : String)
    → distinct args ≡ true
    → distinct pending.params ≡ true
    → (decide_resume pending action_name args).allowed ≡ true
    → action_name ≢ "reject"
    → (action_name ≡ "approve") × (agree (get args key) (get pending.params key) ≡ true)
unfolding decide_resume
decide_resume-agree pending action_name args key da dp h other =
    let (approves, matches) =
      allowed_by (action_name == "reject") (action_name == "approve")
        (same (canonical (obj args)) (canonical (obj pending.params))) _ _ _ _ h
        (ne→false action_name "reject" other) in
    (eq→path action_name "approve" approves, same-agree args pending.params key da dp matches)

int_eq_refl : (n : ℤ) → int_eq n n ≡ true
int_eq_refl (pos n) = ground (arith)
int_eq_refl (negsuc n) = ground (arith)

abbrev SameValue : String × Json → Type 0
SameValue p = same p.1 p.1 ≡ true

pair_items-same :
    (ps : List (String × Json))
    → All SameValue ps
    → same_items (pair_items ps) (pair_items ps) ≡ true
unfolding same
pair_items-same [] h = refl
pair_items-same ((k, v) ∷ ps) h = rw (eq_refl k, h.0, pair_items-same ps h.1) refl

-- A canonical value equals itself.
mutual
  unfolding canonical same

  canonical-same : (v : Json) → same (canonical v) (canonical v) ≡ true
  canonical-same (obj d) =
      pair_items-same (sort_by (λ p. p.0) (canonical_pairs d))
        (All-sort_by (λ p. p.0) SameValue (canonical_pairs d) (canonical_pairs-same d))
  canonical-same (arr xs) = canonical_items-same xs
  canonical-same null = refl
  canonical-same (bool b) = int_eq_refl (as_int b)
  canonical-same (int n) = int_eq_refl n
  canonical-same (str s) = eq_refl s

  canonical_items-same : (xs : Items) → same_items (canonical_items xs) (canonical_items xs) ≡ true
  canonical_items-same nil = refl
  canonical_items-same (cons x xs) = rw (canonical-same x, canonical_items-same xs) refl

  canonical_pairs-same : (d : Dict) → All SameValue (canonical_pairs d)
  canonical_pairs-same empty = tt
  canonical_pairs-same (entry k v d) = (canonical-same v, canonical_pairs-same d)

-- Where a parked parameter is a dict with one key, an approval with a list of that key and its
-- value in its place is allowed.
pub decide_resume-list_for_dict :
    (run_id node_id summary param key : String) (v : Json)
    → (decide_resume
        (record {
          run_id = run_id;
          node_id = node_id;
          summary = summary;
          params = entry param (obj (entry key v empty)) empty;
        })
        "approve"
        (entry param (arr (cons (arr (cons (str key) (cons v nil))) nil)) empty)).allowed
      ≡ true
unfolding decide_resume canonical same
decide_resume-list_for_dict run_id node_id summary param key v =
    rw (eq_refl param, eq_refl key, canonical-same v) refl
