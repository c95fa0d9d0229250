-- ===== src/Graph/Cycle.antt =====
-- `_has_cycle` of s13code/core/live_graph/store.py: the depth-first search over the edges of one
-- run.
pub mod Chains
pub mod Found
pub mod Absent
pub mod Fuel
use s14code.Prelude.{
  ℕ, zero, suc, String, Bool, true, false, List, [], ◌∷◌, ◌≡◌, refl, ◌==◌, contains, length,
  if◌then◌else◌,
}

-- `edges.get(nid, ())`: the children of a node, in the order of the rows.
unfoldable pub children : List (String × String) → String → List String
children [] n = []
children ((parent, child) ∷ es) n = if parent == n then child ∷ children es n else children es n

-- The keys of `edges`, one for each row.
unfoldable pub parents : List (String × String) → List String
parents [] = []
parents ((parent, child) ∷ es) = parent ∷ parents es

-- What a visit ends with: a cycle was met, or none was and these nodes are seen.
pub data Outcome : Type 0 where
  cycle : Outcome
  clear : List String → Outcome
  out_of_fuel : Outcome

-- `any(visit(child) for child in …)`: stops at the first cycle.
unfoldable pub visit_each : (String → List String → Outcome) → List String → List String → Outcome
visit_each go [] seen = clear seen
visit_each go (n ∷ ns) seen = elim (go n seen) [
  | cycle ↦ cycle
  | clear seen' ↦ visit_each go ns seen'
  | out_of_fuel ↦ out_of_fuel
]

-- `visit`. `active` holds the nodes whose visit has not ended, the latest first.
unfoldable pub visit :
    (es : List (String × String)) → ℕ → List String → String → List String → Outcome
visit es zero active n seen = out_of_fuel
visit es (suc fuel) active n seen =
    let rest = visit_each (visit es fuel (n ∷ active)) (children es n) (n ∷ seen) in
    if contains n active then cycle else if contains n seen then clear seen else rest

visit_each-step :
    (go : String → List String → Outcome) (n : String) (ns seen seen' : List String) (o : Outcome)
    → go n seen ≡ o
    → visit_each go (n ∷ ns) seen ≡ clear seen'
    → (mid : List String) × (go n seen ≡ clear mid) × (visit_each go ns mid ≡ clear seen')
unfolding visit_each
visit_each-step go n ns seen seen' cycle e h = cc (rw (e, visit_each) at h)
visit_each-step go n ns seen seen' (clear mid) e h = (mid, e, rw (e, visit_each) at h)
visit_each-step go n ns seen seen' out_of_fuel e h = cc (rw (e, visit_each) at h)

-- What several visits that met no cycle are made of.
pub visit_each-clear :
    (go : String → List String → Outcome) (n : String) (ns seen seen' : List String)
    → visit_each go (n ∷ ns) seen ≡ clear seen'
    → (mid : List String) × (go n seen ≡ clear mid) × (visit_each go ns mid ≡ clear seen')
visit_each-clear go n ns seen seen' h = visit_each-step go n ns seen seen' (go n seen) refl h

-- One level of the visit of a node that is new.
pub visit_new :
    (es : List (String × String)) (fuel : ℕ) (active : List String) (n : String)
    (seen : List String)
    → contains n active ≡ false
    → contains n seen ≡ false
    → visit es (suc fuel) active n seen
      ≡ visit_each (visit es fuel (n ∷ active)) (children es n) (n ∷ seen)
unfolding visit
visit_new es fuel active n seen h k = rw (h, k) refl

-- The visit of a node that was seen and is not active changes nothing.
pub visit_seen :
    (es : List (String × String)) (fuel : ℕ) (active : List String) (n : String)
    (seen : List String)
    → contains n active ≡ false
    → contains n seen ≡ true
    → visit es (suc fuel) active n seen ≡ clear seen
unfolding visit
visit_seen es fuel active n seen h k = rw (h, k) refl

-- The visit of a node on the path to itself ends the search.
pub visit_active :
    (es : List (String × String)) (fuel : ℕ) (active : List String) (n : String)
    (seen : List String)
    → contains n active ≡ true
    → visit es (suc fuel) active n seen ≡ cycle
unfolding visit
visit_active es fuel active n seen h = rw h refl

-- The search from every parent. One round of fuel for each row, and one more, are enough: each
-- level of the recursion adds a parent to `seen`.
unfoldable pub search_cycle : List (String × String) → Outcome
search_cycle es = visit_each (visit es (suc (length es)) []) (parents es) []

abbrev pub is_cycle : Outcome → Bool
is_cycle cycle = true
is_cycle _ = false

unfoldable pub has_cycle : List (String × String) → Bool
unfolding search_cycle visit visit_each children parents
has_cycle es = is_cycle (search_cycle es)
