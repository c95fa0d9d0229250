-- ===== src/Graph/Cycle/Found.antt =====
-- `_has_cycle` of s13code/core/live_graph/store.py: a search that reports a cycle.
use s14code.Prelude.{
  ℕ, zero, suc, String, ◌≡◌, refl, true, List, [], ◌∷◌, arith, ◌==◌, eq_iff, eq→path, contains,
  Bool-cases, inl, inr, subst, sym, length,
}
use mathlib.Core.Bool.{false≢true}
use s14code.Graph.Cycle.{
  Outcome, cycle, clear, visit_new, visit_seen, out_of_fuel, children, parents, visit, visit_each,
  search_cycle,
}
use s14code.Graph.Cycle.Chains.{Chain, edge, IsCyclic, Chain-snoc}

abbrev Met : (String → List String → Outcome) → List String → Type 0
Met go ns = (n : String) × (seen : List String) × (contains n ns ≡ true) × (go n seen ≡ cycle)

visit_each-step :
    (go : String → List String → Outcome) (n : String) (ns seen : List String) (o : Outcome)
    → go n seen ≡ o
    → visit_each go (n ∷ ns) seen ≡ cycle
    → ((seen' : List String) → visit_each go ns seen' ≡ cycle → Met go ns)
    → Met go (n ∷ ns)
visit_each-step go n ns seen cycle e h rest = (n, seen, ground (arith, eq_iff n n), e)
visit_each-step go n ns seen (clear seen') e h rest =
    let (m, s, k, c) = rest seen' (unfold visit_each in (rw (e, visit_each) at h)) in
    (m, s, ground arith, c)
visit_each-step go n ns seen out_of_fuel e h rest =
    unfold visit_each in cc (rw (e, visit_each) at h)

-- The visit among several that met the cycle.
visit_each-cycle :
    (go : String → List String → Outcome) (ns seen : List String)
    → visit_each go ns seen ≡ cycle
    → Met go ns
unfolding visit_each
visit_each-cycle go [] seen h = cc
visit_each-cycle go (n ∷ ns) seen h =
    visit_each-step go n ns seen (go n seen) refl h (visit_each-cycle go ns)

-- What is active leads to the node that is visited, and so does the node to its children.
chains_down :
    (es : List (String × String)) (active : List String) (n m : String)
    → contains m (children es n) ≡ true
    → ((a : String) → contains a active ≡ true → Chain es a n)
    → (a : String) → contains a (n ∷ active) ≡ true
    → Chain es a m
chains_down es active n m child up a h = elim (Bool-cases (a == n)) [
  | inl same ↦ subst (λ x. Chain es x m) (sym (eq→path a n same)) (edge child)
  | inr other ↦ Chain-snoc (up a (ground arith)) child
]

visit-cycle :
    (es : List (String × String)) (fuel : ℕ) (active : List String) (n : String)
    (seen : List String)
    → visit es fuel active n seen ≡ cycle
    → ((a : String) → contains a active ≡ true → Chain es a n)
    → IsCyclic es
visit-cycle es zero active n seen h up = unfold visit in cc
visit-cycle es (suc fuel) active n seen h up = elim (Bool-cases (contains n active)) [
  | inl met ↦ (n, up n met)
  | inr new ↦ elim (Bool-cases (contains n seen)) [
    | inl old ↦ cc (visit_seen es fuel active n seen new old)
    | inr fresh ↦
        let (m, seen', child, e) =
          visit_each-cycle (visit es fuel (n ∷ active)) (children es n) (n ∷ seen)
            (rw (visit_new es fuel active n seen new fresh) at h) in
        visit-cycle es fuel (n ∷ active) m seen' e (chains_down es active n m child up)
  ]
]

-- A cycle that the search reports is one.
pub search_cycle-IsCyclic : (es : List (String × String)) → search_cycle es ≡ cycle → IsCyclic es
unfolding search_cycle
search_cycle-IsCyclic es h =
    let (m, seen', _, e) = visit_each-cycle (visit es (suc (length es)) []) (parents es) [] h in
    visit-cycle es (suc (length es)) [] m seen' e (λ a k. absurd (false≢true k))
