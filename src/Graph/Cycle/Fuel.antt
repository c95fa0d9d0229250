-- ===== src/Graph/Cycle/Fuel.antt =====
-- The fuel of the search of `_has_cycle`, s13code/core/live_graph/store.py.
use mathlib.Core.Bool.{false≢true}
use s14code.Prelude.{
  ℕ, zero, suc, ◌≤◌, ◌<◌, String, ◌≡◌, ◌≢◌, ◌↔◌, refl, true, false, List, [], ◌∷◌, arith, ◌==◌,
  eq_iff, contains, Bool-cases, inl, inr, ◌⊎◌, if◌then◌else◌, length, ap,
}
use s14code.Graph.Cycle.{
  Outcome, cycle, clear, out_of_fuel, children, parents, visit, visit_each, search_cycle, has_cycle,
  visit_new, visit_seen, visit_active, visit_each-clear, is_cycle,
}
use s14code.Graph.Cycle.Chains.{IsCyclic, contains-parents}
use s14code.Graph.Cycle.Found.{search_cycle-IsCyclic}
use s14code.Graph.Cycle.Absent.{search_cycle-acyclic}

-- How many of the rows have a parent that is not yet seen.
unseen : List String → List String → ℕ
unseen [] seen = 0
unseen (p ∷ ps) seen = if contains p seen then unseen ps seen else suc (unseen ps seen)

unseen-le-length : (ps seen : List String) → unseen ps seen ≤ length ps
unfolding unseen
unseen-le-length [] seen = omega arith
unseen-le-length (p ∷ ps) seen = ground (arith, unseen-le-length ps seen)

abbrev Within : List String → List String → Type 0
Within xs ys = (x : String) → contains x xs ≡ true → contains x ys ≡ true

unseen_mono : (ps seen more : List String) → Within seen more → unseen ps more ≤ unseen ps seen
unfolding unseen
unseen_mono [] seen more w = omega arith
unseen_mono (p ∷ ps) seen more w = ground (arith, w p, unseen_mono ps seen more w)

unseen-lt :
    (ps seen : List String) (n : String)
    → contains n ps ≡ true
    → contains n seen ≡ false
    → unseen ps (n ∷ seen) < unseen ps seen
unfolding unseen
unseen-lt [] seen n h k = absurd (false≢true h)
unseen-lt (p ∷ ps) seen n h k = elim (Bool-cases (n == p)) [
  | inl same ↦
      ground (arith, eq_iff n p, eq_iff p n, unseen_mono ps seen (n ∷ seen) (λ x m. ground arith))
  | inr other ↦ ground (arith, eq_iff n p, eq_iff p n, unseen-lt ps seen n)
]

module _ (es : List (String × String)) where
  Grows : (String → List String → Outcome) → Type 0
  Grows go = (n : String) (seen seen' : List String) → go n seen ≡ clear seen' → Within seen seen'

  clear-Within : (seen seen' : List String) → clear seen ≡ clear seen' → Within seen seen'
  clear-Within seen seen' h x k = ground arith

  visit_each-Grows :
      (go : String → List String → Outcome)
      → Grows go
      → (ns seen seen' : List String) → visit_each go ns seen ≡ clear seen'
      → Within seen seen'
  unfolding Grows
  visit_each-Grows go g [] seen seen' h x k = clear-Within seen seen' (unfold visit_each in h) x k
  visit_each-Grows go g (n ∷ ns) seen seen' h x k =
      let (mid, e, r) = visit_each-clear go n ns seen seen' h in
      visit_each-Grows go g ns mid seen' r x (g n seen mid e x k)

  visit-Grows : (fuel : ℕ) (active : List String) → Grows (visit es fuel active)
  unfolding Grows
  visit-Grows zero active n seen seen' h x k = unfold visit in cc
  visit-Grows (suc fuel) active n seen seen' h x k = elim (Bool-cases (contains n active)) [
    | inl met ↦ cc (visit_active es fuel active n seen met)
    | inr new ↦ elim (Bool-cases (contains n seen)) [
      | inl old ↦ clear-Within seen seen' (rw (visit_seen es fuel active n seen new old) at h) x k
      | inr fresh ↦
          visit_each-Grows (visit es fuel (n ∷ active)) (visit-Grows fuel (n ∷ active))
            (children es n) (n ∷ seen) seen' (rw (visit_new es fuel active n seen new fresh) at h) x
            (ground arith)
    ]
  ]

  -- With this much fuel a visit has an answer.
  Answers : ℕ → (String → List String → Outcome) → Type 0
  Answers fuel go =
      (n : String) (seen : List String) → unseen (parents es) seen < fuel → go n seen ≢ out_of_fuel

  visit_each-step :
      (go : String → List String → Outcome) (n : String) (ns seen : List String) (o : Outcome)
      → go n seen ≡ o
      → o ≢ out_of_fuel
      → ((mid : List String) → go n seen ≡ clear mid → visit_each go ns mid ≢ out_of_fuel)
      → visit_each go (n ∷ ns) seen ≢ out_of_fuel
  unfolding visit_each
  visit_each-step go n ns seen cycle e k rest h = cc (rw (e, visit_each) at h)
  visit_each-step go n ns seen (clear mid) e k rest h = rest mid e (rw (e, visit_each) at h)
  visit_each-step go n ns seen out_of_fuel e k rest h = k refl

  visit_each-Answers :
      (fuel : ℕ) (go : String → List String → Outcome)
      → Grows go
      → Answers fuel go
      → (ns seen : List String) → unseen (parents es) seen < fuel
      → visit_each go ns seen ≢ out_of_fuel
  unfolding Grows Answers
  visit_each-Answers fuel go g a [] seen h e = unfold visit_each in cc
  visit_each-Answers fuel go g a (n ∷ ns) seen h e =
      visit_each-step go n ns seen (go n seen) refl (a n seen h)
        (λ mid k.
          visit_each-Answers fuel go g a ns mid
            (omega (arith, unseen_mono (parents es) seen mid (g n seen mid k))))
        e

  -- A node with no child needs no fuel below it; any other is a parent that becomes seen.
  visit-children :
      (fuel : ℕ) (n : String) (seen cs : List String)
      → children es n ≡ cs
      → contains n seen ≡ false
      → unseen (parents es) seen < suc fuel
      → (cs ≡ []) ⊎ (unseen (parents es) (n ∷ seen) < fuel)
  visit-children fuel n seen [] e k h = inl refl
  visit-children fuel n seen (c ∷ cs) e k h = inr (
      omega (
        arith,
        unseen-lt (parents es) seen n (contains-parents es n c (rw e (ground (arith, eq_iff c c))))
            k,
      ))

  visit-Answers : (fuel : ℕ) (active : List String) → Answers fuel (visit es fuel active)
  unfolding Answers
  visit-Answers zero active n seen h e = absurd (omega arith)
  visit-Answers (suc fuel) active n seen h e = elim (Bool-cases (contains n active)) [
    | inl met ↦ cc (visit_active es fuel active n seen met)
    | inr new ↦ elim (Bool-cases (contains n seen)) [
      | inl old ↦ cc (visit_seen es fuel active n seen new old)
      | inr fresh ↦ elim (visit-children fuel n seen (children es n) refl fresh h) [
        | inl leaf ↦
            unfold visit_each in cc (rw (visit_new es fuel active n seen new fresh, leaf) at e)
        | inr room ↦
            visit_each-Answers fuel (visit es fuel (n ∷ active)) (visit-Grows fuel (n ∷ active))
              (visit-Answers fuel (n ∷ active)) (children es n) (n ∷ seen) room
              (rw (visit_new es fuel active n seen new fresh) at e)
      ]
    ]
  ]

length-parents : (es : List (String × String)) → length (parents es) ≡ length es
unfolding parents
length-parents [] = refl
length-parents ((p, c) ∷ es) = ap suc (length-parents es)

-- The fuel that the cycle search is given, one more than the number of edges, is enough for
-- every list of edges.
search_cycle-ne-out_of_fuel : (es : List (String × String)) → search_cycle es ≢ out_of_fuel
unfolding search_cycle
search_cycle-ne-out_of_fuel es =
    let fuel = suc (length es) in
    visit_each-Answers es fuel (visit es fuel []) (visit-Grows es fuel [])
      (visit-Answers es fuel []) (parents es) []
      (omega (arith, unseen-le-length (parents es) [], length-parents es))

outcome-decides :
    (es : List (String × String)) (o : Outcome)
    → search_cycle es ≡ o
    → (is_cycle o ≡ true) ↔ IsCyclic es
outcome-decides es cycle e = (λ _. search_cycle-IsCyclic es e, λ _. refl)
outcome-decides es (clear seen) e =
    (λ h. absurd (false≢true h), λ c. absurd (search_cycle-acyclic es seen e c))
outcome-decides es out_of_fuel e = absurd (search_cycle-ne-out_of_fuel es e)

-- `_has_cycle` answers true exactly where some node has a chain of edges back to itself.
pub has_cycle_iff : (es : List (String × String)) → (has_cycle es ≡ true) ↔ IsCyclic es
unfolding has_cycle
has_cycle_iff es = outcome-decides es (search_cycle es) refl
