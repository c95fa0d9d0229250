-- ===== src/Graph/Cycle/Absent.antt =====
-- `_has_cycle` of s13code/core/live_graph/store.py: a search that ends with no report. The nodes
-- whose visit has ended, the latest first, stand behind all of their children.
use mathlib.Core.Bool.{false≢true}
use s14code.Prelude.{
  ℕ, zero, suc, String, ◌≡◌, true, false, ◌||◌, List, [], ◌∷◌, arith, ◌==◌, eq_iff, eq→path,
  contains, Bool-cases, inl, inr, subst, sym, length,
}
use s14code.Graph.Cycle.{
  Outcome, clear, children, parents, visit, visit_each, search_cycle, visit_new, visit_seen,
  visit_active, visit_each-clear,
}
use s14code.Graph.Cycle.Chains.{Chain, edge, step, IsCyclic, Chain-parents}

clear_inj : {a b : List String} → clear a ≡ clear b → a ≡ b
clear_inj h = ground arith

module _ (es : List (String × String)) where
  -- Each ended node has its children among those that ended before it.
  abbrev IsSettled : List String → Type 0
  IsSettled [] = Unit
  IsSettled (x ∷ done) =
      ((c : String) → contains c (children es x) ≡ true → contains c done ≡ true) × IsSettled done

  IsSettled-child :
      (done : List String) (a b : String)
      → IsSettled done
      → contains a done ≡ true
      → contains b (children es a) ≡ true
      → contains b done ≡ true
  IsSettled-child [] a b s h k = h
  IsSettled-child (x ∷ done) a b s h k = elim (Bool-cases (a == x)) [
    | inl same ↦
        ground (arith, s.0 b (subst (λ y. contains b (children es y) ≡ true) (eq→path a x same) k))
    | inr other ↦ ground (arith, IsSettled-child done a b s.1 (ground arith) k)
  ]

  IsSettled-chain :
      (done : List String) {a b : String}
      → Chain es a b
      → IsSettled done
      → contains a done ≡ true
      → contains b done ≡ true
  IsSettled-chain done {a} {b} (edge h) s k = IsSettled-child done a b s k h
  IsSettled-chain done {a} (step {b = m} h r) s k =
      IsSettled-chain done r s (IsSettled-child done a m s k h)

  -- A chain from the latest node leads into the others.
  IsSettled-below :
      (x : String) (done : List String) {a b : String}
      → Chain es a b
      → a ≡ x
      → IsSettled (x ∷ done)
      → contains b done ≡ true
  IsSettled-below x done {a} {b} (edge h) e s = s.0 b (rw e at h)
  IsSettled-below x done {a} (step {b = m} h r) e s = IsSettled-chain done r s.1 (s.0 m (rw e at h))

  IsSettled-acyclic :
      (done : List String) (x : String) → IsSettled done → contains x done ≡ true → ¬ Chain es x x
  IsSettled-acyclic [] x s h r = false≢true h
  IsSettled-acyclic (y ∷ done) x s h r = elim (Bool-cases (x == y)) [
    | inl same ↦ IsSettled-acyclic done x s.1 (IsSettled-below y done r (eq→path x y same) s) r
    | inr other ↦ IsSettled-acyclic done x s.1 (ground arith) r
  ]

  -- What is seen has ended or is active.
  abbrev Covers : List String → List String → List String → Type 0
  Covers seen done active =
      (x : String) → contains x seen ≡ true → (contains x done || contains x active) ≡ true

  -- What a visit that ends gives: more nodes have ended.
  record Advance (active done seen : List String) : Type 0 where
    ended : List String
    settled : IsSettled ended
    grows : (x : String) → contains x done ≡ true → contains x ended ≡ true
    covers : Covers seen ended active

  Visits : List String → (String → List String → Outcome) → Type 0
  Visits active go =
      (n : String) (seen seen' done : List String)
      → go n seen ≡ clear seen'
      → IsSettled done
      → Covers seen done active
      → (a : Advance active done seen') × (contains n a.ended ≡ true)

  visit_each-settles :
      (active : List String) (go : String → List String → Outcome)
      → Visits active go
      → (ns seen seen' done : List String) → visit_each go ns seen ≡ clear seen'
      → IsSettled done
      → Covers seen done active
      → (a : Advance active done seen') × ((n : String)
          → contains n ns ≡ true
          → contains n a.ended ≡ true)
  unfolding visit_each Visits
  visit_each-settles active go each [] seen seen' done h s c = (
    record {
      ended = done;
      settled = s;
      grows = λ x k. k;
      covers = subst (λ l. Covers l done active) (clear_inj h) c;
    },
    λ n k. absurd (false≢true k),
  )
  visit_each-settles active go each (n ∷ ns) seen seen' done h s c =
      let (mid, e, k) = visit_each-clear go n ns seen seen' h in
      let (a, first) = each n seen mid done e s c in
      let (b, others) =
        visit_each-settles active go each ns mid seen' a.ended k a.settled a.covers in
      (
        record {
          ended = b.ended;
          settled = b.settled;
          grows = λ x m. b.grows x (a.grows x m);
          covers = b.covers;
        },
        λ m t. elim (Bool-cases (m == n)) [
          | inl same ↦
              b.grows m (subst (λ x. contains x a.ended ≡ true) (sym (eq→path m n same)) first)
          | inr other ↦ others m (ground arith)
        ],
      )

  -- A node that was seen and is not active has ended.
  settles-seen :
      (active : List String) (n : String) (seen seen' done : List String)
      → seen ≡ seen'
      → IsSettled done
      → Covers seen done active
      → contains n active ≡ false
      → contains n seen ≡ true
      → (a : Advance active done seen') × (contains n a.ended ≡ true)
  settles-seen active n seen seen' done e s c new old = (
    record {
      ended = done;
      settled = s;
      grows = λ x k. k;
      covers = subst (λ l. Covers l done active) e c;
    },
    ground (arith, c n old),
  )

  -- A node whose children have ended ends last.
  settles-new :
      (active : List String) (n : String) (seen' done : List String)
      (a : Advance (n ∷ active) done seen')
      → ((m : String) → contains m (children es n) ≡ true → contains m a.ended ≡ true)
      → (b : Advance active done seen') × (contains n b.ended ≡ true)
  settles-new active n seen' done a all = (
    record {
      ended = n ∷ a.ended;
      settled = (all, a.settled);
      grows = λ x k. ground (arith, a.grows x k);
      covers = λ x k. ground (arith, a.covers x k);
    },
    ground (arith, eq_iff n n),
  )

  visit-settles : (fuel : ℕ) (active : List String) → Visits active (visit es fuel active)
  unfolding Visits
  visit-settles zero active n seen seen' done h s c = unfold visit in cc
  visit-settles (suc fuel) active n seen seen' done h s c = elim (Bool-cases (contains n active)) [
    | inl met ↦ cc (visit_active es fuel active n seen met)
    | inr new ↦ elim (Bool-cases (contains n seen)) [
      | inl old ↦
          settles-seen active n seen seen' done
            (clear_inj (rw (visit_seen es fuel active n seen new old) at h)) s c new old
      | inr fresh ↦
          let (a, all) =
            visit_each-settles (n ∷ active) (visit es fuel (n ∷ active))
              (visit-settles fuel (n ∷ active)) (children es n) (n ∷ seen) seen' done
              (rw (visit_new es fuel active n seen new fresh) at h) s
              (λ x k. ground (arith, c x)) in
          settles-new active n seen' done a all
    ]
  ]

-- With no report, the edges have no cycle.
pub search_cycle-acyclic :
    (es : List (String × String)) (seen : List String)
    → search_cycle es ≡ clear seen
    → ¬ IsCyclic es
unfolding search_cycle
search_cycle-acyclic es seen h (x, r) =
    let (a, all) =
      visit_each-settles es [] (visit es (suc (length es)) [])
        (visit-settles es (suc (length es)) []) (parents es) [] seen [] h tt (λ y k. k) in
    IsSettled-acyclic es a.ended x a.settled (all x (Chain-parents r)) r
