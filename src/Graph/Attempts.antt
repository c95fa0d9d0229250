-- ===== src/Graph/Attempts.antt =====
-- `resume` and `record_outcome` of s13code/core/live_graph/store.py: the states of the tasks.
use s14code.Prelude.{
  String, ◌≡◌, ◌≢◌, ◌⊎◌, any, sym, refl, ap, ◌∙◌, Bool, true, false, ◌&&◌, Option, none, some, List,
  [], ◌∷◌, arith, ◌==◌, eq_iff, if◌then◌else◌, update_where, first, first-update_where, ap₂, subst,
  eq→path, &&-true, Bool-cases, inl, inr,
}
use s14code.Json.{Dict}
use s14code.Graph.Model.{
  NodeState, pending, running, succeeded, failed, cancelled, waiting, is_running, Event, NodeRow,
  GraphDb, ok, raise, not_running,
}
use s14code.Graph.Store.{
  is_node, requeue, is_claimed, outcome_state, outcome_kind, append_event, resume, record_outcome,
}
use s14code.Graph.Patch.States.{state_of, IsKeyed}
use s14code.Graph.Invariant.Rows.{resume-nodes, record_outcome-nodes}

-- A task that was running is pending again.
abbrev pub requeued : Option NodeState → Option NodeState
requeued none = none
requeued (some s) = some (if is_running s then pending else s)

state_of-requeue :
    (rows : List NodeRow) (run_id id : String)
    → state_of (requeue run_id rows) run_id id ≡ requeued (state_of rows run_id id)
state_of-requeue [] run_id id = refl
state_of-requeue (row ∷ rows) run_id id =
    ground (arith, state_of-requeue rows run_id id, eq_iff row.run_id run_id)

-- Where `resume` returns, each task of the run that was running is pending, and every other one
-- keeps its state.
pub resume-requeued :
    (db db' : GraphDb) (run_id id : String)
    → resume db run_id ≡ ok db'
    → state_of db'.nodes run_id id ≡ requeued (state_of db.nodes run_id id)
resume-requeued db db' run_id id h =
    ap (λ ns. state_of ns run_id id) (resume-nodes db db' run_id h).0
    ∙ state_of-requeue db.nodes run_id id

-- The attempt that is recorded ends; no other task changes.
abbrev ended : Bool → Bool → Option NodeState → Option NodeState
ended mine success none = none
ended mine success (some s) = some (if mine && is_running s then outcome_state success else s)

claimed-running :
    (row : NodeRow) (run_id node_id id : String)
    → is_node run_id id row ≡ true
    → is_claimed run_id node_id row ≡ (id == node_id && is_running row.state)
claimed-running row run_id node_id id here =
    let (same_run, same_id) = &&-true (row.run_id == run_id) (row.id == id) here in
    ap₂ (λ a b. a && (b == node_id) && is_running row.state) same_run (eq→path row.id id same_id)

first-is_node :
    (rows : List NodeRow) (run_id id : String) (n : NodeRow)
    → first (is_node run_id id) rows ≡ some n
    → is_node run_id id n ≡ true
first-is_node [] run_id id n h = cc
first-is_node (row ∷ rows) run_id id n h = elim (Bool-cases (is_node run_id id row)) [
  | inl here ↦ subst (λ m. is_node run_id id m ≡ true) (some_row (rw here at h)) here
  | inr there ↦ first-is_node rows run_id id n (rw there at h)
]
  where
    some_row : {a c : NodeRow} → some a ≡ some c → a ≡ c
    some_row k = ground (arith)

module _ (success : Bool) (payload : Dict) where
  abbrev with_outcome : NodeRow → NodeRow
  with_outcome n = record n { state = outcome_state success; result = some payload }

  state_if :
      (n : NodeRow) (b : Bool)
      → (if b then with_outcome n else n).state ≡ (if b then outcome_state success else n.state)
  state_if n true = refl
  state_if n false = refl

  abbrev column : Option NodeRow → Option NodeState
  column o = elim o [ none ↦ none | some n ↦ some n.state ]

  abbrev recorded : String → String → Option NodeRow → Option NodeRow
  recorded run_id node_id o = elim o [
    | none ↦ none
    | some n ↦ some (if is_claimed run_id node_id n then with_outcome n else n)
  ]

  found-ended :
      (o : Option NodeRow) (run_id node_id id : String)
      → ((n : NodeRow) → o ≡ some n → is_node run_id id n ≡ true)
      → column (recorded run_id node_id o) ≡ ended (id == node_id) success (column o)
  found-ended none run_id node_id id here = refl
  found-ended (some n) run_id node_id id here =
      ap some (state_if n (is_claimed run_id node_id n))
      ∙ ap (λ b. some (if b then outcome_state success else n.state))
          (claimed-running n run_id node_id id (here n refl))

  state_of-claimed :
      (rows : List NodeRow) (run_id node_id id : String)
      → state_of (update_where (is_claimed run_id node_id) with_outcome rows) run_id id
        ≡ ended (id == node_id) success (state_of rows run_id id)
  state_of-claimed rows run_id node_id id =
      ap column (
        first-update_where (is_node run_id id) (is_claimed run_id node_id) with_outcome rows
          (λ n. refl))
      ∙ found-ended (first (is_node run_id id) rows) run_id node_id id
          (first-is_node rows run_id id)

record_outcome-ended :
    (db db' : GraphDb) (run_id node_id : String) (success : Bool) (payload : Dict) (e : Event)
    (id : String)
    → record_outcome db run_id node_id success payload ≡ ok (e, db')
    → state_of db'.nodes run_id id ≡ ended (id == node_id) success (state_of db.nodes run_id id)
record_outcome-ended db db' run_id node_id success payload e id h =
    ap (λ ns. state_of ns run_id id)
      (record_outcome-nodes db db' run_id node_id success payload e h).0
    ∙ state_of-claimed success payload db.nodes run_id node_id id

abbrev running_in : Option NodeState → Bool
running_in none = false
running_in (some s) = is_running s

claimed_absent :
    (rows : List NodeRow) (run_id id : String)
    → any (is_node run_id id) rows ≡ false
    → any (is_claimed run_id id) rows ≡ false
claimed_absent [] run_id id h = refl
claimed_absent (row ∷ rows) run_id id h = ground (arith, h, claimed_absent rows run_id id)

any-claimed :
    (rows : List NodeRow) (run_id id : String)
    → IsKeyed rows
    → any (is_claimed run_id id) rows ≡ running_in (state_of rows run_id id)
any-claimed [] run_id id k = refl
any-claimed (row ∷ rows) run_id id k = ground (
  arith,
  any-claimed rows run_id id k.1,
  claimed_absent rows run_id id,
  k.0,
  eq_iff row.run_id run_id,
  eq_iff row.id id,
)

running_in-some : (o : Option NodeState) → running_in o ≡ true → o ≡ some running
running_in-some none h = ground (arith, h)
running_in-some (some pending) h = ground (arith, h)
running_in-some (some running) h = refl
running_in-some (some succeeded) h = ground (arith, h)
running_in-some (some failed) h = ground (arith, h)
running_in-some (some cancelled) h = ground (arith, h)
running_in-some (some waiting) h = ground (arith, h)

ended-own :
    (mine success : Bool) (o : Option NodeState)
    → (mine ≡ true → o ≡ some running)
    → ended mine success o ≡ (if mine then some (outcome_state success) else o)
ended-own true success o was = ap (ended true success) (was refl)
ended-own false success none was = refl
ended-own false success (some s) was = refl

-- In a database where no two tasks of a run have the same id, either the task is running, and
-- `record_outcome` returns a database where it has succeeded or failed and every other task of
-- the run has the state that it had, or the task is not running, and `record_outcome` raises
-- that it is not.
pub record_outcome-recorded :
    (db : GraphDb) (run_id node_id : String) (success : Bool) (payload : Dict)
    → IsKeyed db.nodes
    → ((state_of db.nodes run_id node_id ≡ some running)
        × (after : Event × GraphDb) × (record_outcome db run_id node_id success payload ≡ ok after)
        × ((id : String)
            → state_of after.1.nodes run_id id ≡ (
                if id == node_id
                then some (outcome_state success)
                else state_of db.nodes run_id id)))
      ⊎ ((state_of db.nodes run_id node_id ≢ some running)
          × (record_outcome db run_id node_id success payload ≡ raise (not_running node_id)))
unfolding record_outcome
record_outcome-recorded db run_id node_id success payload keyed =
    let found = any-claimed db.nodes run_id node_id keyed in
    elim (Bool-cases (any (is_claimed run_id node_id) db.nodes)) [
      | inl claimed ↦
          let was = running_in-some (state_of db.nodes run_id node_id) (sym found ∙ claimed) in
          let after =
            append_event
              (record db {
                nodes =
                    update_where (is_claimed run_id node_id)
                      (λ n. record n { state = outcome_state success; result = some payload })
                      db.nodes;
              })
              run_id (outcome_kind success) (some node_id) payload in
          let returned : record_outcome db run_id node_id success payload ≡ ok after =
            rw claimed refl in
          inl (
            was,
            after,
            returned,
            λ id.
                record_outcome-ended db after.1 run_id node_id success payload after.0 id returned
                ∙ ended-own (id == node_id) success (state_of db.nodes run_id id)
                    (λ h. ap (λ i. state_of db.nodes run_id i) (eq→path id node_id h) ∙ was),
          )
      | inr idle ↦ inr (λ was. cc (ap running_in was, found, idle), rw idle refl)
    ]
