-- ===== src/Graph/Executor/Recovery.antt =====
-- `_replay_pending_planner_events` of s13code/core/live_graph/core.py.
use s14code.Prelude.{
  String, ◌≡◌, refl, ap, ◌∙◌, sym, subst, Bool, true, false, not, ◌&&◌, List, [], ◌∷◌, arith,
  nat_eq, All, All-select, select, select-select, if◌then◌else◌, Bool-cases, inl, inr, ◌⊎◌,
}
use s14code.Graph.Model.{GraphPatch, Event, GraphDb, GraphSnapshot, ok}
use s14code.Graph.Store.{has_patch, snapshot, events_of, pending_planner_events, is_finished}
use s14code.Graph.Patch.{apply_patch}
use s14code.Graph.Patch.Shape.{>>=-ok, ok_inj, apply_patch-cases}
use s14code.Graph.Once.{Applied-pending}
use s14code.Graph.Executor.{plan, replay, replay_pending_planner_events}

-- A pending event has no patch.
pending-unpatched :
    (db : GraphDb) (run_id : String)
    → All (λ e. has_patch db run_id e.sequence ≡ false) (pending_planner_events db run_id)
unfolding pending_planner_events
pending-unpatched db run_id = All-select _ _ (events_of db run_id) (λ e h. ground arith)

select-head :
    (q : Event → Bool) (e : Event) (es : List Event) (b : Bool)
    → q e ≡ b
    → select q (e ∷ es) ≡ (if b then e ∷ select q es else select q es)
select-head q e es b h = rw h refl

-- One patch leaves, of the events that a replay has in hand, some of the later ones.
patch-pending :
    (db db' : GraphDb) (run_id : String) (patch : GraphPatch) (b : Bool) (e : Event)
    (es : List Event) (q : Event → Bool)
    → apply_patch db run_id patch e.sequence ≡ ok (b, db')
    → pending_planner_events db run_id ≡ select q (e ∷ es)
    → (q' : Event → Bool) × (pending_planner_events db' run_id ≡ select q' es)
patch-pending db db' run_id patch b e es q h p =
    elim (apply_patch-cases db run_id patch e.sequence b db' h) [
      | inr (_, a) ↦ (
        λ x. q x && not (nat_eq e.sequence x.sequence),
        Applied-pending db db' run_id patch e.sequence a
            ∙ ap (select (λ x. not (nat_eq e.sequence x.sequence))) p
            ∙ select-select (λ x. not (nat_eq e.sequence x.sequence)) q (e ∷ es)
            ∙ select-head (λ x. q x && not (nat_eq e.sequence x.sequence)) e es false
                (ground arith),
      )
      | inl (old, _, same) ↦ elim (Bool-cases (q e)) [
        | inl kept ↦
            let mine =
              subst (All (λ (x : Event). has_patch db run_id x.sequence ≡ false))
                (p ∙ select-head q e es true kept) (pending-unpatched db run_id) in
            cc (mine.0)
        | inr passed ↦ (
          q,
          ap (λ x. pending_planner_events x run_id) same ∙ p ∙ select-head q e es false passed,
        )
      ]
    ]

module _ (planner : GraphSnapshot → Event → GraphPatch) (run_id : String) where
  plan-pending :
      (db db' : GraphDb) (e : Event) (es : List Event) (q : Event → Bool)
      → plan planner run_id db e ≡ ok db'
      → pending_planner_events db run_id ≡ select q (e ∷ es)
      → (q' : Event → Bool) × (pending_planner_events db' run_id ≡ select q' es)
  unfolding plan
  plan-pending db db' e es q h p =
      let (graph, _, h1) = >>=-ok (snapshot db run_id) _ h in
      let (r, applied, h2) = >>=-ok (apply_patch db run_id (planner graph e) e.sequence) _ h1 in
      let (q', k) = patch-pending db r.1 run_id (planner graph e) r.0 e es q applied p in
      (q', ap (λ x. pending_planner_events x run_id) (sym (ok_inj h2)) ∙ k)

  replay-answers :
      (es : List Event) (db db' : GraphDb) (q : Event → Bool)
      → replay planner run_id es db ≡ ok db'
      → pending_planner_events db run_id ≡ select q es
      → (is_finished db' run_id ≡ true) ⊎ (pending_planner_events db' run_id ≡ [])
  unfolding replay
  replay-answers [] db db' q h p =
      inr (ap (λ x. pending_planner_events x run_id) (sym (ok_inj h)) ∙ p)
  replay-answers (e ∷ es) db db' q h p = elim (Bool-cases (is_finished db run_id)) [
    | inl ended ↦ inl (ap (λ x. is_finished x run_id) (sym (ok_inj (rw ended at h))) ∙ ended)
    | inr going ↦
        let (db1, planned, h1) = >>=-ok (plan planner run_id db e) _ (rw going at h) in
        let (q', k) = plan-pending db db1 e es q planned p in replay-answers es db1 db' q' h1 k
  ]

select_all : (es : List Event) → es ≡ select (λ _. true) es
select_all [] = refl
select_all (e ∷ es) = ap (λ xs. e ∷ xs) (select_all es)

-- A replay that returns leaves the run finished or no planner event without a patch, whatever
-- the planner is.
pub replay_pending-answers :
    (planner : GraphSnapshot → Event → GraphPatch) (run_id : String) (db db' : GraphDb)
    → replay_pending_planner_events planner run_id db ≡ ok db'
    → (is_finished db' run_id ≡ true) ⊎ (pending_planner_events db' run_id ≡ [])
unfolding replay_pending_planner_events
replay_pending-answers planner run_id db db' h =
    replay-answers planner run_id (pending_planner_events db run_id) db db' (λ _. true) h
      (select_all (pending_planner_events db run_id))
