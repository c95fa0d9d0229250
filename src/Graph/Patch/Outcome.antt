-- ===== src/Graph/Patch/Outcome.antt =====
-- `apply_patch` of s13code/core/live_graph/store.py: the tasks of a run whose patch was applied.
use s14code.Prelude.{
  ℕ, String, ◌≡◌, refl, ◌∙◌, ap, true, false, Option, none, some, map, arith, contains,
  if◌then◌else◌, sym,
}
use s14code.Graph.Model.{
  NodeState, pending, is_open, is_pending, is_waiting, GraphPatch, GraphDb, ok,
}
use s14code.Graph.Patch.{add_ids, new_row, insert_tasks, change_states, apply_patch}
use s14code.Graph.Patch.Shape.{Applied, apply_patch-Applied}
use s14code.Graph.Patch.Frame.{nodes-log_patch}
use s14code.Graph.Patch.States.{state_of, IsKeyed, settle, settle_option, open_in}
use s14code.Graph.Patch.Settle.{state_of-change_states}
use s14code.Graph.Patch.Keys.{state_of-append, state_of-new_row}
use s14code.Graph.Patch.Checks.{
  check_patch-Checked, snapshot-Read, IsKeyed-insert_tasks, state_in-existing, check_cancel-open,
  check_wait-pending, check_resume-waiting, pending_in, waiting_in,
}

-- The state of a task once the new tasks are in.
abbrev pub drawn_state : GraphPatch → String → Option NodeState → Option NodeState
drawn_state patch id none = if contains id (add_ids patch) then some pending else none
drawn_state patch id (some s) = some s

settle-closed :
    (patch : GraphPatch) (id : String) (s : NodeState)
    → is_open s ≡ false
    → (contains id patch.cancel ≡ true → is_open s ≡ true)
    → (contains id patch.wait ≡ true → is_pending s ≡ true)
    → (contains id patch.resume ≡ true → is_waiting s ≡ true)
    → settle patch id s ≡ s
settle-closed patch id s closed c w r = ground arith

settle-finish :
    (patch : GraphPatch) (id : String) (o : Option NodeState)
    → patch.finish ≡ true
    → open_in (settle_option patch id o) ≡ false
settle-finish patch id none h = refl
settle-finish patch id (some s) h = ground arith

module _ (db db' : GraphDb) (run_id : String) (patch : GraphPatch) (trigger : ℕ)
    (applied : apply_patch db run_id patch trigger ≡ ok (true, db'))
    (keyed : IsKeyed db.nodes) where
  abbrev step : Applied db run_id patch trigger db'
  step = apply_patch-Applied db run_id patch trigger db' applied

  state_of-insert_tasks :
      (id : String)
      → state_of (insert_tasks run_id patch db).nodes run_id id
        ≡ drawn_state patch id (state_of db.nodes run_id id)
  unfolding insert_tasks
  state_of-insert_tasks id = ground (
    arith,
    state_of-append run_id id db.nodes (map (new_row run_id) patch.add),
    state_of-new_row run_id id patch.add,
  )

  -- In a database where no two tasks of a run have the same id, the state of every task of the
  -- run after an applied patch is one function of the patch and of its state before: cancelled,
  -- then parked, then resumed, and cancelled by a finish where it is still open. A task that the
  -- patch adds counts as pending before.
  pub apply_patch-settle :
      (id : String)
      → state_of db'.nodes run_id id
        ≡ settle_option patch id (drawn_state patch id (state_of db.nodes run_id id))
  apply_patch-settle id =
      let read = snapshot-Read db run_id step.existing step.is_read in
      let checked = check_patch-Checked step.existing patch step.checked in
      let drawn = insert_tasks run_id patch db in
      ap (λ (x : GraphDb). state_of x.nodes run_id id) step.final
      ∙ ap (λ ns. state_of ns run_id id)
          (nodes-log_patch run_id patch trigger (change_states run_id patch step.existing drawn))
      ∙ state_of-change_states run_id patch step.existing drawn id
          (IsKeyed-insert_tasks db run_id patch step.existing read checked keyed)
      ∙ ap (settle_option patch id) (state_of-insert_tasks id)

  -- In a database where no two tasks of a run have the same id, an applied patch keeps the state
  -- of every task that has succeeded, failed or been cancelled.
  pub apply_patch-closed :
      (id : String) (s : NodeState)
      → state_of db.nodes run_id id ≡ some s
      → is_open s ≡ false
      → state_of db'.nodes run_id id ≡ some s
  apply_patch-closed id s h closed =
      let read = snapshot-Read db run_id step.existing step.is_read in
      let checked = check_patch-Checked step.existing patch step.checked in
      let shown = state_in-existing db run_id patch step.existing read checked id keyed ∙ h in
      let rows = step.existing.nodes in
      apply_patch-settle id
      ∙ ap (λ o. settle_option patch id (drawn_state patch id o)) h
      ∙ ap some (
          settle-closed patch id s closed
            (λ k.
              ap open_in (sym shown) ∙ check_cancel-open rows id patch.cancel checked.cancel_ok k)
            (λ k.
              ap pending_in (sym shown) ∙ check_wait-pending rows id patch.wait checked.wait_ok k)
            (λ k.
              ap waiting_in (sym shown)
              ∙ check_resume-waiting rows id patch.resume checked.resume_ok k))

  -- In a database where no two tasks of a run have the same id, after an applied patch that
  -- finishes, no task of the run is pending, waiting or running.
  pub apply_patch-finish :
      (id : String) → patch.finish ≡ true → open_in (state_of db'.nodes run_id id) ≡ false
  apply_patch-finish id ends =
      ap open_in (apply_patch-settle id)
      ∙ settle-finish patch id (drawn_state patch id (state_of db.nodes run_id id)) ends
