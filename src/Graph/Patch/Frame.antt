-- ===== src/Graph/Patch/Frame.antt =====
-- `apply_patch` of s13code/core/live_graph/store.py: what its stages leave alone.
use s14code.Prelude.{ℕ, String, ◌≡◌, refl, Bool, true, false, ◌∙◌, ap, List, [], ◌∷◌, if_both}
use s14code.Graph.Model.{GraphPatch, NodeRow, GraphDb, GraphSnapshot}
use s14code.Graph.Patch.{
  cancel_tasks, leftovers, cancel_leftovers, finish_run, mark_finished, move_tasks, change_states,
  log_patch,
}

-- The tables that a change of states does not touch.
pub record SameTables (a b : GraphDb) : Type 0 where
  pub edges : a.edges ≡ b.edges
  pub patches : a.patches ≡ b.patches

SameTables-cancel :
    (run_id reason : String) (rows : List NodeRow) (ids : List String) (db : GraphDb)
    → SameTables (cancel_tasks run_id reason rows ids db) db
unfolding cancel_tasks
SameTables-cancel run_id reason rows [] db = record { edges = refl; patches = refl }
SameTables-cancel run_id reason rows (n ∷ ns) db =
    let s = SameTables-cancel run_id reason rows ns _ in
    record { edges = s.edges; patches = s.patches }

SameTables-leftovers :
    (run_id : String) (ids : List (String × Bool)) (db : GraphDb)
    → SameTables (cancel_leftovers run_id ids db) db
unfolding cancel_leftovers
SameTables-leftovers run_id [] db = record { edges = refl; patches = refl }
SameTables-leftovers run_id ((n, r) ∷ ns) db =
    let s = SameTables-leftovers run_id ns _ in record { edges = s.edges; patches = s.patches }

runs-cancel_tasks :
    (run_id reason : String) (rows : List NodeRow) (ids : List String) (db : GraphDb)
    → (cancel_tasks run_id reason rows ids db).runs ≡ db.runs
unfolding cancel_tasks
runs-cancel_tasks run_id reason rows [] db = refl
runs-cancel_tasks run_id reason rows (n ∷ ns) db = runs-cancel_tasks run_id reason rows ns _

runs-cancel_leftovers :
    (run_id : String) (ids : List (String × Bool)) (db : GraphDb)
    → (cancel_leftovers run_id ids db).runs ≡ db.runs
unfolding cancel_leftovers
runs-cancel_leftovers run_id [] db = refl
runs-cancel_leftovers run_id ((n, r) ∷ ns) db = runs-cancel_leftovers run_id ns _

module _ (run_id : String) (patch : GraphPatch) (existing : GraphSnapshot) (db : GraphDb) where
  SameTables-move : SameTables (move_tasks run_id patch existing db) db
  unfolding move_tasks
  SameTables-move =
      let s = SameTables-cancel run_id patch.reason existing.nodes patch.cancel db in
      record { edges = s.edges; patches = s.patches }

  SameTables-finish :
      (moved : GraphDb) → SameTables moved db → SameTables (finish_run run_id moved) db
  unfolding finish_run
  SameTables-finish moved m =
      let s = SameTables-leftovers run_id (leftovers run_id moved.nodes) moved in
      record { edges = s.edges ∙ m.edges; patches = s.patches ∙ m.patches }

  pub SameTables-change : SameTables (change_states run_id patch existing db) db
  unfolding change_states
  SameTables-change =
      if_both (λ x. SameTables x db) patch.finish
        (SameTables-finish (move_tasks run_id patch existing db) SameTables-move) SameTables-move

  runs-move_tasks : (move_tasks run_id patch existing db).runs ≡ db.runs
  unfolding move_tasks
  runs-move_tasks = runs-cancel_tasks run_id patch.reason existing.nodes patch.cancel db

  runs-finish_run :
      (moved : GraphDb) → (finish_run run_id moved).runs ≡ mark_finished run_id moved.runs
  unfolding finish_run
  runs-finish_run moved =
      ap (mark_finished run_id) (runs-cancel_leftovers run_id (leftovers run_id moved.nodes) moved)

  pub change_states_finish :
      patch.finish ≡ true
      → change_states run_id patch existing db
        ≡ finish_run run_id (move_tasks run_id patch existing db)
  unfolding change_states
  change_states_finish e = rw e refl

  pub change_states_more :
      patch.finish ≡ false
      → change_states run_id patch existing db ≡ move_tasks run_id patch existing db
  unfolding change_states
  change_states_more e = rw e refl

  -- A patch marks its run where it finishes, and no other.
  pub runs-change_states_finish :
      patch.finish ≡ true
      → (change_states run_id patch existing db).runs ≡ mark_finished run_id db.runs
  runs-change_states_finish e = rw (change_states_finish e) (
      runs-finish_run (move_tasks run_id patch existing db)
      ∙ ap (mark_finished run_id) runs-move_tasks)

  pub runs-change_states_more :
      patch.finish ≡ false → (change_states run_id patch existing db).runs ≡ db.runs
  runs-change_states_more e = rw (change_states_more e) runs-move_tasks

module _ (run_id : String) (patch : GraphPatch) (trigger : ℕ) (db : GraphDb) where
  pub nodes-log_patch : (log_patch run_id patch trigger db).nodes ≡ db.nodes
  unfolding log_patch
  nodes-log_patch = refl

  pub edges-log_patch : (log_patch run_id patch trigger db).edges ≡ db.edges
  unfolding log_patch
  edges-log_patch = refl

  pub runs-log_patch : (log_patch run_id patch trigger db).runs ≡ db.runs
  unfolding log_patch
  runs-log_patch = refl
