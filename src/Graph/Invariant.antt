-- ===== src/Graph/Invariant.antt =====
-- The methods of s13code/core/live_graph/store.py as steps, and what a well-formed database is.
pub mod Rows
pub mod Edges
pub mod Preserved
use s14code.Prelude.{
  ℕ, String, ◌≡◌, refl, sym, ap, ap₂, ◌∙◌, subst, Bool, true, false, Option, none, some, List, [],
  ◌∷◌, ◌++◌, arith, if◌then◌else◌, if_both, not, any, any-update_where, All, update_where,
  Bool-cases, inl, inr, ◌⊎◌, ◌==◌, ◌&&◌, map, select,
}
use s14code.Json.{Dict}
use s14code.Graph.Model.{
  NodeState, running, pending, TaskSpec, GraphPatch, Event, NodeRow, EventRow, GraphDb,
  GraphSnapshot, Result, ok, raise, guard, empty_db, ◌>>=◌, ◌>>◌, unknown_run, foreign_key,
  not_running, is_running, is_pending, EdgeRow,
}
use s14code.Graph.Cycle.{has_cycle}
use s14code.Graph.Cycle.Chains.{IsCyclic, Chain}
use s14code.Graph.Cycle.Fuel.{has_cycle_iff}
use s14code.Graph.Store.{
  append_event, has_run, is_node, edges_of, start, resume, mark_running, record_outcome,
  record_external_event, requeue, claim, is_claimed, outcome_state,
}
use s14code.Graph.Patch.{
  apply_patch, insert_tasks, change_states, log_patch, connect_tasks, is_edge,
}
use s14code.Graph.Patch.Shape.{Applied, apply_patch-cases, >>=-ok, ok_inj}
use s14code.Graph.Patch.Frame.{SameTables-change, nodes-log_patch, edges-log_patch}
use s14code.Graph.Patch.States.{IsKeyed}
use s14code.Graph.Journal.{
  IsJournal, Extends, apply_patch-Extends, start-Extends, resume-Extends, mark_running-Extends,
  record_outcome-Extends, record_external_event-Extends,
}

-- No dependency cycle in any run, the primary key of `nodes`, and a journal with rising numbers.
pub record IsWellFormed (db : GraphDb) : Type 0 where
  pub keyed : IsKeyed db.nodes
  pub acyclic : (run_id : String) → ¬ IsCyclic (edges_of db run_id)
  pub journal : IsJournal db

-- The methods of the store, as the steps of any number of callers.
pub data Step (db : GraphDb) : GraphDb → Type 0 where
  starts : (run_id : String) (context : Dict) → Step db (start db run_id context).1
  resumes : {db' : GraphDb} (run_id : String) → resume db run_id ≡ ok db' → Step db db'
  marks_running :
      {db' : GraphDb} (run_id : String) (ts : List TaskSpec)
      → mark_running db run_id ts ≡ ok db'
      → Step db db'
  records_outcome :
      {db' : GraphDb} (run_id node_id : String) (success : Bool) (payload : Dict) (e : Event)
      → record_outcome db run_id node_id success payload ≡ ok (e, db')
      → Step db db'
  records_external_event :
      {db' : GraphDb} (run_id kind node_id : String) (payload : Dict) (e : Event)
      → record_external_event db run_id kind node_id payload ≡ ok (e, db')
      → Step db db'
  applies_patch :
      {db' : GraphDb} (run_id : String) (patch : GraphPatch) (trigger : ℕ) (b : Bool)
      → apply_patch db run_id patch trigger ≡ ok (b, db')
      → Step db db'

pub data Reach : GraphDb → Type 0 where
  empty : Reach empty_db
  next : {a b : GraphDb} → Reach a → Step a b → Reach b
