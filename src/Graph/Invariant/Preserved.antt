-- ===== src/Graph/Invariant/Preserved.antt =====
-- s13code/core/live_graph/store.py: well-formedness across the methods.
use s14code.Prelude.{
  ℕ, String, ◌≡◌, refl, sym, subst, some, List, arith, inl, inr, ◌==◌, ◌&&◌, map, select,
}
use s14code.Graph.Model.{pending, GraphPatch, GraphDb, empty_db, is_running, EdgeRow}
use mathlib.Core.Bool.{false≢true}
use s14code.Graph.Cycle.{parents}
use s14code.Graph.Cycle.Chains.{IsCyclic, Chain-parents}
use s14code.Graph.Store.{edges_of, is_claimed, outcome_state}
use s14code.Graph.Patch.{insert_tasks}
use s14code.Graph.Patch.Shape.{Applied, apply_patch-cases}
use s14code.Graph.Patch.Frame.{nodes-log_patch}
use s14code.Graph.Patch.States.{IsKeyed}
use s14code.Graph.Journal.{
  Extends, apply_patch-Extends, start-Extends, resume-Extends, mark_running-Extends,
  record_outcome-Extends, record_external_event-Extends,
}
use s14code.Graph.Patch.Settle.{IsKeyed-change_states}
use s14code.Graph.Patch.Checks.{check_patch-Checked, snapshot-Read, IsKeyed-insert_tasks}
use s14code.Graph.Invariant.{
  IsWellFormed, Step, starts, resumes, marks_running, records_outcome, records_external_event,
  applies_patch, Reach, empty, next,
}
use s14code.Graph.Invariant.Rows.{
  IsKeyed-update_where, start-nodes, resume-nodes, record_outcome-nodes, external-nodes,
  mark_running-keeps,
}
use s14code.Graph.Invariant.Edges.{Applied-acyclic}

-- Where the edges and the keys are kept and the journal grew.
kept :
    (a b : GraphDb)
    → IsWellFormed a
    → IsKeyed b.nodes
    → b.edges ≡ a.edges
    → Extends a b
    → IsWellFormed b
kept a b w keyed e x = record {
  keyed = keyed;
  acyclic = λ run c. w.acyclic run (
      subst
        (λ (es : List EdgeRow).
          IsCyclic (map (λ r. (r.parent_id, r.child_id)) (select (λ r. r.run_id == run) es)))
        e c);
  journal = x.rising w.journal;
}

Applied-IsWellFormed :
    (db db' : GraphDb) (run_id : String) (patch : GraphPatch) (trigger : ℕ)
    → IsWellFormed db
    → Extends db db'
    → Applied db run_id patch trigger db'
    → IsWellFormed db'
Applied-IsWellFormed db db' run_id patch trigger w x a =
    let read = snapshot-Read db run_id a.existing a.is_read in
    let checked = check_patch-Checked a.existing patch a.checked in
    let keyed = IsKeyed-insert_tasks db run_id patch a.existing read checked w.keyed in
    record {
      keyed =
          subst (λ (y : GraphDb). IsKeyed y.nodes) (sym a.final)
            (subst IsKeyed (sym (nodes-log_patch run_id patch trigger _))
              (IsKeyed-change_states run_id patch a.existing (insert_tasks run_id patch db) keyed));
      acyclic = Applied-acyclic db db' run_id patch trigger a w.acyclic;
      journal = x.rising w.journal;
    }

-- A step of any method takes a well-formed database to a well-formed one.
pub Step-IsWellFormed : {a b : GraphDb} → Step a b → IsWellFormed a → IsWellFormed b
Step-IsWellFormed {a} (starts run_id context) w =
    let (nodes, edges) = start-nodes a run_id context in
    kept a _ w (subst IsKeyed (sym nodes) w.keyed) edges (start-Extends a run_id context)
Step-IsWellFormed {a} {b} (resumes run_id h) w =
    let (nodes, edges) = resume-nodes a b run_id h in
    let keyed =
      IsKeyed-update_where (λ n. n.run_id == run_id && is_running n.state)
        (λ n. record n { state = pending }) a.nodes (λ n. (refl, refl)) w.keyed in
    kept a b w (subst IsKeyed (sym nodes) keyed) edges (resume-Extends a b run_id h)
Step-IsWellFormed {a} {b} (marks_running run_id ts h) w =
    let (keyed, edges) = mark_running-keeps ts a b run_id h in
    kept a b w (keyed w.keyed) edges (mark_running-Extends ts a b run_id h)
Step-IsWellFormed {a} {b} (records_outcome run_id node_id success payload e h) w =
    let (nodes, edges) = record_outcome-nodes a b run_id node_id success payload e h in
    let keyed =
      IsKeyed-update_where (is_claimed run_id node_id)
        (λ n. record n { state = outcome_state success; result = some payload }) a.nodes
        (λ n. (refl, refl)) w.keyed in
    kept a b w (subst IsKeyed (sym nodes) keyed) edges
      (record_outcome-Extends a b run_id node_id success payload e h)
Step-IsWellFormed {a} {b} (records_external_event run_id kind node_id payload e h) w =
    let (nodes, edges) = external-nodes a b run_id kind node_id payload e h in
    kept a b w (subst IsKeyed (sym nodes) w.keyed) edges
      (record_external_event-Extends a b run_id kind node_id payload e h)
Step-IsWellFormed {a} {b} (applies_patch run_id patch trigger t h) w =
    elim (apply_patch-cases a run_id patch trigger t b h) [
      | inl (_, _, same) ↦ subst IsWellFormed (sym same) w
      | inr (_, applied) ↦
          Applied-IsWellFormed a b run_id patch trigger w
            (apply_patch-Extends a b run_id patch trigger t h) applied
    ]

no_edges : (run : String) → ¬ IsCyclic (edges_of empty_db run)
unfolding parents
no_edges run (x, c) = false≢true (Chain-parents c)

-- Whatever methods of the store are called from an empty database, in whatever order, no run has
-- a dependency cycle, no two tasks of a run have the same id, and the sequence numbers of the
-- journal rise.
pub Reach-IsWellFormed : {db : GraphDb} → Reach db → IsWellFormed db
Reach-IsWellFormed empty = record { keyed = tt; acyclic = no_edges; journal = omega arith }
Reach-IsWellFormed (next r s) = Step-IsWellFormed s (Reach-IsWellFormed r)
