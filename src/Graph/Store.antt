-- ===== src/Graph/Store.antt =====
-- The methods of `GraphStore` in s13code/core/live_graph/store.py but `apply_patch`. A method
-- takes the database and returns its result with the new database; on an exception the
-- transaction rolls back, so the caller keeps the old one. A run's rows are the rows with its id.
use s14code.Prelude.{
  ℕ, ◌+◌, String, Bool, true, false, not, ◌&&◌, ◌||◌, Option, none, some, List, [], ◌∷◌, ◌++◌, map,
  ◌==◌, nat_eq, if◌then◌else◌, select, any, take, update_where, first,
}
use s14code.Json.{Dict, empty, entry, str, get, get_or}
use s14code.Sorting.{sort_by}
use s14code.Graph.Model.{
  NodeState, pending, running, succeeded, failed, is_pending, is_running, is_succeeded, TaskSpec,
  Event, NodeRow, GraphDb, GraphSnapshot, unknown_run, unknown_node, not_running, foreign_key,
  Result, ok, raise, ◌>>◌, guard,
}

-- WHERE run_id=? and WHERE run_id=? AND id=?
abbrev pub in_run : String → NodeRow → Bool
in_run run_id n = n.run_id == run_id

abbrev pub is_node : String → String → NodeRow → Bool
is_node run_id id n = n.run_id == run_id && n.id == id

abbrev pub nodes_of : GraphDb → String → List NodeRow
nodes_of db run_id = select (in_run run_id) db.nodes

abbrev pub edges_of : GraphDb → String → List (String × String)
edges_of db run_id =
    map (λ e. (e.parent_id, e.child_id)) (select (λ e. e.run_id == run_id) db.edges)

abbrev pub events_of : GraphDb → String → List Event
events_of db run_id = map (λ r. r.event) (select (λ r. r.run_id == run_id) db.events)

-- SELECT 1 FROM runs WHERE id=?
abbrev pub has_run : GraphDb → String → Bool
has_run db run_id = any (λ r. r.id == run_id) db.runs

-- SELECT 1 FROM patches WHERE run_id=? AND trigger_event=?
abbrev pub has_patch : GraphDb → String → ℕ → Bool
has_patch db run_id trigger =
    any (λ p. p.run_id == run_id && nat_eq p.trigger_event trigger) db.patches

-- `_event`: the new row takes the next sequence number.
unfoldable pub append_event : GraphDb → String → String → Option String → Dict → Event × GraphDb
append_event db run_id kind node_id payload =
    let e : Event = record {
      sequence = db.last_sequence + 1;
      kind = kind;
      node_id = node_id;
      payload = payload;
    } in
    (
      e,
      record db {
        events = db.events ++ record { run_id = run_id; event = e } ∷ [];
        last_sequence = db.last_sequence + 1;
      },
    )

-- INSERT OR IGNORE INTO runs, and the first event of a new run.
unfoldable pub start : GraphDb → String → Dict → Bool × GraphDb
unfolding append_event
start db run_id context = if has_run db run_id then (false, db) else (
  true,
  (append_event
      (record db {
        runs = db.runs ++ record { id = run_id; finished = false; context = context } ∷ [];
      })
      run_id "run_started" none empty).1,
)

unfoldable pub context : GraphDb → String → Result Dict
context db run_id = elim (first (λ r. r.id == run_id) db.runs) [
  | none ↦ raise unknown_run
  | some r ↦ ok r.context
]

-- UPDATE nodes SET state='pending' WHERE run_id=? AND state='running'
abbrev pub requeue : String → List NodeRow → List NodeRow
requeue run_id =
    update_where (λ n. n.run_id == run_id && is_running n.state) (λ n. record n { state = pending })

unfoldable pub resume : GraphDb → String → Result GraphDb
unfolding append_event
resume db run_id = do
  guard (has_run db run_id) unknown_run
  ok
      (append_event (record db { nodes = requeue run_id db.nodes }) run_id "run_resumed" none
        empty).1

abbrev pub last {ℓ} : {A : Type ℓ} → List A → Option A
last [] = none
last (x ∷ []) = some x
last (x ∷ y ∷ ys) = last (y ∷ ys)

-- `ORDER BY sequence DESC LIMIT 1`: the events stand in the order of their sequence numbers.
unfoldable pub latest_event : GraphDb → String → Option Event
latest_event db run_id = last (events_of db run_id)

abbrev pub by_id : List NodeRow → List NodeRow
by_id = sort_by (λ n. n.id)

-- The edges are ORDER BY parent_id, child_id: sorted by child, then stably by parent.
abbrev pub by_parent : List (String × String) → List (String × String)
by_parent es = sort_by (λ e. e.0) (sort_by (λ e. e.1) es)

unfoldable pub snapshot : GraphDb → String → Result GraphSnapshot
unfolding sort_by
snapshot db run_id = elim (first (λ r. r.id == run_id) db.runs) [
  | none ↦ raise unknown_run
  | some r ↦ ok (record {
    run_id = run_id;
    finished = r.finished;
    nodes = by_id (nodes_of db run_id);
    edges = by_parent (edges_of db run_id);
  })
]

-- NOT EXISTS (… p.id=e.parent_id … e.child_id=n.id AND p.state != 'succeeded')
abbrev pub is_blocked : List (String × String) → List NodeRow → String → Bool
is_blocked es ns id =
    any (λ e. e.1 == id && any (λ p. p.id == e.0 && not (is_succeeded p.state)) ns) es

abbrev pub task_of : NodeRow → TaskSpec
task_of n = record { id = n.id; skill = n.skill; input = n.input; metadata = n.metadata }

abbrev pub ready_rows : GraphDb → String → ℕ → List NodeRow
ready_rows db run_id limit = take limit (
    by_id (
      select
        (λ n. is_pending n.state && not (is_blocked (edges_of db run_id) (nodes_of db run_id) n.id))
        (nodes_of db run_id)))

unfoldable pub ready : GraphDb → String → ℕ → List TaskSpec
unfolding sort_by
ready db run_id limit = map task_of (ready_rows db run_id limit)

-- UPDATE nodes SET state=? WHERE run_id=? AND id=? (AND state='pending')
abbrev pub set_state : NodeState → String → String → List NodeRow → List NodeRow
set_state state run_id id = update_where (is_node run_id id) (λ n. record n { state = state })

abbrev pub claim : String → String → List NodeRow → List NodeRow
claim run_id id =
    update_where (λ n. is_node run_id id n && is_pending n.state)
      (λ n. record n { state = running })

-- {"skill": task.skill, "agent": task.metadata.get("agent", task.skill)}
abbrev pub started_payload : TaskSpec → Dict
started_payload t =
    entry "skill" (str t.skill) (entry "agent" (get_or t.metadata "agent" (str t.skill)) empty)

-- An event of a run that is not there breaks the foreign key of `events`.
unfoldable pub mark_running : GraphDb → String → List TaskSpec → Result GraphDb
unfolding append_event get
mark_running db run_id [] = ok db
mark_running db run_id (t ∷ ts) = do
  guard (has_run db run_id) foreign_key
  mark_running
      (append_event (record db { nodes = claim run_id t.id db.nodes }) run_id "task_started"
        (some t.id) (started_payload t)).1
      run_id ts

-- The rows that the UPDATE of `record_outcome` matches: `rowcount` is 1, since the key is unique.
abbrev pub is_claimed : String → String → NodeRow → Bool
is_claimed run_id id n = is_node run_id id n && is_running n.state

abbrev pub outcome_state : Bool → NodeState
outcome_state success = if success then succeeded else failed

abbrev pub outcome_kind : Bool → String
outcome_kind success = if success then "task_succeeded" else "task_failed"

unfoldable pub record_outcome : GraphDb → String → String → Bool → Dict → Result (Event × GraphDb)
unfolding append_event
record_outcome db run_id node_id success payload = do
  guard (any (is_claimed run_id node_id) db.nodes) (not_running node_id)
  ok (
      append_event
        (record db {
          nodes =
              update_where (is_claimed run_id node_id)
                (λ n. record n { state = outcome_state success; result = some payload }) db.nodes;
        })
        run_id (outcome_kind success) (some node_id) payload)

-- The kinds that a planner answers.
abbrev pub is_planner_kind : String → Bool
is_planner_kind kind = kind == "run_started" || kind == "task_succeeded" || kind == "task_failed"

unfoldable pub pending_planner_events : GraphDb → String → List Event
pending_planner_events db run_id =
    select (λ e. is_planner_kind e.kind && not (has_patch db run_id e.sequence))
      (events_of db run_id)

unfoldable pub is_finished : GraphDb → String → Bool
is_finished db run_id = elim (first (λ r. r.id == run_id) db.runs) [
  | none ↦ false
  | some r ↦ r.finished
]

unfoldable pub node_state : GraphDb → String → String → Result NodeState
node_state db run_id node_id = elim (first (is_node run_id node_id) db.nodes) [
  | none ↦ raise (unknown_node node_id)
  | some n ↦ ok n.state
]

unfoldable pub record_external_event :
    GraphDb → String → String → String → Dict → Result (Event × GraphDb)
unfolding append_event
record_external_event db run_id kind node_id payload = do
  guard (has_run db run_id) unknown_run
  ok (append_event db run_id kind (some node_id) payload)
