-- ===== src/Graph/Patch.antt =====
-- `apply_patch` of s13code/core/live_graph/store.py. The checks come first, then the inserts, the
-- cycle test, and the changes of state; an exception anywhere rolls the whole patch back. The
-- primary keys of `nodes` and `patches` are what the first checks test, so no insert fails.
pub mod Shape
pub mod Frame
pub mod States
pub mod Settle
pub mod Keys
pub mod Checks
pub mod Outcome
use s14code.Prelude.{
  ℕ, String, Bool, true, false, not, ◌&&◌, ◌||◌, Option, none, some, List, [], ◌∷◌, ◌++◌, map, ◌==◌,
  if◌then◌else◌, contains, select, any, first, update_where,
}
use s14code.Json.{ℤ, pos, Json, bool, int, str, arr, obj, Items, nil, cons, Dict, empty, entry}
use s14code.Graph.Model.{
  NodeState, pending, running, cancelled, waiting, is_pending, is_running, is_waiting, is_open,
  TaskSpec, GraphPatch, Event, RunRow, NodeRow, EdgeRow, PatchRow, GraphDb, GraphSnapshot,
  GraphError, unknown_node, finished_graph, duplicate_task, unknown_edge, self_dependency,
  unknown_task, cannot_cancel, cannot_wait, cannot_resume, dependency_cycle, Result, ok, raise,
  ◌>>=◌, ◌>>◌, guard,
}
use s14code.Graph.Cycle.{has_cycle}
use s14code.Graph.Store.{edges_of, has_patch, append_event, snapshot, set_state, in_run, nodes_of}

abbrev pub ids_of : List NodeRow → List String
ids_of ns = map (λ n. n.id) ns

abbrev pub add_ids : GraphPatch → List String
add_ids patch = map (λ t. t.id) patch.add

-- `len(xs) != len(set(xs))`
abbrev pub has_duplicates : List String → Bool
has_duplicates [] = false
has_duplicates (x ∷ xs) = contains x xs || has_duplicates xs

-- `existing.nodes[nid]["state"]`
abbrev pub state_in : List NodeRow → String → Option NodeState
state_in ns id = elim (first (λ n. n.id == id) ns) [ none ↦ none | some n ↦ some n.state ]

unfoldable pub check_edges : List String → List (String × String) → Result (Unit {0})
check_edges ids [] = ok tt
check_edges ids ((parent, child) ∷ es) = do
  guard (contains parent ids && contains child ids) (unknown_edge parent child)
  guard (not (parent == child)) self_dependency
  check_edges ids es

unfoldable pub check_known : List String → List String → Result (Unit {0})
check_known ids [] = ok tt
check_known ids (n ∷ ns) = do guard (contains n ids) (unknown_task n); check_known ids ns

-- A task that the same patch adds has no old state: a `KeyError`.
abbrev pub check_open : String → Option NodeState → Result (Unit {0})
check_open n none = raise (unknown_node n)
check_open n (some s) = guard (is_open s) (cannot_cancel n s)

unfoldable pub check_cancel : List NodeRow → List String → Result (Unit {0})
check_cancel rows [] = ok tt
check_cancel rows (n ∷ ns) = do check_open n (state_in rows n); check_cancel rows ns

abbrev pub check_pending : String → Option NodeState → Result (Unit {0})
check_pending n none = ok tt
check_pending n (some s) = guard (is_pending s) (cannot_wait n)

unfoldable pub check_wait : List NodeRow → List String → Result (Unit {0})
check_wait rows [] = ok tt
check_wait rows (n ∷ ns) = do check_pending n (state_in rows n); check_wait rows ns

abbrev pub check_waiting : String → Option NodeState → Result (Unit {0})
check_waiting n none = ok tt
check_waiting n (some s) = guard (is_waiting s) (cannot_resume n)

unfoldable pub check_resume : List NodeRow → List String → Result (Unit {0})
check_resume rows [] = ok tt
check_resume rows (n ∷ ns) = do check_waiting n (state_in rows n); check_resume rows ns

unfoldable pub check_patch : GraphSnapshot → GraphPatch → Result (Unit {0})
unfolding check_edges check_known check_cancel check_wait check_resume
check_patch existing patch = do
  guard (not existing.finished) finished_graph
  let ids = ids_of existing.nodes
  guard (not (has_duplicates (add_ids patch) || any (λ id. contains id ids) (add_ids patch)))
      duplicate_task
  let all_ids = ids ++ add_ids patch
  check_edges all_ids patch.connect
  check_known all_ids (patch.cancel ++ (patch.wait ++ patch.resume))
  check_cancel existing.nodes patch.cancel
  check_wait existing.nodes patch.wait
  check_resume existing.nodes patch.resume

-- INSERT INTO nodes: a new task is pending and has no result.
abbrev pub new_row : String → TaskSpec → NodeRow
new_row run_id t = record {
  run_id = run_id;
  id = t.id;
  skill = t.skill;
  input = t.input;
  metadata = t.metadata;
  state = pending;
  result = none;
}

-- INSERT OR IGNORE INTO edges
abbrev pub is_edge : String → String → String → EdgeRow → Bool
is_edge run_id parent child e = e.run_id == run_id && e.parent_id == parent && e.child_id == child

unfoldable pub connect_tasks : String → List (String × String) → List EdgeRow → List EdgeRow
connect_tasks run_id [] rows = rows
connect_tasks run_id ((parent, child) ∷ es) rows = connect_tasks run_id es (
    if any (is_edge run_id parent child) rows
    then rows
    else rows ++ record { run_id = run_id; parent_id = parent; child_id = child } ∷ [])

unfoldable pub insert_tasks : String → GraphPatch → GraphDb → GraphDb
unfolding connect_tasks
insert_tasks run_id patch db = record db {
  nodes = db.nodes ++ map (new_row run_id) patch.add;
  edges = connect_tasks run_id patch.connect db.edges;
}

abbrev pub was_running : Option NodeState → Bool
was_running none = false
was_running (some s) = is_running s

abbrev pub cancel_payload : String → Bool → Dict
cancel_payload reason running' =
    entry "reason" (str reason) (entry "was_running" (bool running') empty)

-- UPDATE nodes SET state='cancelled', and the event, for each task.
unfoldable pub cancel_tasks : String → String → List NodeRow → List String → GraphDb → GraphDb
unfolding append_event
cancel_tasks run_id reason rows [] db = db
cancel_tasks run_id reason rows (n ∷ ns) db =
    cancel_tasks run_id reason rows ns
      (append_event (record db { nodes = set_state cancelled run_id n db.nodes }) run_id
        "task_cancelled" (some n) (cancel_payload reason (was_running (state_in rows n)))).1

unfoldable pub set_states : NodeState → String → List String → List NodeRow → List NodeRow
set_states state run_id [] rows = rows
set_states state run_id (n ∷ ns) rows = set_states state run_id ns (set_state state run_id n rows)

-- The tasks that a finish leaves over, with whether each was running. SQL leaves the order of
-- this SELECT open; it is the order of the rows here.
abbrev pub leftovers : String → List NodeRow → List (String × Bool)
leftovers run_id rows =
    map (λ n. (n.id, is_running n.state)) (select (λ n. in_run run_id n && is_open n.state) rows)

unfoldable pub cancel_leftovers : String → List (String × Bool) → GraphDb → GraphDb
unfolding append_event
cancel_leftovers run_id [] db = db
cancel_leftovers run_id ((n, running') ∷ ns) db =
    cancel_leftovers run_id ns
      (append_event (record db { nodes = set_state cancelled run_id n db.nodes }) run_id
        "task_cancelled" (some n) (cancel_payload "graph finished" running')).1

-- UPDATE runs SET finished=1 WHERE id=?
abbrev pub mark_finished : String → List RunRow → List RunRow
mark_finished run_id = update_where (λ r. r.id == run_id) (λ r. record r { finished = true })

unfoldable pub finish_run : String → GraphDb → GraphDb
unfolding cancel_leftovers
finish_run run_id db =
    let db' = cancel_leftovers run_id (leftovers run_id db.nodes) db in
    record db' { runs = mark_finished run_id db'.runs }

abbrev pub id_items : List String → Items
id_items [] = nil
id_items (x ∷ xs) = cons (str x) (id_items xs)

abbrev pub edge_items : List (String × String) → Items
edge_items [] = nil
edge_items ((a, b) ∷ es) = cons (arr (cons (str a) (cons (str b) nil))) (edge_items es)

-- The JSON of a patch, as `patches` keeps it.
abbrev pub patch_json : GraphPatch → Dict
patch_json p = entry "reason" (str p.reason) (
    entry "add" (arr (id_items (add_ids p))) (
      entry "connect" (arr (edge_items p.connect)) (
        entry "cancel" (arr (id_items p.cancel)) (
          entry "wait" (arr (id_items p.wait))
            (entry "resume" (arr (id_items p.resume)) (entry "finish" (bool p.finish) empty))))))

-- The event `graph_patched` and the row of `patches`, in one transaction with the mutation.
unfoldable pub log_patch : String → GraphPatch → ℕ → GraphDb → GraphDb
unfolding append_event
log_patch run_id patch trigger db =
    let db' =
      (append_event db run_id "graph_patched" none
        (entry "trigger_event" (int (pos trigger)) (patch_json patch))).1 in
    record db' {
      patches =
          db'.patches
          ++ record { run_id = run_id; trigger_event = trigger; patch = patch_json patch } ∷ [];
    }

-- The loops over `cancel`, `wait` and `resume`, in this order.
unfoldable pub move_tasks : String → GraphPatch → GraphSnapshot → GraphDb → GraphDb
unfolding cancel_tasks set_states
move_tasks run_id patch existing db =
    let db' = cancel_tasks run_id patch.reason existing.nodes patch.cancel db in
    record db' {
      nodes =
          set_states pending run_id patch.resume (set_states waiting run_id patch.wait db'.nodes);
    }

-- What follows the cycle test.
unfoldable pub change_states : String → GraphPatch → GraphSnapshot → GraphDb → GraphDb
unfolding move_tasks finish_run
change_states run_id patch existing db =
    let moved = move_tasks run_id patch existing db in
    if patch.finish then finish_run run_id moved else moved

-- The patch of an event that has none yet.
unfoldable pub apply_new : GraphDb → String → GraphPatch → ℕ → Result (Bool × GraphDb)
unfolding snapshot check_patch insert_tasks has_cycle change_states log_patch
apply_new db run_id patch trigger = do
  existing ← snapshot db run_id
  check_patch existing patch
  let drawn = insert_tasks run_id patch db
  guard (not (has_cycle (edges_of drawn run_id))) dependency_cycle
  ok (true, log_patch run_id patch trigger (change_states run_id patch existing drawn))

unfoldable pub apply_patch : GraphDb → String → GraphPatch → ℕ → Result (Bool × GraphDb)
unfolding apply_new
apply_patch db run_id patch trigger =
    if has_patch db run_id trigger then ok (false, db) else apply_new db run_id patch trigger
