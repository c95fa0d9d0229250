-- ===== src/Graph/Executor.antt =====
-- `LiveGraphExecutor` of s13code/core/live_graph/core.py. The planner is a function of the
-- snapshot and the event. What the event loop decides (which workers end, in which batches, and
-- with what) comes in as a list of batches.
pub mod Recovery
pub mod Bounds
use s14code.Prelude.{
  ℕ, zero, suc, ◌+◌, ◌-◌, ◌≤◌, String, Bool, true, false, not, ◌&&◌, ◌||◌, Option, none, some, List,
  [], ◌∷◌, ◌++◌, map, ◌==◌, ltb, leb, min, length, select, any, if◌then◌else◌,
}
use s14code.Json.{Dict}
use s14code.Sorting.{sort_by}
use s14code.Graph.Model.{
  NodeState, is_cancelled, is_waiting, TaskSpec, GraphPatch, Event, GraphDb, GraphSnapshot, Result,
  ok, ◌>>=◌, ◌>>◌,
}
use s14code.Graph.Store.{
  start, resume, snapshot, ready, mark_running, node_state, record_outcome, pending_planner_events,
  is_finished,
}
use s14code.Graph.Patch.{apply_patch}

-- A worker that has ended: with its result, or by `CancelledError`.
pub data Completion : Type 0 where
  done : Bool → Dict → Completion
  cancelled_error : Completion

-- A task in flight, and whether its coroutine was asked to cancel.
pub record InFlight : Type 0 where
  pub task : TaskSpec
  pub cancelling : Bool

pub record Loop : Type 0 where
  pub db : GraphDb
  pub in_flight : List InFlight
  pub executed : List String

pub record RunReport : Type 0 where
  pub finished : Bool
  pub executed : List String
  pub waiting : List String

module _ (planner : GraphSnapshot → Event → GraphPatch) (run_id : String) where
  -- `_plan`
  unfoldable pub plan : GraphDb → Event → Result GraphDb
  unfolding apply_patch
  plan db event = do
    graph ← snapshot db run_id
    (_, db') ← apply_patch db run_id (planner graph event) event.sequence
    ok db'

  -- The loop of `_replay_pending_planner_events`.
  unfoldable pub replay : List Event → GraphDb → Result GraphDb
  unfolding is_finished plan
  replay [] db = ok db
  replay (e ∷ es) db = if is_finished db run_id then ok db else do db' ← plan db e; replay es db'

  unfoldable pub replay_pending_planner_events : GraphDb → Result GraphDb
  unfolding pending_planner_events replay
  replay_pending_planner_events db = replay (pending_planner_events db run_id) db

  -- The first lines of `run`.
  unfoldable pub open_run : Bool → GraphDb → Dict → Result GraphDb
  unfolding start resume replay_pending_planner_events
  open_run resuming db context = do
    db' ← if resuming then resume db run_id else ok (start db run_id context).1
    replay_pending_planner_events db'

  module _ (max_workers : ℕ) (max_completed : Option ℕ) where
    -- The free slots: where the source's count is negative this one is 0, and neither launches.
    unfoldable pub capacity : Loop → ℕ
    capacity st =
        let free = max_workers - length st.in_flight in
        elim max_completed [
          | none ↦ free
          | some m ↦ min free (m - length st.executed - length st.in_flight)
        ]

    unfoldable pub launch : Loop → Result Loop
    unfolding capacity ready mark_running
    launch st =
        if is_finished st.db run_id
        then ok st
        else if ltb 0 (capacity st)
        then (do
          let tasks = ready st.db run_id (capacity st)
          db ← mark_running st.db run_id tasks
          ok (record st {
            db = db;
            in_flight = st.in_flight ++ map (λ t. record { task = t; cancelling = false }) tasks;
          }))
        else ok st

    -- `in_flight.pop(future)`
    unfoldable pub pop : String → List InFlight → List InFlight
    pop id [] = []
    pop id (f ∷ fs) = if f.task.id == id then fs else f ∷ pop id fs

    -- `_cancel_graph_cancelled_tasks`
    abbrev pub is_cancelled_node : Result NodeState → Bool
    is_cancelled_node (ok s) = is_cancelled s
    is_cancelled_node _ = false

    unfoldable pub cancel_workers : Bool → GraphDb → List InFlight → List InFlight
    unfolding node_state
    cancel_workers cancel_all db [] = []
    cancel_workers cancel_all db (f ∷ fs) =
        record f {
          cancelling =
              f.cancelling || cancel_all || is_cancelled_node (node_state db run_id f.task.id);
        }
        ∷ cancel_workers cancel_all db fs

    abbrev pub at_limit : List String → Bool
    at_limit executed = elim max_completed [ none ↦ false | some m ↦ leb m (length executed) ]

    -- The planner's answer to an outcome, where the run is not finished.
    unfoldable pub replan : Event → Loop → Result Loop
    unfolding plan cancel_workers is_finished
    replan event st = if is_finished st.db run_id then ok st else do
      db ← plan st.db event
      ok (record st { db = db; in_flight = cancel_workers false db st.in_flight })

    -- One ended worker. A cancelled one, or one whose task the graph cancelled, is dropped.
    unfoldable pub complete : String → Completion → Loop → Result Loop
    unfolding node_state record_outcome replan pop
    complete id cancelled_error st = ok (record st { in_flight = pop id st.in_flight })
    complete id (done success payload) st = do
      let popped = record st { in_flight = pop id st.in_flight }
      state ← node_state st.db run_id id
      if is_cancelled state then ok popped else do
        (event, db) ← record_outcome st.db run_id id success payload
        replan event (record popped { db = db; executed = st.executed ++ id ∷ [] })

    abbrev pub is_in_flight : String → List InFlight → Bool
    is_in_flight id = any (λ f. f.task.id == id)

    abbrev pub has_reached : Loop → Loop → Bool
    has_reached st st' = ltb (length st.executed) (length st'.executed) && at_limit st'.executed

    -- The loop over the workers that ended together, in the order of their ids. `asyncio.wait`
    -- gives only workers in flight; an id that is none is passed over. The result says whether
    -- the limit on completed tasks was reached.
    unfoldable pub complete_each : List (String × Completion) → Loop → Result (Loop × Bool)
    unfolding complete
    complete_each [] st = ok (st, false)
    complete_each ((id, c) ∷ cs) st = do
      st' ← if is_in_flight id st.in_flight then complete id c st else ok st
      if has_reached st st' then ok (st', true) else complete_each cs st'

    -- The last lines of the loop body.
    abbrev pub cancel_at_end : Loop → Loop
    cancel_at_end st =
        if is_finished st.db run_id
        then record st { in_flight = cancel_workers true st.db st.in_flight }
        else st

    -- `while True`, over the batches that end. The result says whether the loop was left.
    unfoldable pub loop : List (List (String × Completion)) → Loop → Result (Loop × Bool)
    unfolding launch complete_each sort_by
    loop [] st = do st' ← launch st; ok (st', leb (length st'.in_flight) 0)
    loop (batch ∷ batches) st = do
      st' ← launch st
      if leb (length st'.in_flight) 0 then ok (st', true) else do
        (after, stopped) ← complete_each (sort_by (λ c. c.0) batch) st'
        if stopped then ok (after, true) else loop batches (cancel_at_end after)

  -- `_report`
  unfoldable pub report : Loop → Result RunReport
  unfolding snapshot
  report st = do
    graph ← snapshot st.db run_id
    ok (record {
      finished = graph.finished;
      executed = st.executed;
      waiting = map (λ n. n.id) (select (λ n. is_waiting n.state) graph.nodes);
    })
