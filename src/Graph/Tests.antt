-- ===== src/Graph/Tests.antt =====
-- Runs of s13code/core/live_graph on concrete graphs.
use s14code.Prelude.{
  ◌==◌, ◌≤◌, String, ◌≡◌, ◌≢◌, ◌↔◌, refl, Bool, true, false, not, some, List, [], ◌∷◌, arith,
  nat_eq, length, select, All, ◌⊎◌, if◌then◌else◌,
}
use s14code.Json.{Dict}
use s14code.Graph.Model.{
  pending, running, waiting, not_running, TaskSpec, GraphPatch, empty_patch, Event, NodeRow,
  GraphDb, empty_db, GraphSnapshot, Result, ok, raise,
}
use s14code.Graph.Cycle.{has_cycle}
use s14code.Graph.Cycle.Chains.{IsCyclic}
use s14code.Graph.Cycle.Fuel.{has_cycle_iff}
use s14code.Graph.Store.{
  mark_running, resume, record_outcome, outcome_state, start, ready, task_of, is_blocked, edges_of,
  nodes_of, pending_planner_events, is_finished,
}
use s14code.Graph.Patch.{apply_patch}
use s14code.Graph.Patch.States.{state_of, IsKeyed, settle_option}
use s14code.Graph.Patch.Outcome.{drawn_state, apply_patch-settle}
use s14code.Graph.Invariant.{IsWellFormed, starts, applies_patch, Reach, next}
use s14code.Graph.Invariant.Preserved.{Reach-IsWellFormed}
use s14code.Graph.Attempts.{requeued, resume-requeued, record_outcome-recorded}
use s14code.Graph.Ready.{IsReady, ready-IsReady, ready_complete}
use s14code.Graph.Once.{apply_patch-once, apply_patch-pending}
use s14code.Graph.Executor.{Completion, done, Loop, replay_pending_planner_events, loop}
use s14code.Graph.Executor.Recovery.{replay_pending-answers}
use s14code.Graph.Executor.Bounds.{IsBounded, loop-IsBounded}

abbrev task : String → TaskSpec
task id = record { id = id; skill = "search"; input = Dict.empty; metadata = Dict.empty }

-- A run that has only been started: its journal holds `run_started` with number 1.
abbrev started : GraphDb
unfolding start
started = (start empty_db "r" Dict.empty).1

abbrev db_of : Result (Bool × GraphDb) → GraphDb
db_of (ok (b, db)) = db
db_of (raise e) = empty_db

-- The planner's first answer: a task "b" behind a task "a".
abbrev first_patch : GraphPatch
first_patch = record empty_patch { add = task "b" ∷ task "a" ∷ []; connect = ("a", "b") ∷ [] }

abbrev planned : GraphDb
unfolding apply_patch
planned = db_of (apply_patch started "r" first_patch 1)

planned_ok : apply_patch started "r" first_patch 1 ≡ ok (true, planned)
unfolding apply_patch started
planned_ok = refl

-- A patch that cancels "a".
abbrev cancel_patch : GraphPatch
cancel_patch = record empty_patch { cancel = "a" ∷ [] }

abbrev cancelled_db : GraphDb
unfolding apply_patch
cancelled_db = db_of (apply_patch planned "r" cancel_patch 2)

cancelled_ok : apply_patch planned "r" cancel_patch 2 ≡ ok (true, cancelled_db)
unfolding apply_patch started planned
cancelled_ok = refl

abbrev finish_patch : GraphPatch
finish_patch = record empty_patch { finish = true }

abbrev finished_db : GraphDb
unfolding apply_patch
finished_db = db_of (apply_patch cancelled_db "r" finish_patch 3)

finished_ok : apply_patch cancelled_db "r" finish_patch 3 ≡ ok (true, finished_db)
unfolding apply_patch started planned cancelled_db
finished_ok = refl

-- A patch that cancels "a" and parks it.
abbrev undo_patch : GraphPatch
undo_patch = record empty_patch { cancel = "a" ∷ []; wait = "a" ∷ [] }

abbrev undone_db : GraphDb
unfolding apply_patch
undone_db = db_of (apply_patch planned "r" undo_patch 2)

undone_ok : apply_patch planned "r" undo_patch 2 ≡ ok (true, undone_db)
unfolding apply_patch started planned
undone_ok = refl

planned-IsKeyed : IsKeyed planned.nodes
unfolding started planned apply_patch
planned-IsKeyed = (refl, (refl, tt))

cancelled-IsKeyed : IsKeyed cancelled_db.nodes
unfolding started planned cancelled_db apply_patch
cancelled-IsKeyed = (refl, (refl, tt))

has_cycle_iff_example :
    (has_cycle (("a", "b") ∷ ("b", "c") ∷ ("c", "a") ∷ []) ≡ true)
    ↔ IsCyclic (("a", "b") ∷ ("b", "c") ∷ ("c", "a") ∷ [])
has_cycle_iff_example = has_cycle_iff (("a", "b") ∷ ("b", "c") ∷ ("c", "a") ∷ [])

planned-Reach : Reach planned
unfolding start started
planned-Reach =
    next (next Reach.empty (starts "r" Dict.empty))
      (applies_patch "r" first_patch 1 true planned_ok)

Reach-IsWellFormed_example : IsWellFormed planned
Reach-IsWellFormed_example = Reach-IsWellFormed planned-Reach

apply_patch-settle_example :
    state_of cancelled_db.nodes "r" "a"
    ≡ settle_option cancel_patch "a" (drawn_state cancel_patch "a" (state_of planned.nodes "r" "a"))
apply_patch-settle_example =
    apply_patch-settle planned cancelled_db "r" cancel_patch 2 cancelled_ok planned-IsKeyed "a"

-- The journal says that "a" was cancelled, and it waits.
undone_waits : state_of undone_db.nodes "r" "a" ≡ some waiting
unfolding undone_db started planned apply_patch
undone_waits = refl

apply_patch-once_example : apply_patch planned "r" cancel_patch 1 ≡ ok (false, planned)
apply_patch-once_example =
    apply_patch-once started planned "r" first_patch cancel_patch 1 true planned_ok

apply_patch-pending_example :
    pending_planner_events planned "r"
    ≡ select (λ e. not (nat_eq 1 e.sequence)) (pending_planner_events started "r")
apply_patch-pending_example = apply_patch-pending started planned "r" first_patch 1 planned_ok

ready-IsReady_example :
    All (λ t. (n : NodeRow) × (t ≡ task_of n) × IsReady planned "r" n) (ready planned "r" 4)
    × (length (ready planned "r" 4) ≤ 4)
ready-IsReady_example = ready-IsReady planned "r" 4

-- With "a" cancelled, "b" waits for ever.
cancelled-idle : ready cancelled_db "r" 4 ≡ []
unfolding ready started planned cancelled_db apply_patch
cancelled-idle = refl

ready_complete_example :
    All
      (λ n.
        n.state ≡ pending
        → is_blocked (edges_of cancelled_db "r") (nodes_of cancelled_db "r") n.id ≡ true)
      (nodes_of cancelled_db "r")
ready_complete_example = ready_complete cancelled_db "r" 4 (omega arith) cancelled-idle

abbrev planner : GraphSnapshot → Event → GraphPatch
planner graph event = if nat_eq event.sequence 1 then first_patch else empty_patch

abbrev result_of : Result GraphDb → GraphDb
result_of (ok db) = db
result_of (raise e) = empty_db

abbrev replayed : GraphDb
unfolding replay_pending_planner_events
replayed = result_of (replay_pending_planner_events planner "r" started)

replayed_ok : replay_pending_planner_events planner "r" started ≡ ok replayed
unfolding replay_pending_planner_events started
replayed_ok = refl

replay_pending-answers_example :
    (is_finished replayed "r" ≡ true) ⊎ (pending_planner_events replayed "r" ≡ [])
replay_pending-answers_example = replay_pending-answers planner "r" started replayed replayed_ok

-- "a" ends, then "b".
abbrev batches : List (List (String × Completion))
batches = (("a", done true Dict.empty) ∷ []) ∷ (("b", done true Dict.empty) ∷ []) ∷ []

abbrev opened : Loop
opened = record { db = planned; in_flight = []; executed = [] }

abbrev looped_of : Result (Loop × Bool) → Loop × Bool
looped_of (ok r) = r
looped_of (raise e) = (opened, false)

abbrev looped : Loop × Bool
unfolding loop
looped = looped_of (loop planner "r" 2 (some 5) batches opened)

looped_ok : loop planner "r" 2 (some 5) batches opened ≡ ok looped
unfolding loop started planned apply_patch
looped_ok = refl

looped-executed : looped.0.executed ≡ "a" ∷ "b" ∷ []
unfolding loop looped started planned apply_patch
looped-executed = refl

loop-IsBounded_example : IsBounded 2 (some 5) looped.0
loop-IsBounded_example = loop-IsBounded planner "r" 2 (some 5) batches planned looped looped_ok

-- The task "a" is running.
abbrev running_db : GraphDb
unfolding mark_running
running_db = result_of (mark_running planned "r" (task "a" ∷ []))

abbrev resumed_db : GraphDb
unfolding resume
resumed_db = result_of (resume running_db "r")

resumed_ok : resume running_db "r" ≡ ok resumed_db
unfolding resume running_db mark_running planned started apply_patch
resumed_ok = refl

resume-requeued_example :
    state_of resumed_db.nodes "r" "a" ≡ requeued (state_of running_db.nodes "r" "a")
resume-requeued_example = resume-requeued running_db resumed_db "r" "a" resumed_ok

running-IsKeyed : IsKeyed running_db.nodes
unfolding running_db mark_running planned started apply_patch
running-IsKeyed = (refl, (refl, tt))

record_outcome-recorded_example :
    ((state_of running_db.nodes "r" "a" ≡ some running)
      × (after : Event × GraphDb) × (record_outcome running_db "r" "a" true Dict.empty ≡ ok after)
      × ((id : String)
          → state_of after.1.nodes "r" id
            ≡ (if id == "a" then some (outcome_state true) else state_of running_db.nodes "r" id)))
    ⊎ ((state_of running_db.nodes "r" "a" ≢ some running)
        × (record_outcome running_db "r" "a" true Dict.empty ≡ raise (not_running "a")))
record_outcome-recorded_example =
    record_outcome-recorded running_db "r" "a" true Dict.empty running-IsKeyed
