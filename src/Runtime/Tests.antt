-- ===== src/Runtime/Tests.antt =====
-- Runs of the planner of s13code/runtime.py.
use s14code.Prelude.{◌≡◌, refl, String, true, false, Option, none, some, List, [], ◌∷◌}
use s14code.Json.{str, Dict, empty, entry}
use s14code.Graph.Model.{NodeState, succeeded, failed, TaskSpec, NodeRow, Event}
use s14code.Runtime.Nodes.{has_node}
use s14code.Runtime.Rules.{WorkIntent}
use s14code.Runtime.Work.{plan_event}
use s14code.Runtime.Growth.{IsGrowth, plan_event-IsGrowth}
use s14code.Runtime.Ending.{plan_event-finish}

abbrev compare_cities : WorkIntent
compare_cities = record {
  prompt = "Compose a dashboard of Rome and Oslo";
  mode = "compose_research";
  initial_frontier = [];
  explicit_memory = false;
  slug = λ t. t;
}

abbrev node : String → NodeState → Option Dict → NodeRow
node id state result = record {
  run_id = "r";
  id = id;
  skill = "researcher";
  input = entry "subject" (str "rome") empty;
  metadata = empty;
  state = state;
  result = result;
}

abbrev event : String → String → Event
event kind id = record { sequence = 7; kind = kind; node_id = some id; payload = empty }

abbrev found : Dict
found = entry "text" (str "a city") empty

-- Evidence without a text asks for one correction.
weak_retry :
    (plan_event compare_cities
      (node "search_1" succeeded (some empty) ∷ [])
      (event "task_succeeded" "search_1")).connect
    ≡ []
unfolding plan_event
weak_retry = refl

abbrev ids : List TaskSpec → List String
ids [] = []
ids (t ∷ ts) = t.id ∷ ids ts

weak_retry_ids :
    ids
      (plan_event compare_cities
        (node "search_1" succeeded (some empty) ∷ [])
        (event "task_succeeded" "search_1")).add
    ≡ "research_rome_retry" ∷ []
unfolding plan_event
weak_retry_ids = refl

abbrev both : List NodeRow
both = node "search_1" succeeded (some found) ∷ node "search_2" failed none ∷ []

-- All the evidence has landed.
distill_edges :
    ◌≡◌ {A = List (String × String)}
      (plan_event compare_cities both (event "task_failed" "search_2")).connect
      (("search_1", "distill") ∷ ("search_2", "distill") ∷ [])
unfolding plan_event
distill_edges = refl

plan_event-IsGrowth_example :
    IsGrowth both
      (event "task_failed" "search_2")
      (plan_event compare_cities both (event "task_failed" "search_2"))
unfolding has_node
plan_event-IsGrowth_example =
    plan_event-IsGrowth compare_cities both (event "task_failed" "search_2") refl

plan_event-finish_example :
    (plan_event compare_cities both (event "task_failed" "answer")).finish ≡ true
plan_event-finish_example =
    plan_event-finish compare_cities both (event "task_failed" "answer") refl refl
