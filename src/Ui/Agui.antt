-- ===== src/Ui/Agui.antt =====
-- s13code/ui/agui.py: the journal of a run as AG-UI events, and the fold of those into the data
-- model that a client holds. An event of the journal is the dict with the fields of `Event`.
pub mod Fold
use Prim.Native.Char.{code}
use s14code.Prelude.{
  ℕ, zero, ◌+◌, String, Bool, true, false, Option, none, some, List, [], ◌∷◌, ◌++◌, map, ◌==◌,
  nat_eq, if◌then◌else◌, concat,
}
use s14code.Json.{
  pos, Json, null, bool, int, str, arr, obj, nil, Dict, empty, entry, get, get_or, set,
}
use s14code.Graph.Model.{Event}
use s14code.Ui.Surface.{dicts}

-- `_KIND_TO_AGUI.get(kind, "CUSTOM")`
abbrev pub agui_type : String → String
agui_type kind =
    if kind == "run_started"
    then "RUN_STARTED"
    else if kind == "graph_patched"
    then "STATE_DELTA"
    else if kind == "task_started"
    then "STEP_STARTED"
    else if kind == "task_succeeded"
    then "STEP_FINISHED"
    else if kind == "task_failed"
    then "STEP_FINISHED"
    else "CUSTOM"

-- `node_id`, and what an f-string makes of it.
abbrev pub node_json : Option String → Json
node_json none = null
node_json (some id) = str id

abbrev pub node_text : Option String → String
node_text none = "None"
node_text (some id) = id

-- {"op": "graph_patched", …} and {"op": "add", …}
abbrev pub patch_delta : Dict → Dict
patch_delta payload = entry "op" (str "graph_patched") (
    entry "reason" (get_or payload "reason" (str ""))
      (entry "trigger" (get_or payload "trigger_event" null) empty))

abbrev pub result_delta : Option String → Dict → Dict
result_delta node payload =
    entry "op" (str "add")
      (entry "path" (str (concat "/results/" (node_text node))) (entry "value" (obj payload) empty))

-- What an event of each kind adds to `base`.
unfoldable pub fields_of : Event → Dict
unfolding get
fields_of e =
    if e.kind == "run_started"
    then empty
    else if e.kind == "graph_patched"
    then entry "delta" (obj (patch_delta e.payload)) empty
    else if e.kind == "task_started"
    then entry "stepName" (node_json e.node_id) empty
    else if e.kind == "task_succeeded"
    then entry "stepName" (node_json e.node_id)
        (entry "delta" (obj (result_delta e.node_id e.payload)) empty)
    else if e.kind == "task_failed"
    then entry "stepName" (node_json e.node_id)
        (entry "error" (get_or e.payload "error" (str "task failed")) empty)
    else if e.kind == "task_cancelled"
    then entry "custom" (str "step_cancelled") (entry "stepName" (node_json e.node_id) empty)
    else if e.kind == "run_resumed"
    then entry "custom" (str "run_resumed") empty
    else empty

unfoldable pub to_agui_event : Event → Dict
unfolding fields_of
to_agui_event e =
    entry "type" (str (agui_type e.kind))
      (entry "seq" (int (pos e.sequence)) (entry "source_kind" (str e.kind) (fields_of e)))

-- The data model: {"results": {…}, "patches": […]}.
pub record ClientState : Type 0 where
  pub results : Dict
  pub patches : List Dict

abbrev pub empty_state : ClientState
empty_state = record { results = empty; patches = [] }

-- `not v`
abbrev pub is_falsy : Json → Bool
is_falsy null = true
is_falsy (bool false) = true
is_falsy (int (pos zero)) = true
is_falsy (str String.[]) = true
is_falsy (arr nil) = true
is_falsy (obj empty) = true
is_falsy _ = false

-- `t[len(p):]` where `t.startswith(p)`
abbrev pub drop_prefix : String → String → Option String
drop_prefix String.[] t = some t
drop_prefix (String.◌∷◌ p ps) String.[] = none
drop_prefix (String.◌∷◌ p ps) (String.◌∷◌ c t) =
    if nat_eq (code p) (code c) then drop_prefix ps t else none

-- The node of a path below /results/.
abbrev pub result_node : Json → Option String
result_node (str path) = drop_prefix "/results/" path
result_node _ = none

abbrev pub is_op : String → Json → Bool
is_op op (str s) = s == op
is_op op _ = false

abbrev pub add_result : Dict → Option String → ClientState → ClientState
add_result delta none state = state
add_result delta (some node) state = record state {
  results = set state.results node (get_or delta "value" null);
}

abbrev pub log_patch_of : Dict → ClientState → ClientState
log_patch_of delta state = record state {
  patches =
      state.patches
      ++ entry "reason" (get_or delta "reason" (str ""))
          (entry "trigger" (get_or delta "trigger" null) empty)
        ∷ [];
}

unfoldable pub apply_delta : Dict → ClientState → ClientState
unfolding get set
apply_delta delta state =
    let op = get_or delta "op" null in
    if is_op "add" op
    then add_result delta (result_node (get_or delta "path" null)) state
    else if is_op "graph_patched" op
    then log_patch_of delta state
    else state

-- `delta.get` raises on a delta that is true and no dict: `none`.
abbrev pub apply_value : Json → ClientState → Option ClientState
apply_value (obj delta) state =
    some (if is_falsy (obj delta) then state else apply_delta delta state)
apply_value v state = if is_falsy v then some state else none

unfoldable pub apply_state_delta : ClientState → Dict → Option ClientState
unfolding apply_delta
apply_state_delta state event = apply_value (get_or event "delta" null) state

unfoldable pub replay_state : List Dict → ClientState → Option ClientState
unfolding apply_state_delta
replay_state [] state = some state
replay_state (e ∷ es) state = elim (apply_state_delta state e) [
  | none ↦ none
  | some state' ↦ replay_state es state'
]

-- The data model of a surface or the value itself, in one `STATE_SNAPSHOT` event.
abbrev pub state_json : ClientState → Json
state_json s = obj (entry "results" (obj s.results) (entry "patches" (arr (dicts s.patches)) empty))

abbrev pub state_snapshot : ClientState → ℕ → Dict
state_snapshot state seq = entry "type" (str "STATE_SNAPSHOT") (
    entry "seq" (int (pos seq))
      (entry "source_kind" (str "snapshot") (entry "state" (state_json state) empty)))

abbrev pub last_sequence : ℕ → List Event → ℕ
last_sequence s [] = s
last_sequence s (e ∷ es) = last_sequence e.sequence es

abbrev pub run_finished : ℕ → Dict
run_finished seq =
    entry "type" (str "RUN_FINISHED")
      (entry "seq" (int (pos seq)) (entry "source_kind" (str "derived") empty))

unfoldable pub stream_agui : List Event → Bool → Option ClientState → List Dict
unfolding to_agui_event
stream_agui events finished snapshot =
    (elim snapshot [ none ↦ [] | some s ↦ state_snapshot s 0 ∷ [] ])
    ++ map to_agui_event events
    ++ (if finished then run_finished (last_sequence 0 events + 1) ∷ [] else [])

unfoldable pub run_data_model : List Event → Option ClientState
unfolding replay_state stream_agui
run_data_model events = replay_state (stream_agui events false none) empty_state
