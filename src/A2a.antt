-- ===== src/A2a.antt =====
-- s13code/core/a2a_adapter/server.py: the tasks of `A2ADemoServer`, in memory and in
-- `DurableTaskStore`. Each function is what one call does between two awaits; an id and a time are
-- arguments where the source makes them.
pub mod Calls
pub mod Rpc
pub mod Steps
pub mod Push
pub mod Mirror
pub mod Final
mod Tests
use s14code.Prelude.{
  String, ℕ, ◌+◌, Bool, true, false, not, ◌&&◌, ◌||◌, Option, none, some, List, [], ◌∷◌, ◌++◌, ◌==◌,
  ◌>>=◌, ◌>>◌, require, codes, concat, contains, first, is_infix, join, leb, map, select,
  if◌then◌else◌,
}
use s14code.Json.{
  Json, null, str, arr, obj, Items, nil, cons, Dict, empty, entry, get, get_or, as_dict, as_items,
  as_text, truthy,
}

pub data TaskState : Type 0 where
  submitted working completed failed canceled : TaskState

-- `task.state.value`
abbrev pub state_value : TaskState → String
state_value submitted = "submitted"
state_value working = "working"
state_value completed = "completed"
state_value failed = "failed"
state_value canceled = "canceled"

-- `TaskState(v)`: a ValueError on any other value.
abbrev pub state_from : String → Option TaskState
state_from v =
    if v == "submitted"
    then some submitted
    else if v == "working"
    then some working
    else if v == "completed"
    then some completed
    else if v == "failed"
    then some failed
    else if v == "canceled"
    then some canceled
    else none

-- `TERMINAL`
abbrev pub is_terminal : TaskState → Bool
is_terminal submitted = false
is_terminal working = false
is_terminal _ = true

-- The callback's address and token are what the caller's JSON holds.
pub record Task : Type 0 where
  pub id : String
  pub context_id : String
  pub text : String
  pub state : TaskState
  pub history : Items
  pub artifacts : Items
  pub callback_url : Json
  pub callback_token : Json
  pub updated_at : String

abbrev pub has_items : Items → Bool
has_items nil = false
has_items (cons x xs) = true

-- `wire`
abbrev pub wire : Task → Dict
wire t = entry "kind" (str "task") (
    entry "id" (str t.id) (
      entry "contextId" (str t.context_id) (
        entry "status"
          (obj (
            entry "state" (str (state_value t.state)) (entry "timestamp" (str t.updated_at) empty)))
          (if has_items t.artifacts then entry "artifacts" (arr t.artifacts) empty else empty))))

-- What `save` writes: `asdict`, with the state's value.
abbrev pub task_payload : Task → Dict
task_payload t = entry "id" (str t.id) (
    entry "context_id" (str t.context_id) (
      entry "text" (str t.text) (
        entry "state" (str (state_value t.state)) (
          entry "history" (arr t.history) (
            entry "artifacts" (arr t.artifacts) (
              entry "callback_url" t.callback_url (
                entry "callback_token" t.callback_token
                  (entry "updated_at" (str t.updated_at) empty))))))))

-- `Task(**data)` on the keys that `save` writes. A row of another shape has no task here.
unfoldable pub read_task : Dict → Option Task
unfolding get
read_task data' = do
  id ← get data' "id" >>= as_text
  context_id ← get data' "context_id" >>= as_text
  text ← get data' "text" >>= as_text
  value ← get data' "state" >>= as_text
  state ← state_from value
  history ← get data' "history" >>= as_items
  artifacts ← get data' "artifacts" >>= as_items
  callback_url ← get data' "callback_url"
  callback_token ← get data' "callback_token"
  updated_at ← get data' "updated_at" >>= as_text
  some (record {
    id = id;
    context_id = context_id;
    text = text;
    state = state;
    history = history;
    artifacts = artifacts;
    callback_url = callback_url;
    callback_token = callback_token;
    updated_at = updated_at;
  })

-- A row of a2a_tasks: the id and the payload.
abbrev pub TaskRow : Type 0
TaskRow = String × Dict

abbrev pub row_of : Task → TaskRow
row_of t = (t.id, task_payload t)

-- `insert or replace into a2a_tasks`
abbrev pub save : Task → List TaskRow → List TaskRow
save t rows = select (λ r. not (r.0 == t.id)) rows ++ row_of t ∷ []

-- `tasks.get(id)`
abbrev pub find_task : String → List Task → Option Task
find_task id ts = first (λ t. t.id == id) ts

-- `tasks[task.id] = task`
abbrev pub put_task : Task → List Task → List Task
put_task t [] = t ∷ []
put_task t (u ∷ ts) = if u.id == t.id then t ∷ ts else u ∷ put_task t ts

abbrev pub load_onto : List Task → List TaskRow → Option (List Task)
load_onto ts [] = some ts
load_onto ts (r ∷ rows) = read_task r.1 >>= λ t. load_onto (put_task t ts) rows

-- `load_all`
abbrev pub load_all : List TaskRow → Option (List Task)
load_all rows = load_onto [] rows

-- Where the call for a task stands: `answering` is `send` or `stream` that awaits the handler,
-- `streaming` a stream that has yielded once, `queued` a `send` that awaits the notification
-- before it makes the job, `sleeping` and `handling` the job `_complete_later`.
pub data Phase : Type 0 where
  idle answering streaming queued sleeping handling : Phase

pub record Server : Type 0 where
  pub tasks : List Task
  pub rows : List TaskRow
  pub phase : String → Phase

abbrev pub set_phase : String → Phase → Server → Server
set_phase id p s = record s { phase = λ x. if x == id then p else s.phase x }

-- A task as it is stored in both places.
unfoldable pub keep : Task → Server → Server
keep t s = record s { tasks = put_task t s.tasks; rows = save t s.rows }

abbrev pub has_ended : String → Server → Bool
has_ended id s = elim (find_task id s.tasks) [ none ↦ false | some t ↦ is_terminal t.state ]
