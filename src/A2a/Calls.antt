-- ===== src/A2a/Calls.antt =====
-- The methods of `A2ADemoServer` in s13code/core/a2a_adapter/server.py. A method that awaits is cut
-- there; `send` and `stream` put its parts together for a call that nothing interrupts.
use s14code.Prelude.{
  lower, suc, String, Bool, true, false, ◌||◌, Option, none, some, List, [], ◌∷◌, ◌==◌, ◌>>=◌,
  codes, concat, is_infix, join, map, show, if◌then◌else◌,
}
use s14code.Json.{
  pos, negsuc, Json, null, bool, int, str, arr, obj, Items, nil, cons, Dict, empty, entry, get,
  get_or, as_dict, truthy,
}
use s14code.A2a.{
  submitted, working, completed, failed, canceled, is_terminal, Task, wire, TaskRow, load_all,
  find_task, keep, idle, answering, streaming, queued, sleeping, handling, Server, set_phase,
  has_ended,
}

-- What the language and the machine give a call: Python's text of a list or dict, two new uuids, and
-- the times before and after the handler.
pub record Surroundings : Type 0 where
  pub repr : Json → String
  pub new_id : String
  pub new_context : String
  pub now : String
  pub later : String

-- `str(v)`
abbrev pub text_of : (Json → String) → Json → String
text_of repr null = "None"
text_of repr (bool true) = "True"
text_of repr (bool false) = "False"
text_of repr (int (pos n)) = show n
text_of repr (int (negsuc n)) = concat "-" (show (suc n))
text_of repr (str s) = s
text_of repr v = repr v

-- What `for part in v` goes through. A letter and a key are texts, which have no `get`.
abbrev pub part_items : Json → Option Items
part_items (arr xs) = some xs
part_items (str s) = if s == "" then some nil else none
part_items (obj empty) = some nil
part_items _ = none

abbrev pub is_value : Json → String → Bool
is_value (str s) v = s == v
is_value _ v = false

unfoldable pub part_texts : (Json → String) → Items → Option (List String)
unfolding get
part_texts repr nil = some []
part_texts repr (cons x xs) = do
  part ← as_dict x
  texts ← part_texts repr xs
  some (
      if is_value (get_or part "kind" null) "text"
      then text_of repr (get_or part "text" (str "")) ∷ texts
      else texts)

-- `push.get("token") or push.get("authentication", {}).get("credentials")`
unfoldable pub token_of : Dict → Option Json
unfolding get
token_of push =
    if truthy (get_or push "token" null)
    then some (get_or push "token" null)
    else as_dict (get_or push "authentication" (obj empty)) >>= λ a.
        some (get_or a "credentials" null)

-- `_new_task` before the task is stored. Where a value is no dict, an AttributeError.
unfoldable pub new_task : Surroundings → Json → Option Task
unfolding get part_texts token_of
new_task e v = do
  params ← as_dict v
  message ← as_dict (get_or params "message" (obj empty))
  parts ← part_items (get_or message "parts" (arr nil))
  texts ← part_texts e.repr parts
  config ← as_dict (get_or params "configuration" (obj empty))
  push ← as_dict (get_or config "pushNotificationConfig" (obj empty))
  token ← token_of push
  some (record {
    id = e.new_id;
    context_id =
        if truthy (get_or message "contextId" null)
        then text_of e.repr (get_or message "contextId" null)
        else e.new_context;
    text = join " " texts;
    state = submitted;
    history = nil;
    artifacts = nil;
    callback_url = get_or push "url" null;
    callback_token = token;
    updated_at = e.now;
  })

abbrev pub work : String → Task → Task
work now t = record t { state = working; updated_at = now }

abbrev pub is_slow : String → Bool
is_slow text =
    is_infix (codes "async") (map lower (codes text))
    || is_infix (codes "slow") (map lower (codes text))

-- `send` up to its first await.
unfoldable pub accept_send : String → Task → Server → Server
unfolding keep
accept_send now t s =
    if is_slow t.text
    then set_phase t.id queued (keep (work now t) (keep t s))
    else set_phase t.id answering (keep t s)

-- `create_task(_complete_later)`
abbrev pub create_job : String → Server → Server
create_job id s = set_phase id sleeping s

-- `stream_updates` up to its first yield.
unfoldable pub accept_stream : String → Task → Server → Server
unfolding keep
accept_stream now t s = set_phase t.id streaming (keep (work now t) (keep t s))

-- The test after `sleep(0)`.
unfoldable pub resume_stream : String → Server → Server
resume_stream id s = set_phase id (if has_ended id s then idle else answering) s

-- The test of `_complete_later` after its sleep.
unfoldable pub wake_job : String → Server → Server
wake_job id s = set_phase id (if has_ended id s then idle else handling) s

-- What awaiting the handler gives: a text, or an exception with its type and message.
pub data HandlerResult : Type 0 where
  answer raised : String → HandlerResult

abbrev pub run_handler : Option (String → HandlerResult) → String → HandlerResult
run_handler none text = answer (concat "done: " text)
run_handler (some handler) text = handler text

abbrev pub artifact : String → String → String → Items
artifact prefix id text =
    cons
      (obj (
        entry "artifactId" (str (concat prefix id)) (
          entry "parts"
            (arr (cons (obj (entry "kind" (str "text") (entry "text" (str text) empty))) nil))
            empty)))
      nil

abbrev pub finished_task : HandlerResult → String → Task → Task
finished_task (answer text) now t = record t {
  state = completed;
  updated_at = now;
  artifacts = artifact "result-" t.id text;
}
finished_task (raised text) now t = record t {
  state = failed;
  updated_at = now;
  artifacts = artifact "error-" t.id text;
}

-- `_complete` after the handler.
unfoldable pub complete_task : HandlerResult → String → String → Server → Server
unfolding keep
complete_task result now id s = elim (find_task id s.tasks) [
  | none ↦ s
  | some t ↦ set_phase id idle (keep (finished_task result now t) s)
]

-- `job.cancel()`: the CancelledError comes up where the job waits.
abbrev pub stop_job : String → Server → Server
stop_job id s = elim (s.phase id) [
  | sleeping ↦ set_phase id idle s
  | handling ↦ set_phase id idle s
  | _ ↦ s
]

-- `get`: a ValueError where the task is unknown.
abbrev pub get_task : String → Server → Option Dict
get_task id s = find_task id s.tasks >>= λ t. some (wire t)

abbrev pub canceled_at : String → Task → Task
canceled_at now t = record t { state = canceled; updated_at = now }

-- `cancel`
unfoldable pub cancel_task : String → String → Server → Option Server
unfolding keep
cancel_task now id s = find_task id s.tasks >>= λ t.
    some (if is_terminal t.state then s else stop_job id (keep (canceled_at now t) s))

-- `start`, when no job has been made yet.
unfoldable pub start_tasks : String → List Task → Server → Server
unfolding keep
start_tasks now [] s = s
start_tasks now (t ∷ ts) s =
    if is_terminal t.state
    then start_tasks now ts s
    else start_tasks now ts (create_job t.id (keep (work now t) s))

-- `__init__` on a table of tasks, and `start`.
unfoldable pub start_server : String → List TaskRow → Option Server
unfolding start_tasks
start_server now rows = load_all rows >>= λ ts.
    some (start_tasks now ts (record { tasks = ts; rows = rows; phase = λ _. idle }))
