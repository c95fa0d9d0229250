-- ===== src/A2a/Tests.antt =====
-- Runs of s13code/core/a2a_adapter/server.py on two tasks.
use s14code.Prelude.{
  nat_eq, ℕ, ◌≤◌, String, ◌≡◌, ◌⊎◌, refl, true, false, Option, none, some, List, [], ◌∷◌, inl,
}
use s14code.Json.{Json, null, str, arr, obj, nil, cons, empty, entry}
use s14code.A2a.{Task, submitted, find_task, answering, Server}
use s14code.A2a.Calls.{
  Surroundings, new_task, accept_send, complete_task, cancel_task, canceled_at, finished_task,
  answer, start_server,
}
use s14code.A2a.Steps.{◌⟶◌, sent, answered, ◌⟶*◌, here, next, new_server, Reach, opened, stepped}
use s14code.A2a.Mirror.{Restarted, start_server-Restarted}
use s14code.A2a.Final.{HasEnded, Reach-HasEnded, cancel_task-overwritten}
use s14code.A2a.Rpc.{Settings, RpcRequest, unauthorized, rpc_error, is_authorized, rpc}
use s14code.A2a.Rpc.Inside.{rpc-steps}
use s14code.A2a.Push.{Hashes, PushSettings, notify_all}
use s14code.A2a.Push.Count.{posts_of, deliveries_of}
use s14code.A2a.Push.Bound.{notify_all-bounded}

abbrev here_now : Surroundings
here_now = record { repr = λ v. "[]"; new_id = "one"; new_context = "c1"; now = "1"; later = "2" }

-- {"message": {"parts": [{"kind": "text", "text": "hello"}]}}
abbrev hello_params : Json
hello_params = obj (
    entry "message"
      (obj (
        entry "parts"
          (arr (cons (obj (entry "kind" (str "text") (entry "text" (str "hello") empty))) nil))
          empty))
      empty)

abbrev hello : Task
hello = record {
  id = "one";
  context_id = "c1";
  text = "hello";
  state = submitted;
  history = nil;
  artifacts = nil;
  callback_url = null;
  callback_token = null;
  updated_at = "1";
}

hello_ok : new_task here_now hello_params ≡ some hello
unfolding new_task
hello_ok = refl

abbrev waiting : Server
unfolding accept_send
waiting = accept_send "1" hello new_server

waiting-Reach : Reach waiting
unfolding waiting accept_send
waiting-Reach = stepped opened (sent "1" hello refl)

abbrev ended : Server
unfolding waiting complete_task
ended = complete_task (answer "hi") "2" "one" waiting

ended-Reach : Reach ended
unfolding ended waiting complete_task
ended-Reach = stepped waiting-Reach (answered (answer "hi") "2" "one" (inl refl))

start_server-Restarted_example :
    (s' : Server) × (start_server "9" waiting.rows ≡ some s') × Restarted "9" waiting s'
start_server-Restarted_example = start_server-Restarted "9" waiting waiting-Reach

abbrev other : Task
other = record hello { id = "two"; text = "slow" }

abbrev busy : Server
unfolding ended accept_send
busy = accept_send "3" other ended

to_busy : ended ⟶* busy
unfolding busy ended accept_send waiting complete_task
to_busy = next (sent "3" other refl) here

ended-HasEnded : HasEnded "one" (finished_task (answer "hi") "2" hello) ended
unfolding ended waiting complete_task accept_send
ended-HasEnded = record { found = refl; ended = refl; settled = refl }

Reach-HasEnded_example : HasEnded "one" (finished_task (answer "hi") "2" hello) busy
Reach-HasEnded_example =
    Reach-HasEnded "one" (finished_task (answer "hi") "2" hello) ended busy ended-Reach to_busy
      ended-HasEnded

hello_found : find_task "one" waiting.tasks ≡ some hello
unfolding waiting accept_send
hello_found = refl

hello_waits : waiting.phase "one" ≡ answering
unfolding waiting accept_send
hello_waits = refl

cancel_task-overwritten_example :
    (s' : Server) × (cancel_task "2" "one" waiting ≡ some s')
    × (find_task "one" s'.tasks ≡ some (canceled_at "2" hello))
    × (s' ⟶ complete_task (answer "hi") "3" "one" s')
    × (find_task "one" (complete_task (answer "hi") "3" "one" s').tasks
        ≡ some (finished_task (answer "hi") "3" (canceled_at "2" hello)))
cancel_task-overwritten_example =
    cancel_task-overwritten "one" hello waiting "2" "3" (answer "hi") hello_found refl hello_waits

abbrev guarded : Settings
guarded = record { bearer_tokens = "key" ∷ []; api_keys = []; task_handler = none }

abbrev stranger : RpcRequest
stranger = record { authorization = "Bearer no"; api_key = ""; body = hello_params }

abbrev friend : RpcRequest
friend = record stranger { authorization = "BEARER key" }

rpc-steps_example :
    (new_server ⟶* (rpc here_now guarded friend new_server).1)
    × ((is_authorized guarded friend ≡ true)
        ⊎ (rpc here_now guarded friend new_server ≡ (
          unauthorized (rpc_error null 32002 "A2A transport authentication required"),
          new_server,
        )))
rpc-steps_example = rpc-steps here_now guarded new_server refl friend

stranger_denied : is_authorized guarded stranger ≡ false
unfolding is_authorized
stranger_denied = refl

friend_admitted : is_authorized guarded friend ≡ true
unfolding is_authorized
friend_admitted = refl

abbrev hashes : Hashes
hashes = record { digest = λ t. t; sign = λ secret d. secret; repr = λ v. "[]" }

abbrev by_http : PushSettings
by_http = record { has_callback = false; has_http = true; secret = none; push_attempts = 4 }

-- A first attempt that fails, a second that is taken, and the same event again.
abbrev two_calls : List (Task × (ℕ → Option String))
two_calls =
    (watched, λ n. elim (nat_eq n 2) [ true ↦ none | false ↦ some "timeout" ])
    ∷ (watched, λ n. none)
    ∷ []
  where
    watched : Task
    watched = record hello { callback_url = str "http://me" }

notify_all-bounded_example :
    (posts_of "one:submitted:1" (notify_all hashes by_http two_calls []).actions ≤ 4)
    × (deliveries_of "one:submitted:1" (notify_all hashes by_http two_calls []).actions ≤ 1)
notify_all-bounded_example = notify_all-bounded "one:submitted:1" hashes by_http two_calls

posts_two : posts_of "one:submitted:1" (notify_all hashes by_http two_calls []).actions ≡ 2
unfolding notify_all
posts_two = refl
