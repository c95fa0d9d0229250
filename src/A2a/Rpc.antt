-- ===== src/A2a/Rpc.antt =====
-- `rpc` in s13code/core/a2a_adapter/server.py, for a call that nothing interrupts.
pub mod Inside
use s14code.Prelude.{
  lower, ℕ, zero, suc, String, Bool, true, false, not, ◌&&◌, ◌||◌, Option, none, some, List, [],
  ◌∷◌, ◌++◌, ◌==◌, codes, concat, is_prefix, contains, map, if◌then◌else◌,
}
use s14code.Json.{negsuc, Json, null, int, str, obj, Dict, empty, entry, get, get_or, as_dict}
use s14code.A2a.{Task, wire, find_task, Server}
use s14code.A2a.Calls.{
  Surroundings, text_of, is_value, new_task, is_slow, accept_send, create_job, accept_stream,
  resume_stream, HandlerResult, run_handler, complete_task, get_task, cancel_task,
}

-- The credentials that the server knows, and its handler.
pub record Settings : Type 0 where
  pub bearer_tokens : List String
  pub api_keys : List String
  pub task_handler : Option (String → HandlerResult)

-- The two headers, "" where one is missing, and the JSON of the body.
pub record RpcRequest : Type 0 where
  pub authorization : String
  pub api_key : String
  pub body : Json

-- The status with the JSON: 401, 200, a stream of updates, 400, 404, and 500 for any other exception.
pub data RpcResponse : Type 0 where
  unauthorized response : Dict → RpcResponse
  updates : List Dict → RpcResponse
  bad_request not_found : Dict → RpcResponse
  internal_error : RpcResponse

-- `text[n:]`
abbrev pub drop_text : ℕ → String → String
drop_text zero s = s
drop_text (suc n) String.[] = ""
drop_text (suc n) (String.◌∷◌ c s) = drop_text n s

abbrev pub bearer_of : String → String
bearer_of header =
    if is_prefix (codes "bearer ") (map lower (codes header)) then drop_text 7 header else ""

abbrev pub is_known : String → List String → Bool
is_known secret secrets = not (secret == "") && contains secret secrets

abbrev pub is_public : List String → List String → Bool
is_public [] [] = true
is_public _ _ = false

unfoldable pub is_authorized : Settings → RpcRequest → Bool
is_authorized c r =
    is_public c.bearer_tokens c.api_keys
    || is_known (bearer_of r.authorization) c.bearer_tokens
    || is_known r.api_key c.api_keys

-- `_response`
abbrev pub rpc_response : Json → Dict → Dict
rpc_response id result =
    entry "jsonrpc" (str "2.0") (entry "id" id (entry "result" (obj result) empty))

-- `_error`, with the code -(n + 1).
abbrev pub rpc_error : Json → ℕ → String → Dict
rpc_error id n message = entry "jsonrpc" (str "2.0") (
    entry "id" id (
      entry "error" (obj (entry "code" (int (negsuc n)) (entry "message" (str message) empty)))
        empty))

abbrev pub wires : Option Task → List Dict
wires none = []
wires (some t) = wire t ∷ []

-- `send`, with the job of a slow task not yet awake.
unfoldable pub send_task : Surroundings → Settings → Task → Server → Server
unfolding accept_send complete_task
send_task e c t s =
    if is_slow t.text
    then create_job t.id (accept_send e.now t s)
    else complete_task (run_handler c.task_handler t.text) e.later t.id (accept_send e.now t s)

-- `stream_updates` after its first yield.
unfoldable pub finish_stream : Surroundings → Settings → Task → Server → Server
unfolding resume_stream complete_task
finish_stream e c t s =
    complete_task (run_handler c.task_handler t.text) e.later t.id (resume_stream t.id s)

-- A ValueError of `get` and `cancel`.
abbrev pub missing_task : Json → String → RpcResponse
missing_task request_id id = not_found (rpc_error request_id 32000 (concat "Task not found: " id))

abbrev pub call_send : Surroundings → Settings → Json → Json → Server → RpcResponse × Server
call_send e c request_id params s = elim (new_task e params) [
  | none ↦ (internal_error, s)
  | some t ↦
      let s' = send_task e c t s in
      (
        elim (get_task t.id s') [
          | none ↦ internal_error
          | some result ↦ response (rpc_response request_id result)
        ],
        s',
      )
]

-- The task is made when the stream is read: what is raised there ends a stream that has begun.
abbrev pub call_stream : Surroundings → Settings → Json → Json → Server → RpcResponse × Server
call_stream e c request_id params s = elim (new_task e params) [
  | none ↦ (updates [], s)
  | some t ↦
      let s' = accept_stream e.now t s in
      let s'' = finish_stream e c t s' in
      (
        updates (
            map (rpc_response request_id)
              (wires (find_task t.id s'.tasks) ++ wires (find_task t.id s''.tasks))),
        s'',
      )
]

abbrev pub call_get : Json → String → Server → RpcResponse × Server
call_get request_id id s = elim (get_task id s) [
  | none ↦ (missing_task request_id id, s)
  | some result ↦ (response (rpc_response request_id result), s)
]

abbrev pub call_cancel : Surroundings → Json → String → Server → RpcResponse × Server
call_cancel e request_id id s = elim (cancel_task e.now id s) [
  | none ↦ (missing_task request_id id, s)
  | some s' ↦ (
    elim (get_task id s') [
      | none ↦ internal_error
      | some result ↦ response (rpc_response request_id result)
    ],
    s',
  )
]

-- `str(params.get("id"))`, for a dict.
abbrev pub with_id :
    Surroundings → Json → Server → (String → RpcResponse × Server) → RpcResponse × Server
with_id e (obj params) s next = next (text_of e.repr (get_or params "id" null))
with_id e _ s next = (internal_error, s)

abbrev pub dispatch : Surroundings → Settings → Dict → Server → RpcResponse × Server
dispatch e c body s =
    let method = get_or body "method" null in
    let request_id = get_or body "id" null in
    let params = get_or body "params" (obj empty) in
    if is_value method "message/send"
    then call_send e c request_id params s
    else if is_value method "message/stream"
    then call_stream e c request_id params s
    else if is_value method "tasks/get"
    then with_id e params s (λ id. call_get request_id id s)
    else if is_value method "tasks/cancel"
    then with_id e params s (λ id. call_cancel e request_id id s)
    else (
      bad_request
          (rpc_error request_id 32600 (concat "Unknown A2A method: " (text_of e.repr method))),
      s,
    )

unfoldable pub rpc : Surroundings → Settings → RpcRequest → Server → RpcResponse × Server
unfolding is_authorized
rpc e c r s =
    if is_authorized c r
    then elim r.body [ obj body ↦ dispatch e c body s | _ ↦ (internal_error, s) ]
    else (unauthorized (rpc_error null 32002 "A2A transport authentication required"), s)
