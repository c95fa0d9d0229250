-- ===== src/A2a/Rpc/Inside.antt =====
-- What a call of `rpc` in s13code/core/a2a_adapter/server.py does to the tasks.
use s14code.Prelude.{
  String, ◌≡◌, ◌⊎◌, refl, ap, sym, ◌∙◌, true, false, none, some, >>=-some, Bool-cases, Option-cases,
  inl, inr, if_both, if_cases, some_inj, eq_refl,
}
use s14code.Json.{Json, null, bool, int, str, arr, obj, nil, Dict, empty, get_or, as_dict}
use s14code.A2a.{
  Task, find_task, put_task, Phase, answering, streaming, queued, Server, set_phase, keep,
  has_ended,
}
use s14code.A2a.Calls.{
  Surroundings, text_of, part_items, part_texts, token_of, new_task, work, accept_send,
  accept_stream, resume_stream, is_slow, run_handler, cancel_task, is_value, get_task,
}
use s14code.A2a.Steps.{sent, made_job, streamed, resumed, answered, cancelled, ◌⟶*◌, here, next}
use s14code.A2a.Mirror.{find_task-put_task}
use s14code.A2a.Rpc.{
  Settings, RpcRequest, RpcResponse, unauthorized, internal_error, is_authorized, send_task,
  finish_stream, call_send, call_stream, call_get, call_cancel, with_id, dispatch, rpc, rpc_error,
}

new_task-id : (e : Surroundings) (v : Json) (t : Task) → new_task e v ≡ some t → t.id ≡ e.new_id
unfolding new_task
new_task-id e v = >>=-some P (as_dict v) _ (λ params.
    >>=-some P (as_dict (get_or params "message" (obj empty))) _ (λ message.
      >>=-some P (part_items (get_or message "parts" (arr nil))) _ (λ parts.
        >>=-some P (part_texts e.repr parts) _ (λ texts.
          >>=-some P (as_dict (get_or params "configuration" (obj empty))) _ (λ config.
            >>=-some P (as_dict (get_or config "pushNotificationConfig" (obj empty))) _ (λ push.
              >>=-some P (token_of push) _
                (λ token t h. ap (λ (u : Task). u.id) (sym (some_inj h)))))))))
  where
    P : Task → Type 0
    P t = t.id ≡ e.new_id

-- The phase that a new task is put in.
phase-set_phase : (id : String) (p : Phase) (s : Server) → (set_phase id p s).phase id ≡ p
phase-set_phase id p s = rw (eq_refl id) refl

accept_send-queued :
    (now : String) (t : Task) (s : Server)
    → is_slow t.text ≡ true
    → (accept_send now t s).phase t.id ≡ queued
unfolding accept_send
accept_send-queued now t s slow =
    rw slow (phase-set_phase t.id queued (keep (work now t) (keep t s)))

accept_send-answering :
    (now : String) (t : Task) (s : Server)
    → is_slow t.text ≡ false
    → (accept_send now t s).phase t.id ≡ answering
unfolding accept_send
accept_send-answering now t s quick = rw quick (phase-set_phase t.id answering (keep t s))

send_task-steps :
    (e : Surroundings) (c : Settings) (t : Task) (s : Server)
    → find_task t.id s.tasks ≡ none
    → s ⟶* send_task e c t s
unfolding send_task
send_task-steps e c t s h =
    if_cases (λ s'. s ⟶* s') (is_slow t.text)
      (λ slow.
        next (sent e.now t h) (next (made_job t.id (accept_send-queued e.now t s slow)) here))
      (λ quick. next (sent e.now t h) (
        next
          (answered (run_handler c.task_handler t.text) e.later t.id
            (inl (accept_send-answering e.now t s quick)))
          here))

accept_stream-streaming :
    (now : String) (t : Task) (s : Server) → (accept_stream now t s).phase t.id ≡ streaming
unfolding accept_stream
accept_stream-streaming now t s = phase-set_phase t.id streaming (keep (work now t) (keep t s))

accept_stream-open :
    (now : String) (t : Task) (s : Server) → has_ended t.id (accept_stream now t s) ≡ false
unfolding accept_stream keep
accept_stream-open now t s =
    rw (has_ended, find_task-put_task t.id (work now t) (put_task t s.tasks), eq_refl t.id) refl

resume_stream-answering :
    (id : String) (s : Server) → has_ended id s ≡ false → (resume_stream id s).phase id ≡ answering
unfolding resume_stream
resume_stream-answering id s h = rw (h, eq_refl id) refl

stream-steps :
    (e : Surroundings) (c : Settings) (t : Task) (s : Server)
    → find_task t.id s.tasks ≡ none
    → s ⟶* finish_stream e c t (accept_stream e.now t s)
unfolding finish_stream
stream-steps e c t s h = next (streamed e.now t h) (
    next (resumed t.id (accept_stream-streaming e.now t s)) (
      next
        (answered (run_handler c.task_handler t.text) e.later t.id (
          inl (
            resume_stream-answering t.id (accept_stream e.now t s) (accept_stream-open e.now t s))))
        here))

module _ (e : Surroundings) (c : Settings) (s : Server)
    (fresh : find_task e.new_id s.tasks ≡ none) where
  -- The server after a call is one that steps lead to.
  abbrev Led : RpcResponse × Server → Type 0
  Led r = s ⟶* r.1

  is_new : (v : Json) (t : Task) → new_task e v ≡ some t → find_task t.id s.tasks ≡ none
  is_new v t h = ap (λ id. find_task id s.tasks) (new_task-id e v t h) ∙ fresh

  call_send-steps : (request_id v : Json) → Led (call_send e c request_id v s)
  call_send-steps request_id v = elim (Option-cases (new_task e v)) [
    | inl missing ↦ rw (call_send, missing) here
    | inr (t, made) ↦ rw (call_send, made) (send_task-steps e c t s (is_new v t made))
  ]

  call_stream-steps : (request_id v : Json) → Led (call_stream e c request_id v s)
  call_stream-steps request_id v = elim (Option-cases (new_task e v)) [
    | inl missing ↦ rw (call_stream, missing) here
    | inr (t, made) ↦ rw (call_stream, made) (stream-steps e c t s (is_new v t made))
  ]

  call_get-steps : (request_id : Json) (id : String) → Led (call_get request_id id s)
  call_get-steps request_id id = elim (Option-cases (get_task id s)) [
    | inl missing ↦ rw (call_get, missing) here
    | inr (t, found) ↦ rw (call_get, found) here
  ]

  call_cancel-steps : (request_id : Json) (id : String) → Led (call_cancel e request_id id s)
  call_cancel-steps request_id id = elim (Option-cases (cancel_task e.now id s)) [
    | inl missing ↦ rw (call_cancel, missing) here
    | inr (s', done) ↦ rw (call_cancel, done) (next (cancelled e.now id done) here)
  ]

  with_id-steps :
      (v : Json) (rest : String → RpcResponse × Server)
      → ((id : String) → Led (rest id))
      → Led (with_id e v s rest)
  with_id-steps (obj params) rest h = h (text_of e.repr (get_or params "id" null))
  with_id-steps null rest h = here
  with_id-steps (bool b) rest h = here
  with_id-steps (int n) rest h = here
  with_id-steps (str t) rest h = here
  with_id-steps (arr xs) rest h = here

  dispatch-steps : (body : Dict) → Led (dispatch e c body s)
  dispatch-steps body =
      if_both Led (is_value method "message/send") (call_send-steps request_id params) (
        if_both Led (is_value method "message/stream") (call_stream-steps request_id params) (
          if_both Led (is_value method "tasks/get")
            (with_id-steps params (λ id. call_get request_id id s) (call_get-steps request_id))
            (if_both Led (is_value method "tasks/cancel")
              (with_id-steps params (λ id. call_cancel e request_id id s)
                (call_cancel-steps request_id))
              here)))
    where
      method : Json
      method = get_or body "method" null

      request_id : Json
      request_id = get_or body "id" null

      params : Json
      params = get_or body "params" (obj empty)

  body-steps :
      (body : Json) → Led (elim body [ obj d ↦ dispatch e c d s | _ ↦ (internal_error, s) ])
  body-steps (obj d) = dispatch-steps d
  body-steps null = here
  body-steps (bool b) = here
  body-steps (int n) = here
  body-steps (str t) = here
  body-steps (arr xs) = here

  -- Where the new id is one that no task has, a call of `rpc` that nothing interrupts changes
  -- the server only by the steps of `send`, `stream`, `cancel` and the jobs, and it is
  -- authorized, or it changes nothing and is answered with the authentication error.
  pub rpc-steps :
      (r : RpcRequest)
      → (s ⟶* (rpc e c r s).1)
        × ((is_authorized c r ≡ true)
            ⊎ (rpc e c r s
                ≡ (unauthorized (rpc_error null 32002 "A2A transport authentication required"), s)))
  unfolding rpc
  rpc-steps r = (
    if_both Led (is_authorized c r) (body-steps r.body) here,
    elim (Bool-cases (is_authorized c r)) [
      | inl known ↦ inl known
      | inr unknown ↦ inr (rw unknown refl)
    ],
  )
