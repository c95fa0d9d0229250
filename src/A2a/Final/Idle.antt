-- ===== src/A2a/Final/Idle.antt =====
-- The jobs of s13code/core/a2a_adapter/server.py and the tasks that have ended.
use s14code.Prelude.{
  String, ◌≡◌, refl, sym, ap, subst, ◌∙◌, Bool, true, false, some, List, [], ◌∷◌, ◌==◌, arith,
  if◌then◌else◌, eq_iff, Bool-cases, Option-cases, inl, inr, if_both, some_inj,
}
use s14code.A2a.{
  Task, is_terminal, find_task, Phase, idle, answering, streaming, queued, sleeping, handling,
  Server, set_phase, keep, has_ended,
}
use s14code.A2a.Calls.{
  work, accept_send, accept_stream, resume_stream, wake_job, HandlerResult, answer, raised,
  complete_task, cancel_task, canceled_at, start_server, is_slow, finished_task,
}
use s14code.A2a.Steps.{
  ◌⟶◌, sent, made_job, streamed, resumed, woke, answered, cancelled, Reach, opened, stepped,
  restarted,
}
use s14code.A2a.Mirror.{find_task-put_task, Restarted, start_server-Restarted}

abbrev pub is_handling : Phase → Bool
is_handling handling = true
is_handling _ = false

abbrev pub is_answering : Phase → Bool
is_answering answering = true
is_answering _ = false

-- No job awaits the handler for a task that has ended.
abbrev pub IsIdleAtEnd : Server → Type 0
IsIdleAtEnd s = (id : String) → is_handling (s.phase id) ≡ true → has_ended id s ≡ false

-- The same, one task left out.
abbrev IsIdleBut : String → Server → Type 0
IsIdleBut id s =
    (x : String) → (x == id) ≡ false → is_handling (s.phase x) ≡ true → has_ended x s ≡ false

-- A change of one task that no job awaits the handler for.
keep-IsIdleAtEnd :
    (id : String) (t : Task) (s : Server)
    → t.id ≡ id
    → is_handling (s.phase id) ≡ false
    → IsIdleAtEnd s
    → IsIdleAtEnd (keep t s)
unfolding keep
keep-IsIdleAtEnd id t s e q h x k = elim (Bool-cases (t.id == x)) [
  | inl same ↦
      absurd (cc (sym k ∙ ap (λ y. is_handling (s.phase y)) (sym ((eq_iff t.id x).0 same) ∙ e) ∙ q))
  | inr other ↦ ground (arith, find_task-put_task x t s.tasks, h x)
]

keep-IsIdleBut :
    (id : String) (t : Task) (s : Server) → t.id ≡ id → IsIdleBut id s → IsIdleBut id (keep t s)
unfolding keep
keep-IsIdleBut id t s e h x other k =
    ground (arith, e, eq_iff x id, eq_iff t.id x, find_task-put_task x t s.tasks, h x other)

moved-IsIdleAtEnd :
    (p : Phase) (id : String) (t : Task) (s : Server)
    → t.id ≡ id
    → is_handling p ≡ false
    → IsIdleBut id s
    → IsIdleAtEnd (set_phase id p (keep t s))
moved-IsIdleAtEnd p id t s e q h x k = elim (Bool-cases (x == id)) [
  | inl same ↦ absurd (cc (rw same at k, q))
  | inr other ↦ keep-IsIdleBut id t s e h x other (rw other at k)
]

set_phase-IsIdleAtEnd :
    (p : Phase) (id : String) (s : Server)
    → (is_handling p ≡ true → has_ended id s ≡ false)
    → IsIdleAtEnd s
    → IsIdleAtEnd (set_phase id p s)
set_phase-IsIdleAtEnd p id s q h x k = elim (Bool-cases (x == id)) [
  | inl same ↦ subst (λ y. has_ended y s ≡ false) (sym ((eq_iff x id).0 same)) (q (rw same at k))
  | inr other ↦ h x (rw other at k)
]

pub find_task-id : (id : String) (ts : List Task) {t : Task} → find_task id ts ≡ some t → t.id ≡ id
find_task-id id [] h = absurd (ground arith)
find_task-id id (u ∷ ts) {t} h = elim (Bool-cases (u.id == id)) [
  | inl same ↦ ap (λ (v : Task). v.id) (sym (some_inj (rw same at h))) ∙ (eq_iff u.id id).0 same
  | inr other ↦ find_task-id id ts (rw other at h)
]

pub finished_task-id :
    (result : HandlerResult) (now : String) (t : Task) → (finished_task result now t).id ≡ t.id
finished_task-id (answer text) now t = refl
finished_task-id (raised text) now t = refl

complete_task-IsIdleAtEnd :
    (result : HandlerResult) (now id : String) (s : Server)
    → IsIdleAtEnd s
    → IsIdleAtEnd (complete_task result now id s)
unfolding complete_task
complete_task-IsIdleAtEnd result now id s h = elim (Option-cases (find_task id s.tasks)) [
  | inl missing ↦ rw (complete_task, missing) h
  | inr (t, found) ↦
      rw (complete_task, found)
        (moved-IsIdleAtEnd idle id (finished_task result now t) s
          (finished_task-id result now t ∙ find_task-id id s.tasks found) refl (λ x other. h x))
]

stop_job-IsIdleAtEnd :
    (id now : String) (t : Task) (s : Server) (p : Phase)
    → s.phase id ≡ p
    → t.id ≡ id
    → IsIdleAtEnd s
    → IsIdleAtEnd (elim p [
      | sleeping ↦ set_phase id idle (keep t s)
      | handling ↦ set_phase id idle (keep t s)
      | _ ↦ keep t s
    ])
stop_job-IsIdleAtEnd id now t s sleeping q e h =
    moved-IsIdleAtEnd idle id t s e refl (λ x other. h x)
stop_job-IsIdleAtEnd id now t s handling q e h =
    moved-IsIdleAtEnd idle id t s e refl (λ x other. h x)
stop_job-IsIdleAtEnd id now t s idle q e h = keep-IsIdleAtEnd id t s e (ap is_handling q) h
stop_job-IsIdleAtEnd id now t s answering q e h = keep-IsIdleAtEnd id t s e (ap is_handling q) h
stop_job-IsIdleAtEnd id now t s streaming q e h = keep-IsIdleAtEnd id t s e (ap is_handling q) h
stop_job-IsIdleAtEnd id now t s queued q e h = keep-IsIdleAtEnd id t s e (ap is_handling q) h

cancel_task-IsIdleAtEnd :
    (now id : String) (s s' : Server)
    → cancel_task now id s ≡ some s'
    → IsIdleAtEnd s
    → IsIdleAtEnd s'
unfolding cancel_task keep
cancel_task-IsIdleAtEnd now id s s' q h = elim (Option-cases (find_task id s.tasks)) [
  | inl missing ↦ absurd (ground arith)
  | inr (t, found) ↦ subst IsIdleAtEnd (some_inj (rw found at q)) (
      if_both IsIdleAtEnd (is_terminal t.state) h (
        stop_job-IsIdleAtEnd id now (canceled_at now t) s (s.phase id) refl
          (find_task-id id s.tasks found) h))
]

start_server-IsIdleAtEnd : (now : String) (s s' : Server) → Restarted now s s' → IsIdleAtEnd s'
start_server-IsIdleAtEnd now s s' r id k = absurd (ground (arith, r.jobs id))

pub step-IsIdleAtEnd : {s s' : Server} → s ⟶ s' → IsIdleAtEnd s → IsIdleAtEnd s'
unfolding accept_send accept_stream resume_stream wake_job
step-IsIdleAtEnd {s = s} (sent now t q) h =
    if_both IsIdleAtEnd (is_slow t.text)
      (moved-IsIdleAtEnd queued t.id (work now t) (keep t s) refl refl
        (keep-IsIdleBut t.id t s refl (λ x other. h x)))
      (moved-IsIdleAtEnd answering t.id t s refl refl (λ x other. h x))
step-IsIdleAtEnd {s = s} (made_job id q) h =
    set_phase-IsIdleAtEnd sleeping id s (λ k. absurd (ground arith)) h
step-IsIdleAtEnd {s = s} (streamed now t q) h =
    moved-IsIdleAtEnd streaming t.id (work now t) (keep t s) refl refl
      (keep-IsIdleBut t.id t s refl (λ x other. h x))
step-IsIdleAtEnd {s = s} (resumed id q) h =
    set_phase-IsIdleAtEnd (if has_ended id s then idle else answering) id s (λ k. ground arith) h
step-IsIdleAtEnd {s = s} (woke id q) h =
    set_phase-IsIdleAtEnd (if has_ended id s then idle else handling) id s (λ k. ground arith) h
step-IsIdleAtEnd {s = s} (answered result now id q) h = complete_task-IsIdleAtEnd result now id s h
step-IsIdleAtEnd {s = s} {s' = s'} (cancelled now id q) h = cancel_task-IsIdleAtEnd now id s s' q h

restart-IsIdleAtEnd :
    (now : String) (s s' : Server) → Reach s → start_server now s.rows ≡ some s' → IsIdleAtEnd s'
restart-IsIdleAtEnd now s s' r h =
    let again = start_server-Restarted now s r in
    subst IsIdleAtEnd (some_inj (sym again.1 ∙ h)) (start_server-IsIdleAtEnd now s again.0 again.2)

pub Reach-IsIdleAtEnd : (s : Server) → Reach s → IsIdleAtEnd s
Reach-IsIdleAtEnd s opened = λ id k. absurd (ground arith)
Reach-IsIdleAtEnd s' (stepped {s = s} r st) = step-IsIdleAtEnd st (Reach-IsIdleAtEnd s r)
Reach-IsIdleAtEnd s' (restarted {s = s} now r h) = restart-IsIdleAtEnd now s s' r h
