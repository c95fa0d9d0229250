-- ===== src/A2a/Final/Stays.antt =====
-- A task of s13code/core/a2a_adapter/server.py after its end.
use s14code.Prelude.{
  String, ◌≡◌, refl, sym, ap, subst, ◌∙◌, true, false, none, some, List, ◌==◌, ◌⊎◌, arith,
  if◌then◌else◌, eq_iff, Bool-cases, Option-cases, inl, inr, if_both, some_inj,
}
use s14code.A2a.{
  Task, is_terminal, find_task, put_task, Phase, idle, answering, streaming, queued, sleeping,
  handling, Server, set_phase, keep, has_ended,
}
use s14code.A2a.Calls.{
  work, accept_send, accept_stream, resume_stream, wake_job, HandlerResult, complete_task,
  cancel_task, canceled_at, is_slow, finished_task, stop_job,
}
use s14code.A2a.Steps.{
  ◌⟶◌, sent, made_job, streamed, resumed, woke, answered, cancelled, ◌⟶*◌, here, next, Reach,
}
use s14code.A2a.Mirror.{find_task-put_task}
use s14code.A2a.Final.Idle.{
  is_handling, is_answering, IsIdleAtEnd, find_task-id, finished_task-id, Reach-IsIdleAtEnd,
  step-IsIdleAtEnd,
}

-- The task has this end, and no call awaits the handler for it.
pub record HasEnded (id : String) (t : Task) (s : Server) : Type 0 where
  pub found : find_task id s.tasks ≡ some t
  pub ended : is_terminal t.state ≡ true
  pub settled : is_answering (s.phase id) ≡ false

-- A change of another task.
keep-HasEnded :
    (id : String) (t u : Task) (s : Server)
    → (u.id == id) ≡ false
    → HasEnded id t s
    → HasEnded id t (keep u s)
unfolding keep
keep-HasEnded id t u s other h = record {
  found = ground (arith, find_task-put_task id u s.tasks, h.found);
  ended = h.ended;
  settled = h.settled;
}

-- A change of a phase, that of the task itself only to one that is not `answering`.
set_phase-HasEnded :
    (id x : String) (p : Phase) (t : Task) (s : Server)
    → (x ≡ id → is_answering p ≡ false)
    → HasEnded id t s
    → HasEnded id t (set_phase x p s)
set_phase-HasEnded id x p t s q h = record {
  found = h.found;
  ended = h.ended;
  settled = elim (Bool-cases (id == x)) [
    | inl same ↦ rw same (q (sym ((eq_iff id x).0 same)))
    | inr other ↦ rw other h.settled
  ];
}

new-other :
    (id : String) (t u : Task) (ts : List Task)
    → find_task u.id ts ≡ none
    → find_task id ts ≡ some t
    → (u.id == id) ≡ false
new-other id t u ts q found = elim (Bool-cases (u.id == id)) [
  | inl same ↦ absurd (cc (sym q ∙ ap (λ y. find_task y ts) ((eq_iff u.id id).0 same) ∙ found))
  | inr other ↦ other
]

-- The task that is completed is another one.
complete_task-HasEnded :
    (result : HandlerResult) (now id x : String) (t : Task) (s : Server)
    → (x == id) ≡ false
    → HasEnded id t s
    → HasEnded id t (complete_task result now x s)
unfolding complete_task
complete_task-HasEnded result now id x t s other h = elim (Option-cases (find_task x s.tasks)) [
  | inl missing ↦ rw (complete_task, missing) h
  | inr (u, found) ↦
      rw (complete_task, found)
        (set_phase-HasEnded id x idle t (keep (finished_task result now u) s) (λ e. refl)
          (keep-HasEnded id t (finished_task result now u) s
            (ap (λ y. y == id) (finished_task-id result now u ∙ find_task-id x s.tasks found)
              ∙ other)
            h))
]

answered-other :
    (id x : String) (t : Task) (s : Server)
    → IsIdleAtEnd s
    → HasEnded id t s
    → (s.phase x ≡ answering) ⊎ (s.phase x ≡ handling)
    → (x == id) ≡ false
answered-other id x t s q h p = elim (Bool-cases (x == id)) [
  | inr other ↦ other
  | inl same ↦ absurd (
      busy (subst (λ y. (s.phase y ≡ answering) ⊎ (s.phase y ≡ handling)) ((eq_iff x id).0 same) p))
]
  where
    busy : (s.phase id ≡ answering) ⊎ (s.phase id ≡ handling) → ⊥
    busy (inl e) = cc (ap is_answering e, h.settled)
    busy (inr e) = ground (arith, q id (ap is_handling e), h.found, h.ended)

stop_job-HasEnded :
    (id x : String) (t : Task) (s : Server) → HasEnded id t s → HasEnded id t (stop_job x s)
stop_job-HasEnded id x t s h = go (s.phase x)
  where
    go :
        (p : Phase)
        → HasEnded id t
            (elim p [ sleeping ↦ set_phase x idle s | handling ↦ set_phase x idle s | _ ↦ s ])
    go sleeping = set_phase-HasEnded id x idle t s (λ e. refl) h
    go handling = set_phase-HasEnded id x idle t s (λ e. refl) h
    go idle = h
    go answering = h
    go streaming = h
    go queued = h

cancel_task-HasEnded :
    (now id x : String) (t u : Task) (s : Server)
    → find_task x s.tasks ≡ some u
    → HasEnded id t s
    → HasEnded id t (if is_terminal u.state then s else stop_job x (keep (canceled_at now u) s))
cancel_task-HasEnded now id x t u s found h = elim (Bool-cases (x == id)) [
  | inl same ↦
      rw
        (ap (λ v. is_terminal v.state)
            (some_inj (sym found ∙ ap (λ y. find_task y s.tasks) ((eq_iff x id).0 same) ∙ h.found))
          ∙ h.ended)
        h
  | inr other ↦ if_both (HasEnded id t) (is_terminal u.state) h (
      stop_job-HasEnded id x t (keep (canceled_at now u) s) (
        keep-HasEnded id t (canceled_at now u) s
          (ap (λ y. y == id) (find_task-id x s.tasks found) ∙ other) h))
]

step-HasEnded :
    (id : String) (t : Task) {s s' : Server}
    → s ⟶ s'
    → IsIdleAtEnd s
    → HasEnded id t s
    → HasEnded id t s'
unfolding accept_send accept_stream resume_stream wake_job cancel_task
step-HasEnded id t {s = s} (sent now u q) i h =
    if_both (HasEnded id t) (is_slow u.text)
      (set_phase-HasEnded id u.id queued t (keep (work now u) (keep u s)) (λ e. refl)
        (keep-HasEnded id t (work now u) (keep u s) other (keep-HasEnded id t u s other h)))
      (set_phase-HasEnded id u.id answering t (keep u s)
        (λ e. absurd (ground (arith, other, eq_iff u.id id, e))) (keep-HasEnded id t u s other h))
  where
    other : (u.id == id) ≡ false
    other = new-other id t u s.tasks q h.found
step-HasEnded id t {s = s} (made_job x q) i h = set_phase-HasEnded id x sleeping t s (λ e. refl) h
step-HasEnded id t {s = s} (streamed now u q) i h =
    set_phase-HasEnded id u.id streaming t (keep (work now u) (keep u s)) (λ e. refl)
      (keep-HasEnded id t (work now u) (keep u s) other (keep-HasEnded id t u s other h))
  where
    other : (u.id == id) ≡ false
    other = new-other id t u s.tasks q h.found
step-HasEnded id t {s = s} (resumed x q) i h =
    set_phase-HasEnded id x (if has_ended x s then idle else answering) t s
      (λ e. rw e (ground (arith, h.found, h.ended))) h
step-HasEnded id t {s = s} (woke x q) i h =
    set_phase-HasEnded id x (if has_ended x s then idle else handling) t s (λ e. ground arith) h
step-HasEnded id t {s = s} (answered result now x q) i h =
    complete_task-HasEnded result now id x t s (answered-other id x t s i h q) h
step-HasEnded id t {s = s} {s' = s'} (cancelled now x q) i h =
    elim (Option-cases (find_task x s.tasks)) [
      | inl missing ↦ absurd (ground (arith, missing, q))
      | inr (u, found) ↦
          subst (HasEnded id t) (some_inj (rw found at q))
            (cancel_task-HasEnded now id x t u s found h)
    ]

steps-HasEnded :
    (id : String) (t : Task) {s s' : Server}
    → s ⟶* s'
    → IsIdleAtEnd s
    → HasEnded id t s
    → HasEnded id t s'
steps-HasEnded id t here i h = h
steps-HasEnded id t (next st more) i h =
    steps-HasEnded id t more (step-IsIdleAtEnd st i) (step-HasEnded id t st i h)

-- In a reachable server, a task that has ended, for which no `send` or `stream` awaits the
-- handler, keeps its state, its artifacts and its time through whatever the calls and jobs do in
-- whatever order.
pub Reach-HasEnded :
    (id : String) (t : Task) (s s' : Server)
    → Reach s
    → s ⟶* s'
    → HasEnded id t s
    → HasEnded id t s'
Reach-HasEnded id t s s' r more h = steps-HasEnded id t more (Reach-IsIdleAtEnd s r) h

-- Where a `send` or `stream` awaits the handler for a task that has not ended, a cancel of the
-- task is stored, and the call can still complete the task, which is then completed or failed.
pub cancel_task-overwritten :
    (id : String) (t : Task) (s : Server) (now later : String) (result : HandlerResult)
    → find_task id s.tasks ≡ some t
    → is_terminal t.state ≡ false
    → s.phase id ≡ answering
    → (s' : Server) × (cancel_task now id s ≡ some s')
      × (find_task id s'.tasks ≡ some (canceled_at now t))
      × (s' ⟶ complete_task result later id s')
      × (find_task id (complete_task result later id s').tasks
          ≡ some (finished_task result later (canceled_at now t)))
unfolding cancel_task keep complete_task
cancel_task-overwritten id t s now later result found open' waits = (
  keep (canceled_at now t) s,
  rw (found, open', stop_job, waits) refl,
  canceled',
  answered result later id (inl waits),
  rw (complete_task, canceled')
      (ground (
        arith,
        find_task-put_task id (finished_task result later (canceled_at now t))
            (put_task (canceled_at now t) s.tasks),
        same,
        finished_task-id result later (canceled_at now t),
        eq_iff t.id id,
      )),
)
  where
    same : t.id ≡ id
    same = find_task-id id s.tasks found

    canceled' : find_task id (put_task (canceled_at now t) s.tasks) ≡ some (canceled_at now t)
    canceled' =
        ground (arith, find_task-put_task id (canceled_at now t) s.tasks, same, eq_iff t.id id)
