-- ===== src/A2a/Mirror/Kept.antt =====
-- Every step of the server of s13code/core/a2a_adapter/server.py and its table.
use s14code.Prelude.{
  String, ◌≡◌, subst, some, List, [], ◌∷◌, arith, if◌then◌else◌, Option-cases, inl, inr, if_both,
  some_inj,
}
use s14code.A2a.{
  Task, is_terminal, find_task, Phase, idle, answering, streaming, queued, sleeping, handling,
  Server, set_phase, keep, has_ended,
}
use s14code.A2a.Calls.{
  work, accept_send, create_job, accept_stream, resume_stream, wake_job, HandlerResult,
  complete_task, cancel_task, canceled_at, start_tasks, is_slow, finished_task, stop_job,
}
use s14code.A2a.Steps.{◌⟶◌, sent, made_job, streamed, resumed, woke, answered, cancelled}
use s14code.A2a.Mirror.Table.{Mirrors, keep-Mirrors}

-- The phases are not in the table.
set_phase-Mirrors : (id : String) (p : Phase) (s : Server) → Mirrors s → Mirrors (set_phase id p s)
set_phase-Mirrors id p s m = record {
  table = m.table;
  rows = m.rows;
  distinct = m.distinct;
  agree = m.agree;
}

pub start_tasks-Mirrors :
    (now : String) (ts : List Task) (s : Server) → Mirrors s → Mirrors (start_tasks now ts s)
unfolding start_tasks
start_tasks-Mirrors now [] s m = m
start_tasks-Mirrors now (t ∷ ts) s m =
    if_both Mirrors (is_terminal t.state) (start_tasks-Mirrors now ts s m) (
      start_tasks-Mirrors now ts (create_job t.id (keep (work now t) s))
        (set_phase-Mirrors t.id sleeping (keep (work now t) s) (keep-Mirrors (work now t) s m)))

complete_task-Mirrors :
    (result : HandlerResult) (now id : String) (s : Server)
    → Mirrors s
    → Mirrors (complete_task result now id s)
unfolding complete_task
complete_task-Mirrors result now id s m = elim (Option-cases (find_task id s.tasks)) [
  | inl missing ↦ rw (complete_task, missing) m
  | inr (t, found) ↦
      rw (complete_task, found)
        (set_phase-Mirrors id idle (keep (finished_task result now t) s)
          (keep-Mirrors (finished_task result now t) s m))
]

stop_job-Mirrors : (id : String) (s : Server) → Mirrors s → Mirrors (stop_job id s)
stop_job-Mirrors id s m = go (s.phase id)
  where
    go :
        (p : Phase)
        → Mirrors
            (elim p [ sleeping ↦ set_phase id idle s | handling ↦ set_phase id idle s | _ ↦ s ])
    go sleeping = set_phase-Mirrors id idle s m
    go handling = set_phase-Mirrors id idle s m
    go idle = m
    go answering = m
    go streaming = m
    go queued = m

cancel_task-Mirrors :
    (now id : String) (s s' : Server) → cancel_task now id s ≡ some s' → Mirrors s → Mirrors s'
unfolding cancel_task
cancel_task-Mirrors now id s s' h m = elim (Option-cases (find_task id s.tasks)) [
  | inl missing ↦ absurd (ground arith)
  | inr (t, found) ↦ subst Mirrors (some_inj (rw found at h)) (
      if_both Mirrors (is_terminal t.state) m
        (stop_job-Mirrors id (keep (canceled_at now t) s) (keep-Mirrors (canceled_at now t) s m)))
]

pub step-Mirrors : {s s' : Server} → s ⟶ s' → Mirrors s → Mirrors s'
unfolding accept_send accept_stream resume_stream wake_job
step-Mirrors {s = s} (sent now t h) m =
    if_both Mirrors (is_slow t.text)
      (set_phase-Mirrors t.id queued (keep (work now t) (keep t s))
        (keep-Mirrors (work now t) (keep t s) (keep-Mirrors t s m)))
      (set_phase-Mirrors t.id answering (keep t s) (keep-Mirrors t s m))
step-Mirrors {s = s} (made_job id h) m = set_phase-Mirrors id sleeping s m
step-Mirrors {s = s} (streamed now t h) m =
    set_phase-Mirrors t.id streaming (keep (work now t) (keep t s))
      (keep-Mirrors (work now t) (keep t s) (keep-Mirrors t s m))
step-Mirrors {s = s} (resumed id h) m =
    set_phase-Mirrors id (if has_ended id s then idle else answering) s m
step-Mirrors {s = s} (woke id h) m =
    set_phase-Mirrors id (if has_ended id s then idle else handling) s m
step-Mirrors {s = s} (answered result now id h) m = complete_task-Mirrors result now id s m
step-Mirrors {s = s} {s' = s'} (cancelled now id h) m = cancel_task-Mirrors now id s s' h m
