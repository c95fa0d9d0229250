-- ===== src/A2a/Mirror/Restart.antt =====
-- `__init__` and `start` of s13code/core/a2a_adapter/server.py on the table of a server that stopped
-- at any point.
use s14code.Prelude.{
  String, ◌≡◌, refl, sym, ap, subst, ◌∙◌, none, some, List, [], ◌∷◌, ◌==◌, ◌>>=◌, arith,
  if◌then◌else◌, eq_iff, Bool-cases, inl, inr, some_inj,
}
use s14code.A2a.{Task, is_terminal, find_task, load_all, idle, sleeping, Server, keep}
use s14code.A2a.Calls.{work, create_job, start_tasks, start_server}
use s14code.A2a.Steps.{Reach, opened, stepped, restarted}
use s14code.A2a.Mirror.Kept.{start_tasks-Mirrors, step-Mirrors}
use s14code.A2a.Mirror.Table.{
  IsDistinct, put_all, find_task-put_task, Mirrors, load_onto-row_of, find_task-put_all,
  IsDistinct-put_all,
}

-- What a server is after a restart at a time, by what it was before.
pub record Restarted (now : String) (s s' : Server) : Type 0 where
  pub tasks :
      (id : String)
      → find_task id s'.tasks ≡ elim (find_task id s.tasks) [
        | none ↦ none
        | some t ↦ some (if is_terminal t.state then t else work now t)
      ]
  pub jobs :
      (id : String)
      → s'.phase id ≡ elim (find_task id s.tasks) [
        | none ↦ idle
        | some t ↦ if is_terminal t.state then idle else sleeping
      ]

start_tasks-find_task :
    (now x : String) (ts : List Task) (s : Server)
    → IsDistinct ts
    → find_task x (start_tasks now ts s).tasks ≡ elim (find_task x ts) [
      | none ↦ find_task x s.tasks
      | some t ↦ if is_terminal t.state then find_task x s.tasks else some (work now t)
    ]
unfolding start_tasks keep
start_tasks-find_task now x [] s h = refl
start_tasks-find_task now x (t ∷ ts) s h = elim (Bool-cases (t.id == x)) [
  | inl same ↦ ground (
    arith,
    start_tasks-find_task now x ts s h.1,
    start_tasks-find_task now x ts (create_job t.id (keep (work now t) s)) h.1,
    find_task-put_task x (work now t) s.tasks,
    subst (λ y. find_task y ts ≡ none) ((eq_iff t.id x).0 same) h.0,
  )
  | inr other ↦ ground (
    arith,
    start_tasks-find_task now x ts s h.1,
    start_tasks-find_task now x ts (create_job t.id (keep (work now t) s)) h.1,
    find_task-put_task x (work now t) s.tasks,
  )
]

start_tasks-phase :
    (now x : String) (ts : List Task) (s : Server)
    → IsDistinct ts
    → (start_tasks now ts s).phase x ≡ elim (find_task x ts) [
      | none ↦ s.phase x
      | some t ↦ if is_terminal t.state then s.phase x else sleeping
    ]
unfolding start_tasks keep
start_tasks-phase now x [] s h = refl
start_tasks-phase now x (t ∷ ts) s h = elim (Bool-cases (t.id == x)) [
  | inl same ↦ ground (
    arith,
    eq_iff t.id x,
    eq_iff x t.id,
    start_tasks-phase now x ts s h.1,
    start_tasks-phase now x ts (create_job t.id (keep (work now t) s)) h.1,
    subst (λ y. find_task y ts ≡ none) ((eq_iff t.id x).0 same) h.0,
  )
  | inr other ↦ ground (
    arith,
    eq_iff t.id x,
    eq_iff x t.id,
    start_tasks-phase now x ts s h.1,
    start_tasks-phase now x ts (create_job t.id (keep (work now t) s)) h.1,
  )
]

-- The server that `__init__` makes of a table, before `start`.
abbrev loaded : (s : Server) → Mirrors s → Server
loaded s m = record { tasks = put_all [] m.table; rows = s.rows; phase = λ _. idle }

loaded-find_task :
    (s : Server) (m : Mirrors s) (id : String)
    → find_task id (put_all [] m.table) ≡ find_task id s.tasks
loaded-find_task s m id = ground (arith, find_task-put_all id [] m.table m.distinct, m.agree id)

loaded-Mirrors : (s : Server) (m : Mirrors s) → Mirrors (loaded s m)
loaded-Mirrors s m = record {
  table = m.table;
  rows = m.rows;
  distinct = m.distinct;
  agree = λ id. m.agree id ∙ sym (loaded-find_task s m id);
}

start_server-loaded :
    (now : String) (s : Server) (m : Mirrors s)
    → start_server now s.rows ≡ some (start_tasks now (put_all [] m.table) (loaded s m))
unfolding start_server
start_server-loaded now s m =
    ap
      (λ o. o >>= λ ts.
        some (start_tasks now ts (record { tasks = ts; rows = s.rows; phase = λ _. idle })))
      (ap load_all m.rows ∙ load_onto-row_of [] m.table)

start_tasks-Restarted :
    (now : String) (s : Server) (m : Mirrors s)
    → Restarted now s (start_tasks now (put_all [] m.table) (loaded s m))
start_tasks-Restarted now s m = record {
  tasks = λ id. ground (
    arith,
    start_tasks-find_task now id (put_all [] m.table) (loaded s m) distinct,
    loaded-find_task s m id,
  );
  jobs = λ id. ground (
    arith,
    start_tasks-phase now id (put_all [] m.table) (loaded s m) distinct,
    loaded-find_task s m id,
  );
}
  where
    distinct : IsDistinct (put_all [] m.table)
    distinct = IsDistinct-put_all [] m.table tt

restart-Mirrors :
    (now : String) (s s' : Server) → Mirrors s → start_server now s.rows ≡ some s' → Mirrors s'
restart-Mirrors now s s' m h =
    subst Mirrors (some_inj (sym (start_server-loaded now s m) ∙ h))
      (start_tasks-Mirrors now (put_all [] m.table) (loaded s m) (loaded-Mirrors s m))

pub Reach-Mirrors : (s : Server) → Reach s → Mirrors s
Reach-Mirrors s opened = record { table = []; rows = refl; distinct = tt; agree = λ id. refl }
Reach-Mirrors s' (stepped {s = s} r st) = step-Mirrors st (Reach-Mirrors s r)
Reach-Mirrors s' (restarted {s = s} now r h) = restart-Mirrors now s s' (Reach-Mirrors s r) h

-- Wherever a server of the reachable ones stops, a new one starts from its table: for each id it
-- has the task that the old one had, a task that has not ended set to working with a sleeping
-- job, and one that has ended as it was with no job.
pub start_server-Restarted :
    (now : String) (s : Server)
    → Reach s
    → (s' : Server) × (start_server now s.rows ≡ some s') × Restarted now s s'
start_server-Restarted now s r = (
  start_tasks now (put_all [] m.table) (loaded s m),
  start_server-loaded now s m,
  start_tasks-Restarted now s m,
)
  where
    m : Mirrors s
    m = Reach-Mirrors s r
