-- ===== src/A2a/Mirror/Table.antt =====
-- The table a2a_tasks of s13code/core/a2a_adapter/server.py against the tasks in memory.
use s14code.Prelude.{
  String, ◌≡◌, refl, ap, subst, ◌∙◌, not, none, some, List, [], ◌∷◌, ◌++◌, ◌==◌, arith,
  first-append, map, select, if◌then◌else◌, eq_iff, Bool-cases, inl, inr,
}
use s14code.Json.{get}
use s14code.A2a.{
  TaskState, submitted, working, completed, failed, canceled, state_value, state_from, Task,
  task_payload, read_task, row_of, save, find_task, put_task, load_onto, Server, keep,
}

state_from-state_value : (st : TaskState) → state_from (state_value st) ≡ some st
state_from-state_value submitted = refl
state_from-state_value working = refl
state_from-state_value completed = refl
state_from-state_value failed = refl
state_from-state_value canceled = refl

-- A task is read back as it was saved.
pub read_task-task_payload : (t : Task) → read_task (task_payload t) ≡ some t
unfolding read_task get
read_task-task_payload t = rw (state_from-state_value t.state) refl

-- No two tasks have the same id.
abbrev pub IsDistinct : List Task → Type 0
IsDistinct [] = Unit
IsDistinct (t ∷ ts) = (find_task t.id ts ≡ none) × IsDistinct ts

abbrev pub without : String → List Task → List Task
without id ts = select (λ u. not (u.id == id)) ts

-- The tasks of a table after a save.
abbrev pub saved : Task → List Task → List Task
saved t ts = without t.id ts ++ t ∷ []

pub find_task-put_task :
    (x : String) (t : Task) (ts : List Task)
    → find_task x (put_task t ts) ≡ (if t.id == x then some t else find_task x ts)
find_task-put_task x t [] = refl
find_task-put_task x t (u ∷ ts) =
    ground (arith, eq_iff u.id t.id, eq_iff t.id x, eq_iff u.id x, find_task-put_task x t ts)

find_task-without :
    (x id : String) (ts : List Task)
    → find_task x (without id ts) ≡ (if id == x then none else find_task x ts)
find_task-without x id [] = ground arith
find_task-without x id (u ∷ ts) =
    ground (arith, eq_iff u.id id, eq_iff id x, eq_iff u.id x, find_task-without x id ts)

pub find_task-saved :
    (x : String) (t : Task) (ts : List Task)
    → find_task x (saved t ts) ≡ (if t.id == x then some t else find_task x ts)
find_task-saved x t ts =
    ground
      (arith, first-append (λ u. u.id == x) (without t.id ts) (t ∷ []), find_task-without x t.id ts)

IsDistinct-saved : (t : Task) (ts : List Task) → IsDistinct ts → IsDistinct (saved t ts)
IsDistinct-saved t [] h = (refl, tt)
IsDistinct-saved t (u ∷ ts) h = elim (Bool-cases (u.id == t.id)) [
  | inl same ↦ rw same (IsDistinct-saved t ts h.1)
  | inr other ↦ rw other (
    ground (arith, find_task-saved u.id t ts, eq_iff u.id t.id, eq_iff t.id u.id),
    IsDistinct-saved t ts h.1,
  )
]

select-row_of :
    (id : String) (ts : List Task)
    → select (λ r. not (r.0 == id)) (map row_of ts) ≡ map row_of (without id ts)
select-row_of id [] = refl
select-row_of id (u ∷ ts) = ground (arith, select-row_of id ts)

map-snoc : (ts : List Task) (t : Task) → map row_of ts ++ row_of t ∷ [] ≡ map row_of (ts ++ t ∷ [])
map-snoc [] t = refl
map-snoc (u ∷ ts) t = ap (λ rs. row_of u ∷ rs) (map-snoc ts t)

save-row_of : (t : Task) (ts : List Task) → save t (map row_of ts) ≡ map row_of (saved t ts)
save-row_of t ts =
    ap (λ rs. rs ++ row_of t ∷ []) (select-row_of t.id ts) ∙ map-snoc (without t.id ts) t

-- The table holds the tasks in memory, each once.
pub record Mirrors (s : Server) : Type 0 where
  pub table : List Task
  pub rows : s.rows ≡ map row_of table
  pub distinct : IsDistinct table
  pub agree : (id : String) → find_task id table ≡ find_task id s.tasks

pub keep-Mirrors : (t : Task) (s : Server) → Mirrors s → Mirrors (keep t s)
unfolding keep
keep-Mirrors t s m = record {
  table = saved t m.table;
  rows = ap (save t) m.rows ∙ save-row_of t m.table;
  distinct = IsDistinct-saved t m.table m.distinct;
  agree = λ id. rw (find_task-saved id t m.table, find_task-put_task id t s.tasks, m.agree id) refl;
}

-- The tasks that `load_all` puts one after the other.
abbrev pub put_all : List Task → List Task → List Task
put_all ts [] = ts
put_all ts (u ∷ us) = put_all (put_task u ts) us

pub load_onto-row_of : (ts us : List Task) → load_onto ts (map row_of us) ≡ some (put_all ts us)
load_onto-row_of ts [] = refl
load_onto-row_of ts (u ∷ us) = rw (read_task-task_payload u) (load_onto-row_of (put_task u ts) us)

pub find_task-put_all :
    (x : String) (ts us : List Task)
    → IsDistinct us
    → find_task x (put_all ts us)
      ≡ elim (find_task x us) [ none ↦ find_task x ts | some u ↦ some u ]
find_task-put_all x ts [] h = refl
find_task-put_all x ts (u ∷ us) h = elim (Bool-cases (u.id == x)) [
  | inl same ↦ ground (
    arith,
    find_task-put_all x (put_task u ts) us h.1,
    find_task-put_task x u ts,
    subst (λ y. find_task y us ≡ none) ((eq_iff u.id x).0 same) h.0,
  )
  | inr other ↦
      ground (arith, find_task-put_all x (put_task u ts) us h.1, find_task-put_task x u ts)
]

pub IsDistinct-put_task : (t : Task) (ts : List Task) → IsDistinct ts → IsDistinct (put_task t ts)
IsDistinct-put_task t [] h = (refl, tt)
IsDistinct-put_task t (u ∷ ts) h = elim (Bool-cases (u.id == t.id)) [
  | inl same ↦ rw same (subst (λ y. find_task y ts ≡ none) ((eq_iff u.id t.id).0 same) h.0, h.1)
  | inr other ↦ rw other (
    ground (arith, find_task-put_task u.id t ts, eq_iff u.id t.id, eq_iff t.id u.id, h.0),
    IsDistinct-put_task t ts h.1,
  )
]

pub IsDistinct-put_all : (ts us : List Task) → IsDistinct ts → IsDistinct (put_all ts us)
IsDistinct-put_all ts [] h = h
IsDistinct-put_all ts (u ∷ us) h =
    IsDistinct-put_all (put_task u ts) us (IsDistinct-put_task u ts h)
