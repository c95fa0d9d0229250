-- ===== src/Graph/Patch/Checks.antt =====
-- `apply_patch` of s13code/core/live_graph/store.py: its checks, one by one.
use s14code.Prelude.{
  String, ◌≡◌, refl, ◌∙◌, ap, Bool, true, false, not, ◌||◌, Option, none, some, List, [], ◌∷◌, ◌++◌,
  map, arith, ◌==◌, eq_iff, eq_refl, eq→path, contains, Bool-cases, Option-cases, first, inl, inr,
  subst, sym, any, All,
}
use s14code.Graph.Model.{
  NodeState, TaskSpec, GraphPatch, NodeRow, GraphDb, GraphSnapshot, ok, guard, GraphError,
  finished_graph, duplicate_task, is_pending, is_waiting,
}
use s14code.Graph.Store.{is_node, nodes_of, edges_of, by_id, by_parent, snapshot, is_finished}
use s14code.Graph.Patch.{
  ids_of, add_ids, has_duplicates, new_row, state_in, check_edges, check_known, check_cancel,
  check_wait, check_resume, check_open, check_pending, check_waiting, check_patch, insert_tasks,
}
use s14code.Graph.Patch.Shape.{>>=-ok, guard-ok}
use s14code.Graph.Patch.States.{state_of, open_in, IsKeyed}
use s14code.Graph.Patch.Keys.{state_in-snapshot, contains-snapshot, any-new_row, IsKeyed-append}

abbrev pub pending_in : Option NodeState → Bool
pending_in none = true
pending_in (some s) = is_pending s

abbrev pub waiting_in : Option NodeState → Bool
waiting_in none = true
waiting_in (some s) = is_waiting s

module _ (rows : List NodeRow) (id : String) where
  -- A test of one task among those that a check goes through.
  named :
      (P : Option NodeState → Bool) (n : String) (ns : List String)
      → P (state_in rows n) ≡ true
      → (contains id ns ≡ true → P (state_in rows id) ≡ true)
      → contains id (n ∷ ns) ≡ true
      → P (state_in rows id) ≡ true
  named P n ns here later k = elim (Bool-cases (id == n)) [
    | inl same ↦ subst (λ x. P (state_in rows x) ≡ true) (sym (eq→path id n same)) here
    | inr other ↦ later (ground arith)
  ]

  check_open-ok :
      (n : String) (o : Option NodeState) {u : Unit {0}} → check_open n o ≡ ok u → open_in o ≡ true
  check_open-ok n none h = cc
  check_open-ok n (some s) h = guard-ok _ _ h

  check_pending-ok :
      (n : String) (o : Option NodeState) {u : Unit {0}}
      → check_pending n o ≡ ok u
      → pending_in o ≡ true
  check_pending-ok n none h = refl
  check_pending-ok n (some s) h = guard-ok _ _ h

  check_waiting-ok :
      (n : String) (o : Option NodeState) {u : Unit {0}}
      → check_waiting n o ≡ ok u
      → waiting_in o ≡ true
  check_waiting-ok n none h = refl
  check_waiting-ok n (some s) h = guard-ok _ _ h

  -- A task that a patch cancels is open, one that it parks is pending or new, and one that it
  -- resumes is waiting or new.
  pub check_cancel-open :
      (ids : List String) {u : Unit {0}}
      → check_cancel rows ids ≡ ok u
      → contains id ids ≡ true
      → open_in (state_in rows id) ≡ true
  unfolding check_cancel
  check_cancel-open [] h k = cc
  check_cancel-open (n ∷ ns) h k =
      let (_, first_ok, rest_ok) = >>=-ok (check_open n (state_in rows n)) _ h in
      named open_in n ns (check_open-ok n _ first_ok) (check_cancel-open ns rest_ok) k

  pub check_wait-pending :
      (ids : List String) {u : Unit {0}}
      → check_wait rows ids ≡ ok u
      → contains id ids ≡ true
      → pending_in (state_in rows id) ≡ true
  unfolding check_wait
  check_wait-pending [] h k = cc
  check_wait-pending (n ∷ ns) h k =
      let (_, first_ok, rest_ok) = >>=-ok (check_pending n (state_in rows n)) _ h in
      named pending_in n ns (check_pending-ok n _ first_ok) (check_wait-pending ns rest_ok) k

  pub check_resume-waiting :
      (ids : List String) {u : Unit {0}}
      → check_resume rows ids ≡ ok u
      → contains id ids ≡ true
      → waiting_in (state_in rows id) ≡ true
  unfolding check_resume
  check_resume-waiting [] h k = cc
  check_resume-waiting (n ∷ ns) h k =
      let (_, first_ok, rest_ok) = >>=-ok (check_waiting n (state_in rows n)) _ h in
      named waiting_in n ns (check_waiting-ok n _ first_ok) (check_resume-waiting ns rest_ok) k

-- What the checks of a patch ensure, together.
pub record Checked (existing : GraphSnapshot) (patch : GraphPatch) : Type 0 where
  pub unfinished : existing.finished ≡ false
  pub distinct : has_duplicates (add_ids patch) ≡ false
  pub fresh : any (λ id. contains id (ids_of existing.nodes)) (add_ids patch) ≡ false
  pub edges_ok : check_edges (ids_of existing.nodes ++ add_ids patch) patch.connect ≡ ok tt
  pub cancel_ok : check_cancel existing.nodes patch.cancel ≡ ok tt
  pub wait_ok : check_wait existing.nodes patch.wait ≡ ok tt
  pub resume_ok : check_resume existing.nodes patch.resume ≡ ok tt

guard-not : (a : Bool) (e : GraphError) {u : Unit {0}} → guard (not a) e ≡ ok u → a ≡ false
guard-not a e h = ground arith

guard_none :
    (a b : Bool) (e : GraphError) {u : Unit {0}}
    → guard (not (a || b)) e ≡ ok u
    → (a ≡ false) × (b ≡ false)
guard_none a b e h = ground arith

pub check_patch-Checked :
    (existing : GraphSnapshot) (patch : GraphPatch)
    → check_patch existing patch ≡ ok tt
    → Checked existing patch
unfolding check_patch
check_patch-Checked existing patch h =
    let ids = ids_of existing.nodes in
    let added = add_ids patch in
    let taken = any (λ id. contains id ids) added in
    let (_, h1, r1) = >>=-ok (guard (not existing.finished) finished_graph) _ h in
    let (_, h2, r2) = >>=-ok (guard (not (has_duplicates added || taken)) duplicate_task) _ r1 in
    let (_, h3, r3) = >>=-ok (check_edges (ids ++ added) patch.connect) _ r2 in
    let (_, h4, r4) =
      >>=-ok (check_known (ids ++ added) (patch.cancel ++ (patch.wait ++ patch.resume))) _ r3 in
    let (_, h5, r5) = >>=-ok (check_cancel existing.nodes patch.cancel) _ r4 in
    let (_, h6, h7) = >>=-ok (check_wait existing.nodes patch.wait) _ r5 in
    let (no_duplicates, no_old) = guard_none (has_duplicates added) taken duplicate_task h2 in
    record {
      unfinished = guard-not existing.finished finished_graph h1;
      distinct = no_duplicates;
      fresh = no_old;
      edges_ok = h3;
      cancel_ok = h5;
      wait_ok = h6;
      resume_ok = h7;
    }

-- The snapshot of a run that is there.
pub record Read (db : GraphDb) (run_id : String) (existing : GraphSnapshot) : Type 0 where
  pub nodes : existing.nodes ≡ by_id (nodes_of db run_id)
  pub edges : existing.edges ≡ by_parent (edges_of db run_id)
  pub finished : existing.finished ≡ is_finished db run_id

pub snapshot-Read :
    (db : GraphDb) (run_id : String) (existing : GraphSnapshot)
    → snapshot db run_id ≡ ok existing
    → Read db run_id existing
unfolding snapshot is_finished
snapshot-Read db run_id existing h = elim (Option-cases (first (λ r. r.id == run_id) db.runs)) [
  | inl absent ↦ cc (rw (absent, snapshot) at h)
  | inr (r, present) ↦
      let e = rw (present, snapshot) at h in
      record {
        nodes = ground arith;
        edges = ground arith;
        finished = rw (present, is_finished) (ground arith);
      }
]

-- New tasks with ids of their own that the run has not keep the primary key.
IsKeyed-new :
    (run_id : String) (ts : List TaskSpec)
    → has_duplicates (map (λ t. t.id) ts) ≡ false
    → IsKeyed (map (new_row run_id) ts)
IsKeyed-new run_id [] h = tt
IsKeyed-new run_id (t ∷ ts) h = ground (arith, any-new_row run_id t.id ts, IsKeyed-new run_id ts)

none_new :
    (run_id : String) (ids : List String) (ts : List TaskSpec) (id : String)
    → any (λ x. contains x ids) (map (λ t. t.id) ts) ≡ false
    → contains id ids ≡ true
    → contains id (map (λ t. t.id) ts) ≡ false
none_new run_id ids [] id h k = refl
none_new run_id ids (t ∷ ts) id h k = ground (arith, none_new run_id ids ts id, eq_iff id t.id)

any-other_run :
    (run_id r i : String) (ts : List TaskSpec)
    → (run_id == r) ≡ false
    → any (is_node r i) (map (new_row run_id) ts) ≡ false
any-other_run run_id r i [] h = refl
any-other_run run_id r i (t ∷ ts) h = ground (arith, any-other_run run_id r i ts)

old_row :
    (run_id : String) (n : NodeRow) (ts : List TaskSpec)
    → ((run_id == n.run_id) ≡ true → contains n.id (map (λ t. t.id) ts) ≡ false)
    → any (is_node n.run_id n.id) (map (new_row run_id) ts) ≡ false
old_row run_id n ts h = elim (Bool-cases (run_id == n.run_id)) [
  | inl same ↦
      subst (λ r. any (is_node r n.id) (map (new_row run_id) ts) ≡ false)
        (eq→path run_id n.run_id same) (any-new_row run_id n.id ts ∙ h same)
  | inr other ↦ any-other_run run_id n.run_id n.id ts other
]

-- A new task is none of the rows that there are.
old-not-new :
    (run_id : String) (ts : List TaskSpec) (rows : List NodeRow)
    → ((id : String)
        → any (is_node run_id id) rows ≡ true
        → contains id (map (λ t. t.id) ts) ≡ false)
    → All (λ n. any (is_node n.run_id n.id) (map (new_row run_id) ts) ≡ false) rows
old-not-new run_id ts [] h = tt
old-not-new run_id ts (n ∷ rows) h = (
  old_row run_id n ts
      (λ same. h n.id (ground (arith, eq_iff run_id n.run_id, eq_refl n.id, eq_refl run_id))),
  old-not-new run_id ts rows (λ id k. h id (ground arith)),
)

module _ (db : GraphDb) (run_id : String) (patch : GraphPatch) (existing : GraphSnapshot)
    (r : Read db run_id existing) (c : Checked existing patch) where
  -- No new task has the id of a task of the run.
  pub new_ids :
      (id : String) → any (is_node run_id id) db.nodes ≡ true → contains id (add_ids patch) ≡ false
  new_ids id h =
      none_new run_id (ids_of existing.nodes) patch.add id c.fresh
        (ap (λ ns. contains id (ids_of ns)) r.nodes ∙ contains-snapshot run_id id db.nodes ∙ h)

  pub IsKeyed-insert_tasks : IsKeyed db.nodes → IsKeyed (insert_tasks run_id patch db).nodes
  unfolding insert_tasks
  IsKeyed-insert_tasks k =
      IsKeyed-append db.nodes (map (new_row run_id) patch.add) k
        (IsKeyed-new run_id patch.add c.distinct) (old-not-new run_id patch.add db.nodes new_ids)

  -- What the snapshot shows of a task is its state.
  pub state_in-existing :
      (id : String) → IsKeyed db.nodes → state_in existing.nodes id ≡ state_of db.nodes run_id id
  state_in-existing id k =
      ap (λ ns. state_in ns id) r.nodes ∙ state_in-snapshot run_id id db.nodes k
