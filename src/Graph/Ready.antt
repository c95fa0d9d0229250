-- ===== src/Graph/Ready.antt =====
-- `ready` of s13code/core/live_graph/store.py: which tasks may be launched.
use s14code.Prelude.{
  ℕ, ◌≤◌, ◌<◌, String, ◌≡◌, refl, true, false, not, ◌&&◌, List, [], ◌∷◌, map, arith, ◌==◌, eq_iff,
  All, All-map, All-take, All-select, All-select_of, select-nil, zero, suc, length-map, any,
  any-false, select, take, length, length-take-le,
}
use s14code.Sorting.{All-sort_by, sort_by-nil}
use s14code.Graph.Model.{pending, succeeded, is_succeeded, NodeRow, GraphDb}
use s14code.Graph.Store.{in_run, nodes_of, edges_of, is_blocked, ready_rows, ready, task_of}

-- Every row that is a parent of the task by some edge has succeeded.
abbrev pub HasParentsDone : List (String × String) → List NodeRow → String → Type 0
HasParentsDone es ns id = All (λ e. e.1 ≡ id → All (λ p. p.id ≡ e.0 → p.state ≡ succeeded) ns) es

-- What a task needs to be launched.
pub record IsReady (db : GraphDb) (run_id : String) (n : NodeRow) : Type 0 where
  pub is_pending : n.state ≡ pending
  pub in_run : n.run_id ≡ run_id
  pub parents : HasParentsDone (edges_of db run_id) (nodes_of db run_id) n.id

parents-done :
    (ns : List NodeRow) (id : String)
    → any (λ p. p.id == id && not (is_succeeded p.state)) ns ≡ false
    → All (λ p. p.id ≡ id → p.state ≡ succeeded) ns
parents-done ns id h =
    All-map _ _ ns (λ p k e. ground (arith, eq_iff p.id id))
      (any-false (λ p. p.id == id && not (is_succeeded p.state)) ns h)

blocked-done :
    (es : List (String × String)) (ns : List NodeRow) (id : String)
    → is_blocked es ns id ≡ false
    → HasParentsDone es ns id
blocked-done es ns id h =
    All-map _ _ es (λ e k same. parents-done ns e.0 (ground (arith, eq_iff e.1 id)))
      (any-false (λ e. e.1 == id && any (λ p. p.id == e.0 && not (is_succeeded p.state)) ns) es h)

All-in_run :
    (run_id : String) (rows : List NodeRow)
    → All (λ (n : NodeRow). n.run_id ≡ run_id) (select (in_run run_id) rows)
All-in_run run_id rows = All-select _ (in_run run_id) rows (λ n h. (eq_iff n.run_id run_id).0 h)

-- Every task that `ready` gives is a pending task of the run all of whose parents have
-- succeeded, and there are at most `limit` of them.
pub ready-IsReady :
    (db : GraphDb) (run_id : String) (limit : ℕ)
    → All (λ t. (n : NodeRow) × (t ≡ task_of n) × IsReady db run_id n) (ready db run_id limit)
      × (length (ready db run_id limit) ≤ limit)
unfolding ready
ready-IsReady db run_id limit = (
  All-task (ready_rows db run_id limit) (
      All-take _ limit _ (
        All-sort_by (λ n. n.id) _ _
          (All-select_of _ _ _ (nodes_of db run_id)
            (λ n here h. record {
              is_pending = ground arith;
              in_run = here;
              parents = blocked-done (edges_of db run_id) (nodes_of db run_id) n.id (ground arith);
            })
            (All-in_run run_id db.nodes)))),
  rw length-map (length-take-le limit _),
)
  where
    All-task :
        (rows : List NodeRow)
        → All (IsReady db run_id) rows
        → All (λ t. (n : NodeRow) × (t ≡ task_of n) × IsReady db run_id n) (map task_of rows)
    All-task [] h = tt
    All-task (n ∷ ns) h = ((n, refl, h.0), All-task ns h.1)

take-nil : {A : Type 0} (n : ℕ) (xs : List A) → 0 < n → take n xs ≡ [] → xs ≡ []
take-nil zero xs h e = absurd (omega arith)
take-nil (suc n) [] h e = refl
take-nil (suc n) (x ∷ xs) h e = cc

map-nil : {A B : Type 0} (f : A → B) (xs : List A) → map f xs ≡ [] → xs ≡ []
map-nil f [] e = refl
map-nil f (x ∷ xs) e = cc

-- Where the limit is positive and `ready` gives nothing, every pending task of the run is
-- blocked by a parent that has not succeeded.
pub ready_complete :
    (db : GraphDb) (run_id : String) (limit : ℕ)
    → 0 < limit
    → ready db run_id limit ≡ []
    → All
        (λ n. n.state ≡ pending → is_blocked (edges_of db run_id) (nodes_of db run_id) n.id ≡ true)
        (nodes_of db run_id)
unfolding ready
ready_complete db run_id limit room h =
    All-map _ _ (nodes_of db run_id) (λ n k e. ground arith)
      (select-nil _ (nodes_of db run_id)
        (sort_by-nil (λ n. n.id) _ (take-nil limit _ room (map-nil task_of _ h))))
