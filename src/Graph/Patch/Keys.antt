-- ===== src/Graph/Patch/Keys.antt =====
-- `apply_patch` of s13code/core/live_graph/store.py: its snapshot and its new tasks against the rows
-- of `nodes`.
use s14code.Prelude.{
  String, ◌≡◌, refl, ◌∙◌, ap, false, Option, none, some, List, [], ◌∷◌, ◌++◌, map, arith, ◌==◌,
  eq_iff, contains, if◌then◌else◌, any, any-append, eq_refl, first, select, All,
}
use s14code.Sorting.{any-sort_by, first-sort_by, IsSingle}
use s14code.Graph.Model.{pending, TaskSpec, NodeRow}
use s14code.Graph.Store.{is_node, in_run, by_id}
use s14code.Graph.Patch.{ids_of, new_row, state_in}
use s14code.Graph.Patch.States.{state_of, IsKeyed}

module _ (run_id id : String) where
  -- The row of a task among those of its run, found by its id.
  first-nodes_of :
      (rows : List NodeRow)
      → first (λ n. n.id == id) (select (in_run run_id) rows) ≡ first (is_node run_id id) rows
  first-nodes_of [] = refl
  first-nodes_of (row ∷ rows) = ground (arith, first-nodes_of rows)

  any-nodes_of :
      (rows : List NodeRow)
      → any (λ n. n.id == id) (select (in_run run_id) rows) ≡ any (is_node run_id id) rows
  any-nodes_of [] = refl
  any-nodes_of (row ∷ rows) = ground (arith, any-nodes_of rows)

  contains-ids_of : (rows : List NodeRow) → contains id (ids_of rows) ≡ any (λ n. n.id == id) rows
  contains-ids_of [] = refl
  contains-ids_of (row ∷ rows) =
      ground (arith, contains-ids_of rows, eq_iff id row.id, eq_iff row.id id)

  IsKeyed-IsSingle :
      (rows : List NodeRow)
      → IsKeyed rows
      → IsSingle (λ n. n.id) (λ n. n.id == id) (select (in_run run_id) rows)
  IsKeyed-IsSingle [] k = tt
  IsKeyed-IsSingle (row ∷ rows) k = ground (
    arith,
    IsKeyed-IsSingle rows k.1,
    any-nodes_of rows,
    k.0,
    eq_iff row.run_id run_id,
    eq_iff row.id id,
  )

  -- The snapshot shows the state of each task of the run.
  pub state_in-snapshot :
      (rows : List NodeRow)
      → IsKeyed rows
      → state_in (by_id (select (in_run run_id) rows)) id ≡ state_of rows run_id id
  state_in-snapshot rows k =
      ap (λ (o : Option NodeRow). elim o [ none ↦ none | some n ↦ some n.state ])
        (first-sort_by (λ n. n.id) (λ n. n.id == id) (select (in_run run_id) rows)
            (IsKeyed-IsSingle rows k)
          ∙ first-nodes_of rows)

  pub contains-snapshot :
      (rows : List NodeRow)
      → contains id (ids_of (by_id (select (in_run run_id) rows))) ≡ any (is_node run_id id) rows
  contains-snapshot rows =
      contains-ids_of (by_id (select (in_run run_id) rows))
      ∙ any-sort_by (λ n. n.id) (λ n. n.id == id) (select (in_run run_id) rows)
      ∙ any-nodes_of rows

  -- A new task is found by its id.
  pub any-new_row :
      (ts : List TaskSpec)
      → any (is_node run_id id) (map (new_row run_id) ts) ≡ contains id (map (λ t. t.id) ts)
  any-new_row [] = refl
  any-new_row (t ∷ ts) =
      ground (arith, any-new_row ts, eq_refl run_id, eq_iff id t.id, eq_iff t.id id)

  pub state_of-new_row :
      (ts : List TaskSpec)
      → state_of (map (new_row run_id) ts) run_id id
        ≡ (if contains id (map (λ t. t.id) ts) then some pending else none)
  state_of-new_row [] = refl
  state_of-new_row (t ∷ ts) =
      ground (arith, state_of-new_row ts, eq_refl run_id, eq_iff id t.id, eq_iff t.id id)

  pub state_of-append :
      (rows more : List NodeRow)
      → state_of (rows ++ more) run_id id
        ≡ elim (state_of rows run_id id) [ none ↦ state_of more run_id id | some s ↦ some s ]
  state_of-append [] more = refl
  state_of-append (row ∷ rows) more = ground (arith, state_of-append rows more)

pub IsKeyed-append :
    (rows more : List NodeRow)
    → IsKeyed rows
    → IsKeyed more
    → All (λ n. any (is_node n.run_id n.id) more ≡ false) rows
    → IsKeyed (rows ++ more)
IsKeyed-append [] more k m a = m
IsKeyed-append (row ∷ rows) more k m a = ground (
  arith,
  any-append (is_node row.run_id row.id) rows more,
  k.0,
  a.0,
  IsKeyed-append rows more k.1 m a.1,
)
