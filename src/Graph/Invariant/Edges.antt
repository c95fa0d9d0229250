-- ===== src/Graph/Invariant/Edges.antt =====
-- `apply_patch` of s13code/core/live_graph/store.py: the table `edges`.
use s14code.Prelude.{
  ℕ, String, ◌≡◌, refl, sym, ap, ◌∙◌, subst, false, List, [], ◌∷◌, if_both, any, eq→path,
  append-nil, select-append, Bool-cases, inl, inr, ◌==◌, map, select,
}
use s14code.Graph.Model.{GraphPatch, GraphDb, EdgeRow}
use s14code.Graph.Cycle.Chains.{IsCyclic}
use s14code.Graph.Cycle.Fuel.{has_cycle_iff}
use s14code.Graph.Store.{edges_of}
use s14code.Graph.Patch.{insert_tasks, connect_tasks, is_edge}
use s14code.Graph.Patch.Shape.{Applied}
use s14code.Graph.Patch.Frame.{SameTables-change, edges-log_patch}

-- Edges of one run are not seen in another.
select-connect_tasks :
    (run_id other : String) (es : List (String × String)) (rows : List EdgeRow)
    → (run_id == other) ≡ false
    → select (λ e. e.run_id == other) (connect_tasks run_id es rows)
      ≡ select (λ e. e.run_id == other) rows
unfolding connect_tasks
select-connect_tasks run_id other [] rows h = refl
select-connect_tasks run_id other ((p, c) ∷ es) rows h =
    select-connect_tasks run_id other es _ h
    ∙ if_both
        (λ (x : List EdgeRow).
          select (λ e. e.run_id == other) x ≡ select (λ e. e.run_id == other) rows)
        (any (is_edge run_id p c) rows) refl
        (select-append (λ e. e.run_id == other) rows _ ∙ rw h (append-nil _))

module _ (db db' : GraphDb) (run_id : String) (patch : GraphPatch) (trigger : ℕ)
    (a : Applied db run_id patch trigger db') where
  Applied-edges : db'.edges ≡ (insert_tasks run_id patch db).edges
  Applied-edges =
      ap (λ (x : GraphDb). x.edges) a.final
      ∙ edges-log_patch run_id patch trigger _
      ∙ (SameTables-change run_id patch a.existing _).edges

  edges_of-own : edges_of db' run_id ≡ edges_of (insert_tasks run_id patch db) run_id
  edges_of-own =
      ap
        (λ es.
          map (λ (e : EdgeRow). (e.parent_id, e.child_id)) (select (λ e. e.run_id == run_id) es))
        Applied-edges

  edges_of-other :
      (other : String) → (run_id == other) ≡ false → edges_of db' other ≡ edges_of db other
  unfolding insert_tasks
  edges_of-other other h =
      ap
        (λ es.
          map (λ (e : EdgeRow). (e.parent_id, e.child_id)) (select (λ e. e.run_id == other) es))
        Applied-edges
      ∙ ap (map (λ (e : EdgeRow). (e.parent_id, e.child_id)))
          (select-connect_tasks run_id other patch.connect db.edges h)

  pub Applied-acyclic :
      ((run : String) → ¬ IsCyclic (edges_of db run))
      → (run : String) → ¬ IsCyclic (edges_of db' run)
  Applied-acyclic old run c = elim (Bool-cases (run_id == run)) [
    | inl same ↦
        let here = subst (λ r. IsCyclic (edges_of db' r)) (sym (eq→path run_id run same)) c in
        cc (
          (has_cycle_iff (edges_of (insert_tasks run_id patch db) run_id)).1
              (subst IsCyclic edges_of-own here),
          a.acyclic,
        )
    | inr other ↦ old run (subst IsCyclic (edges_of-other run other) c)
  ]
