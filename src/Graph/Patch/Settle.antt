-- ===== src/Graph/Patch/Settle.antt =====
-- `apply_patch` of s13code/core/live_graph/store.py: the loops over `cancel`, `wait` and `resume`
-- and the finish, against one function of the state of a task.
use s14code.Prelude.{
  String, ◌≡◌, ◌∙◌, ap, true, false, Option, none, some, List, arith, contains, if◌then◌else◌,
  Bool-cases, inl, inr, subst, sym, if_both,
}
use s14code.Graph.Model.{
  NodeState, pending, cancelled, waiting, GraphPatch, NodeRow, GraphDb, GraphSnapshot,
}
use s14code.Graph.Patch.{set_states, leftovers, finish_run, move_tasks, change_states}
use s14code.Graph.Patch.Frame.{change_states_finish, change_states_more}
use s14code.Graph.Patch.States.{
  state_of, put_state, state_of-set_states, nodes-cancel_tasks, names, nodes-cancel_leftovers,
  IsKeyed, open_in, leftovers-open, settle_option, IsKeyed-set_states,
}

-- The state after the three loops.
abbrev moved_option : GraphPatch → String → Option NodeState → Option NodeState
moved_option patch id o =
    let o1 = if contains id patch.cancel then put_state cancelled o else o in
    let o2 = if contains id patch.wait then put_state waiting o1 else o1 in
    if contains id patch.resume then put_state pending o2 else o2

module _ (run_id : String) (patch : GraphPatch) (existing : GraphSnapshot) (db : GraphDb) where
  abbrev moved_nodes : List NodeRow
  moved_nodes =
      set_states pending run_id patch.resume
        (set_states waiting run_id patch.wait (set_states cancelled run_id patch.cancel db.nodes))

  nodes-move_tasks : (move_tasks run_id patch existing db).nodes ≡ moved_nodes
  unfolding move_tasks
  nodes-move_tasks =
      ap (λ ns. set_states pending run_id patch.resume (set_states waiting run_id patch.wait ns))
        (nodes-cancel_tasks run_id patch.reason existing.nodes patch.cancel db)

  IsKeyed-move_tasks : IsKeyed db.nodes → IsKeyed (move_tasks run_id patch existing db).nodes
  IsKeyed-move_tasks k = subst IsKeyed (sym nodes-move_tasks) (
      IsKeyed-set_states patch.resume _ pending run_id (
        IsKeyed-set_states patch.wait _ waiting run_id
          (IsKeyed-set_states patch.cancel db.nodes cancelled run_id k)))

  state_of-move_tasks :
      (id : String)
      → state_of (move_tasks run_id patch existing db).nodes run_id id
        ≡ moved_option patch id (state_of db.nodes run_id id)
  state_of-move_tasks id =
      let n1 = set_states cancelled run_id patch.cancel db.nodes in
      let n2 = set_states waiting run_id patch.wait n1 in
      let e1 = state_of-set_states patch.cancel db.nodes cancelled run_id id in
      let e2 = state_of-set_states patch.wait n1 waiting run_id id in
      let e3 = state_of-set_states patch.resume n2 pending run_id id in
      ap (λ ns. state_of ns run_id id) nodes-move_tasks
      ∙ e3
      ∙ ap (λ o. if contains id patch.resume then put_state pending o else o)
          (e2 ∙ ap (λ o. if contains id patch.wait then put_state waiting o else o) e1)

  nodes-finish_run :
      (moved : GraphDb)
      → (finish_run run_id moved).nodes
        ≡ set_states cancelled run_id (names (leftovers run_id moved.nodes)) moved.nodes
  unfolding finish_run
  nodes-finish_run moved = nodes-cancel_leftovers run_id (leftovers run_id moved.nodes) moved

  pub IsKeyed-change_states :
      IsKeyed db.nodes → IsKeyed (change_states run_id patch existing db).nodes
  unfolding change_states
  IsKeyed-change_states k =
      let moved = move_tasks run_id patch existing db in
      let m = IsKeyed-move_tasks k in
      if_both (λ (x : GraphDb). IsKeyed x.nodes) patch.finish
        (subst IsKeyed (sym (nodes-finish_run moved)) (
          IsKeyed-set_states (names (leftovers run_id moved.nodes)) moved.nodes cancelled run_id m))
        m

  abbrev closed_option : Option NodeState → Option NodeState
  closed_option o = if open_in o then put_state cancelled o else o

  state_of-finish_run :
      (moved : GraphDb) (id : String)
      → IsKeyed moved.nodes
      → state_of (finish_run run_id moved).nodes run_id id
        ≡ closed_option (state_of moved.nodes run_id id)
  state_of-finish_run moved id k =
      ap (λ ns. state_of ns run_id id) (nodes-finish_run moved)
      ∙ state_of-set_states (names (leftovers run_id moved.nodes)) moved.nodes cancelled run_id id
      ∙ ap
          (λ b.
            if b
            then put_state cancelled (state_of moved.nodes run_id id)
            else state_of moved.nodes run_id id)
          (leftovers-open moved.nodes run_id id k)

  closed-settle :
      (id : String) (o : Option NodeState)
      → patch.finish ≡ true
      → closed_option (moved_option patch id o) ≡ settle_option patch id o
  closed-settle id none e = ground arith
  closed-settle id (some s) e = ground arith

  moved-settle :
      (id : String) (o : Option NodeState)
      → patch.finish ≡ false
      → moved_option patch id o ≡ settle_option patch id o
  moved-settle id none e = ground arith
  moved-settle id (some s) e = ground arith

  pub state_of-change_states :
      (id : String)
      → IsKeyed db.nodes
      → state_of (change_states run_id patch existing db).nodes run_id id
        ≡ settle_option patch id (state_of db.nodes run_id id)
  state_of-change_states id k = elim (Bool-cases patch.finish) [
    | inl ends ↦
        ap (λ (x : GraphDb). state_of x.nodes run_id id)
          (change_states_finish run_id patch existing db ends)
        ∙ state_of-finish_run (move_tasks run_id patch existing db) id (IsKeyed-move_tasks k)
        ∙ ap closed_option (state_of-move_tasks id)
        ∙ closed-settle id (state_of db.nodes run_id id) ends
    | inr goes_on ↦
        ap (λ (x : GraphDb). state_of x.nodes run_id id)
          (change_states_more run_id patch existing db goes_on)
        ∙ state_of-move_tasks id
        ∙ moved-settle id (state_of db.nodes run_id id) goes_on
  ]
