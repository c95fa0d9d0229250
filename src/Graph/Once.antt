-- ===== src/Graph/Once.antt =====
-- `apply_patch` and `pending_planner_events` of s13code/core/live_graph/store.py: the patch of a
-- planner event.
use s14code.Prelude.{
  ℕ, String, ◌≡◌, refl, ap, ◌∙◌, sym, Bool, true, false, not, ◌&&◌, ◌||◌, Option, none, List, [],
  ◌∷◌, ◌++◌, arith, ◌==◌, nat_eq, eq_refl, any, any-append, select, select-select, select_ext,
  map-select-append, if_both, inl, inr, ◌⊎◌,
}
use s14code.Json.{Dict}
use s14code.Graph.Model.{GraphPatch, Event, NodeRow, GraphDb, GraphSnapshot, ok, cancelled}
use s14code.Graph.Store.{
  append_event, events_of, has_patch, set_state, is_planner_kind, pending_planner_events,
}
use s14code.Graph.Patch.{
  patch_json, cancel_tasks, leftovers, cancel_leftovers, finish_run, move_tasks, change_states,
  insert_tasks, log_patch, apply_patch,
}
use s14code.Graph.Patch.Shape.{Applied, apply_patch-cases, apply_patch-Applied}
use s14code.Graph.Patch.Frame.{SameTables-change}

or-false : (b : Bool) → ((true && b) || false) ≡ b
or-false b = ground arith

or-true : (b : Bool) → (b || true) ≡ true
or-true b = ground arith

not_or : (a b : Bool) → not (a || b) ≡ (not a && not b)
not_or a b = ground arith

nat_eq_refl : (n : ℕ) → nat_eq n n ≡ true
nat_eq_refl n = ground arith

-- The events of a run that a planner answers.
abbrev planner_events : GraphDb → String → List Event
planner_events db run_id = select (λ e. is_planner_kind e.kind) (events_of db run_id)

planner-append :
    (db : GraphDb) (run_id run kind : String) (node_id : Option String) (payload : Dict)
    → is_planner_kind kind ≡ false
    → planner_events (append_event db run_id kind node_id payload).1 run ≡ planner_events db run
unfolding append_event
planner-append db run_id run kind node_id payload h =
    map-select-append (λ r. r.event) (λ r. r.run_id == run) (λ e. is_planner_kind e.kind) db.events
      _ h

planner-cancel :
    (run_id run reason : String) (rows : List NodeRow) (ids : List String) (db : GraphDb)
    → planner_events (cancel_tasks run_id reason rows ids db) run ≡ planner_events db run
unfolding cancel_tasks
planner-cancel run_id run reason rows [] db = refl
planner-cancel run_id run reason rows (n ∷ ns) db =
    planner-cancel run_id run reason rows ns _
    ∙ planner-append (record db { nodes = set_state cancelled run_id n db.nodes }) run_id run
        "task_cancelled" _ _ refl

planner-leftovers :
    (run_id run : String) (ls : List (String × Bool)) (db : GraphDb)
    → planner_events (cancel_leftovers run_id ls db) run ≡ planner_events db run
unfolding cancel_leftovers
planner-leftovers run_id run [] db = refl
planner-leftovers run_id run ((n, r) ∷ ls) db =
    planner-leftovers run_id run ls _
    ∙ planner-append (record db { nodes = set_state cancelled run_id n db.nodes }) run_id run
        "task_cancelled" _ _ refl

module _ (run_id run : String) (patch : GraphPatch) where
  planner-change :
      (existing : GraphSnapshot) (db : GraphDb)
      → planner_events (change_states run_id patch existing db) run ≡ planner_events db run
  unfolding change_states move_tasks finish_run
  planner-change existing db =
      let moved = planner-cancel run_id run patch.reason existing.nodes patch.cancel db in
      if_both (λ x. planner_events x run ≡ planner_events db run) patch.finish
        (planner-leftovers run_id run (leftovers run_id (move_tasks run_id patch existing db).nodes)
            (move_tasks run_id patch existing db)
          ∙ moved)
        moved

  planner-log :
      (trigger : ℕ) (db : GraphDb)
      → planner_events (log_patch run_id patch trigger db) run ≡ planner_events db run
  unfolding log_patch
  planner-log trigger db = planner-append db run_id run "graph_patched" none _ refl

module _ (db db' : GraphDb) (run_id : String) (patch : GraphPatch) (trigger : ℕ)
    (a : Applied db run_id patch trigger db') where
  Applied-planner : (run : String) → planner_events db' run ≡ planner_events db run
  unfolding insert_tasks
  Applied-planner run =
      ap (λ x. planner_events x run) a.final
      ∙ planner-log run_id run patch trigger _
      ∙ planner-change run_id run patch a.existing (insert_tasks run_id patch db)

  Applied-patches :
      db'.patches
      ≡ db.patches
        ++ record { run_id = run_id; trigger_event = trigger; patch = patch_json patch } ∷ []
  unfolding insert_tasks log_patch
  Applied-patches =
      ap (λ (x : GraphDb). x.patches) a.final
      ∙ ap
          (λ ps.
            ps
            ++ record { run_id = run_id; trigger_event = trigger; patch = patch_json patch } ∷ [])
          (SameTables-change run_id patch a.existing (insert_tasks run_id patch db)).patches

  Applied-has_patch : (s : ℕ) → has_patch db' run_id s ≡ (has_patch db run_id s || nat_eq trigger s)
  Applied-has_patch s =
      ap (any (λ p. p.run_id == run_id && nat_eq p.trigger_event s)) Applied-patches
      ∙ any-append (λ p. p.run_id == run_id && nat_eq p.trigger_event s) db.patches _
      ∙ ap (λ b. has_patch db run_id s || b) (rw eq_refl (or-false (nat_eq trigger s)))

  pub Applied-pending :
      pending_planner_events db' run_id
      ≡ select (λ e. not (nat_eq trigger e.sequence)) (pending_planner_events db run_id)
  unfolding pending_planner_events
  Applied-pending =
      sym (
        select-select (λ e. not (has_patch db' run_id e.sequence)) (λ e. is_planner_kind e.kind)
          (events_of db' run_id))
      ∙ ap (select (λ e. not (has_patch db' run_id e.sequence))) (Applied-planner run_id)
      ∙ select_ext _ (λ e. not (has_patch db run_id e.sequence) && not (nat_eq trigger e.sequence))
          (planner_events db run_id) (λ e. rw (Applied-has_patch e.sequence) (not_or _ _))
      ∙ sym (
          select-select (λ e. not (nat_eq trigger e.sequence))
            (λ e. not (has_patch db run_id e.sequence)) (planner_events db run_id))
      ∙ ap (select (λ e. not (nat_eq trigger e.sequence))) (
          select-select (λ e. not (has_patch db run_id e.sequence)) (λ e. is_planner_kind e.kind)
            (events_of db run_id))

-- After a patch for an event was applied, now or before, every other patch for that event
-- returns false and changes nothing.
pub apply_patch-once :
    (db db' : GraphDb) (run_id : String) (patch other : GraphPatch) (trigger : ℕ) (b : Bool)
    → apply_patch db run_id patch trigger ≡ ok (b, db')
    → apply_patch db' run_id other trigger ≡ ok (false, db')
unfolding apply_patch
apply_patch-once db db' run_id patch other trigger b h =
    rw (seen (apply_patch-cases db run_id patch trigger b db' h)) refl
  where
    seen :
        (has_patch db run_id trigger ≡ true) × (b ≡ false) × (db' ≡ db)
          ⊎ (b ≡ true) × Applied db run_id patch trigger db'
        → has_patch db' run_id trigger ≡ true
    seen (inl (old, _, same)) = ap (λ x. has_patch x run_id trigger) same ∙ old
    seen (inr (_, a)) =
        Applied-has_patch db db' run_id patch trigger a trigger ∙ rw nat_eq_refl (or-true _)

-- An applied patch answers the event that triggered it and no other: the planner events still to
-- answer are those of before without it, in the same order.
pub apply_patch-pending :
    (db db' : GraphDb) (run_id : String) (patch : GraphPatch) (trigger : ℕ)
    → apply_patch db run_id patch trigger ≡ ok (true, db')
    → pending_planner_events db' run_id
      ≡ select (λ e. not (nat_eq trigger e.sequence)) (pending_planner_events db run_id)
apply_patch-pending db db' run_id patch trigger h =
    Applied-pending db db' run_id patch trigger (apply_patch-Applied db run_id patch trigger db' h)
