-- ===== src/Graph/Executor/Bounds.antt =====
-- `run` of s13code/core/live_graph/core.py: how many workers are in flight, and how many tasks are
-- completed.
use s14code.Prelude.{
  ℕ, suc, ◌+◌, ◌-◌, ◌≤◌, min, String, ◌≡◌, refl, ap, ◌∙◌, subst, Bool, true, false, Option, none,
  some, List, [], ◌∷◌, ◌++◌, map, arith, ltb, leb, length, length-append, length-map, if◌then◌else◌,
  Bool-cases, if_both, inl, inr,
}
use s14code.Sorting.{sort_by}
use s14code.Graph.Model.{GraphPatch, Event, GraphDb, GraphSnapshot, ok, ◌>>=◌, is_cancelled}
use s14code.Graph.Store.{ready, mark_running, node_state, record_outcome, is_finished}
use s14code.Graph.Patch.Shape.{>>=-ok, ok_inj}
use s14code.Graph.Ready.{ready-IsReady}
use s14code.Graph.Executor.{
  Completion, done, cancelled_error, InFlight, Loop, plan, capacity, launch, pop, cancel_workers,
  is_in_flight, has_reached, replan, complete, complete_each, cancel_at_end, loop,
}

-- No more tasks than the limit are completed or under way.
abbrev WithinLimit : Option ℕ → ℕ → ℕ → Type 0
WithinLimit none e f = Unit
WithinLimit (some m) e f = e + f ≤ m

-- The bounds that hold between two turns of the loop.
pub record IsBounded (max_workers : ℕ) (max_completed : Option ℕ) (st : Loop) : Type 0 where
  pub workers : length st.in_flight ≤ max_workers
  pub completed : WithinLimit max_completed (length st.executed) (length st.in_flight)

capacity_room :
    (m : Option ℕ) (w e f n : ℕ)
    → f ≤ w
    → WithinLimit m e f
    → n ≤ elim m [ none ↦ w - f | some k ↦ min (w - f) (k - e - f) ]
    → (f + n ≤ w) × WithinLimit m e (f + n)
capacity_room none w e f n a b h = (omega arith, tt)
capacity_room (some k) w e f n a b h = (omega arith, omega arith)

WithinLimit-less :
    (m : Option ℕ) (e f e' f' : ℕ) → e' + f' ≤ e + f → WithinLimit m e f → WithinLimit m e' f'
WithinLimit-less none e f e' f' le h = tt
WithinLimit-less (some k) e f e' f' le h = omega arith

module _ (planner : GraphSnapshot → Event → GraphPatch) (run_id : String) (max_workers : ℕ)
    (max_completed : Option ℕ) where
  -- A state with no more workers, and no more tasks completed or under way.
  fewer :
      (st st' : Loop)
      → length st'.in_flight ≤ length st.in_flight
      → length st'.executed + length st'.in_flight ≤ length st.executed + length st.in_flight
      → IsBounded max_workers max_completed st
      → IsBounded max_workers max_completed st'
  fewer st st' a c b = record {
    workers = omega arith;
    completed = WithinLimit-less max_completed _ _ _ _ c b.completed;
  }

  abbrev with_tasks : Loop → GraphDb → Loop
  with_tasks st db = record st {
    db = db;
    in_flight =
        st.in_flight
        ++ map (λ t. record { task = t; cancelling = false })
            (ready st.db run_id (capacity planner run_id max_workers max_completed st));
  }

  with_tasks-IsBounded :
      (st : Loop) (db : GraphDb)
      → IsBounded max_workers max_completed st
      → IsBounded max_workers max_completed (with_tasks st db)
  with_tasks-IsBounded st db b =
      let n = capacity planner run_id max_workers max_completed st in
      let tasks = ready st.db run_id n in
      let (w, c) =
        capacity_room max_completed max_workers (length st.executed) (length st.in_flight)
          (length tasks) b.workers b.completed
          (unfold capacity in (ready-IsReady st.db run_id n).1) in
      let grown : length (with_tasks st db).in_flight ≡ length st.in_flight + length tasks =
        length-append st.in_flight _ ∙ ap (λ k. length st.in_flight + k) (length-map tasks _) in
      record { workers = rw grown w; completed = rw grown c }

  launched :
      (st st' : Loop) (more : Bool)
      → (if more
          then (do
            db ←
                mark_running st.db run_id
                  (ready st.db run_id (capacity planner run_id max_workers max_completed st))
            ok (with_tasks st db))
          else ok st)
        ≡ ok st'
      → IsBounded max_workers max_completed st
      → IsBounded max_workers max_completed st'
  launched st st' false h b = subst (IsBounded max_workers max_completed) (ok_inj h) b
  launched st st' true h b =
      let (db, _, k) =
        >>=-ok
          (mark_running st.db run_id
            (ready st.db run_id (capacity planner run_id max_workers max_completed st)))
          _ h in
      subst (IsBounded max_workers max_completed) (ok_inj k) (with_tasks-IsBounded st db b)

  -- A launch fills free slots only.
  pub launch-IsBounded :
      (st st' : Loop)
      → launch planner run_id max_workers max_completed st ≡ ok st'
      → IsBounded max_workers max_completed st
      → IsBounded max_workers max_completed st'
  unfolding launch
  launch-IsBounded st st' h b = elim (Bool-cases (is_finished st.db run_id)) [
    | inl ended ↦ subst (IsBounded max_workers max_completed) (ok_inj (rw ended at h)) b
    | inr going ↦
        launched st st' (ltb 0 (capacity planner run_id max_workers max_completed st))
          (rw going at h) b
  ]

  length-pop :
      (id : String) (fs : List InFlight)
      → is_in_flight planner run_id max_workers max_completed id fs ≡ true
      → length (pop planner run_id max_workers max_completed id fs) + 1 ≡ length fs
  unfolding pop
  length-pop id [] h = cc
  length-pop id (f ∷ fs) h = ground (arith, length-pop id fs)

  length-cancel_workers :
      (all' : Bool) (db : GraphDb) (fs : List InFlight)
      → length (cancel_workers planner run_id max_workers max_completed all' db fs) ≡ length fs
  unfolding cancel_workers
  length-cancel_workers all' db [] = refl
  length-cancel_workers all' db (f ∷ fs) = ap suc (length-cancel_workers all' db fs)

  replan-IsBounded :
      (event : Event) (st st' : Loop)
      → replan planner run_id max_workers max_completed event st ≡ ok st'
      → IsBounded max_workers max_completed st
      → IsBounded max_workers max_completed st'
  unfolding replan
  replan-IsBounded event st st' h b = elim (Bool-cases (is_finished st.db run_id)) [
    | inl ended ↦ subst (IsBounded max_workers max_completed) (ok_inj (rw ended at h)) b
    | inr going ↦
        let (db, _, k) = >>=-ok (plan planner run_id st.db event) _ (rw going at h) in
        let same = length-cancel_workers false db st.in_flight in
        subst (IsBounded max_workers max_completed) (ok_inj k)
          (fewer st _ (omega (arith, same)) (omega (arith, same)) b)
  ]

  complete-IsBounded :
      (id : String) (c : Completion) (st st' : Loop)
      → is_in_flight planner run_id max_workers max_completed id st.in_flight ≡ true
      → complete planner run_id max_workers max_completed id c st ≡ ok st'
      → IsBounded max_workers max_completed st
      → IsBounded max_workers max_completed st'
  unfolding complete
  complete-IsBounded id cancelled_error st st' here h b =
      let less = length-pop id st.in_flight here in
      subst (IsBounded max_workers max_completed) (ok_inj h)
        (fewer st _ (omega (arith, less)) (omega (arith, less)) b)
  complete-IsBounded id (done success payload) st st' here h b =
      let less = length-pop id st.in_flight here in
      let (state, _, h1) = >>=-ok (node_state st.db run_id id) _ h in
      elim (Bool-cases (is_cancelled state)) [
        | inl dropped ↦
            subst (IsBounded max_workers max_completed) (ok_inj (rw dropped at h1))
              (fewer st _ (omega (arith, less)) (omega (arith, less)) b)
        | inr kept ↦
            let (r, _, h2) =
              >>=-ok (record_outcome st.db run_id id success payload) _ (rw kept at h1) in
            replan-IsBounded r.0 _ st' h2 (
              fewer st _ (omega (arith, less))
                (omega (arith, less, length-append st.executed (id ∷ []))) b)
      ]

  passed_over :
      (id : String) (c : Completion) (st st' : Loop) (b : Bool)
      → is_in_flight planner run_id max_workers max_completed id st.in_flight ≡ b
      → (if b then complete planner run_id max_workers max_completed id c st else ok st) ≡ ok st'
      → IsBounded max_workers max_completed st
      → IsBounded max_workers max_completed st'
  passed_over id c st st' true here h b = complete-IsBounded id c st st' here h b
  passed_over id c st st' false absent h b =
      subst (IsBounded max_workers max_completed) (ok_inj h) b

  complete_each-IsBounded :
      (cs : List (String × Completion)) (st : Loop) (r : Loop × Bool)
      → complete_each planner run_id max_workers max_completed cs st ≡ ok r
      → IsBounded max_workers max_completed st
      → IsBounded max_workers max_completed r.0
  unfolding complete_each
  complete_each-IsBounded [] st r h b =
      subst (λ (x : Loop × Bool). IsBounded max_workers max_completed x.0) (ok_inj h) b
  complete_each-IsBounded ((id, c) ∷ cs) st r h b =
      let (st', stepped, k) =
        >>=-ok
          (if is_in_flight planner run_id max_workers max_completed id st.in_flight
            then complete planner run_id max_workers max_completed id c st
            else ok st)
          _ h in
      let b' =
        passed_over id c st st'
          (is_in_flight planner run_id max_workers max_completed id st.in_flight) refl stepped b in
      elim (Bool-cases (has_reached planner run_id max_workers max_completed st st')) [
        | inl stop ↦
            subst (λ (x : Loop × Bool). IsBounded max_workers max_completed x.0)
              (ok_inj (rw stop at k)) b'
        | inr goes_on ↦ complete_each-IsBounded cs st' r (rw goes_on at k) b'
      ]

  cancel_at_end-IsBounded :
      (st : Loop)
      → IsBounded max_workers max_completed st
      → IsBounded max_workers max_completed
          (cancel_at_end planner run_id max_workers max_completed st)
  cancel_at_end-IsBounded st b =
      let same = length-cancel_workers true st.db st.in_flight in
      if_both (IsBounded max_workers max_completed) (is_finished st.db run_id)
        (fewer st _ (omega (arith, same)) (omega (arith, same)) b) b

  loop-keeps :
      (batches : List (List (String × Completion))) (st : Loop) (r : Loop × Bool)
      → loop planner run_id max_workers max_completed batches st ≡ ok r
      → IsBounded max_workers max_completed st
      → IsBounded max_workers max_completed r.0
  unfolding loop
  loop-keeps [] st r h b =
      let (st', launched', k) = >>=-ok (launch planner run_id max_workers max_completed st) _ h in
      subst (λ (x : Loop × Bool). IsBounded max_workers max_completed x.0) (ok_inj k)
        (launch-IsBounded st st' launched' b)
  loop-keeps (batch ∷ batches) st r h b =
      let (st', launched', k) = >>=-ok (launch planner run_id max_workers max_completed st) _ h in
      let b' = launch-IsBounded st st' launched' b in
      elim (Bool-cases (leb (length st'.in_flight) 0)) [
        | inl idle ↦
            subst (λ (x : Loop × Bool). IsBounded max_workers max_completed x.0)
              (ok_inj (rw idle at k)) b'
        | inr busy ↦
            let (after, ended, k') =
              >>=-ok
                (complete_each planner run_id max_workers max_completed (sort_by (λ c. c.0) batch)
                  st')
                _ (rw busy at k) in
            let b'' = complete_each-IsBounded (sort_by (λ c. c.0) batch) st' after ended b' in
            elim (Bool-cases after.1) [
              | inl stop ↦
                  subst (λ (x : Loop × Bool). IsBounded max_workers max_completed x.0)
                    (ok_inj (rw stop at k')) b''
              | inr goes_on ↦
                  loop-keeps batches
                    (cancel_at_end planner run_id max_workers max_completed after.0) r
                    (rw goes_on at k') (cancel_at_end-IsBounded after.0 b'')
            ]
      ]

-- From a start with nothing in flight, whatever workers end in whatever batches, the loop of the
-- executor leaves at most `max_workers` workers in flight, and the tasks that it completed and
-- those in flight together are at most `max_completed`, where that limit is given.
pub loop-IsBounded :
    (planner : GraphSnapshot → Event → GraphPatch) (run_id : String) (max_workers : ℕ)
    (max_completed : Option ℕ) (batches : List (List (String × Completion))) (db : GraphDb)
    (r : Loop × Bool)
    → loop planner run_id max_workers max_completed batches
        (record { db = db; in_flight = []; executed = [] })
      ≡ ok r
    → IsBounded max_workers max_completed r.0
loop-IsBounded planner run_id max_workers max_completed batches db r h =
    loop-keeps planner run_id max_workers max_completed batches _ r h
      (record { workers = omega arith; completed = nothing max_completed })
  where
    nothing : (m : Option ℕ) → WithinLimit m 0 0
    nothing none = tt
    nothing (some m) = omega arith
