-- ===== src/Graph/Patch/Shape.antt =====
-- `apply_patch` of s13code/core/live_graph/store.py: what a patch that was applied went through, as
-- one record.
use s14code.Prelude.{ℕ, String, ◌≡◌, refl, Bool, true, false, not, ◌⊎◌, inl, inr, Bool-cases, arith}
use s14code.Graph.Model.{
  GraphPatch, GraphDb, GraphSnapshot, GraphError, Result, ok, raise, ◌>>=◌, guard,
}
use s14code.Graph.Cycle.{has_cycle}
use s14code.Graph.Store.{edges_of, has_patch, snapshot}
use s14code.Graph.Patch.{
  check_patch, insert_tasks, change_states, log_patch, apply_new, apply_patch,
}

pub guard-ok : (b : Bool) (e : GraphError) {u : Unit {0}} → guard b e ≡ ok u → b ≡ true
guard-ok true e h = refl
guard-ok false e h = cc

-- Where a `do` block returns, its first action returned, and so did the rest on its result.
pub >>=-ok {κ μ} :
    {Early : Type κ} {Late : Type μ} (action : Result Early) (rest : Early → Result Late) {b : Late}
    → (action >>= rest) ≡ ok b
    → (early : Early) × (action ≡ ok early) × (rest early ≡ ok b)
>>=-ok (raise e) rest returns = cc
>>=-ok (ok early) rest returns = (early, refl, returns)

pub ok_inj {ℓ} : {A : Type ℓ} {a b : A} → ok a ≡ ok b → a ≡ b
ok_inj h = ground arith

pub record Applied (db : GraphDb) (run_id : String) (patch : GraphPatch) (trigger : ℕ)
    (db' : GraphDb) : Type 0 where
  pub existing : GraphSnapshot
  pub is_new : has_patch db run_id trigger ≡ false
  pub is_read : snapshot db run_id ≡ ok existing
  pub checked : check_patch existing patch ≡ ok tt
  pub acyclic : has_cycle (edges_of (insert_tasks run_id patch db) run_id) ≡ false
  pub final :
      db'
      ≡ log_patch run_id patch trigger
          (change_states run_id patch existing (insert_tasks run_id patch db))

ok_pair :
    {b b' : Bool} {x x' : GraphDb}
    → ◌≡◌ {A = Result (Bool × GraphDb)} (ok (b, x)) (ok (b', x'))
    → (b' ≡ b) × (x' ≡ x)
ok_pair h = ground arith

module _ (db : GraphDb) (run_id : String) (patch : GraphPatch) (trigger : ℕ) where
  apply_new-Applied :
      (b : Bool) (db' : GraphDb)
      → has_patch db run_id trigger ≡ false
      → apply_new db run_id patch trigger ≡ ok (b, db')
      → (b ≡ true) × Applied db run_id patch trigger db'
  unfolding apply_new
  apply_new-Applied b db' new h =
      let (existing, read, h1) = >>=-ok (snapshot db run_id) _ {b = (b, db')} h in
      let (_, checked, h2) = >>=-ok (check_patch existing patch) _ {b = (b, db')} h1 in
      let (_, tested, h3) =
        >>=-ok (guard (not (has_cycle (edges_of (insert_tasks run_id patch db) run_id))) _) _
          {b = (b, db')} h2 in
      let (b_eq, db_eq) = ok_pair h3 in
      (
        b_eq,
        record {
          existing = existing;
          is_new = new;
          is_read = read;
          checked = checked;
          acyclic = ground (arith, guard-ok _ _ tested);
          final = db_eq;
        },
      )

  -- An application that returns was a repetition, or passed every check.
  pub apply_patch-cases :
      (b : Bool) (db' : GraphDb)
      → apply_patch db run_id patch trigger ≡ ok (b, db')
      → (has_patch db run_id trigger ≡ true) × (b ≡ false) × (db' ≡ db)
        ⊎ (b ≡ true) × Applied db run_id patch trigger db'
  unfolding apply_patch
  apply_patch-cases b db' h = elim (Bool-cases (has_patch db run_id trigger)) [
    | inl old ↦ let (b_eq, db_eq) = ok_pair (rw old at h) in inl (old, b_eq, db_eq)
    | inr new ↦ inr (apply_new-Applied b db' new (rw new at h))
  ]

  -- A successful application with the result true.
  pub apply_patch-Applied :
      (db' : GraphDb)
      → apply_patch db run_id patch trigger ≡ ok (true, db')
      → Applied db run_id patch trigger db'
  apply_patch-Applied db' h = elim (apply_patch-cases true db' h) [
    | inl old ↦ cc (old.1)
    | inr (_, a) ↦ a
  ]
