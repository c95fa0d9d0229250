-- ===== src/Graph/Journal.antt =====
-- The event journal of s13code/core/live_graph/store.py: the events of a database against those
-- after a method.
use s14code.Prelude.{
  ℕ, ◌+◌, ◌≤◌, ◌<◌, String, ◌≡◌, refl, sym, ap, ◌∙◌, subst, Bool, Option, none, some, List, [], ◌∷◌,
  ◌++◌, append-nil, append_assoc, arith, if_both, any, update_where, Bool-cases, inl, inr,
}
use s14code.Json.{Dict}
use s14code.Graph.Model.{
  TaskSpec, GraphPatch, Event, NodeRow, EventRow, GraphDb, GraphSnapshot, ok, guard, foreign_key,
  unknown_run, not_running, cancelled,
}
use s14code.Graph.Store.{
  append_event, has_run, start, resume, mark_running, record_outcome, record_external_event,
  is_claimed, outcome_state, set_state, requeue, claim,
}
use s14code.Graph.Patch.{
  cancel_tasks, leftovers, cancel_leftovers, finish_run, move_tasks, change_states, insert_tasks,
  log_patch, apply_patch,
}
use s14code.Graph.Patch.Shape.{apply_patch-cases, >>=-ok, ok_inj}

-- The sequence numbers rise, from above `lo` up to `hi` at most.
abbrev pub IsRising : ℕ → List EventRow → ℕ → Type 0
IsRising lo [] hi = lo ≤ hi
IsRising lo (r ∷ rs) hi = (lo < r.event.sequence) × IsRising r.event.sequence rs hi

abbrev pub IsJournal : GraphDb → Type 0
IsJournal db = IsRising 0 db.events db.last_sequence

IsRising-snoc :
    (lo : ℕ) (rs : List EventRow) (hi : ℕ) (r : EventRow)
    → IsRising lo rs hi
    → r.event.sequence ≡ hi + 1
    → IsRising lo (rs ++ r ∷ []) (hi + 1)
IsRising-snoc lo [] hi r h e = (omega arith, omega arith)
IsRising-snoc lo (x ∷ rs) hi r h e = (h.0, IsRising-snoc x.event.sequence rs hi r h.1 e)

-- `b` has the journal of `a`, and more behind it.
pub record Extends (a b : GraphDb) : Type 0 where
  pub more : List EventRow
  pub kept : b.events ≡ a.events ++ more
  pub rising : IsJournal a → IsJournal b

Extends-same :
    (a b : GraphDb) → b.events ≡ a.events → b.last_sequence ≡ a.last_sequence → Extends a b
Extends-same a b e k = record {
  more = [];
  kept = e ∙ sym (append-nil a.events);
  rising = λ h. rw (e, k) h;
}

pub Extends-trans : (a b c : GraphDb) → Extends a b → Extends b c → Extends a c
Extends-trans a b c x y = record {
  more = x.more ++ y.more;
  kept = y.kept ∙ ap (λ es. es ++ y.more) x.kept ∙ append_assoc a.events x.more y.more;
  rising = λ h. y.rising (x.rising h);
}

pub Extends-append :
    (db : GraphDb) (run_id kind : String) (node_id : Option String) (payload : Dict)
    → Extends db (append_event db run_id kind node_id payload).1
unfolding append_event
Extends-append db run_id kind node_id payload = record {
  more = _;
  kept = refl;
  rising = λ h. IsRising-snoc 0 db.events db.last_sequence _ h refl;
}

-- A write to other tables, and one event.
Extends-write :
    (db x : GraphDb) (run_id kind : String) (node_id : Option String) (payload : Dict)
    → x.events ≡ db.events
    → x.last_sequence ≡ db.last_sequence
    → Extends db (append_event x run_id kind node_id payload).1
Extends-write db x run_id kind node_id payload e k =
    Extends-trans db x _ (Extends-same db x e k) (Extends-append x run_id kind node_id payload)

Extends-cancel :
    (run_id reason : String) (rows : List NodeRow) (ids : List String) (db : GraphDb)
    → Extends db (cancel_tasks run_id reason rows ids db)
unfolding cancel_tasks
Extends-cancel run_id reason rows [] db = Extends-same db db refl refl
Extends-cancel run_id reason rows (n ∷ ns) db =
    Extends-trans db _ _
      (Extends-write db (record db { nodes = set_state cancelled run_id n db.nodes }) run_id _ _ _
        refl refl)
      (Extends-cancel run_id reason rows ns _)

Extends-leftovers :
    (run_id : String) (ls : List (String × Bool)) (db : GraphDb)
    → Extends db (cancel_leftovers run_id ls db)
unfolding cancel_leftovers
Extends-leftovers run_id [] db = Extends-same db db refl refl
Extends-leftovers run_id ((n, r) ∷ ls) db =
    Extends-trans db _ _
      (Extends-write db (record db { nodes = set_state cancelled run_id n db.nodes }) run_id _ _ _
        refl refl)
      (Extends-leftovers run_id ls _)

module _ (run_id : String) (patch : GraphPatch) where
  Extends-move :
      (existing : GraphSnapshot) (db : GraphDb) → Extends db (move_tasks run_id patch existing db)
  unfolding move_tasks
  Extends-move existing db =
      let x = Extends-cancel run_id patch.reason existing.nodes patch.cancel db in
      record { more = x.more; kept = x.kept; rising = x.rising }

  Extends-finish : (db : GraphDb) → Extends db (finish_run run_id db)
  unfolding finish_run
  Extends-finish db =
      let x = Extends-leftovers run_id (leftovers run_id db.nodes) db in
      record { more = x.more; kept = x.kept; rising = x.rising }

  Extends-change :
      (existing : GraphSnapshot) (db : GraphDb)
      → Extends db (change_states run_id patch existing db)
  unfolding change_states
  Extends-change existing db =
      if_both (Extends db) patch.finish
        (Extends-trans db _ _ (Extends-move existing db) (Extends-finish _))
        (Extends-move existing db)

  Extends-insert : (db : GraphDb) → Extends db (insert_tasks run_id patch db)
  unfolding insert_tasks
  Extends-insert db = Extends-same db _ refl refl

  Extends-log : (trigger : ℕ) (db : GraphDb) → Extends db (log_patch run_id patch trigger db)
  unfolding log_patch
  Extends-log trigger db =
      let x = Extends-append db run_id "graph_patched" none _ in
      record { more = x.more; kept = x.kept; rising = x.rising }

-- A patch only appends to the journal, and rising sequence numbers go on rising.
pub apply_patch-Extends :
    (db db' : GraphDb) (run_id : String) (patch : GraphPatch) (trigger : ℕ) (b : Bool)
    → apply_patch db run_id patch trigger ≡ ok (b, db')
    → Extends db db'
apply_patch-Extends db db' run_id patch trigger b h =
    elim (apply_patch-cases db run_id patch trigger b db' h) [
      | inl (_, _, same) ↦ rw same (Extends-same db db refl refl)
      | inr (_, a) ↦ rw a.final (
          Extends-trans db _ _ (Extends-insert run_id patch db) (
            Extends-trans _ _ _ (Extends-change run_id patch a.existing _)
              (Extends-log run_id patch trigger _)))
    ]

pub start-Extends :
    (db : GraphDb) (run_id : String) (context : Dict) → Extends db (start db run_id context).1
unfolding start
start-Extends db run_id context = elim (Bool-cases (has_run db run_id)) [
  | inl old ↦ rw old (Extends-same db db refl refl)
  | inr new ↦ rw new (Extends-write db _ run_id _ _ _ refl refl)
]

pub resume-Extends :
    (db db' : GraphDb) (run_id : String) → resume db run_id ≡ ok db' → Extends db db'
unfolding resume
resume-Extends db db' run_id h =
    let (_, _, e) = >>=-ok (guard (has_run db run_id) unknown_run) _ h in
    rw (← ok_inj e)
      (Extends-write db (record db { nodes = requeue run_id db.nodes }) run_id _ _ _ refl refl)

pub mark_running-Extends :
    (ts : List TaskSpec) (db db' : GraphDb) (run_id : String)
    → mark_running db run_id ts ≡ ok db'
    → Extends db db'
unfolding mark_running
mark_running-Extends [] db db' run_id h = rw (← ok_inj h) (Extends-same db db refl refl)
mark_running-Extends (t ∷ ts) db db' run_id h =
    let (_, _, e) = >>=-ok (guard (has_run db run_id) foreign_key) _ h in
    Extends-trans db _ _
      (Extends-write db (record db { nodes = claim run_id t.id db.nodes }) run_id _ _ _ refl refl)
      (mark_running-Extends ts _ db' run_id e)

pub record_outcome-Extends :
    (db db' : GraphDb) (run_id node_id : String) (success : Bool) (payload : Dict) (e : Event)
    → record_outcome db run_id node_id success payload ≡ ok (e, db')
    → Extends db db'
unfolding record_outcome
record_outcome-Extends db db' run_id node_id success payload e h =
    let (_, _, k) =
      >>=-ok (guard (any (is_claimed run_id node_id) db.nodes) (not_running node_id)) _
        {b = (e, db')} h in
    subst (Extends db) (ap (λ (p : Event × GraphDb). p.1) (ok_inj k)) (
      Extends-write db
        (record db {
          nodes =
              update_where (is_claimed run_id node_id)
                (λ n. record n { state = outcome_state success; result = some payload }) db.nodes;
        })
        run_id _ _ _ refl refl)

pub record_external_event-Extends :
    (db db' : GraphDb) (run_id kind node_id : String) (payload : Dict) (e : Event)
    → record_external_event db run_id kind node_id payload ≡ ok (e, db')
    → Extends db db'
unfolding record_external_event
record_external_event-Extends db db' run_id kind node_id payload e h =
    let (_, _, k) = >>=-ok (guard (has_run db run_id) unknown_run) _ {b = (e, db')} h in
    subst (Extends db) (ap (λ (p : Event × GraphDb). p.1) (ok_inj k))
      (Extends-append db run_id kind (some node_id) payload)
