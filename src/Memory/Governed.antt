-- ===== src/Memory/Governed.antt =====
-- s13code/core/memory/store.py: which records a memory can hold.
use s14code.Prelude.{
  String, ◌≡◌, refl, sym, subst, Bool, true, false, not, ◌&&◌, ◌||◌, Option, none, some, List, [],
  ◌∷◌, ◌++◌, ◌==◌, All, All-append, All-update_where, if◌then◌else◌, arith, any, if_both,
}
use s14code.Memory.{
  MemoryRecord, MemoryError, duplicate_id, Outcome, stored, refused, is_nil, is_policy, is_audit,
  is_working, write_error, supersede_error, superseded_id, supersede, store_row, write_row,
  audit_of, Written, audited, written, write,
}

-- A record that has a source where it needs one, and that its principal may write.
pub record IsGoverned (r : MemoryRecord) : Type 0 where
  pub sourced : (is_nil r.sources && not (is_working r.kind || is_audit r.kind)) ≡ false
  pub policy :
      is_policy r.kind ≡ true
      → (r.principal.role == "operator" || r.principal.role == "system") ≡ true
  pub audit : is_audit r.kind ≡ true → (r.principal.role == "gateway") ≡ true

-- The memories that writes lead to, by any callers, those that raise included.
pub data Reach : List MemoryRecord → Type 0 where
  empty : Reach []
  next :
      {rows rows' : List MemoryRecord} (with_audit : Bool) (r : MemoryRecord)
      (audit_id now : String)
      → Reach rows
      → (write with_audit rows r audit_id now).rows ≡ rows'
      → Reach rows'

allowed-IsGoverned : (r : MemoryRecord) → write_error r ≡ none → IsGoverned r
allowed-IsGoverned r h = record {
  sourced = ground (arith);
  policy = λ k. ground (arith);
  audit = λ k. ground (arith);
}

supersede-IsGoverned :
    (id : Option String) (rows : List MemoryRecord)
    → All IsGoverned rows
    → All IsGoverned (supersede id rows)
supersede-IsGoverned none rows h = h
supersede-IsGoverned (some id) rows h =
    All-update_where IsGoverned IsGoverned (λ x. x.id == id)
      (λ x. record x { status = "superseded" }) rows
      (λ x g.
        if_both IsGoverned (x.id == id)
          (record { sourced = g.sourced; policy = g.policy; audit = g.audit }) g)
      h

store_row-IsGoverned :
    (rows : List MemoryRecord) (r : MemoryRecord)
    → All IsGoverned rows
    → IsGoverned r
    → All IsGoverned (store_row rows r)
store_row-IsGoverned rows r h g =
    supersede-IsGoverned (superseded_id r) (rows ++ r ∷ [])
      (All-append IsGoverned rows (r ∷ []) h (g, tt))

stored_inj : {a b : List MemoryRecord} → stored a ≡ stored b → a ≡ b
stored_inj h = ground (arith)

-- What a write that was stored went through.
pub record Stored (rows : List MemoryRecord) (r : MemoryRecord) (rows' : List MemoryRecord)
    : Type 0 where
  pub allowed : write_error r ≡ none
  pub supersedes : supersede_error rows r ≡ none
  pub is_new : any (λ x. x.id == r.id) rows ≡ false
  pub after : rows' ≡ store_row rows r

stored-cases :
    (rows : List MemoryRecord) (r : MemoryRecord) (rows' : List MemoryRecord)
    (e f : Option MemoryError) (known : Bool)
    → write_error r ≡ e
    → supersede_error rows r ≡ f
    → any (λ x. x.id == r.id) rows ≡ known
    → elim e [
      | some x ↦ refused x
      | none ↦ elim f [
        | some x ↦ refused x
        | none ↦ if known then refused duplicate_id else stored (store_row rows r)
      ]
    ]
      ≡ stored rows'
    → Stored rows r rows'
stored-cases rows r rows' none none false a b c h = record {
  allowed = a;
  supersedes = b;
  is_new = c;
  after = sym (stored_inj h);
}
stored-cases rows r rows' none none true a b c h = ground (arith)
stored-cases rows r rows' none (some x) known a b c h = ground (arith)
stored-cases rows r rows' (some x) f known a b c h = ground (arith)

pub write_row-Stored :
    (rows : List MemoryRecord) (r : MemoryRecord) (rows' : List MemoryRecord)
    → write_row rows r ≡ stored rows'
    → Stored rows r rows'
unfolding write_row
write_row-Stored rows r rows' h =
    stored-cases rows r rows' (write_error r) (supersede_error rows r)
      (any (λ x. x.id == r.id) rows) refl refl refl h

write_row-IsGoverned :
    (rows : List MemoryRecord) (r : MemoryRecord) (rows' : List MemoryRecord)
    → All IsGoverned rows
    → write_row rows r ≡ stored rows'
    → All IsGoverned rows'
write_row-IsGoverned rows r rows' g h =
    let s = write_row-Stored rows r rows' h in
    subst (All IsGoverned) (sym s.after)
      (store_row-IsGoverned rows r g (allowed-IsGoverned r s.allowed))

audited-IsGoverned :
    (rows : List MemoryRecord) (r : MemoryRecord) (o : Outcome)
    → All IsGoverned rows
    → write_row rows r ≡ o
    → All IsGoverned (audited rows o).rows
audited-IsGoverned rows r (refused e) g h = g
audited-IsGoverned rows r (stored rows') g h = write_row-IsGoverned rows r rows' g h

written-IsGoverned :
    (with_audit : Bool) (rows : List MemoryRecord) (r : MemoryRecord) (audit_id now : String)
    (o : Outcome)
    → All IsGoverned rows
    → write_row rows r ≡ o
    → All IsGoverned (written with_audit rows r audit_id now o).rows
written-IsGoverned with_audit rows r audit_id now (refused e) g h = g
written-IsGoverned with_audit rows r audit_id now (stored mid) g h =
    let first = write_row-IsGoverned rows r mid g h in
    if_both (λ (v : Written). All IsGoverned v.rows) (with_audit && not (is_audit r.kind))
      (audited-IsGoverned mid (audit_of audit_id now r) _ first refl) first

-- Whatever records are written by whatever principals, with or without an audit record, and
-- whatever of it raises, a memory holds only policies written by an operator or the system and
-- audit records written by the gateway, and every record but working and audit ones has a
-- source.
pub Reach-IsGoverned : {rows : List MemoryRecord} → Reach rows → All IsGoverned rows
unfolding write
Reach-IsGoverned empty = tt
Reach-IsGoverned (next {rows} {rows'} with_audit r audit_id now before h) =
    subst (All IsGoverned) h (
      written-IsGoverned with_audit rows r audit_id now (write_row rows r) (Reach-IsGoverned before)
        refl)
