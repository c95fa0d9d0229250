-- ===== src/Memory/Documents/Written.antt =====
-- The records that `ingest_document` of s13code/core/memory/store.py writes for a version.
use s14code.Prelude.{
  ℕ, String, ◌≡◌, refl, ap, ◌∙◌, false, Option, none, List, [], ◌∷◌, ◌++◌, ◌==◌, append-nil,
  append_assoc, arith, All, map, select, select-append, eq_refl,
}
use s14code.Json.{get}
use s14code.Memory.{MemoryRecord, Outcome, stored, refused, store_row, write_row}
use s14code.Memory.Governed.{write_row-Stored}
use s14code.Memory.Documents.{
  IndexChunk, DocumentSource, is_of_document, is_current_chunk, chunk_record, index_audit,
  write_all,
}

write_all-step :
    (rows : List MemoryRecord) (r : MemoryRecord) (rs rows' : List MemoryRecord) (o : Outcome)
    → write_row rows r ≡ o
    → r.supersedes_id ≡ none
    → ((mid : List MemoryRecord) → write_all mid rs ≡ stored rows' → rows' ≡ mid ++ rs)
    → elim o [ refused e ↦ refused e | stored mid ↦ write_all mid rs ] ≡ stored rows'
    → rows' ≡ rows ++ r ∷ rs
write_all-step rows r rs rows' (refused e) w none' rest h = ground (arith)
write_all-step rows r rs rows' (stored mid) w none' rest h =
    rest mid h
    ∙ ap (λ t. t ++ rs) ((write_row-Stored rows r mid w).after ∙ alone r.supersedes_id none')
    ∙ append_assoc rows (r ∷ []) rs
  where
    alone : (o : Option String) → r.supersedes_id ≡ none → store_row rows r ≡ rows ++ r ∷ []
    alone o e = rw (store_row, e) refl

pub write_all-append :
    (rows rs rows' : List MemoryRecord)
    → All (λ r. r.supersedes_id ≡ none) rs
    → write_all rows rs ≡ stored rows'
    → rows' ≡ rows ++ rs
unfolding write_all
write_all-append rows [] rows' a h = ground (arith, append-nil rows)
write_all-append rows (r ∷ rs) rows' a h =
    write_all-step rows r rs rows' (write_row rows r) refl a.0
      (λ mid. write_all-append mid rs rows' a.1) h

-- The records of one version: its chunks and the audit record.
module _ (digest : String → String) (now audit_id id : String) (version : ℕ)
    (d : DocumentSource) where
  abbrev pub made : List IndexChunk → List MemoryRecord
  made cs = map (chunk_record digest now id version d) cs

  abbrev pub entries : List MemoryRecord
  entries = made d.chunks ++ index_audit digest now audit_id id version d ∷ []

  pub made-alone : (cs : List IndexChunk) → All (λ r. r.supersedes_id ≡ none) (made cs)
  made-alone [] = tt
  made-alone (c ∷ cs) = (refl, made-alone cs)

  select-made : (cs : List IndexChunk) → select (is_current_chunk id) (made cs) ≡ made cs
  unfolding is_of_document get
  select-made [] = refl
  select-made (c ∷ cs) =
      rw (eq_refl id) (ap (λ t. chunk_record digest now id version d c ∷ t) (select-made cs))

  select-made_other :
      (x : String) (cs : List IndexChunk)
      → (id == x) ≡ false
      → select (is_current_chunk x) (made cs) ≡ []
  unfolding is_of_document get
  select-made_other x [] h = refl
  select-made_other x (c ∷ cs) h = rw h (select-made_other x cs h)

  pub select-entries : select (is_current_chunk id) entries ≡ made d.chunks
  select-entries =
      select-append (is_current_chunk id) (made d.chunks)
        (index_audit digest now audit_id id version d ∷ [])
      ∙ append-nil (select (is_current_chunk id) (made d.chunks))
      ∙ select-made d.chunks

  pub select-entries_other :
      (x : String) → (id == x) ≡ false → select (is_current_chunk x) entries ≡ []
  select-entries_other x h =
      select-append (is_current_chunk x) (made d.chunks)
        (index_audit digest now audit_id id version d ∷ [])
      ∙ append-nil (select (is_current_chunk x) (made d.chunks))
      ∙ select-made_other x d.chunks h
