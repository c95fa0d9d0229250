-- ===== src/Memory/Documents/Replaced.antt =====
-- The versions and the chunks of a document of s13code/core/memory/store.py after it is indexed.
use s14code.Prelude.{
  ℕ, ◌+◌, String, ◌≡◌, refl, sym, ap, ap₂, subst, ◌∙◌, Bool, true, false, ◌&&◌, none, some, List,
  [], ◌∷◌, ◌++◌, ◌==◌, append-nil, arith, All-append, any, first, length, length-append, map,
  select, select-append, if◌then◌else◌, eq_iff, eq_refl, Bool-cases, inl, inr,
}
use s14code.Memory.{MemoryRecord, duplicate_id, Outcome, stored, refused}
use s14code.Memory.Documents.{
  DocumentRow, Library, IndexChunk, DocumentSource, IngestReport, indexed, unchanged, failed,
  document_id_of, is_active, is_current_chunk, chunk_record, index_audit, write_all,
  supersede_documents, supersede_chunks, has_version, document_row, ingest_version, ingest_document,
}
use s14code.Memory.Documents.Superseded.{
  versions, IsIndexed, select-supersede_documents, versions-supersede_documents,
  select-supersede_chunks, select-supersede_chunks_other, superseded-others,
}
use s14code.Memory.Documents.Written.{
  write_all-append, made, entries, made-alone, select-entries, select-entries_other,
}

indexed_inj : {r s : IngestReport} {a b : Library} → indexed r a ≡ indexed s b → (r ≡ s) × (a ≡ b)
indexed_inj {r} {s} {a} {b} h =
    (ap (λ o. elim o [ indexed p l ↦ p | _ ↦ r ]) h, ap (λ o. elim o [ indexed p l ↦ l | _ ↦ a ]) h)

-- The document has the new version and its chunks, and every document is in order.
pub record IsReplaced (digest : String → String) (now id : String) (d : DocumentSource)
    (was : Library) (before : ℕ) (report : IngestReport) (l : Library) : Type 0 where
  pub numbered : report.version ≡ before + 1
  pub active : select (is_active id) l.documents ≡ document_row digest now id report.version d ∷ []
  pub chunks :
      select (is_current_chunk id) l.records
      ≡ map (chunk_record digest now id report.version d) d.chunks
  pub others :
      (x : String)
      → (id == x) ≡ false
      → select (is_current_chunk x) l.records ≡ select (is_current_chunk x) was.records
  pub ordered : (x : String) → IsIndexed l x

-- The step from one version to the next.
module _ (digest : String → String) (now audit_id id : String) (version : ℕ)
    (d : DocumentSource) where
  abbrev written : List MemoryRecord
  written = entries digest now audit_id id version d

  ordered-other :
      (x : String) (l : Library)
      → (id == x) ≡ false
      → IsIndexed l x
      → IsIndexed
          (record {
            records = l.records ++ written;
            documents = l.documents ++ document_row digest now id version d ∷ [];
          })
          x
  ordered-other x l h o = moved o
    where
      docs :
          select (is_active x) (l.documents ++ document_row digest now id version d ∷ [])
          ≡ select (is_active x) l.documents
      docs =
          select-append (is_active x) l.documents (document_row digest now id version d ∷ [])
          ∙ rw h (append-nil (select (is_active x) l.documents))

      count :
          versions x (l.documents ++ document_row digest now id version d ∷ [])
          ≡ versions x l.documents
      count = ap length (
          select-append (λ r. r.document_id == x) l.documents
            (document_row digest now id version d ∷ [])
          ∙ rw h (append-nil (select (λ r. r.document_id == x) l.documents)))

      rows :
          select (is_current_chunk x) (l.records ++ written) ≡ select (is_current_chunk x) l.records
      rows =
          select-append (is_current_chunk x) l.records written
          ∙ ap (λ t. select (is_current_chunk x) l.records ++ t)
              (select-entries_other digest now audit_id id version d x h)
          ∙ append-nil (select (is_current_chunk x) l.records)

      moved :
          IsIndexed l x
          → IsIndexed
              (record {
                records = l.records ++ written;
                documents = l.documents ++ document_row digest now id version d ∷ [];
              })
              x
      moved (inl (a, n, c)) = inl (docs ∙ a, count ∙ n, rows ∙ c)
      moved (inr (e, a, v)) = inr (e, docs ∙ a, v ∙ sym count)

  abbrev after : Library → Library
  after l = record {
    records = l.records ++ written;
    documents = l.documents ++ document_row digest now id version d ∷ [];
  }

  ingest_version-after :
      (l : Library) (report : IngestReport) (l' : Library) (known : Bool) (o : Outcome)
      → write_all l.records written ≡ o
      → (if known then failed duplicate_id else elim o [
        | refused e ↦ failed e
        | stored rows' ↦
            indexed
              (record {
                document_id = id;
                version = version;
                record_ids = map (λ (c : IndexChunk). c.id) d.chunks;
              })
              (record {
                records = rows';
                documents = l.documents ++ document_row digest now id version d ∷ [];
              })
      ])
        ≡ indexed report l'
      → (report.version ≡ version) × (l' ≡ after l)
  ingest_version-after l report l' true o w h = absurd (ground (arith, h))
  ingest_version-after l report l' false (refused e) w h = absurd (ground (arith, h))
  ingest_version-after l report l' false (stored rows') w h = (
    ap (λ (r : IngestReport). r.version) (sym (indexed_inj h).0),
    sym (indexed_inj h).1
        ∙ ap
            (λ rs. record {
              records = rs;
              documents = l.documents ++ document_row digest now id version d ∷ [];
            })
            (write_all-append l.records written rows'
              (All-append (λ r. r.supersedes_id ≡ none)
                (made digest now audit_id id version d d.chunks)
                (index_audit digest now audit_id id version d ∷ [])
                (made-alone digest now audit_id id version d d.chunks) (refl, tt))
              w),
  )

  ingest_version-IsReplaced :
      (l : Library) (before : ℕ) (was : Library) (report : IngestReport) (l' : Library)
      → version ≡ before + 1
      → versions id l.documents ≡ before
      → select (is_active id) l.documents ≡ []
      → select (is_current_chunk id) l.records ≡ []
      → ((x : String)
          → (id == x) ≡ false
          → IsIndexed l x
            × (select (is_current_chunk x) l.records ≡ select (is_current_chunk x) was.records))
      → ingest_version digest now audit_id id version d l.documents l.records ≡ indexed report l'
      → IsReplaced digest now id d was before report l'
  ingest_version-IsReplaced l before was report l' v n a c others h =
      let shape =
        ingest_version-after l report l' (any (has_version id version) l.documents)
          (write_all l.records written) refl h in
      subst (λ m. IsReplaced digest now id d was before report m) (sym shape.1)
        (record {
          numbered = shape.0 ∙ v;
          active = new_row ∙ ap (λ n. document_row digest now id n d ∷ []) (sym shape.0);
          chunks =
              select-append (is_current_chunk id) l.records written
              ∙ ap₂ (λ s t. s ++ t) c (select-entries digest now audit_id id version d)
              ∙ ap (λ n. map (chunk_record digest now id n d) d.chunks) (sym shape.0);
          others = λ x other.
              select-append (is_current_chunk x) l.records written
              ∙ ap (λ t. select (is_current_chunk x) l.records ++ t)
                  (select-entries_other digest now audit_id id version d x other)
              ∙ append-nil (select (is_current_chunk x) l.records)
              ∙ (others x other).1;
          ordered = λ x. elim (Bool-cases (id == x)) [
            | inl same ↦
                subst (λ y. IsIndexed (after l) y) ((eq_iff id x).0 same)
                  (inr (document_row digest now id version d, new_row, v ∙ sym one_more))
            | inr other ↦ ordered-other x l other (others x other).0
          ];
        })
    where
      new_row :
          select (is_active id) (l.documents ++ document_row digest now id version d ∷ [])
          ≡ document_row digest now id version d ∷ []
      new_row =
          select-append (is_active id) l.documents (document_row digest now id version d ∷ [])
          ∙ ap (λ t. t ++ select (is_active id) (document_row digest now id version d ∷ [])) a
          ∙ rw (eq_refl id) refl

      one_more : versions id (l.documents ++ document_row digest now id version d ∷ []) ≡ before + 1
      one_more =
          ap length (
            select-append (λ r. r.document_id == id) l.documents
              (document_row digest now id version d ∷ []))
          ∙ length-append (select (λ r. r.document_id == id) l.documents)
              (select (λ r. r.document_id == id) (document_row digest now id version d ∷ []))
          ∙ rw (eq_refl id, n) refl

-- The first row of a selection.
first-select_head :
    (p : DocumentRow → Bool) (xs : List DocumentRow)
    → first p xs ≡ elim (select p xs) [ [] ↦ none | x ∷ rest ↦ some x ]
first-select_head p [] = refl
first-select_head p (x ∷ xs) = ground (arith, first-select_head p xs)

indexed-unchanged : {r s : IngestReport} {l : Library} → unchanged r ≡ indexed s l → ⊥
indexed-unchanged h = absurd (ground (arith, h))

-- Where every document has either no version and no current chunk, or one active version, the
-- newest, and `ingest_document` returns an indexed document, its version is one more than the
-- versions that the document had, its row is the document's only active one, its chunks are all
-- the current chunks of the document, in their order, the current chunks of each other document
-- are as before, and again every document has either no version and no current chunk, or one
-- active version, the newest.
pub ingest_document-IsReplaced :
    (digest : String → String) (now audit_id : String) (d : DocumentSource) (l : Library)
    (report : IngestReport) (l' : Library)
    → ((x : String) → IsIndexed l x)
    → ingest_document digest now audit_id d l ≡ indexed report l'
    → IsReplaced digest now
        (document_id_of digest d.scope d.source_uri)
        d
        l
        (versions (document_id_of digest d.scope d.source_uri) l.documents)
        report
        l'
unfolding ingest_document
ingest_document-IsReplaced digest now audit_id d l report l' ordered h = of_index (ordered id)
  where
    id : String
    id = document_id_of digest d.scope d.source_uri

    of_index : IsIndexed l id → IsReplaced digest now id d l (versions id l.documents) report l'
    of_index (inl (a, n, c)) =
        ingest_version-IsReplaced digest now audit_id id 1 d l (versions id l.documents) l report l'
          (omega (arith, n)) refl a c (λ x other. (ordered x, refl))
          (rw (ingest_document, first-select_head (is_active id) l.documents, a) at h)
    of_index (inr (e, a, v)) =
        elim (Bool-cases (
          e.source_sha256 == digest d.source_text && e.prepared_sha256 == digest d.prepared_text)) [
            | inl same ↦ absurd (
                indexed-unchanged (
                  rw (ingest_document, first-select_head (is_active id) l.documents, a, same) at h))
            | inr differs ↦
                ingest_version-IsReplaced digest now audit_id id (e.version + 1) d
                  (record {
                    records = supersede_chunks id l.records;
                    documents = supersede_documents id l.documents;
                  })
                  (versions id l.documents) l report l' (omega (arith, v))
                  (versions-supersede_documents id id l.documents)
                  (select-supersede_documents id l.documents) (select-supersede_chunks id l.records)
                  (λ x other. (
                    superseded-others id l x other (ordered x),
                    select-supersede_chunks_other id x l.records other,
                  ))
                  (rw (ingest_document, first-select_head (is_active id) l.documents, a, differs) at
                    h)
          ]
