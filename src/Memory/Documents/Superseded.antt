-- ===== src/Memory/Documents/Superseded.antt =====
-- Documents of s13code/core/memory/store.py before and after what supersedes their rows and chunks.
use s14code.Prelude.{
  ℕ, String, ◌≡◌, refl, sym, ◌∙◌, true, false, Option, none, some, List, [], ◌∷◌, ◌==◌, ◌⊎◌, arith,
  length, select, select-update_where_none, eq_iff, inl, inr,
}
use s14code.Json.{Json, null, bool, int, str, arr, obj, get}
use s14code.Memory.{MemoryRecord}
use s14code.Memory.Documents.{
  DocumentRow, Library, is_active, is_text_of, is_of_document, is_current_of, is_current_chunk,
  supersede_documents, supersede_chunks,
}

-- The versions of a document.
abbrev pub versions : String → List DocumentRow → ℕ
versions id docs = length (select (λ d. d.document_id == id) docs)

-- A document has no version and no current chunk, or one active version, the newest.
abbrev pub IsIndexed : Library → String → Type 0
IsIndexed l id =
    ((select (is_active id) l.documents ≡ [])
      × (versions id l.documents ≡ 0)
      × (select (is_current_chunk id) l.records ≡ []))
    ⊎ ((d : DocumentRow) × (select (is_active id) l.documents ≡ d ∷ [])
        × (d.version ≡ versions id l.documents))

pub select-supersede_documents :
    (id : String) (docs : List DocumentRow)
    → select (is_active id) (supersede_documents id docs) ≡ []
select-supersede_documents id docs =
    select-update_where_none (is_active id) (is_active id) (λ d. record d { state = "superseded" })
      docs (λ d h. ground (arith, h)) (λ d h. h)

select-supersede_documents_other :
    (id x : String) (docs : List DocumentRow)
    → (id == x) ≡ false
    → select (is_active x) (supersede_documents id docs) ≡ select (is_active x) docs
select-supersede_documents_other id x [] h = refl
select-supersede_documents_other id x (d ∷ docs) h = ground (
  arith,
  eq_iff d.document_id id,
  eq_iff d.document_id x,
  eq_iff id x,
  h,
  select-supersede_documents_other id x docs h,
)

pub versions-supersede_documents :
    (id x : String) (docs : List DocumentRow)
    → versions x (supersede_documents id docs) ≡ versions x docs
versions-supersede_documents id x [] = refl
versions-supersede_documents id x (d ∷ docs) =
    ground (arith, versions-supersede_documents id x docs)

is_text_of-other :
    (id x : String) (o : Option Json)
    → (id == x) ≡ false
    → is_text_of id o ≡ true
    → is_text_of x o ≡ false
is_text_of-other id x none h k = refl
is_text_of-other id x (some (str s)) h k =
    ground (arith, eq_iff s id, eq_iff s x, eq_iff id x, h, k)
is_text_of-other id x (some null) h k = refl
is_text_of-other id x (some (bool b)) h k = refl
is_text_of-other id x (some (int n)) h k = refl
is_text_of-other id x (some (arr xs)) h k = refl
is_text_of-other id x (some (obj d)) h k = refl

pub select-supersede_chunks :
    (id : String) (rows : List MemoryRecord)
    → select (is_current_chunk id) (supersede_chunks id rows) ≡ []
unfolding is_of_document
select-supersede_chunks id rows =
    select-update_where_none (is_current_chunk id) (is_current_of id)
      (λ r. record r { status = "superseded" }) rows (λ r h. ground arith)
      (λ r h. ground (arith, h))

pub select-supersede_chunks_other :
    (id x : String) (rows : List MemoryRecord)
    → (id == x) ≡ false
    → select (is_current_chunk x) (supersede_chunks id rows) ≡ select (is_current_chunk x) rows
unfolding is_of_document
select-supersede_chunks_other id x [] h = refl
select-supersede_chunks_other id x (r ∷ rows) h = ground (
  arith,
  is_text_of-other id x (get r.metadata "document_id") h,
  select-supersede_chunks_other id x rows h,
)

-- What supersedes a document leaves the other documents in order.
pub superseded-others :
    (id : String) (l : Library) (x : String)
    → (id == x) ≡ false
    → IsIndexed l x
    → IsIndexed
        (record {
          records = supersede_chunks id l.records;
          documents = supersede_documents id l.documents;
        })
        x
superseded-others id l x h (inl (a, n, c)) = inl (
  select-supersede_documents_other id x l.documents h ∙ a,
  versions-supersede_documents id x l.documents ∙ n,
  select-supersede_chunks_other id x l.records h ∙ c,
)
superseded-others id l x h (inr (e, a, v)) = inr (
  e,
  select-supersede_documents_other id x l.documents h ∙ a,
  v ∙ sym (versions-supersede_documents id x l.documents),
)
