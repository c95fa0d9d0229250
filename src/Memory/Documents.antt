-- ===== src/Memory/Documents.antt =====
-- `ingest_document` of s13code/core/memory/store.py: the table of documents and the chunks in the table
-- of records. The hash is an argument, as are the ids and the time; one time stands for the times that
-- the source reads for the rows of one call.
mod Superseded
mod Written
pub mod Replaced
mod Tests
use s14code.Prelude.{
  ℕ, ◌+◌, ◌≤◌, suc, zero, String, take_text, Bool, true, false, not, ◌&&◌, ◌||◌, Option, none, some,
  List, [], ◌∷◌, ◌++◌, ◌==◌, any, concat, first, join, leb, length, map, nat_eq, select, show,
  update_where, if◌then◌else◌,
}
use s14code.Json.{Json, null, int, pos, str, obj, Dict, empty, entry, get}
use s14code.Memory.{
  MemoryKind, audit, document_chunk, kind_text, MemoryScope, Principal, SourceRef, MemoryRecord,
  MemoryError, duplicate_id, Outcome, stored, refused, write_row,
}

pub record DocumentRow : Type 0 where
  pub document_id : String
  pub version : ℕ
  pub state : String
  pub scope : MemoryScope
  pub source_uri : String
  pub source_sha256 : String
  pub prepared_sha256 : String
  pub preprocessing : String
  pub created_at : String

pub record Library : Type 0 where
  pub records : List MemoryRecord
  pub documents : List DocumentRow

-- A chunk of `semantic_chunks`, with the id that is made for its record.
pub record IndexChunk : Type 0 where
  pub id : String
  pub text : String
  pub heading : Option String
  pub ordinal : ℕ
  pub previous_ordinal : Option ℕ
  pub next_ordinal : Option ℕ
  pub segmentation : Dict
  pub source_start_char : ℕ
  pub source_end_char : ℕ
  pub source_start_word : ℕ
  pub source_end_word : ℕ

pub record DocumentSource : Type 0 where
  pub source_text : String
  pub prepared_text : String
  pub chunks : List IndexChunk
  pub source_uri : String
  pub scope : MemoryScope
  pub source_author : String
  pub preprocessing : String

pub record IngestReport : Type 0 where
  pub document_id : String
  pub version : ℕ
  pub record_ids : List String

pub data Ingested : Type 0 where
  unchanged : IngestReport → Ingested
  indexed : IngestReport → Library → Ingested
  failed : MemoryError → Ingested

abbrev pub text_or_empty : Option String → String
text_or_empty none = ""
text_or_empty (some s) = s

-- `_document_id`
abbrev pub document_id_of : (String → String) → MemoryScope → String → String
document_id_of digest scope source_uri = concat "doc_" (
    take_text 24 (
      digest (
        join "\u{1f}" (
          scope.tenant_id
          ∷ text_or_empty scope.project_id
          ∷ text_or_empty scope.user_id
          ∷ text_or_empty scope.agent_id
          ∷ text_or_empty scope.run_id
          ∷ source_uri
          ∷ []))))

abbrev pub is_active : String → DocumentRow → Bool
is_active id d = d.document_id == id && d.state == "active"

abbrev pub is_text_of : String → Option Json → Bool
is_text_of id (some (str s)) = s == id
is_text_of id _ = false

-- `json_extract(metadata_json, '$.document_id')=?`
unfoldable pub is_of_document : String → MemoryRecord → Bool
unfolding get
is_of_document id r = is_text_of id (get r.metadata "document_id")

abbrev pub is_current_of : String → MemoryRecord → Bool
is_current_of id r = r.status == "current" && is_of_document id r

abbrev pub is_chunk : MemoryKind → Bool
is_chunk document_chunk = true
is_chunk _ = false

abbrev pub is_current_chunk : String → MemoryRecord → Bool
is_current_chunk id r = is_chunk r.kind && is_current_of id r

abbrev pub text_json : Option String → Json
text_json none = null
text_json (some s) = str s

abbrev pub number_json : Option ℕ → Json
number_json none = null
number_json (some n) = int (pos n)

abbrev pub nat_json : ℕ → Json
nat_json n = int (pos n)

abbrev pub chunk_metadata : String → ℕ → String → String → String → IndexChunk → Dict
chunk_metadata id version preprocessing source_hash prepared_hash c = entry "document_id" (str id) (
    entry "document_version" (nat_json version) (
      entry "heading" (text_json c.heading) (
        entry "ordinal" (nat_json c.ordinal) (
          entry "previous" (number_json c.previous_ordinal) (
            entry "next" (number_json c.next_ordinal) (
              entry "segmentation" (obj c.segmentation) (
                entry "preprocessing" (str preprocessing) (
                  entry "source_sha256" (str source_hash) (
                    entry "prepared_sha256" (str prepared_hash) (
                      entry "source_start_char" (nat_json c.source_start_char) (
                        entry "source_end_char" (nat_json c.source_end_char) (
                          entry "source_start_word" (nat_json c.source_start_word)
                            (entry "source_end_word" (nat_json c.source_end_word) empty)))))))))))))

abbrev pub chunk_record :
    (String → String) → String → String → ℕ → DocumentSource → IndexChunk → MemoryRecord
chunk_record digest now id version d c = record {
  kind = document_chunk;
  scope = d.scope;
  text = c.text;
  sources =
      record {
        uri = d.source_uri;
        author = d.source_author;
        captured_at = now;
        excerpt = some c.text;
      }
      ∷ [];
  principal = record { id = "gateway"; role = "gateway" };
  metadata =
      chunk_metadata id version d.preprocessing (digest d.source_text) (digest d.prepared_text) c;
  valid_from = now;
  valid_to = none;
  id = c.id;
  created_at = now;
  status = "current";
  supersedes_id = none;
}

abbrev pub index_audit :
    (String → String) → String → String → String → ℕ → DocumentSource → MemoryRecord
index_audit digest now audit_id id version d = record {
  kind = audit;
  scope = d.scope;
  text = concat "index document " (concat id (concat " v" (show version)));
  sources = [];
  principal = record { id = "memory-gateway"; role = "gateway" };
  metadata = entry "document_id" (str id) (
      entry "version" (nat_json version) (
        entry "chunks" (nat_json (length d.chunks))
          (entry "source_sha256" (str (digest d.source_text)) empty)));
  valid_from = now;
  valid_to = none;
  id = audit_id;
  created_at = now;
  status = "current";
  supersedes_id = none;
}

-- `_write` of one record after the other; the first that is refused ends them.
unfoldable pub write_all : List MemoryRecord → List MemoryRecord → Outcome
unfolding write_row
write_all rows [] = stored rows
write_all rows (r ∷ rs) = elim (write_row rows r) [
  | refused e ↦ refused e
  | stored rows' ↦ write_all rows' rs
]

abbrev pub supersede_documents : String → List DocumentRow → List DocumentRow
supersede_documents id docs =
    update_where (is_active id) (λ d. record d { state = "superseded" }) docs

abbrev pub supersede_chunks : String → List MemoryRecord → List MemoryRecord
supersede_chunks id rows =
    update_where (is_current_of id) (λ r. record r { status = "superseded" }) rows

abbrev pub has_version : String → ℕ → DocumentRow → Bool
has_version id version d = d.document_id == id && nat_eq d.version version

abbrev pub document_row : (String → String) → String → String → ℕ → DocumentSource → DocumentRow
document_row digest now id version d = record {
  document_id = id;
  version = version;
  state = "active";
  scope = d.scope;
  source_uri = d.source_uri;
  source_sha256 = digest d.source_text;
  prepared_sha256 = digest d.prepared_text;
  preprocessing = d.preprocessing;
  created_at = now;
}

abbrev pub ordinal_of : MemoryRecord → ℕ
ordinal_of r = number (get r.metadata "ordinal")
  where
    number : Option Json → ℕ
    number (some (int (pos n))) = n
    number _ = 0

abbrev pub insert_by_ordinal : MemoryRecord → List MemoryRecord → List MemoryRecord
insert_by_ordinal r [] = r ∷ []
insert_by_ordinal r (x ∷ xs) =
    if leb (ordinal_of r) (ordinal_of x) then r ∷ x ∷ xs else x ∷ insert_by_ordinal r xs

-- `ORDER BY json_extract(metadata_json, '$.ordinal')`
abbrev pub by_ordinal : List MemoryRecord → List MemoryRecord
by_ordinal [] = []
by_ordinal (r ∷ rs) = insert_by_ordinal r (by_ordinal rs)

abbrev pub record_ids : List MemoryRecord → List String
record_ids rows = map (λ (r : MemoryRecord). r.id) rows

-- The transaction: a refused record or a known key rolls all of it back.
abbrev pub ingest_version :
    (String → String)
    → String
    → String
    → String
    → ℕ
    → DocumentSource
    → List DocumentRow
    → List MemoryRecord
    → Ingested
ingest_version digest now audit_id id version d docs rows =
    if any (has_version id version) docs
    then failed duplicate_id
    else elim (write_all rows (
        map (chunk_record digest now id version d) d.chunks
        ++ index_audit digest now audit_id id version d ∷ [])) [
          | refused e ↦ failed e
          | stored rows' ↦
              indexed
                (record {
                  document_id = id;
                  version = version;
                  record_ids = map (λ (c : IndexChunk). c.id) d.chunks;
                })
                (record {
                  records = rows';
                  documents = docs ++ document_row digest now id version d ∷ [];
                })
        ]

-- `ingest_document`, without the vector index.
unfoldable pub ingest_document :
    (String → String) → String → String → DocumentSource → Library → Ingested
unfolding write_all is_of_document get
ingest_document digest now audit_id d l =
    let id = document_id_of digest d.scope d.source_uri in
    elim (first (is_active id) l.documents) [
      | none ↦ ingest_version digest now audit_id id 1 d l.documents l.records
      | some active ↦
          if active.source_sha256 == digest d.source_text
            && active.prepared_sha256 == digest d.prepared_text
          then unchanged (record {
            document_id = id;
            version = active.version;
            record_ids = record_ids (by_ordinal (select (is_current_chunk id) l.records));
          })
          else ingest_version digest now audit_id id (active.version + 1) d
              (supersede_documents id l.documents) (supersede_chunks id l.records)
    ]
