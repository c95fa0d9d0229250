-- ===== src/Memory/Documents/Tests.antt =====
-- Runs of `ingest_document` of s13code/core/memory/store.py: a document that is indexed and changes.
use s14code.Prelude.{◌≡◌, String, refl, inl, none, some, [], ◌∷◌}
use s14code.Json.{empty}
use s14code.Memory.{MemoryScope}
use s14code.Memory.Documents.{
  Library, IndexChunk, DocumentSource, IngestReport, Ingested, unchanged, indexed, failed,
  ingest_document,
}
use s14code.Memory.Documents.Replaced.{IsReplaced, ingest_document-IsReplaced}

abbrev scope : MemoryScope
scope = record {
  tenant_id = "t";
  project_id = some "p";
  user_id = none;
  agent_id = none;
  run_id = none;
}

abbrev piece : String → String → IndexChunk
piece id text = record {
  id = id;
  text = text;
  heading = none;
  ordinal = 0;
  previous_ordinal = none;
  next_ordinal = none;
  segmentation = empty;
  source_start_char = 0;
  source_end_char = 3;
  source_start_word = 0;
  source_end_word = 1;
}

abbrev page : String → String → DocumentSource
page id text = record {
  source_text = text;
  prepared_text = text;
  chunks = piece id text ∷ [];
  source_uri = "u";
  scope = scope;
  source_author = "a";
  preprocessing = "none";
}

abbrev digest : String → String
digest s = s

abbrev library_of : Ingested → Library
library_of (unchanged r) = record { records = []; documents = [] }
library_of (indexed r l) = l
library_of (failed e) = record { records = []; documents = [] }

abbrev report_of : Ingested → IngestReport
report_of (unchanged r) = r
report_of (indexed r l) = r
report_of (failed e) = record { document_id = ""; version = 0; record_ids = [] }

abbrev nothing : Library
nothing = record { records = []; documents = [] }

abbrev first_run : Ingested
first_run = ingest_document digest "1" "a1" (page "c1" "sky") nothing

abbrev second_run : Ingested
second_run = ingest_document digest "2" "a2" (page "c2" "sea") (library_of first_run)

first_run-indexed : first_run ≡ indexed (report_of first_run) (library_of first_run)
unfolding ingest_document
first_run-indexed = refl

second_run-indexed : second_run ≡ indexed (report_of second_run) (library_of second_run)
unfolding ingest_document
second_run-indexed = refl

third_run-unchanged :
    ingest_document digest "3" "a3" (page "c3" "sea") (library_of second_run)
    ≡ unchanged (report_of second_run)
unfolding ingest_document
third_run-unchanged = refl

ingest_document-IsReplaced_example :
    IsReplaced digest "2"
      (report_of second_run).document_id
      (page "c2" "sea")
      (library_of first_run)
      1
      (report_of second_run)
      (library_of second_run)
unfolding ingest_document
ingest_document-IsReplaced_example =
    ingest_document-IsReplaced digest "2" "a2" (page "c2" "sea") (library_of first_run)
      (report_of second_run) (library_of second_run)
      (ingest_document-IsReplaced digest "1" "a1" (page "c1" "sky") nothing (report_of first_run)
        (library_of first_run) (λ x. inl (refl, refl, refl)) first_run-indexed).ordered
      second_run-indexed
