-- ===== src/Runtime/Recalled/Tests.antt =====
-- Runs of the worker `recall` of s13code/runtime.py.
use s14code.Prelude.{
  ◌≤◌, String, ◌≡◌, ◌⊎◌, refl, true, false, none, some, List, [], ◌∷◌, All, length,
}
use s14code.Json.{str, Dict, empty, entry}
use s14code.Memory.{MemoryKind, document_chunk, fact, episode, MemoryScope, MemoryRecord}
use s14code.Memory.Recall.{OnlyMoves}
use s14code.Memory.Documents.{record_ids}
use s14code.Runtime.Recalled.{is_corpus_query, recalled}
use s14code.Runtime.Recalled.Diverse.{of_source, IsHit, recalled-IsHit}

abbrev scope : MemoryScope
scope = record {
  tenant_id = "t";
  project_id = some "p";
  user_id = none;
  agent_id = none;
  run_id = none;
}

abbrev row : MemoryKind → String → String → Dict → MemoryRecord
row kind id uri metadata = record {
  kind = kind;
  scope = scope;
  text = "low rank adapters";
  sources = record { uri = uri; author = "a"; captured_at = "1"; excerpt = none } ∷ [];
  principal = record { id = "gateway"; role = "gateway" };
  metadata = metadata;
  valid_from = "1";
  valid_to = none;
  id = id;
  created_at = "1";
  status = "current";
  supersedes_id = none;
}

abbrev rows : List MemoryRecord
rows =
    row episode "asked" "u" empty
    ∷ row fact "told" "u" empty
    ∷ row document_chunk "c1" "lora" empty
    ∷ row document_chunk "c2" "lora" empty
    ∷ row document_chunk "c3" "lora" empty
    ∷ row document_chunk "c4" "lora" empty
    ∷ row document_chunk "c5" "dpo" (entry "run_id" (str "r") empty)
    ∷ row document_chunk "c6" "dpo" empty
    ∷ row episode "past" "u" empty
    ∷ []

abbrev as_stored : List MemoryRecord → List MemoryRecord
as_stored rs = rs

as_stored-OnlyMoves : OnlyMoves as_stored
as_stored-OnlyMoves P rs h = h

papers-is_corpus_query : is_corpus_query "What do the Papers say?" ≡ true
unfolding is_corpus_query
papers-is_corpus_query = refl

paperwork-is_corpus_query : is_corpus_query "paperwork" ≡ false
unfolding is_corpus_query
paperwork-is_corpus_query = refl

corpus_ids :
    record_ids (recalled as_stored rows scope (some "asked") "r" "2" "papers on adapters")
    ≡ "c1" ∷ "c2" ∷ "c3" ∷ "c6" ∷ []
unfolding recalled
corpus_ids = refl

other_ids :
    record_ids (recalled as_stored rows scope (some "asked") "r" "2" "when is it due?")
    ≡ "told" ∷ "c1" ∷ "c2" ∷ "c3" ∷ "c4" ∷ []
unfolding recalled
other_ids = refl

recalled-IsHit_example :
    All
      (IsHit scope (some "asked") "r" "2" (is_corpus_query "papers on adapters"))
      (recalled as_stored rows scope (some "asked") "r" "2" "papers on adapters")
    × (length (recalled as_stored rows scope (some "asked") "r" "2" "papers on adapters") ≤ 8)
    × ((is_corpus_query "papers on adapters" ≡ false)
        ⊎ ((key : String)
            → of_source key
                (recalled as_stored rows scope (some "asked") "r" "2" "papers on adapters")
              ≤ 3))
recalled-IsHit_example =
    recalled-IsHit as_stored rows scope (some "asked") "r" "2" "papers on adapters"
      as_stored-OnlyMoves
