-- ===== src/Memory/Neighbours/Tests.antt =====
-- Runs of `recall` of s13code/core/memory/store.py with neighbours.
use s14code.Prelude.{
  ℕ, String, ◌≡◌, ◌⊎◌, arith, refl, true, false, Option, none, some, List, [], ◌∷◌, All, contains,
}
use s14code.Json.{ℤ, pos, Json, int, str, empty, entry}
use s14code.Memory.{document_chunk, MemoryScope, MemoryRecord, recall}
use s14code.Memory.Documents.{record_ids}
use s14code.Memory.Neighbours.{place_of, recall_near}
use s14code.Memory.Neighbours.Expanded.{Continues, is_near}
use s14code.Memory.Neighbours.Complete.{recall_near-returns}

abbrev scope_of : String → MemoryScope
scope_of tenant = record {
  tenant_id = tenant;
  project_id = none;
  user_id = none;
  agent_id = none;
  run_id = none;
}

abbrev chunk : String → String → ℕ → MemoryRecord
chunk tenant id ordinal = record {
  kind = document_chunk;
  scope = scope_of tenant;
  text = "a chunk";
  sources = record { uri = "u"; author = "a"; captured_at = "1"; excerpt = none } ∷ [];
  principal = record { id = "ann"; role = "agent" };
  metadata =
      entry "document_id" (str "doc_1")
        (entry "document_version" (int (pos 1)) (entry "ordinal" (int (pos ordinal)) empty));
  valid_from = "1";
  valid_to = none;
  id = id;
  created_at = "1";
  status = "current";
  supersedes_id = none;
}

abbrev rows : List MemoryRecord
rows = chunk "t" "c2" 2 ∷ chunk "s" "c3" 3 ∷ chunk "s" "c1" 1 ∷ chunk "s" "c5" 5 ∷ []

abbrev as_stored : List MemoryRecord → List MemoryRecord
as_stored rs = rs

abbrev render : Json → String
render v = ""

abbrev parse : String → Option ℤ
parse s = none

-- The neighbours of another tenant.
neighbours_of_other :
    recall_near render parse as_stored rows (scope_of "t") [] 8 false "2" 1
    ≡ some (chunk "t" "c2" 2 ∷ chunk "s" "c1" 1 ∷ chunk "s" "c3" 3 ∷ [])
unfolding recall_near
neighbours_of_other = refl

recall_near-returns_example :
    (out : List MemoryRecord) × (recall_near render parse as_stored rows
        (scope_of "t")
        []
        8
        false
        "2"
        1
      ≡ some out)
    × Continues
        (λ x. is_near render parse 1 (recall as_stored rows (scope_of "t") [] 8 false "2") x ≡ true)
        (recall as_stored rows (scope_of "t") [] 8 false "2")
        out
    × (◌≡◌ {A = ℕ} 1 0
        ⊎ All
            (λ x.
              (is_near render parse 1 (recall as_stored rows (scope_of "t") [] 8 false "2") x
                ≡ false)
              ⊎ (contains x.id (record_ids out) ≡ true))
            rows)
unfolding recall place_of
recall_near-returns_example =
    recall_near-returns render parse as_stored rows (scope_of "t") [] 8 false "2" 1
      ((λ h. ground (arith, h)), tt)
