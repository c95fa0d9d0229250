-- ===== src/Memory/Tests.antt =====
-- Runs of s13code/core/memory/store.py on a small memory.
use s14code.Prelude.{◌≡◌, ◌≢◌, String, refl, false, Option, true, none, some, List, [], ◌∷◌, All}
use s14code.Json.{Dict}
use s14code.Memory.{
  MemoryKind, policy, fact, MemoryScope, MemoryRecord, duplicate_id, policy_denied, Outcome, stored,
  refused, write_row, write, recall,
}
use s14code.Memory.Governed.{IsGoverned, Reach, next, Reach-IsGoverned}
use s14code.Memory.Recall.{OnlyMoves, InScope, recall-InScope, recall-superseded}

abbrev scope : MemoryScope
scope = record {
  tenant_id = "t";
  project_id = some "p";
  user_id = none;
  agent_id = none;
  run_id = none;
}

abbrev note : MemoryKind → String → Option String → MemoryRecord
note kind id supersedes_id = record {
  kind = kind;
  scope = scope;
  text = "the sky is blue";
  sources = record { uri = "u"; author = "a"; captured_at = "1"; excerpt = none } ∷ [];
  principal = record { id = "ann"; role = "agent" };
  metadata = Dict.empty;
  valid_from = "1";
  valid_to = none;
  id = id;
  created_at = "1";
  status = "current";
  supersedes_id = supersedes_id;
}

abbrev rows_of : Outcome → List MemoryRecord
rows_of (stored rows) = rows
rows_of (refused e) = []

abbrev first_rows : List MemoryRecord
unfolding write
first_rows = (write true [] (note fact "one" none) "audit_one" "1").rows

first_ok : (write true [] (note fact "one" none) "audit_one" "1").error ≡ none
unfolding write
first_ok = refl

-- The record is there though its audit record was refused.
unaudited :
    write true [] (note fact "one" none) "one" "1"
    ≡ record { rows = note fact "one" none ∷ []; error = some duplicate_id }
unfolding write
unaudited = refl

abbrev second_rows : List MemoryRecord
unfolding write_row
second_rows = rows_of (write_row first_rows (note fact "two" (some "one")))

second_ok : write_row first_rows (note fact "two" (some "one")) ≡ stored second_rows
unfolding write_row first_rows write
second_ok = refl

agent_policy : write_row [] (note policy "rule" none) ≡ refused policy_denied
unfolding write_row
agent_policy = refl

-- An order that moves nothing.
abbrev as_stored : List MemoryRecord → List MemoryRecord
as_stored rows = rows

as_stored-OnlyMoves : OnlyMoves as_stored
as_stored-OnlyMoves P rows h = h

first-Reach : Reach first_rows
unfolding write first_rows
first-Reach = next true (note fact "one" none) "audit_one" "1" Reach.empty refl

Reach-IsGoverned_example : All IsGoverned first_rows
Reach-IsGoverned_example = Reach-IsGoverned first-Reach

recall-InScope_example :
    All (λ r. InScope scope r.scope) (recall as_stored second_rows scope [] 8 false "2")
recall-InScope_example =
    recall-InScope as_stored second_rows scope [] 8 false "2" as_stored-OnlyMoves

recall-superseded_example :
    All (λ x. x.id ≢ "one") (recall as_stored second_rows scope [] 8 false "2")
recall-superseded_example =
    recall-superseded as_stored first_rows second_rows (note fact "two" (some "one")) "one" scope []
      8 "2" as_stored-OnlyMoves second_ok refl
