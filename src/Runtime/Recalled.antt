-- ===== src/Runtime/Recalled.antt =====
-- The worker `recall` of s13code/runtime.py: what a run takes from the memory. A query is a text, as
-- the planner writes it.
pub mod Diverse
mod Tests
use s14code.Prelude.{
  ℕ, suc, ◌+◌, String, Bool, true, false, not, ◌&&◌, ◌||◌, Option, none, some, List, [], ◌∷◌, ◌++◌,
  ◌==◌, any, codes, leb, length, lower, map, nat_eq, select, take, if◌then◌else◌,
}
use s14code.Json.{get}
use s14code.Memory.{
  MemoryKind, document_chunk, fact, playbook, episode, MemoryScope, MemoryRecord, recall,
}
use s14code.Memory.Documents.{is_text_of}
use s14code.Chunking.Words.{codes_eq}

-- `\w`, among ASCII.
abbrev pub is_word_code : ℕ → Bool
is_word_code c =
    leb b'a' c && leb c b'z'
    || leb b'A' c && leb c b'Z'
    || leb b'0' c && leb c b'9'
    || nat_eq c b'_'

-- The matches of `\w+`, the first one after what is read of it.
abbrev pub words_from : List ℕ → List ℕ → List (List ℕ)
words_from word [] = word ∷ []
words_from word (c ∷ cs) =
    let more = words_from (word ++ c ∷ []) cs in
    let next = words_from [] cs in if is_word_code c then more else word ∷ next

abbrev pub corpus_words : List String
corpus_words = "paper" ∷ "papers" ∷ "document" ∷ "documents" ∷ "indexed" ∷ "corpus" ∷ []

-- `re.search(r"\b(papers?|documents?|indexed|corpus)\b", query, re.I)`
unfoldable pub is_corpus_query : String → Bool
is_corpus_query query =
    any (λ word. any (λ w. codes_eq (codes w) word) corpus_words)
      (words_from [] (map lower (codes query)))

-- `hit.id != inbound_id and hit.metadata.get("run_id") != run_id`
unfoldable pub is_foreign : Option String → String → MemoryRecord → Bool
unfolding get
is_foreign inbound_id run_id r =
    not (is_inbound inbound_id) && not (is_text_of run_id (get r.metadata "run_id"))
  where
    is_inbound : Option String → Bool
    is_inbound none = false
    is_inbound (some id) = r.id == id

abbrev pub source_key : MemoryRecord → String
source_key r = elim r.sources [ [] ↦ r.id | s ∷ rest ↦ s.uri ]

-- `per_source.get(key, 0)`
abbrev pub tally : String → List (String × ℕ) → ℕ
tally key [] = 0
tally key (p ∷ ps) = if p.0 == key then p.1 else tally key ps

-- `per_source[key] = n`
abbrev pub set_tally : String → ℕ → List (String × ℕ) → List (String × ℕ)
set_tally key n [] = (key, n) ∷ []
set_tally key n (p ∷ ps) = if p.0 == key then (key, n) ∷ ps else p ∷ set_tally key n ps

-- The loop over the hits, with `diversified` and `per_source`.
abbrev pub diversify : List MemoryRecord → List (String × ℕ) → List MemoryRecord → List MemoryRecord
diversify kept per_source [] = kept
diversify kept per_source (hit ∷ hits) =
    let key = source_key hit in
    let skipped = diversify kept per_source hits in
    let rest =
      diversify (kept ++ hit ∷ []) (set_tally key (tally key per_source + 1) per_source) hits in
    if leb 3 (tally key per_source)
    then skipped
    else if nat_eq (length kept + 1) 8
    then kept ++ hit ∷ []
    else rest

abbrev pub precedence : MemoryKind → ℕ
precedence fact = 0
precedence episode = 2
precedence _ = 1

abbrev pub insert_hit : MemoryRecord → List MemoryRecord → List MemoryRecord
insert_hit r [] = r ∷ []
insert_hit r (x ∷ xs) =
    if leb (precedence r.kind) (precedence x.kind) then r ∷ x ∷ xs else x ∷ insert_hit r xs

-- `sorted(hits, key=…)`
abbrev pub by_precedence : List MemoryRecord → List MemoryRecord
by_precedence [] = []
by_precedence (r ∷ rs) = insert_hit r (by_precedence rs)

abbrev pub recalled_kinds : Bool → List MemoryKind
recalled_kinds true = document_chunk ∷ []
recalled_kinds false = fact ∷ document_chunk ∷ playbook ∷ episode ∷ []

-- The hits of the worker. `rank` puts the rows of the memory in the order of their scores.
unfoldable pub recalled :
    (List MemoryRecord → List MemoryRecord)
    → List MemoryRecord
    → MemoryScope
    → Option String
    → String
    → String
    → String
    → List MemoryRecord
unfolding is_corpus_query is_foreign recall
recalled rank rows scope inbound_id run_id now query =
    let corpus = is_corpus_query query in
    let hits =
      select (is_foreign inbound_id run_id)
        (recall rank rows scope (recalled_kinds corpus) (if corpus then 24 else 8) false now) in
    if corpus then diversify [] [] hits else take 5 (by_precedence hits)
