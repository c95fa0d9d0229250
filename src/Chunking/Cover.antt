-- ===== src/Chunking/Cover.antt =====
-- The chunks of s13code/core/memory/chunking.py against the document that they are cut from.
use s14code.Prelude.{
  ℕ, zero, suc, ◌+◌, ◌<◌, ◌≡◌, refl, ap, subst, Bool, true, false, not, ◌||◌, Option, some, List,
  [], ◌∷◌, ◌++◌, ◌>>=◌, arith, length, ltb, nat_eq, take, if◌then◌else◌, if_cases, Bool-cases, inl,
  inr,
}
use s14code.Chunking.Words.{drop, is_empty, strip, leading, word_count}
use s14code.Chunking.Markdown.{prepare_markdown}
use s14code.Chunking.Pieces.{
  is_blank, is_blank-leading, take-drop, length-drop, length-take, leading-le, strip-nil,
  count_words-blank,
}
use s14code.Chunking.Segments.{
  TopicSegmenter, RawChunk, block_at, ask, split_point, turn, add_raw, raw_from, raw_chunks,
  DocumentChunk, document_chunks, chunk_prepared, semantic_chunks,
}
use s14code.Chunking.Cut.{
  is_empty-nil, IsRawCover, IsRawCover-blank, block_at-IsCut, cut_block-IsRawCover,
  cut_block-forward, split_point-le,
}

module _ (s : TopicSegmenter) (max_words floor : ℕ) (markdown : List ℕ) where
  turn-forward :
      (pending : ℕ)
      → pending < length markdown
      → pending < (turn s max_words floor markdown pending).1
  unfolding turn
  turn-forward pending h =
      let b = block_at max_words markdown pending in
      let asked = ask s floor b.text in
      cut_block-forward markdown pending b (block_at-IsCut max_words markdown pending h) asked.0
        (split_point b.text asked.0) asked.1

  turn-IsRawCover :
      (pending : ℕ) (cs : List RawChunk)
      → pending < length markdown
      → let r = turn s max_words floor markdown pending in
        IsRawCover r.1 (drop r.1 markdown) cs
        → IsRawCover pending (drop pending markdown) (add_raw r.0 cs)
  unfolding turn
  turn-IsRawCover pending cs h =
      let b = block_at max_words markdown pending in
      let asked = ask s floor b.text in
      cut_block-IsRawCover markdown pending b (block_at-IsCut max_words markdown pending h) cs
        asked.0 (split_point b.text asked.0) asked.1 (split_point-le b.text asked.0)

  -- Where the loop stops, only spaces are left.
  stop-blank :
      (pending : ℕ)
      → (not (ltb pending (length markdown)) || nat_eq (word_count (drop pending markdown)) 0)
        ≡ true
      → is_blank (drop pending markdown) ≡ true
  stop-blank pending h = elim (Bool-cases (nat_eq (word_count (drop pending markdown)) 0)) [
    | inl no_word ↦ count_words-blank (drop pending markdown) (ground (arith, no_word))
    | inr words ↦
        nothing (drop pending markdown) (ground (arith, h, words, length-drop pending markdown))
  ]
    where
      nothing : (cs : List ℕ) → length cs ≡ 0 → is_blank cs ≡ true
      nothing [] e = refl
      nothing (c ∷ cs) e = absurd (omega (arith, e))

  -- The loop ends with chunks that cover the rest.
  raw_from-IsRawCover :
      (fuel pending : ℕ)
      → 0 < fuel
      → length markdown < pending + fuel
      → (cs : List RawChunk) × (raw_from s max_words floor markdown fuel pending ≡ some cs)
        × IsRawCover pending (drop pending markdown) cs
  unfolding raw_from
  raw_from-IsRawCover zero pending pos h = absurd (omega (arith, pos))
  raw_from-IsRawCover (suc fuel) pending pos h =
      if_cases
        (λ (o : Option (List RawChunk)).
          (cs : List RawChunk) × (o ≡ some cs) × IsRawCover pending (drop pending markdown) cs)
        (not (ltb pending (length markdown)) || nat_eq (word_count (drop pending markdown)) 0)
        (λ stop. ([], refl, stop-blank pending stop))
        (λ more.
          let r = turn s max_words floor markdown pending in
          let inside = going pending more in
          let rest =
            raw_from-IsRawCover fuel r.1 (omega (arith, inside, h))
              (omega (arith, turn-forward pending inside, h)) in
          (
            add_raw r.0 rest.0,
            ap (λ o. o >>= λ cs. some (add_raw r.0 cs)) rest.1,
            turn-IsRawCover pending rest.0 inside rest.2,
          ))
    where
      going :
          (at : ℕ)
          → (not (ltb at (length markdown)) || nat_eq (word_count (drop at markdown)) 0) ≡ false
          → at < length markdown
      going at e = ground (arith, e)

  raw_chunks-IsRawCover :
      (cs : List RawChunk) × (raw_chunks s max_words floor markdown ≡ some cs)
      × IsRawCover 0 markdown cs
  unfolding raw_chunks
  raw_chunks-IsRawCover =
      if_cases
        (λ (o : Option (List RawChunk)).
          (cs : List RawChunk) × (o ≡ some cs) × IsRawCover 0 markdown cs)
        (is_empty (strip markdown))
        (λ blank. ([], refl, strip-nil markdown (is_empty-nil (strip markdown) blank)))
        (λ words.
          let n = leading markdown in
          let all = raw_from-IsRawCover (suc (length markdown)) n (omega arith) (omega arith) in
          (
            all.0,
            all.1,
            subst (λ t. IsRawCover 0 t all.0) (take-drop n markdown)
                (IsRawCover-blank 0 (take n markdown) (drop n markdown) all.0
                  (is_blank-leading markdown)
                  (subst (λ p. IsRawCover p (drop n markdown) all.0)
                    (omega (arith, length-take n markdown (leading-le markdown))) all.2)),
          ))

-- The same of the chunks with their ordinals, counted from a number.
abbrev pub IsCover : ℕ → ℕ → List ℕ → List DocumentChunk → Type 0
IsCover i at rest [] = is_blank rest ≡ true
IsCover i at rest (c ∷ cs) =
    (gap : List ℕ) × (span : List ℕ) × (more : List ℕ) × (rest ≡ gap ++ (span ++ more))
    × (is_blank gap ≡ true)
    × (c.source_start_char ≡ at + length gap)
    × (c.source_end_char ≡ c.source_start_char + length span)
    × (c.text ≡ strip span)
    × (c.ordinal ≡ i)
    × IsCover (i + 1) c.source_end_char more cs

document_chunks-IsCover :
    (markdown : List ℕ) (total i at : ℕ) (rest : List ℕ) (cs : List RawChunk)
    → IsRawCover at rest cs
    → IsCover i at rest (document_chunks markdown total i cs)
unfolding document_chunks
document_chunks-IsCover markdown total i at rest [] h = h
document_chunks-IsCover markdown total i at rest (c ∷ cs)
      (gap, span, more, e, blank, start, end, text, later) =
    (
      gap,
      span,
      more,
      e,
      blank,
      start,
      end,
      text,
      refl,
      document_chunks-IsCover markdown total (i + 1) c.end more cs later,
    )

chunk_prepared-IsCover :
    (s : TopicSegmenter) (max_words floor : ℕ) (markdown : List ℕ)
    → (cs : List DocumentChunk) × (chunk_prepared s max_words floor markdown ≡ some cs)
      × IsCover 0 0 markdown cs
unfolding chunk_prepared
chunk_prepared-IsCover s max_words floor markdown =
    let raw = raw_chunks-IsRawCover s max_words floor markdown in
    (
      document_chunks markdown (length raw.0) 0 raw.0,
      ap (λ o. o >>= λ cs. some (document_chunks markdown (length cs) 0 cs)) raw.1,
      document_chunks-IsCover markdown (length raw.0) 0 0 markdown raw.0 raw.2,
    )

-- Whatever the segmenter answers, `semantic_chunks` ends, and its chunks, numbered from 0, are
-- cut in their order from the document (the prepared one, where that is asked for): between
-- them, before them and behind them are only spaces, and each chunk is the text between its two
-- offsets without the spaces on its sides.
pub semantic_chunks-IsCover :
    (s : TopicSegmenter) (max_words floor : ℕ) (preprocess : Bool) (markdown : List ℕ)
    → (cs : List DocumentChunk) × (semantic_chunks s max_words floor preprocess markdown ≡ some cs)
      × IsCover 0 0 (if preprocess then (prepare_markdown markdown).0 else markdown) cs
unfolding semantic_chunks
semantic_chunks-IsCover s max_words floor preprocess markdown =
    chunk_prepared-IsCover s max_words floor
      (if preprocess then (prepare_markdown markdown).0 else markdown)
