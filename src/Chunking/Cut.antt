-- ===== src/Chunking/Cut.antt =====
-- One turn of the loop of s13code/core/memory/chunking.py against the document.
use s14code.Prelude.{
  ℕ, ◌+◌, ◌-◌, ◌≤◌, ◌<◌, ◌≡◌, refl, sym, ap, ap₂, subst, ◌∙◌, true, not, ◌&&◌, Option, none, some,
  List, [], ◌∷◌, ◌++◌, append_assoc, arith, length, length-append, ltb, take, if_both, if_cases,
  Bool-cases, inl, inr,
}
use s14code.Chunking.Words.{drop, slice, is_empty, strip, rstrip, is_suffix, leading}
use s14code.Chunking.Pieces.{
  is_blank, is_blank-append, is_blank-leading, take-drop, drop-drop, drop-append, drop-append_le,
  length-drop, length-take, leading-le, strip-nil, strip-twice, Stripped, strip-Stripped, rfind-le,
  length-rstrip-le,
}
use s14code.Chunking.Segments.{
  Decision, RawChunk, Block, block_end, block_at, split_point, cut_first, cut_block, whole_decision,
  add_raw,
}
use s14code.Chunking.Ends.{block_end-bounds}

-- From a position on, the text is blank but for the spans of the chunks, in their order, and each
-- chunk is its span without the spaces on its sides.
abbrev pub IsRawCover : ℕ → List ℕ → List RawChunk → Type 0
IsRawCover at rest [] = is_blank rest ≡ true
IsRawCover at rest (c ∷ cs) =
    (gap : List ℕ) × (span : List ℕ) × (more : List ℕ) × (rest ≡ gap ++ (span ++ more))
    × (is_blank gap ≡ true)
    × (c.start ≡ at + length gap)
    × (c.end ≡ c.start + length span)
    × (c.text ≡ strip span)
    × IsRawCover c.end more cs

-- Spaces in front move nothing.
pub IsRawCover-blank :
    (at : ℕ) (ws rest : List ℕ) (cs : List RawChunk)
    → is_blank ws ≡ true
    → IsRawCover (at + length ws) rest cs
    → IsRawCover at (ws ++ rest) cs
IsRawCover-blank at ws rest [] blank h = is_blank-append ws rest blank h
IsRawCover-blank at ws rest (c ∷ cs) blank
      (gap, span, more, e, gap_blank, start, end, text, later) =
    (
      ws ++ gap,
      span,
      more,
      ap (λ t. ws ++ t) e ∙ sym (append_assoc ws gap (span ++ more)),
      is_blank-append ws gap blank gap_blank,
      omega (arith, start, length-append ws gap),
      end,
      text,
      later,
    )

pub is_empty-nil : (cs : List ℕ) → is_empty cs ≡ true → cs ≡ []
is_empty-nil [] h = refl
is_empty-nil (c ∷ cs) h = absurd (ground arith)

-- A block in the text from its position on.
pub record IsCut (markdown : List ℕ) (pending : ℕ) (b : Block) : Type 0 where
  before : List ℕ
  after : List ℕ
  end : ℕ
  whole : drop pending markdown ≡ before ++ (b.text ++ (after ++ drop end markdown))
  before_blank : is_blank before ≡ true
  after_blank : is_blank after ≡ true
  started : b.start ≡ pending + length before
  ended : pending + length before + length b.text + length after ≡ end
  forward : pending < end
  remains : b.remainder ≡ end + leading (drop end markdown)
  stripped : strip b.text ≡ b.text

pub block_at-IsCut :
    (max_words : ℕ) (markdown : List ℕ) (pending : ℕ)
    → pending < length markdown
    → IsCut markdown pending (block_at max_words markdown pending)
unfolding block_at
block_at-IsCut max_words markdown pending h = record {
  before = st.before;
  after = st.after;
  end = end;
  whole =
      sym (take-drop (end - pending) (drop pending markdown))
      ∙ ap (λ t. piece ++ t)
          (drop-drop pending (end - pending) markdown
            ∙ ap (λ k. drop k markdown) (omega (arith, bounds.0)))
      ∙ ap (λ t. t ++ drop end markdown) st.whole
      ∙ append_assoc st.before (strip piece ++ st.after) (drop end markdown)
      ∙ ap (λ t. st.before ++ t) (append_assoc (strip piece) st.after (drop end markdown));
  before_blank = st.before_blank;
  after_blank = st.after_blank;
  started = rw (block_at, st.found) refl;
  ended = omega (
    arith,
    bounds.0,
    bounds.1,
    length-drop pending markdown,
    length-take (end - pending) (drop pending markdown)
        (omega (arith, bounds.1, length-drop pending markdown)),
    ap length st.whole,
    length-append st.before (strip piece ++ st.after),
    length-append (strip piece) st.after,
  );
  forward = bounds.0;
  remains = refl;
  stripped = strip-twice piece;
}
  where
    end : ℕ
    end = block_end max_words markdown pending

    piece : List ℕ
    piece = slice pending end markdown

    st : Stripped piece
    st = strip-Stripped piece

    bounds : (pending < end) × (end ≤ length markdown)
    bounds = block_end-bounds max_words markdown pending h

module _ (markdown : List ℕ) (pending : ℕ) (b : Block) (k : IsCut markdown pending b)
    (cs : List RawChunk) where
  -- A block that is kept whole.
  whole-IsRawCover :
      (d : Decision)
      → IsRawCover b.remainder (drop b.remainder markdown) cs
      → IsRawCover pending (drop pending markdown) (
          record { text = b.text; decision = d; start = b.start; end = b.start + length b.text }
          ∷ cs)
  whole-IsRawCover d h = (
    k.before,
    b.text,
    k.after ++ tail,
    k.whole,
    k.before_blank,
    k.started,
    refl,
    sym k.stripped,
    subst (λ t. IsRawCover (b.start + length b.text) t cs) spaces
        (IsRawCover-blank (b.start + length b.text) (k.after ++ take n tail) (drop n tail) cs
          (is_blank-append k.after (take n tail) k.after_blank (is_blank-leading tail))
          (subst (λ (p : ℕ × List ℕ). IsRawCover p.0 p.1 cs) there h)),
  )
    where
      tail : List ℕ
      tail = drop k.end markdown

      n : ℕ
      n = leading tail

      spaces : (k.after ++ take n tail) ++ drop n tail ≡ k.after ++ tail
      spaces =
          append_assoc k.after (take n tail) (drop n tail)
          ∙ ap (λ t. k.after ++ t) (take-drop n tail)

      moved : b.start + length b.text + length (k.after ++ take n tail) ≡ b.remainder
      moved = omega (
        arith,
        k.started,
        k.ended,
        k.remains,
        length-append k.after (take n tail),
        length-take n tail (leading-le tail),
      )

      there :
          ◌≡◌ {A = ℕ × List ℕ}
            (b.remainder, drop b.remainder markdown)
            (b.start + length b.text + length (k.after ++ take n tail), drop n tail)
      there =
          ap₂ (λ x y. (x, y)) (sym moved)
            (ap (λ m. drop m markdown) k.remains ∙ sym (drop-drop k.end n markdown))

  -- A block whose end goes to the next one.
  first-IsRawCover :
      (second : List ℕ) (at : ℕ) (d : Decision)
      → at ≤ length b.text
      → IsRawCover (b.start + at) (drop (b.start + at) markdown) cs
      → IsRawCover pending (drop pending markdown) (add_raw (cut_first b second at d).0 cs)
  first-IsRawCover second at d le h =
      if_cases (λ o. IsRawCover pending (drop pending markdown) (add_raw o cs))
        (is_empty (strip span))
        (λ gone.
          subst (λ t. IsRawCover pending t cs) (append_assoc k.before span more ∙ sym split)
            (IsRawCover-blank pending (k.before ++ span) more cs
              (is_blank-append k.before span k.before_blank
                (strip-nil span (is_empty-nil (strip span) gone)))
              (subst (λ p. IsRawCover p more cs) position later)))
        (λ stays. (k.before, span, more, split, k.before_blank, k.started, ends, refl, later))
    where
      span : List ℕ
      span = take at b.text

      more : List ℕ
      more = drop at b.text ++ (k.after ++ drop k.end markdown)

      split : drop pending markdown ≡ k.before ++ (span ++ more)
      split =
          k.whole
          ∙ ap (λ t. k.before ++ (t ++ (k.after ++ drop k.end markdown)))
              (sym (take-drop at b.text))
          ∙ ap (λ t. k.before ++ t)
              (append_assoc span (drop at b.text) (k.after ++ drop k.end markdown))

      position : b.start + at ≡ pending + length (k.before ++ span)
      position = omega (arith, k.started, length-append k.before span, length-take at b.text le)

      ends : b.start + at ≡ b.start + length span
      ends = omega (arith, length-take at b.text le)

      there : drop (b.start + at) markdown ≡ more
      there =
          ap (λ m. drop m markdown) (omega (arith, k.started))
          ∙ sym (drop-drop pending (length k.before + at) markdown)
          ∙ ap (drop (length k.before + at)) k.whole
          ∙ drop-append at k.before (b.text ++ (k.after ++ drop k.end markdown))
          ∙ drop-append_le at b.text (k.after ++ drop k.end markdown) le

      later : IsRawCover (b.start + at) more cs
      later = subst (λ t. IsRawCover (b.start + at) t cs) there h

  -- One turn of the loop.
  pub cut_block-IsRawCover :
      (second : List ℕ) (split : Option ℕ) (d : Decision)
      → ((at : ℕ) → split ≡ some at → at ≤ length b.text)
      → let r = cut_block b second split d in
        IsRawCover r.1 (drop r.1 markdown) cs
        → IsRawCover pending (drop pending markdown) (add_raw r.0 cs)
  cut_block-IsRawCover second none d le = whole-IsRawCover (whole_decision second none d)
  cut_block-IsRawCover second (some at) d le =
      if_both
        (λ (r : Option RawChunk × ℕ).
          IsRawCover r.1 (drop r.1 markdown) cs
          → IsRawCover pending (drop pending markdown) (add_raw r.0 cs))
        (ltb 0 at) (first-IsRawCover second at d (le at refl))
        (whole-IsRawCover (whole_decision second (some at) d))

pub cut_block-forward :
    (markdown : List ℕ) (pending : ℕ) (b : Block)
    → IsCut markdown pending b
    → (second : List ℕ) (split : Option ℕ) (d : Decision) → pending < (cut_block b second split d).1
cut_block-forward markdown pending b k second none d = omega (arith, k.forward, k.remains)
cut_block-forward markdown pending b k second (some at) d =
    if_cases (λ (r : Option RawChunk × ℕ). pending < r.1) (ltb 0 at)
      (λ h. ground (arith, h, k.started)) (λ h. omega (arith, k.forward, k.remains))

pub split_point-le :
    (block second : List ℕ) (at : ℕ) → split_point block second ≡ some at → at ≤ length block
unfolding split_point
split_point-le block second at h =
    elim (Bool-cases (not (is_empty second) && is_suffix (rstrip second) (rstrip block))) [
      | inl suffix ↦
          omega (
            arith,
            rfind-le (rstrip second) (rstrip block) (rw suffix at h),
            length-rstrip-le block,
          )
      | inr other ↦ absurd (ground (arith, other, h))
    ]
