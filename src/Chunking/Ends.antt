-- ===== src/Chunking/Ends.antt =====
-- The end of a block in s13code/core/memory/chunking.py, against the block and the document.
use s14code.Prelude.{
  ℕ, zero, suc, ◌+◌, ◌-◌, ◌%◌, ◌≤◌, ◌<◌, ◌≡◌, Bool, true, false, ◌&&◌, Option, none, some, List, [],
  ◌∷◌, arith, All, leb, ltb, length, length-take-le, nat_eq, if_both, if_cases, Option-cases, inl,
  inr,
}
use s14code.Chunking.Words.{drop, slice, rfind, word_count, line_start}
use s14code.Chunking.Markdown.{
  line_matches, heading_length, heading_starts, fence_length, fence_starts, last_of, is_table_row,
  table_top, table_end, fence_end, heading_end, structural_end,
}
use s14code.Chunking.Pieces.{length-drop, end_of_word-le, end_of_word-pos}
use s14code.Chunking.Segments.{nominal_end, block_end}

line_matches-bounded :
    (pattern : List ℕ → Option ℕ) (skip : ℕ) (at_start : Bool) (at m : ℕ) (cs : List ℕ)
    → at + length cs ≤ m
    → All (λ n. n ≤ m) (line_matches pattern skip at_start at cs)
unfolding line_matches
line_matches-bounded pattern skip at_start at m [] h = tt
line_matches-bounded pattern (suc skip) at_start at m (c ∷ cs) h =
    line_matches-bounded pattern skip (nat_eq c b'\n') (suc at) m cs (omega (arith, h))
line_matches-bounded pattern zero at_start at m (c ∷ cs) h =
    if_both (All (λ n. n ≤ m)) at_start
      (found (pattern (c ∷ cs))
        (λ n. line_matches-bounded pattern n (nat_eq c b'\n') (suc at) m cs (omega (arith, h))))
      (line_matches-bounded pattern 0 (nat_eq c b'\n') (suc at) m cs (omega (arith, h)))
  where
    found :
        (o : Option ℕ)
        → ((n : ℕ) → All (λ k. k ≤ m) (line_matches pattern n (nat_eq c b'\n') (suc at) cs))
        → All
            (λ k. k ≤ m)
            (elim o [
              | none ↦ line_matches pattern 0 (nat_eq c b'\n') (suc at) cs
              | some n ↦ at ∷ line_matches pattern (n - 1) (nat_eq c b'\n') (suc at) cs
            ])
    found none rest = rest 0
    found (some n) rest = (omega (arith, h), rest (n - 1))

last_of-bounded : (m : ℕ) (ns : List ℕ) {n : ℕ} → All (λ k. k ≤ m) ns → last_of ns ≡ some n → n ≤ m
last_of-bounded m [] h e = absurd (ground arith)
last_of-bounded m (a ∷ []) h e = ground (arith, h.0, e)
last_of-bounded m (a ∷ b ∷ ns) h e = last_of-bounded m (b ∷ ns) h.1 e

line_start-le : (source : List ℕ) (a b : ℕ) → line_start source a b ≤ b
unfolding rfind
line_start-le source a b = elim (Option-cases (rfind (b'\n' ∷ []) (slice a b source))) [
  | inl missing ↦ rw (line_start, missing) (omega arith)
  | inr (i, there) ↦
      rw (line_start, there)
        (omega
          (arith, found_inside (slice a b source) there, length-take-le (b - a) (drop a source)))
]
  where
    found_inside : (cs : List ℕ) {i : ℕ} → rfind (b'\n' ∷ []) cs ≡ some i → i < length cs
    found_inside [] h = absurd (ground arith)
    found_inside (c ∷ cs) {i} h = elim (Option-cases (rfind (b'\n' ∷ []) cs)) [
      | inl missing ↦ ground (arith, missing, h)
      | inr (j, there) ↦ ground (arith, there, h, found_inside cs there)
    ]

table_top-le : (fuel : ℕ) (source : List ℕ) (start at : ℕ) → table_top fuel source start at ≤ at
table_top-le zero source start at = omega arith
table_top-le (suc fuel) source start at = ground (
  arith,
  table_top-le fuel source start (line_start source start (at - 1)),
  line_start-le source start (at - 1),
)

table_end-le : (source : List ℕ) (start nominal : ℕ) → table_end source start nominal ≤ nominal
table_end-le source start nominal =
    if_both (λ n. n ≤ nominal)
      (is_table_row source (line_start source start nominal) nominal
        && ltb start (table_top nominal source start (line_start source start nominal)))
      (omega (
        arith,
        table_top-le nominal source start (line_start source start nominal),
        line_start-le source start nominal,
      ))
      (omega arith)

fence_end-le :
    (fences : List ℕ) (start otherwise m : ℕ)
    → All (λ k. k ≤ m) fences
    → otherwise ≤ start + m
    → fence_end fences start otherwise ≤ start + m
fence_end-le fences start otherwise m h k = elim (Option-cases (last_of fences)) [
  | inl missing ↦ rw (fence_end, missing) k
  | inr (at, there) ↦
      rw (fence_end, there)
        (if_both (λ n. n ≤ start + m) (nat_eq (length fences % 2) 1 && ltb 0 at) {x = start + at}
          (omega (arith, last_of-bounded m fences h there)) k)
]

heading_end-le :
    (headings : List ℕ) (start otherwise m : ℕ)
    → All (λ k. k ≤ m) headings
    → otherwise ≤ start + m
    → heading_end headings start otherwise ≤ start + m
heading_end-le headings start otherwise m h k = elim (Option-cases (last_of headings)) [
  | inl missing ↦ rw (heading_end, missing) k
  | inr (at, there) ↦
      rw (heading_end, there)
        (if_both (λ n. n ≤ start + m) (ltb 0 at) {x = start + at}
          (omega (arith, last_of-bounded m headings h there)) k)
]

structural_end-le :
    (source : List ℕ) (start nominal : ℕ)
    → start ≤ nominal
    → structural_end source start nominal ≤ nominal
unfolding structural_end heading_starts fence_starts
structural_end-le source start nominal h =
    let m = nominal - start in
    let candidate = slice start nominal source in
    let within = length-take-le m (drop start source) in
    omega (
      arith,
      h,
      heading_end-le (heading_starts candidate) start
          (fence_end (fence_starts candidate) start (table_end source start nominal)) m
          (line_matches-bounded heading_length 0 true 0 m candidate (omega (arith, within)))
          (fence_end-le (fence_starts candidate) start (table_end source start nominal) m
            (line_matches-bounded fence_length 0 true 0 m candidate (omega (arith, within)))
            (omega (arith, h, table_end-le source start nominal))),
    )

nominal_end-bounds :
    (max_words : ℕ) (markdown : List ℕ) (pending : ℕ)
    → pending < length markdown
    → (pending < nominal_end max_words markdown pending)
      × (nominal_end max_words markdown pending ≤ length markdown)
nominal_end-bounds max_words markdown pending h =
    let rest = drop pending markdown in
    if_both (λ n. (pending < n) × (n ≤ length markdown)) (leb (word_count rest) max_words)
      (h, omega arith)
      (
        omega (
          arith,
          end_of_word-pos max_words rest (omega (arith, h, length-drop pending markdown)),
        ),
        omega (arith, h, end_of_word-le max_words false rest, length-drop pending markdown),
      )

-- A block is not empty and ends in the document.
pub block_end-bounds :
    (max_words : ℕ) (markdown : List ℕ) (pending : ℕ)
    → pending < length markdown
    → (pending < block_end max_words markdown pending)
      × (block_end max_words markdown pending ≤ length markdown)
unfolding block_end
block_end-bounds max_words markdown pending h =
    let nominal = nominal_end max_words markdown pending in
    let bounds = nominal_end-bounds max_words markdown pending h in
    let le = structural_end-le markdown pending nominal (omega (arith, bounds.0)) in
    if_cases (λ n. (pending < n) × (n ≤ length markdown))
      (leb (structural_end markdown pending nominal) pending) (λ early. bounds)
      (λ late. (ground (arith, late), omega (arith, le, bounds.1)))
