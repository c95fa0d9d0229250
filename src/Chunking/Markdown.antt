-- ===== src/Chunking/Markdown.antt =====
-- The Markdown structures that s13code/core/memory/chunking.py looks for: its regular expressions as
-- recognisers, `prepare_markdown`, and the end of a block.
use s14code.Prelude.{
  ℕ, zero, suc, ◌+◌, ◌-◌, ◌%◌, String, Bool, true, not, ◌&&◌, Option, none, some, List, [], ◌∷◌,
  codes, is_prefix, leb, ltb, length, min, nat_eq, take, if◌then◌else◌, ◌>>=◌,
}
use s14code.Ui.Patterns.{is_space}
use s14code.Chunking.Words.{drop, slice, strip, lstrip, rstrip, find, rfind, leading, line_start}

-- The number of leading `#`.
abbrev pub hashes : List ℕ → ℕ
hashes [] = 0
hashes (c ∷ cs) = if nat_eq c b'#' then suc (hashes cs) else 0

-- `.*` at the start
abbrev pub line_length : List ℕ → ℕ
line_length [] = 0
line_length (c ∷ cs) = if nat_eq c b'\n' then 0 else suc (line_length cs)

-- The end of the last code point but line feeds, 0 where there is none.
abbrev pub last_of_line : List ℕ → ℕ
last_of_line [] = 0
last_of_line (c ∷ cs) =
    let rest = last_of_line cs in
    if not (nat_eq rest 0) then suc rest else if nat_eq c b'\n' then 0 else 1

-- `\s+.+$` at the start: where `\s+` runs to the end of the text, it gives back the last space that `.`
-- can take. The lengths of the two parts, or none.
abbrev pub title_parts : List ℕ → Option (ℕ × ℕ)
title_parts cs =
    let spaces = leading cs in
    if nat_eq spaces 0
    then none
    else if ltb spaces (length cs)
    then some (spaces, line_length (drop spaces cs))
    else let last = last_of_line (drop 1 cs) in if nat_eq last 0 then none else some (last, 1)

abbrev pub after_hashes : ℕ → Option (ℕ × ℕ) → Option (ℕ × ℕ)
after_hashes level none = none
after_hashes level (some (spaces, title)) = some (level + spaces, title)

-- `#{1,6}\s+.+$` at the start: the lengths of what comes before the group of `_heading`, and of it.
unfoldable pub heading_parts : List ℕ → Option (ℕ × ℕ)
unfolding leading
heading_parts cs =
    let level = hashes cs in
    if leb 1 level && leb level 6 then after_hashes level (title_parts (drop level cs)) else none

-- The starts of the matches of a pattern at the starts of lines. `skip` code points are in the match
-- before; `at_start` says whether a line starts here.
unfoldable pub line_matches : (List ℕ → Option ℕ) → ℕ → Bool → ℕ → List ℕ → List ℕ
line_matches pattern skip at_start at [] = []
line_matches pattern (suc skip) at_start at (c ∷ cs) =
    line_matches pattern skip (nat_eq c b'\n') (suc at) cs
line_matches pattern zero at_start at (c ∷ cs) =
    let next = line_matches pattern 0 (nat_eq c b'\n') (suc at) cs in
    if at_start
    then elim (pattern (c ∷ cs)) [
      | none ↦ next
      | some n ↦ at ∷ line_matches pattern (n - 1) (nat_eq c b'\n') (suc at) cs
    ]
    else next

-- `(?m)^#{1,6}\s+.+$`
abbrev pub heading_length : List ℕ → Option ℕ
heading_length cs = heading_parts cs >>= λ p. some (p.0 + p.1)

unfoldable pub heading_starts : List ℕ → List ℕ
unfolding heading_parts line_matches
heading_starts cs = line_matches heading_length 0 true 0 cs

-- `(?m)^```` `
abbrev pub fence_length : List ℕ → Option ℕ
fence_length cs = if is_prefix (codes "```") cs then some 3 else none

unfoldable pub fence_starts : List ℕ → List ℕ
unfolding line_matches
fence_starts cs = line_matches fence_length 0 true 0 cs

-- `#\s+Title:.*$` at the start
abbrev pub title_length : List ℕ → Option ℕ
title_length cs =
    let spaces = leading (drop 1 cs) in
    let rest = drop (suc spaces) cs in
    if is_prefix (b'#' ∷ []) cs && leb 1 spaces && is_prefix (codes "Title:") rest
    then some (suc spaces + line_length rest)
    else none

abbrev pub last_of : List ℕ → Option ℕ
last_of [] = none
last_of (n ∷ []) = some n
last_of (n ∷ m ∷ ns) = last_of (m ∷ ns)

-- `markdown.find(marker, a, b)`, where it lowers the end.
abbrev pub cut_at : List ℕ → List ℕ → ℕ → ℕ → ℕ → ℕ
cut_at markdown marker a b end = elim (find marker (slice a b markdown)) [
  | none ↦ end
  | some i ↦ min end (a + i)
]

-- The two markers, where the first is not before the second.
abbrev pub abstract_region : List ℕ → Option (ℕ × ℕ)
abstract_region markdown = find (codes "> Abstract:") markdown >>= λ a.
    find (codes "## Submission history") markdown >>= λ b. if ltb a b then some (a, b) else none

-- `prepare_markdown`
unfoldable pub prepare_markdown : List ℕ → List ℕ × String
unfolding find leading lstrip rstrip line_matches is_space
prepare_markdown markdown = elim (abstract_region markdown) [
  | none ↦ (markdown, "none")
  | some (abstract_at, history_at) ↦
      elim (last_of (line_matches title_length 0 true 0 (take abstract_at markdown))) [
        | none ↦ (markdown, "none")
        | some start ↦
            let end =
              cut_at markdown (codes "\n| Subjects:") abstract_at history_at
                (cut_at markdown (codes "\n| Comments:") abstract_at history_at history_at) in
            (strip (slice start end markdown), "arxiv_abstract_page")
      ]
]

-- `_heading`
unfoldable pub heading : List ℕ → Option (List ℕ)
unfolding heading_starts heading_parts lstrip rstrip
heading cs = elim (heading_starts cs) [
  | [] ↦ none
  | at ∷ rest ↦ heading_parts (drop at cs) >>= λ p. some (strip (take p.1 (drop (at + p.0) cs)))
]

-- `source[a:b].lstrip().startswith("|")`
abbrev pub is_table_row : List ℕ → ℕ → ℕ → Bool
is_table_row source a b = is_prefix (b'|' ∷ []) (lstrip (slice a b source))

-- The loop over the rows above, on fuel.
abbrev pub table_top : ℕ → List ℕ → ℕ → ℕ → ℕ
table_top zero source start at = at
table_top (suc fuel) source start at =
    let previous = line_start source start (at - 1) in
    let above = table_top fuel source start previous in
    if ltb start at then if is_table_row source previous at then above else at else at

abbrev pub table_end : List ℕ → ℕ → ℕ → ℕ
table_end source start nominal_end =
    let row = line_start source start nominal_end in
    let top = table_top nominal_end source start row in
    if is_table_row source row nominal_end && ltb start top then top else nominal_end

-- The start of the last of an odd number of fences, unless it is the start of the block.
abbrev pub fence_end : List ℕ → ℕ → ℕ → ℕ
fence_end fences start otherwise = elim (last_of fences) [
  | none ↦ otherwise
  | some at ↦ if nat_eq (length fences % 2) 1 && ltb 0 at then start + at else otherwise
]

abbrev pub heading_end : List ℕ → ℕ → ℕ → ℕ
heading_end headings start otherwise = elim (last_of headings) [
  | none ↦ otherwise
  | some at ↦ if ltb 0 at then start + at else otherwise
]

-- `_structural_end`. A row above starts before its row, so the end is fuel enough.
unfoldable pub structural_end : List ℕ → ℕ → ℕ → ℕ
unfolding heading_starts fence_starts lstrip rfind
structural_end source start nominal_end =
    let candidate = slice start nominal_end source in
    heading_end (heading_starts candidate) start
      (fence_end (fence_starts candidate) start (table_end source start nominal_end))
