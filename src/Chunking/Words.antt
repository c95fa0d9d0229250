-- ===== src/Chunking/Words.antt =====
-- Texts as s13code/core/memory/chunking.py cuts them: code points, `strip`, `find`, and the matches of
-- `\S+`.
use s14code.Prelude.{
  ℕ, zero, suc, ◌+◌, ◌-◌, Bool, true, false, not, ◌&&◌, ◌||◌, Option, none, some, List, [], ◌∷◌,
  is_prefix, nat_eq, take, if◌then◌else◌,
}
use s14code.Ui.Patterns.{is_space}

abbrev pub drop : ℕ → List ℕ → List ℕ
drop zero cs = cs
drop (suc n) [] = []
drop (suc n) (c ∷ cs) = drop n cs

-- `text[a:b]`
abbrev pub slice : ℕ → ℕ → List ℕ → List ℕ
slice a b cs = take (b - a) (drop a cs)

abbrev pub is_empty : List ℕ → Bool
is_empty [] = true
is_empty (c ∷ cs) = false

-- `text.lstrip()`
unfoldable pub lstrip : List ℕ → List ℕ
unfolding is_space
lstrip [] = []
lstrip (c ∷ cs) = if is_space c then lstrip cs else c ∷ cs

-- `text.rstrip()`
unfoldable pub rstrip : List ℕ → List ℕ
unfolding is_space
rstrip [] = []
rstrip (c ∷ cs) = let rest = rstrip cs in if is_empty rest && is_space c then [] else c ∷ rest

-- `text.strip()`
abbrev pub strip : List ℕ → List ℕ
strip cs = rstrip (lstrip cs)

-- `text.find(p)`
unfoldable pub find : List ℕ → List ℕ → Option ℕ
find p [] = if is_empty p then some 0 else none
find p (c ∷ cs) =
    let rest = find p cs in
    if is_prefix p (c ∷ cs) then some 0 else elim rest [ none ↦ none | some i ↦ some (suc i) ]

-- `text.rfind(p)`
unfoldable pub rfind : List ℕ → List ℕ → Option ℕ
rfind p [] = if is_empty p then some 0 else none
rfind p (c ∷ cs) = elim (rfind p cs) [
  | some i ↦ some (suc i)
  | none ↦ if is_prefix p (c ∷ cs) then some 0 else none
]

abbrev pub codes_eq : List ℕ → List ℕ → Bool
codes_eq [] [] = true
codes_eq [] (b ∷ bs) = false
codes_eq (a ∷ as') [] = false
codes_eq (a ∷ as') (b ∷ bs) = nat_eq a b && codes_eq as' bs

-- `text.endswith(p)`
abbrev pub is_suffix : List ℕ → List ℕ → Bool
is_suffix p [] = is_empty p
is_suffix p (c ∷ cs) = codes_eq p (c ∷ cs) || is_suffix p cs

-- How many spaces a text begins with: the start of the first match of `\S+`, if there is one.
unfoldable pub leading : List ℕ → ℕ
unfolding is_space
leading [] = 0
leading (c ∷ cs) = if is_space c then suc (leading cs) else 0

-- `len(list(re.finditer(r"\S+", text)))` and `len(text.split())`, from inside a word or not.
abbrev pub count_words : Bool → List ℕ → ℕ
count_words inside [] = 0
count_words inside (c ∷ cs) =
    let outer = count_words false cs in
    let inner = count_words true cs in
    if is_space c then outer else if inside then inner else suc inner

abbrev pub word_count : List ℕ → ℕ
word_count cs = count_words false cs

-- The end of the match of a number, where there are more matches than that: the end of the text else.
abbrev pub end_of_word : ℕ → Bool → List ℕ → ℕ
end_of_word k inside [] = 0
end_of_word k inside (c ∷ cs) =
    let inner = end_of_word k true cs in
    let outer = end_of_word k false cs in
    let next = end_of_word (k - 1) false cs in
    if not (is_space c)
    then suc inner
    else if not inside
    then suc outer
    else if nat_eq k 1
    then 0
    else suc next

-- `source.rfind("\n", a, b) + 1`: 0 where there is none.
abbrev pub line_start : List ℕ → ℕ → ℕ → ℕ
line_start source a b = elim (rfind (b'\n' ∷ []) (slice a b source)) [
  | none ↦ 0
  | some i ↦ suc (a + i)
]
