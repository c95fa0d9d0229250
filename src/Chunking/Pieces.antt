-- ===== src/Chunking/Pieces.antt =====
-- How the texts of s13code/core/memory/chunking.py come apart under `strip`, `find` and slices.
use s14code.Prelude.{
  ℕ, zero, suc, ◌+◌, ◌-◌, ◌≤◌, ◌<◌, ◌≡◌, refl, sym, ap, subst, ◌∙◌, Bool, true, false, ◌&&◌, some,
  List, [], ◌∷◌, ◌++◌, arith, all, is_prefix-append, length, take, Bool-cases, inl, inr, ◌⊎◌,
  Option-cases,
}
use s14code.Ui.Patterns.{is_space}
use s14code.Chunking.Words.{
  drop, is_empty, lstrip, rstrip, strip, find, rfind, leading, count_words, end_of_word,
}

abbrev pub is_blank : List ℕ → Bool
is_blank cs = all is_space cs

pub take-drop : (n : ℕ) (cs : List ℕ) → take n cs ++ drop n cs ≡ cs
take-drop zero cs = refl
take-drop (suc n) [] = refl
take-drop (suc n) (c ∷ cs) = ap (λ ds. c ∷ ds) (take-drop n cs)

suc_plus : (a b : ℕ) → suc (a + b) ≡ suc a + b
suc_plus a b = omega arith

pub drop-drop : (a b : ℕ) (cs : List ℕ) → drop b (drop a cs) ≡ drop (a + b) cs
drop-drop zero b cs = ap (λ k. drop k cs) (omega arith)
drop-drop (suc a) zero [] = ap (λ k. drop k []) (suc_plus a 0)
drop-drop (suc a) (suc b) [] = ap (λ k. drop k []) (suc_plus a (suc b))
drop-drop (suc a) b (c ∷ cs) = drop-drop a b cs ∙ ap (λ k. drop k (c ∷ cs)) (suc_plus a b)

pub length-drop : (n : ℕ) (cs : List ℕ) → length (drop n cs) ≡ length cs - n
length-drop zero cs = omega arith
length-drop (suc n) [] = omega arith
length-drop (suc n) (c ∷ cs) = omega (arith, length-drop n cs)

pub length-take : (n : ℕ) (cs : List ℕ) → n ≤ length cs → length (take n cs) ≡ n
length-take zero cs h = refl
length-take (suc n) [] h = absurd (omega arith)
length-take (suc n) (c ∷ cs) h = omega (arith, length-take n cs (omega arith))

pub drop-append : (n : ℕ) (as' bs : List ℕ) → drop (length as' + n) (as' ++ bs) ≡ drop n bs
drop-append n [] bs = ap (λ k. drop k bs) (omega arith)
drop-append n (a ∷ as') bs =
    ap (λ k. drop k (a ∷ (as' ++ bs))) (sym (suc_plus (length as') n)) ∙ drop-append n as' bs

pub drop-append_le :
    (n : ℕ) (as' bs : List ℕ) → n ≤ length as' → drop n (as' ++ bs) ≡ drop n as' ++ bs
drop-append_le zero as' bs h = refl
drop-append_le (suc n) [] bs h = absurd (omega arith)
drop-append_le (suc n) (a ∷ as') bs h = drop-append_le n as' bs (omega arith)

pub is_blank-append :
    (as' bs : List ℕ) → is_blank as' ≡ true → is_blank bs ≡ true → is_blank (as' ++ bs) ≡ true
is_blank-append [] bs h k = k
is_blank-append (a ∷ as') bs h k = ground (arith, is_blank-append as' bs)

pub leading-le : (cs : List ℕ) → leading cs ≤ length cs
unfolding leading
leading-le [] = omega arith
leading-le (c ∷ cs) = ground (arith, leading-le cs)

pub is_blank-leading : (cs : List ℕ) → is_blank (take (leading cs) cs) ≡ true
unfolding leading
is_blank-leading [] = refl
is_blank-leading (c ∷ cs) = elim (Bool-cases (is_space c)) [
  | inl space ↦ rw (space, space) (is_blank-leading cs)
  | inr word ↦ rw word refl
]

lstrip-drop : (cs : List ℕ) → lstrip cs ≡ drop (leading cs) cs
unfolding lstrip leading
lstrip-drop [] = refl
lstrip-drop (c ∷ cs) = elim (Bool-cases (is_space c)) [
  | inl space ↦ rw space (lstrip-drop cs)
  | inr word ↦ rw word refl
]

lstrip-head : (cs : List ℕ) {c : ℕ} {ds : List ℕ} → lstrip cs ≡ c ∷ ds → is_space c ≡ false
unfolding lstrip
lstrip-head [] h = absurd (ground arith)
lstrip-head (c ∷ cs) h = elim (Bool-cases (is_space c)) [
  | inl space ↦ lstrip-head cs (rw space at h)
  | inr word ↦ ground (arith, h, word)
]

rstrip-head :
    (cs : List ℕ) {c : ℕ} {ds : List ℕ} → rstrip cs ≡ c ∷ ds → (es : List ℕ) × (cs ≡ c ∷ es)
unfolding rstrip
rstrip-head [] h = absurd (ground arith)
rstrip-head (c ∷ cs) h = (cs, ground arith)

rstrip-split : (cs : List ℕ) → (ws : List ℕ) × (cs ≡ rstrip cs ++ ws) × (is_blank ws ≡ true)
unfolding rstrip
rstrip-split [] = ([], refl, refl)
rstrip-split (c ∷ cs) =
    let rest = rstrip-split cs in
    elim (Bool-cases (is_empty (rstrip cs) && is_space c)) [
      | inl gone ↦ rw gone (c ∷ cs, refl, ground (arith, rest.1, rest.2, gone))
      | inr stays ↦ rw stays (rest.0, ap (λ ds. c ∷ ds) rest.1, rest.2)
    ]

rstrip-twice : (cs : List ℕ) → rstrip (rstrip cs) ≡ rstrip cs
unfolding rstrip
rstrip-twice [] = refl
rstrip-twice (c ∷ cs) = elim (Bool-cases (is_empty (rstrip cs) && is_space c)) [
  | inl gone ↦ rw gone refl
  | inr stays ↦ rw stays (rw (rstrip-twice cs, stays) refl)
]

strip-cases :
    (cs : List ℕ)
    → (strip cs ≡ []) ⊎ ((c : ℕ) × (ds : List ℕ) × (strip cs ≡ c ∷ ds) × (is_space c ≡ false))
strip-cases cs = go (strip cs) refl
  where
    go :
        (t : List ℕ)
        → strip cs ≡ t
        → (strip cs ≡ []) ⊎ ((c : ℕ) × (ds : List ℕ) × (strip cs ≡ c ∷ ds) × (is_space c ≡ false))
    go [] e = inl e
    go (c ∷ ds) e = inr (c, ds, e, lstrip-head cs (rstrip-head (lstrip cs) e).1)

lstrip-word :
    (cs : List ℕ) (c : ℕ) (ds : List ℕ) → cs ≡ c ∷ ds → is_space c ≡ false → lstrip cs ≡ cs
unfolding lstrip
lstrip-word cs c ds e word = subst (λ t. lstrip t ≡ t) (sym e) (rw word refl)

pub strip-twice : (cs : List ℕ) → strip (strip cs) ≡ strip cs
unfolding lstrip rstrip
strip-twice cs = elim (strip-cases cs) [
  | inl none' ↦ subst (λ t. strip t ≡ t) (sym none') refl
  | inr (c, ds, e, word) ↦ ap rstrip (lstrip-word (strip cs) c ds e word) ∙ rstrip-twice (lstrip cs)
]

-- A text and what `strip` takes away on both sides.
pub strip-split :
    (cs : List ℕ)
    → (ws : List ℕ) × (cs ≡ take (leading cs) cs ++ (strip cs ++ ws)) × (is_blank ws ≡ true)
strip-split cs =
    let right = rstrip-split (lstrip cs) in
    (
      right.0,
      sym (take-drop (leading cs) cs)
          ∙ ap (λ ds. take (leading cs) cs ++ ds) (sym (lstrip-drop cs) ∙ right.1),
      right.2,
    )

-- A text that begins with a word is not found in the spaces before it.
find-blank :
    (c : ℕ) (ds ws bs : List ℕ)
    → is_space c ≡ false
    → is_blank ws ≡ true
    → find (c ∷ ds) (ws ++ ((c ∷ ds) ++ bs)) ≡ some (length ws)
unfolding find
find-blank c ds [] bs word h = rw (is_prefix-append (c ∷ ds) bs) refl
find-blank c ds (w ∷ ws) bs word h =
    ground (arith, find-blank c ds ws bs word, ap is_space {x = c} {y = w})

pub strip-nil : (cs : List ℕ) → strip cs ≡ [] → is_blank cs ≡ true
strip-nil cs h =
    let split = strip-split cs in
    subst (λ ds. is_blank ds ≡ true)
      (sym (split.1 ∙ ap (λ t. take (leading cs) cs ++ (t ++ split.0)) h))
      (is_blank-append (take (leading cs) cs) split.0 (is_blank-leading cs) split.2)

find-nil : (cs : List ℕ) → find [] cs ≡ some 0
unfolding find
find-nil [] = refl
find-nil (c ∷ cs) = refl

-- A text as what `strip` leaves and the spaces on its sides, with the place where `find` finds it.
pub record Stripped (cs : List ℕ) : Type 0 where
  pub before : List ℕ
  pub after : List ℕ
  pub whole : cs ≡ before ++ (strip cs ++ after)
  pub before_blank : is_blank before ≡ true
  pub after_blank : is_blank after ≡ true
  pub found : find (strip cs) cs ≡ some (length before)

pub strip-Stripped : (cs : List ℕ) → Stripped cs
strip-Stripped cs = elim (strip-cases cs) [
  | inl gone ↦ record {
    before = [];
    after = cs;
    whole = ap (λ t. t ++ cs) (sym gone);
    before_blank = refl;
    after_blank = strip-nil cs gone;
    found = ap (λ t. find t cs) gone ∙ find-nil cs;
  }
  | inr (c, ds, e, word) ↦
      let split = strip-split cs in
      record {
        before = take (leading cs) cs;
        after = split.0;
        whole = split.1;
        before_blank = is_blank-leading cs;
        after_blank = split.2;
        found =
            ap (λ t. find t cs) e
            ∙ ap (find (c ∷ ds)) (split.1 ∙ ap (λ t. take (leading cs) cs ++ (t ++ split.0)) e)
            ∙ find-blank c ds (take (leading cs) cs) split.0 word (is_blank-leading cs);
      }
]

pub end_of_word-le : (k : ℕ) (inside : Bool) (cs : List ℕ) → end_of_word k inside cs ≤ length cs
end_of_word-le k inside [] = omega arith
end_of_word-le k inside (c ∷ cs) =
    ground
      (arith, end_of_word-le k true cs, end_of_word-le k false cs, end_of_word-le (k - 1) false cs)

pub end_of_word-pos : (k : ℕ) (cs : List ℕ) → 0 < length cs → 0 < end_of_word k false cs
end_of_word-pos k [] h = absurd (omega arith)
end_of_word-pos k (c ∷ cs) h = ground arith

pub count_words-blank : (cs : List ℕ) → count_words false cs ≡ 0 → is_blank cs ≡ true
count_words-blank [] h = refl
count_words-blank (c ∷ cs) h = ground (arith, count_words-blank cs)

pub rfind-le : (p cs : List ℕ) {i : ℕ} → rfind p cs ≡ some i → i ≤ length cs
unfolding rfind
rfind-le p [] h = ground arith
rfind-le p (c ∷ cs) {i} h = elim (Option-cases (rfind p cs)) [
  | inl missing ↦ ground (arith, missing, h)
  | inr (j, there) ↦ ground (arith, there, h, rfind-le p cs there)
]

pub length-rstrip-le : (cs : List ℕ) → length (rstrip cs) ≤ length cs
unfolding rstrip
length-rstrip-le [] = omega arith
length-rstrip-le (c ∷ cs) = ground (arith, length-rstrip-le cs)
