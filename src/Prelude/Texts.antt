-- ===== src/Prelude/Texts.antt =====
-- Texts as the program builds and searches them: concatenation, `str(n)`, `join` and `in`.
use Prim.Native.Nat.{ℕ, zero, suc, ◌+◌, ◌/◌, ◌%◌, ◌<◌}
use Prim.Native.Char.{code}
use Prim.Native.String.{String}
use mathlib.Core.Path.{◌≡◌, refl, ap, sym, subst}
use mathlib.Core.Bool.{Bool, true, false, ◌&&◌, ◌||◌}
use mathlib.Core.List.{List, [], ◌∷◌, ◌++◌}
use mathlib.Core.Logic.{inl, inr}
use native.Mathlib.Omega.{arith}
use s14code.Prelude.Tests.{Bool-cases, leb, ltb, nat_eq, ne→false, if◌then◌else◌, ◌==◌}

abbrev pub codes : String → List ℕ
codes String.[] = []
codes (String.◌∷◌ c s) = code c ∷ codes s

abbrev pub concat : String → String → String
concat String.[] t = t
concat (String.◌∷◌ c s) t = String.◌∷◌ c (concat s t)

pub codes-concat : (s t : String) → codes (concat s t) ≡ codes s ++ codes t
codes-concat String.[] t = refl
codes-concat (String.◌∷◌ c s) t = ap (λ cs. code c ∷ cs) (codes-concat s t)

abbrev pub digit : ℕ → String
digit n =
    if nat_eq n 0
    then "0"
    else if nat_eq n 1
    then "1"
    else if nat_eq n 2
    then "2"
    else if nat_eq n 3
    then "3"
    else if nat_eq n 4
    then "4"
    else if nat_eq n 5
    then "5"
    else if nat_eq n 6
    then "6"
    else if nat_eq n 7
    then "7"
    else if nat_eq n 8
    then "8"
    else "9"

-- `str(n)`: a number is below ten after fewer divisions than its value and one.
unfoldable pub decimal : ℕ → ℕ → String
decimal zero n = ""
decimal (suc fuel) n =
    let rest = decimal fuel (n / 10) in if ltb n 10 then digit n else concat rest (digit (n % 10))

unfoldable pub show : ℕ → String
unfolding decimal
show n = decimal (suc n) n

-- `sep.join(ts)`
abbrev pub join : String → List String → String
join sep [] = ""
join sep (t ∷ []) = t
join sep (t ∷ u ∷ ts) = concat t (concat sep (join sep (u ∷ ts)))

abbrev pub is_prefix : List ℕ → List ℕ → Bool
is_prefix [] cs = true
is_prefix (p ∷ ps) [] = false
is_prefix (p ∷ ps) (c ∷ cs) = nat_eq p c && is_prefix ps cs

-- `p in t`
abbrev pub is_infix : List ℕ → List ℕ → Bool
is_infix ps [] = is_prefix ps []
is_infix ps (c ∷ cs) = is_prefix ps (c ∷ cs) || is_infix ps cs

-- `lower`, as far as it makes ASCII letters.
abbrev pub lower : ℕ → ℕ
lower c = if leb b'A' c && leb c b'Z' then c + 32 else c

-- `text[:n]`
abbrev pub take_text : ℕ → String → String
take_text zero s = ""
take_text (suc n) String.[] = ""
take_text (suc n) (String.◌∷◌ c s) = String.◌∷◌ c (take_text n s)

-- Any two amounts of fuel above the number give the same text.
pub decimal-fuel : (fuel more n : ℕ) → n < fuel → n < more → decimal fuel n ≡ decimal more n
unfolding decimal
decimal-fuel zero more n h k = absurd (omega arith)
decimal-fuel (suc fuel) zero n h k = absurd (omega arith)
decimal-fuel (suc fuel) (suc more) n h k = elim (Bool-cases (ltb n 10)) [
  | inl short ↦ rw short refl
  | inr long ↦ rw long (
      ap (λ t. concat t (digit (n % 10)))
        (decimal-fuel fuel more (n / 10) (tenth fuel h long) (tenth more k long)))
]
  where
    tenth : (f : ℕ) → n < suc f → ltb n 10 ≡ false → n / 10 < f
    tenth f h long = ground (arith)

pub is_prefix-append : (p bs : List ℕ) → is_prefix p (p ++ bs) ≡ true
is_prefix-append [] bs = refl
is_prefix-append (c ∷ p) bs = ground (arith, is_prefix-append p bs)

-- A text with one prefix is no text without it.
pub concat_other :
    (p s t : String) → is_prefix (codes p) (codes t) ≡ false → (concat p s == t) ≡ false
concat_other p s t h = ne→false (concat p s) t (λ e. cc (sym (prefixed e), h))
  where
    prefixed : concat p s ≡ t → is_prefix (codes p) (codes t) ≡ true
    prefixed e =
        subst (λ u. is_prefix (codes p) (codes u) ≡ true) e
          (subst (λ cs. is_prefix (codes p) cs ≡ true) (sym (codes-concat p s))
            (is_prefix-append (codes p) (codes s)))
