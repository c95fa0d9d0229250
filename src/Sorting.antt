-- ===== src/Sorting.antt =====
-- `ORDER BY` and Python's `sorted`: the order of texts by code points, and a stable insertion
-- sort.
use Prim.Native.Char.{code}
use s14code.Prelude.{
  String, ◌≡◌, ◌≢◌, refl, Bool, true, false, ◌&&◌, ◌||◌, List, [], ◌∷◌, arith, ltb, nat_eq, All,
  if◌then◌else◌, any, first, some, ◌∙◌, ap,
}

-- `s <= t` for texts, code point by code point.
unfoldable pub text_le : String → String → Bool
text_le String.[] t = true
text_le (String.◌∷◌ c s) String.[] = false
text_le (String.◌∷◌ c s) (String.◌∷◌ d t) =
    ltb (code c) (code d) || nat_eq (code c) (code d) && text_le s t

All-place {ℓ κ} :
    {A : Type ℓ} (P : A → Type κ) (a b : A) (bs cs : List A) (t : Bool)
    → P a
    → All P (b ∷ bs)
    → All P cs
    → All P (if t then a ∷ b ∷ bs else b ∷ cs)
All-place P a b bs cs true h hs later = (h, hs)
All-place P a b bs cs false h hs later = (hs.0, later)

module _ {ℓ} {A : Type ℓ} (key : A → String) where
  pub insert : A → List A → List A
  insert a [] = a ∷ []
  insert a (b ∷ bs) = if text_le (key a) (key b) then a ∷ b ∷ bs else b ∷ insert a bs

  unfoldable pub sort_by : List A → List A
  unfolding insert text_le
  sort_by [] = []
  sort_by (a ∷ as') = insert a (sort_by as')

  pub All-insert {κ} : (P : A → Type κ) (a : A) (bs : List A) → P a → All P bs → All P (insert a bs)
  unfolding insert
  All-insert P a [] h hs = (h, tt)
  All-insert P a (b ∷ bs) h hs =
      All-place P a b bs (insert a bs) (text_le (key a) (key b)) h hs (All-insert P a bs h hs.1)

  pub All-sort_by {κ} : (P : A → Type κ) (bs : List A) → All P bs → All P (sort_by bs)
  unfolding sort_by
  All-sort_by P [] h = tt
  All-sort_by P (b ∷ bs) h = All-insert P b (sort_by bs) h.0 (All-sort_by P bs h.1)

  -- Where at most one element fits, sorting does not change which is found.
  first-insert :
      (p : A → Bool) (a : A) (bs : List A)
      → (p a ≡ true → any p bs ≡ false)
      → first p (insert a bs) ≡ (if p a then some a else first p bs)
  unfolding insert
  first-insert p a [] h = refl
  first-insert p a (b ∷ bs) h = ground (arith, first-insert p a bs)

  pub any-insert : (p : A → Bool) (a : A) (bs : List A) → any p (insert a bs) ≡ (p a || any p bs)
  unfolding insert
  any-insert p a [] = refl
  any-insert p a (b ∷ bs) = ground (arith, any-insert p a bs)

  pub any-sort_by : (p : A → Bool) (bs : List A) → any p (sort_by bs) ≡ any p bs
  unfolding sort_by
  any-sort_by p [] = refl
  any-sort_by p (b ∷ bs) = any-insert p b (sort_by bs) ∙ ap (λ t. p b || t) (any-sort_by p bs)

  -- At most one element fits.
  abbrev pub IsSingle : (A → Bool) → List A → Type 0
  IsSingle p [] = Unit
  IsSingle p (x ∷ xs) = (p x ≡ true → any p xs ≡ false) × IsSingle p xs

  pub first-sort_by :
      (p : A → Bool) (bs : List A) → IsSingle p bs → first p (sort_by bs) ≡ first p bs
  unfolding sort_by
  first-sort_by p [] s = refl
  first-sort_by p (b ∷ bs) s =
      first-insert p b (sort_by bs) (λ h. any-sort_by p bs ∙ s.0 h)
      ∙ ap (λ o. if p b then some b else o) (first-sort_by p bs s.1)

  insert-ne-nil : (a : A) (bs : List A) → insert a bs ≢ []
  unfolding insert
  insert-ne-nil a [] h = cc
  insert-ne-nil a (b ∷ bs) h = ground arith

  -- Only the empty list sorts to the empty list.
  pub sort_by-nil : (bs : List A) → sort_by bs ≡ [] → bs ≡ []
  unfolding sort_by
  sort_by-nil [] h = refl
  sort_by-nil (b ∷ bs) h = absurd (insert-ne-nil b (sort_by bs) h)
