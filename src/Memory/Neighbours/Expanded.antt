-- ===== src/Memory/Neighbours/Expanded.antt =====
-- What the neighbours add to the records that `recall` of s13code/core/memory/store.py selected.
use s14code.Prelude.{
  ℕ, String, ◌≡◌, refl, sym, ap, ◌∙◌, Bool, true, false, Option, some, some_inj, List, [], ◌∷◌,
  ◌++◌, inl, inr, All, All-append, All-map, All-select, Bool-cases, any, append-nil, append_assoc,
  arith, contains, select,
}
use s14code.Json.{ℤ, Json}
use s14code.Memory.{MemoryRecord}
use s14code.Memory.Neighbours.{
  Placed, nowhere, raised, at, int_leb, place_of, is_neighbour, row_ordinal, insert_row,
  ordered_rows, add_new, expand,
}

All-insert_row {κ} :
    (P : MemoryRecord → Type κ) (render : Json → String) (r : MemoryRecord) (xs : List MemoryRecord)
    → P r
    → All P xs
    → All P (insert_row render r xs)
All-insert_row P render r [] h hs = (h, tt)
All-insert_row P render r (x ∷ xs) h hs =
    elim (Bool-cases (int_leb (row_ordinal render r) (row_ordinal render x))) [
      | inl early ↦ rw early (h, hs)
      | inr late ↦ rw late (hs.0, All-insert_row P render r xs h hs.1)
    ]

All-ordered_rows {κ} :
    (P : MemoryRecord → Type κ) (render : Json → String) (xs : List MemoryRecord)
    → All P xs
    → All P (ordered_rows render xs)
All-ordered_rows P render [] hs = tt
All-ordered_rows P render (x ∷ xs) hs =
    All-insert_row P render x (ordered_rows render xs) hs.0 (All-ordered_rows P render xs hs.1)

-- What a list has behind its beginning is all of a kind.
abbrev pub Continues : (MemoryRecord → Type 0) → List MemoryRecord → List MemoryRecord → Type 0
Continues P xs ys = (rest : List MemoryRecord) × (ys ≡ xs ++ rest) × All P rest

Continues-trans :
    (P : MemoryRecord → Type 0) (xs ys zs : List MemoryRecord)
    → Continues P xs ys
    → Continues P ys zs
    → Continues P xs zs
Continues-trans P xs ys zs (a, e, ha) (b, f, hb) =
    (a ++ b, f ∙ ap (λ t. t ++ b) e ∙ append_assoc xs a b, All-append P a b ha hb)

add_new-Continues :
    (P : MemoryRecord → Type 0) (seen : List String) (expanded xs : List MemoryRecord)
    → All P xs
    → Continues P expanded (add_new seen expanded xs).1
add_new-Continues P seen expanded [] h = ([], sym (append-nil expanded), tt)
add_new-Continues P seen expanded (x ∷ xs) h = elim (Bool-cases (contains x.id seen)) [
  | inl known ↦ rw known (add_new-Continues P seen expanded xs h.1)
  | inr new ↦ rw new (
      Continues-trans P expanded (expanded ++ x ∷ []) _ (x ∷ [], refl, (h.0, tt))
        (add_new-Continues P (x.id ∷ seen) (expanded ++ x ∷ []) xs h.1))
]

-- A record that the query of another one selects.
abbrev pub is_beside :
    (Json → String) → (String → Option ℤ) → ℕ → MemoryRecord → MemoryRecord → Bool
is_beside render parse n r x = elim (place_of parse r.metadata) [
  | nowhere ↦ false
  | raised ↦ false
  | at p ↦ is_neighbour render n p x
]

abbrev pub is_near :
    (Json → String) → (String → Option ℤ) → ℕ → List MemoryRecord → MemoryRecord → Bool
is_near render parse n selected x = any (λ r. is_beside render parse n r x) selected

module _ (render : Json → String) (parse : String → Option ℤ) (rows : List MemoryRecord) (n : ℕ)
    (P : MemoryRecord → Type 0) where
  pub expand-Continues :
      (seen : List String) (expanded rs out : List MemoryRecord)
      → All (λ r. (x : MemoryRecord) → is_beside render parse n r x ≡ true → P x) rs
      → expand render parse rows n seen expanded rs ≡ some out
      → Continues P expanded out
  expand-Continues seen expanded [] out h e = ([], sym (some_inj e) ∙ sym (append-nil expanded), tt)
  expand-Continues seen expanded (r ∷ rs) out h e =
      by_place (place_of parse r.metadata) refl
        (λ seen' expanded'. expand-Continues seen' expanded' rs out h.1)
    where
      by_place :
          (p : Placed)
          → place_of parse r.metadata ≡ p
          → ((seen' : List String) (expanded' : List MemoryRecord)
              → expand render parse rows n seen' expanded' rs ≡ some out
              → Continues P expanded' out)
          → Continues P expanded out
      by_place nowhere w later = later seen expanded (rw (expand, w) at e)
      by_place raised w later = absurd (ground (arith, rw (expand, w) at e))
      by_place (at p) w later =
          let found = ordered_rows render (select (is_neighbour render n p) rows) in
          let s = add_new seen expanded found in
          Continues-trans P expanded s.1 out
            (add_new-Continues P seen expanded found (
              All-ordered_rows P render (select (is_neighbour render n p) rows) (
                All-select P (is_neighbour render n p) rows
                  (λ x near. h.0 x (rw (is_beside, w) near)))))
            (later s.0 s.1 (rw (expand, w) at e))

pub beside_near :
    (b : MemoryRecord → MemoryRecord → Bool) (rs : List MemoryRecord)
    → All (λ r. (x : MemoryRecord) → b r x ≡ true → any (λ s. b s x) rs ≡ true) rs
beside_near b [] = tt
beside_near b (r ∷ rs) = (
  λ x h. ground (arith, h),
  All-map _ (λ s. (x : MemoryRecord) → b s x ≡ true → any (λ t. b t x) (r ∷ rs) ≡ true) rs
      (λ s near x h. ground (arith, near x h)) (beside_near b rs),
)
