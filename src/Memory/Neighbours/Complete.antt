-- ===== src/Memory/Neighbours/Complete.antt =====
-- That `recall` of s13code/core/memory/store.py leaves out no neighbour.
use s14code.Prelude.{
  ℕ, String, ◌≡◌, refl, sym, ap, ◌∙◌, subst, Bool, true, false, ◌||◌, Option, some, List, [], ◌∷◌,
  ◌++◌, ◌==◌, ◌⊎◌, ◌≢◌, append-nil, inl, inr, All, All-intro, All-map, Bool-cases, arith, contains,
  eq_iff, nat_eq, select,
}
use s14code.Json.{ℤ, Json}
use s14code.Memory.{MemoryKind, MemoryScope, MemoryRecord, recall}
use s14code.Memory.Documents.{record_ids}
use s14code.Memory.Neighbours.{
  Placed, nowhere, raised, at, place_of, is_neighbour, insert_row, ordered_rows, add_new, expand,
  recall_near,
}
use s14code.Memory.Neighbours.Expanded.{
  Continues, beside_near, expand-Continues, is_beside, is_near,
}

-- The ids that were seen are those of the records.
abbrev Same : List String → List MemoryRecord → Type 0
Same seen expanded = (k : String) → contains k seen ≡ contains k (record_ids expanded)

has-append :
    (k : String) (xs ys : List MemoryRecord)
    → contains k (record_ids (xs ++ ys))
      ≡ (contains k (record_ids xs) || contains k (record_ids ys))
has-append k [] ys = refl
has-append k (x ∷ xs) ys = ground (arith, has-append k xs ys)

add_new-Same :
    (seen : List String) (expanded xs : List MemoryRecord)
    → Same seen expanded
    → Same (add_new seen expanded xs).0 (add_new seen expanded xs).1
add_new-Same seen expanded [] same = same
add_new-Same seen expanded (x ∷ xs) same = elim (Bool-cases (contains x.id seen)) [
  | inl known ↦ rw known (add_new-Same seen expanded xs same)
  | inr new ↦ rw new (
      add_new-Same (x.id ∷ seen) (expanded ++ x ∷ []) xs
        (λ k. ground (arith, same k, has-append k expanded (x ∷ []))))
]

-- An id that is seen, or of a row, is one of the records in the end.
add_new-has :
    (k : String) (seen : List String) (expanded xs : List MemoryRecord)
    → Same seen expanded
    → (contains k seen || contains k (record_ids xs)) ≡ true
    → contains k (record_ids (add_new seen expanded xs).1) ≡ true
add_new-has k seen expanded [] same h = ground (arith, same k, h)
add_new-has k seen expanded (x ∷ xs) same h = elim (Bool-cases (contains x.id seen)) [
  | inl known ↦
      rw known (add_new-has k seen expanded xs same (ground (arith, h, known, eq_iff k x.id)))
  | inr new ↦ rw new (
      add_new-has k (x.id ∷ seen) (expanded ++ x ∷ []) xs
        (λ j. ground (arith, same j, has-append j expanded (x ∷ []))) (ground (arith, h)))
]

has-insert_row :
    (k : String) (render : Json → String) (r : MemoryRecord) (xs : List MemoryRecord)
    → contains k (record_ids (insert_row render r xs)) ≡ contains k (record_ids (r ∷ xs))
has-insert_row k render r [] = refl
has-insert_row k render r (x ∷ xs) = ground (arith, has-insert_row k render r xs)

has-ordered_rows :
    (k : String) (render : Json → String) (xs : List MemoryRecord)
    → contains k (record_ids (ordered_rows render xs)) ≡ contains k (record_ids xs)
has-ordered_rows k render [] = refl
has-ordered_rows k render (x ∷ xs) =
    has-insert_row k render x (ordered_rows render xs)
    ∙ ap (λ b. k == x.id || b) (has-ordered_rows k render xs)

-- A record whose id is among those of every selection that it passes.
abbrev IsRow : List MemoryRecord → MemoryRecord → Type 0
IsRow rows x =
    (p : MemoryRecord → Bool) → p x ≡ true → contains x.id (record_ids (select p rows)) ≡ true

rows-IsRow : (rows : List MemoryRecord) → All (IsRow rows) rows
rows-IsRow [] = tt
rows-IsRow (y ∷ rows) = (
  λ p h. rw h (ground (arith, eq_iff y.id y.id)),
  All-map (IsRow rows) (IsRow (y ∷ rows)) rows (λ x row p h. ground (arith, row p h))
      (rows-IsRow rows),
)

module _ (render : Json → String) (parse : String → Option ℤ) (rows : List MemoryRecord)
    (n : ℕ) where
  expand-keeps :
      (k : String) (seen : List String) (expanded rs out : List MemoryRecord)
      → expand render parse rows n seen expanded rs ≡ some out
      → contains k (record_ids expanded) ≡ true
      → contains k (record_ids out) ≡ true
  expand-keeps k seen expanded rs out e h =
      let c =
        expand-Continues render parse rows n (λ x. Unit {0}) seen expanded rs out
          (All-intro (λ r. (x : MemoryRecord) → is_beside render parse n r x ≡ true → Unit {0}) rs
            (λ r x near. tt))
          e in
      subst (λ l. contains k (record_ids l) ≡ true) (sym c.1)
        (has-append k expanded c.0 ∙ rw h refl)

  expand-has :
      (x : MemoryRecord) (seen : List String) (expanded rs out : List MemoryRecord)
      → IsRow rows x
      → Same seen expanded
      → expand render parse rows n seen expanded rs ≡ some out
      → is_near render parse n rs x ≡ true
      → contains x.id (record_ids out) ≡ true
  expand-has x seen expanded [] out row same e near = absurd (ground (arith, near))
  expand-has x seen expanded (r ∷ rs) out row same e near =
      by_place (place_of parse r.metadata) refl
        (λ seen' expanded'. expand-has x seen' expanded' rs out row)
    where
      by_place :
          (p : Placed)
          → place_of parse r.metadata ≡ p
          → ((seen' : List String) (expanded' : List MemoryRecord)
              → Same seen' expanded'
              → expand render parse rows n seen' expanded' rs ≡ some out
              → is_near render parse n rs x ≡ true
              → contains x.id (record_ids out) ≡ true)
          → contains x.id (record_ids out) ≡ true
      by_place nowhere w later =
          later seen expanded same (rw (expand, w) at e) (rw (is_near, is_beside, w) at near)
      by_place raised w later = absurd (ground (arith, rw (expand, w) at e))
      by_place (at p) w later =
          let picked = select (is_neighbour render n p) rows in
          let found = ordered_rows render picked in
          let s = add_new seen expanded found in
          elim (Bool-cases (is_neighbour render n p x)) [
            | inl own ↦ expand-keeps x.id s.0 s.1 rs out (rw (expand, w) at e) (
                add_new-has x.id seen expanded found same (
                  ground (
                    arith,
                    has-ordered_rows x.id render picked,
                    row (is_neighbour render n p) own,
                  )))
            | inr other ↦
                later s.0 s.1 (add_new-Same seen expanded found same) (rw (expand, w) at e)
                  (rw (is_near, is_beside, w, other) at near)
          ]

-- The metadata of a record let its neighbours be asked for, or say that it has none.
abbrev pub IsAsked : (String → Option ℤ) → MemoryRecord → Type 0
IsAsked parse r = place_of parse r.metadata ≢ raised

expand-returns :
    (render : Json → String) (parse : String → Option ℤ) (rows : List MemoryRecord) (n : ℕ)
    (seen : List String) (expanded rs : List MemoryRecord)
    → All (IsAsked parse) rs
    → (out : List MemoryRecord) × (expand render parse rows n seen expanded rs ≡ some out)
expand-returns render parse rows n seen expanded [] asked = (expanded, refl)
expand-returns render parse rows n seen expanded (r ∷ rs) asked =
    by_place (place_of parse r.metadata) refl
      (λ seen' expanded'. expand-returns render parse rows n seen' expanded' rs asked.1)
  where
    by_place :
        (p : Placed)
        → place_of parse r.metadata ≡ p
        → ((seen' : List String) (expanded' : List MemoryRecord)
            → (out : List MemoryRecord) × (expand render parse rows n seen' expanded' rs
                ≡ some out))
        → (out : List MemoryRecord) × (expand render parse rows n seen expanded (r ∷ rs) ≡ some out)
    by_place nowhere w later = rw (expand, w) (later seen expanded)
    by_place raised w later = absurd (asked.0 w)
    by_place (at p) w later =
        let s =
          add_new seen expanded (ordered_rows render (select (is_neighbour render n p) rows)) in
        rw (expand, w) (later s.0 s.1)

-- Where the metadata of the records that `recall` selects let their neighbours be asked for, or
-- say that there are none, `recall` with neighbours returns those records and behind them only
-- current chunks that the query for the neighbours of one of them selects; and unless it is
-- asked for no neighbours, the id of each row that such a query selects is among the ids that it
-- returns.
pub recall_near-returns :
    (render : Json → String) (parse : String → Option ℤ)
    (rank : List MemoryRecord → List MemoryRecord) (rows : List MemoryRecord)
    (request : MemoryScope) (kinds : List MemoryKind) (limit : ℕ) (history : Bool) (now : String)
    (n : ℕ)
    → All (IsAsked parse) (recall rank rows request kinds limit history now)
    → (out : List MemoryRecord) × (recall_near render parse rank rows request kinds limit history
          now n
        ≡ some out)
      × Continues
          (λ x. is_near render parse n (recall rank rows request kinds limit history now) x ≡ true)
          (recall rank rows request kinds limit history now)
          out
      × ((n ≡ 0)
          ⊎ All
              (λ x.
                (is_near render parse n (recall rank rows request kinds limit history now) x
                  ≡ false)
                ⊎ (contains x.id (record_ids out) ≡ true))
              rows)
unfolding recall_near
recall_near-returns render parse rank rows request kinds limit history now n asked =
    let selected = recall rank rows request kinds limit history now in
    elim (Bool-cases (nat_eq n 0)) [
      | inl zero' ↦ (
        selected,
        rw zero' refl,
        ([], sym (append-nil selected), tt),
        inl (ground (arith, zero')),
      )
      | inr more ↦
          let result =
            expand-returns render parse rows n (record_ids selected) selected selected asked in
          (
            result.0,
            rw more result.1,
            expand-Continues render parse rows n (λ x. is_near render parse n selected x ≡ true)
                (record_ids selected) selected selected result.0
                (beside_near (is_beside render parse n) selected) result.1,
            inr (
                All-map (IsRow rows)
                  (λ x.
                    (is_near render parse n selected x ≡ false)
                    ⊎ (contains x.id (record_ids result.0) ≡ true))
                  rows
                  (λ x row. elim (Bool-cases (is_near render parse n selected x)) [
                    | inl near ↦ inr (
                        expand-has render parse rows n x (record_ids selected) selected selected
                          result.0 row (λ k. refl) result.1 near)
                    | inr far ↦ inl far
                  ])
                  (rows-IsRow rows)),
          )
    ]
