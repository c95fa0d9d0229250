-- ===== src/Runtime/Recalled/Diverse.antt =====
-- How many hits the worker `recall` of s13code/runtime.py takes, from which sources and of whom.
use s14code.Prelude.{
  ℕ, ◌+◌, ◌≤◌, ◌<◌, String, ◌≡◌, ◌⊎◌, inl, inr, refl, subst, ap, ◌∙◌, Bool, true, false, Option,
  List, [], ◌∷◌, ◌++◌, ◌==◌, All, All-append, All-select_of, All-take, Bool-cases, arith, eq_iff,
  eq_refl, leb, length, length-append, length-take-le, nat_eq, select, select-append, if◌then◌else◌,
}
use s14code.Memory.{MemoryScope, MemoryRecord, is_kind_asked, is_live, is_candidate, recall}
use s14code.Memory.Recall.{InScope, OnlyMoves, recall-candidates, visible-InScope}
use s14code.Runtime.Recalled.{
  is_corpus_query, is_foreign, source_key, tally, set_tally, diversify, precedence, insert_hit,
  by_precedence, recalled_kinds, recalled,
}

abbrev pub of_source : String → List MemoryRecord → ℕ
of_source key hits = length (select (λ r. source_key r == key) hits)

abbrev Diverse : List MemoryRecord → Type 0
Diverse hits = (length hits ≤ 8) × ((key : String) → of_source key hits ≤ 3)

tally-set_tally :
    (key other : String) (n : ℕ) (ps : List (String × ℕ))
    → tally other (set_tally key n ps) ≡ (if key == other then n else tally other ps)
tally-set_tally key other n [] = refl
tally-set_tally key other n ((k, m) ∷ ps) =
    ground (arith, eq_iff k key, eq_iff k other, eq_iff key other, tally-set_tally key other n ps)

of_source-append :
    (key : String) (kept : List MemoryRecord) (hit : MemoryRecord)
    → of_source key (kept ++ hit ∷ [])
      ≡ of_source key kept + (if source_key hit == key then 1 else 0)
of_source-append key kept hit =
    ap length (select-append (λ r. source_key r == key) kept (hit ∷ []))
    ∙ length-append (select (λ r. source_key r == key) kept)
        (select (λ r. source_key r == key) (hit ∷ []))
    ∙ one (Bool-cases (source_key hit == key))
  where
    one :
        ((source_key hit == key) ≡ true) ⊎ ((source_key hit == key) ≡ false)
        → of_source key kept + length (select (λ r. source_key r == key) (hit ∷ []))
          ≡ of_source key kept + (if source_key hit == key then 1 else 0)
    one (inl same) = rw same refl
    one (inr other) = rw other refl

-- A hit more, where its source has less than three.
kept-more :
    (kept : List MemoryRecord) (ps : List (String × ℕ)) (hit : MemoryRecord)
    → ((key : String) → tally key ps ≡ of_source key kept)
    → ((key : String) → of_source key kept ≤ 3)
    → leb 3 (tally (source_key hit) ps) ≡ false
    → (key : String)
    → (tally key (set_tally (source_key hit) (tally (source_key hit) ps + 1) ps)
        ≡ of_source key (kept ++ hit ∷ []))
      × (of_source key (kept ++ hit ∷ []) ≤ 3)
kept-more kept ps hit same few room key = elim (Bool-cases (source_key hit == key)) [
  | inl own ↦
      subst
        (λ k.
          (tally k (set_tally (source_key hit) (tally (source_key hit) ps + 1) ps)
            ≡ of_source k (kept ++ hit ∷ []))
          × (of_source k (kept ++ hit ∷ []) ≤ 3))
        ((eq_iff (source_key hit) key).0 own)
        (rw
          (
            tally-set_tally (source_key hit) (source_key hit) (tally (source_key hit) ps + 1) ps,
            of_source-append (source_key hit) kept hit,
            eq_refl (source_key hit),
          )
          (ap (λ n. n + 1) (same (source_key hit)), ground (arith, same (source_key hit), room)))
  | inr other ↦
      rw
        (
          tally-set_tally (source_key hit) key (tally (source_key hit) ps + 1) ps,
          of_source-append key kept hit,
          other,
        )
        (same key ∙ omega arith, ground (arith, few key))
]

-- The tallies are the numbers of the hits that are kept.
diversify-Diverse :
    (kept : List MemoryRecord) (ps : List (String × ℕ)) (hits : List MemoryRecord)
    → ((key : String) → tally key ps ≡ of_source key kept)
    → ((key : String) → of_source key kept ≤ 3)
    → length kept < 8
    → Diverse (diversify kept ps hits)
diversify-Diverse kept ps [] same few short = (omega (arith, short), few)
diversify-Diverse kept ps (hit ∷ hits) same few short =
    elim (Bool-cases (leb 3 (tally (source_key hit) ps))) [
      | inl full ↦ rw full (diversify-Diverse kept ps hits same few short)
      | inr room ↦
          let grown = kept-more kept ps hit same few room in
          let longer = length-append kept (hit ∷ []) in
          rw room (elim (Bool-cases (nat_eq (length kept + 1) 8)) [
            | inl last ↦ rw last (omega (arith, longer, short), λ key. (grown key).1)
            | inr left ↦ rw left (
                diversify-Diverse (kept ++ hit ∷ []) _ hits (λ key. (grown key).0)
                  (λ key. (grown key).1) (ground (arith, longer, short, left)))
          ])
    ]

All-diversify {κ} :
    (P : MemoryRecord → Type κ) (kept : List MemoryRecord) (ps : List (String × ℕ))
    (hits : List MemoryRecord)
    → All P kept
    → All P hits
    → All P (diversify kept ps hits)
All-diversify P kept ps [] had new = had
All-diversify P kept ps (hit ∷ hits) had new =
    let more = All-append P kept (hit ∷ []) had (new.0, tt) in
    elim (Bool-cases (leb 3 (tally (source_key hit) ps))) [
      | inl full ↦ rw full (All-diversify P kept ps hits had new.1)
      | inr room ↦ rw room (elim (Bool-cases (nat_eq (length kept + 1) 8)) [
        | inl last ↦ rw last more
        | inr left ↦ rw left (All-diversify P (kept ++ hit ∷ []) _ hits more new.1)
      ])
    ]

All-insert_hit {κ} :
    (P : MemoryRecord → Type κ) (r : MemoryRecord) (xs : List MemoryRecord)
    → P r
    → All P xs
    → All P (insert_hit r xs)
All-insert_hit P r [] h hs = (h, tt)
All-insert_hit P r (x ∷ xs) h hs = elim (Bool-cases (leb (precedence r.kind) (precedence x.kind))) [
  | inl early ↦ rw early (h, hs)
  | inr late ↦ rw late (hs.0, All-insert_hit P r xs h hs.1)
]

All-by_precedence {κ} :
    (P : MemoryRecord → Type κ) (xs : List MemoryRecord) → All P xs → All P (by_precedence xs)
All-by_precedence P [] hs = tt
All-by_precedence P (x ∷ xs) hs =
    All-insert_hit P x (by_precedence xs) hs.0 (All-by_precedence P xs hs.1)

-- A hit that the run may take: visible and live, of the kinds, and neither the request nor of the run.
pub record IsHit (scope : MemoryScope) (inbound_id : Option String) (run_id now : String)
    (corpus : Bool) (r : MemoryRecord) : Type 0 where
  pub scoped : InScope scope r.scope
  pub live : is_live now r ≡ true
  pub asked : is_kind_asked (recalled_kinds corpus) r.kind ≡ true
  pub foreign : is_foreign inbound_id run_id r ≡ true

candidate-IsHit :
    (scope : MemoryScope) (inbound_id : Option String) (run_id now : String) (corpus : Bool)
    (r : MemoryRecord)
    → is_candidate scope (recalled_kinds corpus) false now r ≡ true
    → is_foreign inbound_id run_id r ≡ true
    → IsHit scope inbound_id run_id now corpus r
candidate-IsHit scope inbound_id run_id now corpus r c f = record {
  scoped = visible-InScope scope r.scope (ground (arith, c));
  live = ground (arith, c);
  asked = ground (arith, c);
  foreign = f;
}

module _ (rank : List MemoryRecord → List MemoryRecord) (rows : List MemoryRecord)
    (scope : MemoryScope) (inbound_id : Option String) (run_id now query : String) where
  hits-IsHit :
      (corpus : Bool) (limit : ℕ)
      → OnlyMoves rank
      → All (IsHit scope inbound_id run_id now corpus) (
          select
            (is_foreign inbound_id run_id)
            (recall rank rows scope (recalled_kinds corpus) limit false now))
  hits-IsHit corpus limit moves =
      All-select_of (λ r. is_candidate scope (recalled_kinds corpus) false now r ≡ true)
        (IsHit scope inbound_id run_id now corpus) (is_foreign inbound_id run_id) _
        (λ r c f. candidate-IsHit scope inbound_id run_id now corpus r c f)
        (recall-candidates rank rows scope (recalled_kinds corpus) limit false now moves)

  -- Where the order of the scores only moves rows, each hit of the worker `recall` is a live
  -- record that the scope of the run may see, of a kind that the query asks for, and neither the
  -- request's own record nor one of the same run; there are at most eight hits, and for a query
  -- about the corpus at most three from one source.
  pub recalled-IsHit :
      OnlyMoves rank
      → All
          (IsHit scope inbound_id run_id now (is_corpus_query query))
          (recalled rank rows scope inbound_id run_id now query)
        × (length (recalled rank rows scope inbound_id run_id now query) ≤ 8)
        × ((is_corpus_query query ≡ false)
            ⊎ ((key : String)
                → of_source key (recalled rank rows scope inbound_id run_id now query) ≤ 3))
  unfolding recalled
  recalled-IsHit moves = elim (Bool-cases (is_corpus_query query)) [
    | inl corpus ↦
        let spread =
          diversify-Diverse [] []
            (select (is_foreign inbound_id run_id)
              (recall rank rows scope (recalled_kinds true) 24 false now))
            (λ key. refl) (λ key. omega arith) (omega arith) in
        rw corpus (
          All-diversify (IsHit scope inbound_id run_id now true) [] [] _ tt
              (hits-IsHit true 24 moves),
          spread.0,
          inr spread.1,
        )
    | inr other ↦ rw other (
      All-take (IsHit scope inbound_id run_id now false) 5 _ (
          All-by_precedence (IsHit scope inbound_id run_id now false) _ (hits-IsHit false 8 moves)),
      omega (
        arith,
        length-take-le 5 (
            by_precedence (
              select (is_foreign inbound_id run_id)
                (recall rank rows scope (recalled_kinds false) 8 false now))),
      ),
      inl refl,
    )
  ]
