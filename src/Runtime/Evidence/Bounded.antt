-- ===== src/Runtime/Evidence/Bounded.antt =====
-- How the worker `answer` of s13code/runtime.py cuts its evidence.
use s14code.Prelude.{
  ℕ, zero, suc, ◌+◌, ◌-◌, ◌≤◌, ◌<◌, String, ◌≡◌, refl, sym, ap, ap₂, ◌∙◌, true, Option, none, some,
  List, [], ◌∷◌, inl, inr, All, arith, Bool-cases, codes, concat, leb, length, map, take, take_text,
}
use s14code.Json.{Json, str, Dict, get, get_or, set, as_text, get-set}
use s14code.Graph.Model.{NodeRow}
use s14code.Runtime.Evidence.{bounded_from, evidence_of, answer_evidence}

abbrev pub text_at : Dict → Option String
text_at item = as_text (get_or item "text" (str ""))

abbrev pub text_or_nothing : Dict → String
text_or_nothing item = elim (text_at item) [ none ↦ "" | some t ↦ t ]

-- The texts of the items, one behind the other.
abbrev pub joined : List Dict → String
joined [] = ""
joined (item ∷ items) = concat (text_or_nothing item) (joined items)

abbrev pub sources_of : List Dict → List (Option Json)
sources_of items = map (λ item. get item "sources") items

nothing-left : (n : ℕ) → 0 - n ≡ 0
nothing-left n = omega arith

none-left : (n : ℕ) → suc n ≡ suc n - 0
none-left n = omega arith

suc-left : (n k : ℕ) → n - k ≡ suc n - suc k
suc-left n k = omega arith

take_text-concat :
    (n : ℕ) (s t : String)
    → take_text n (concat s t) ≡ concat (take_text n s) (take_text (n - length (codes s)) t)
take_text-concat zero s t = sym (ap (λ k. take_text k t) (nothing-left (length (codes s))))
take_text-concat (suc n) String.[] t = ap (λ k. take_text k t) (none-left n)
take_text-concat (suc n) (String.◌∷◌ c s) t =
    ap (λ u. String.◌∷◌ c u)
      (take_text-concat n s t
        ∙ ap (λ k. concat (take_text n s) (take_text k t)) (suc-left n (length (codes s))))

left-take_text : (n : ℕ) (s : String) → n - length (codes (take_text n s)) ≡ n - length (codes s)
left-take_text zero s = omega arith
left-take_text (suc n) String.[] = refl
left-take_text (suc n) (String.◌∷◌ c s) = omega (arith, left-take_text n s)

length-take_text-le : (n : ℕ) (s : String) → length (codes (take_text n s)) ≤ n
length-take_text-le zero s = omega arith
length-take_text-le (suc n) String.[] = omega arith
length-take_text-le (suc n) (String.◌∷◌ c s) = omega (arith, length-take_text-le n s)

text_at-set : (item : Dict) (t : String) → text_at (set item "text" (str t)) ≡ some t
text_at-set item t =
    ap (λ o. as_text (elim o [ none ↦ str "" | some v ↦ v ])) (get-set item "text" "text" (str t))

sources-set :
    (item : Dict) (t : String) → get (set item "text" (str t)) "sources" ≡ get item "sources"
sources-set item t = rw (get-set item "text" "sources" (str t)) refl

bounded_from-step :
    (used : ℕ) (item : Dict) (text : String) (late : List Dict) (items : List Dict)
    → used < 28000
    → text_at item ≡ some text
    → joined late
      ≡ take_text (28000 - (used + length (codes (take_text (28000 - used) text)))) (joined items)
    → joined (set item "text" (str (take_text (28000 - used) text)) ∷ late)
      ≡ take_text (28000 - used) (joined (item ∷ items))
bounded_from-step used item text late items short own rest =
    ap₂ concat
      (ap (λ o. elim o [ none ↦ "" | some t ↦ t ])
        (text_at-set item (take_text (28000 - used) text)))
      (rest ∙ ap (λ k. take_text k (joined items)) left)
    ∙ sym (take_text-concat (28000 - used) text (joined items))
    ∙ ap (λ o. take_text (28000 - used) (concat (elim o [ none ↦ "" | some t ↦ t ]) (joined items)))
        (sym own)
  where
    left :
        28000 - (used + length (codes (take_text (28000 - used) text)))
        ≡ (28000 - used) - length (codes text)
    left = omega (arith, left-take_text (28000 - used) text)

-- The text of the evidence is the beginning of that of the items, with the sources of the items.
pub record IsCut (used : ℕ) (items out : List Dict) : Type 0 where
  pub texts : joined out ≡ take_text (28000 - used) (joined items)
  pub sources : sources_of out ≡ take (length out) (sources_of items)

abbrev pub HasText : Dict → Type 0
HasText item = (t : String) × (text_at item ≡ some t)

take_text-nil : (n : ℕ) → "" ≡ take_text n ""
take_text-nil zero = refl
take_text-nil (suc n) = refl

nothing-IsCut : (used : ℕ) (items : List Dict) → leb 28000 used ≡ true → IsCut used items []
nothing-IsCut used items full = record {
  texts = ap (λ k. take_text k (joined items)) none;
  sources = refl;
}
  where
    none : 0 ≡ 28000 - used
    none = ground (arith, full)

bounded_from-IsCut :
    (used : ℕ) (items : List Dict)
    → All HasText items
    → (out : List Dict) × (bounded_from used items ≡ some out) × IsCut used items out
bounded_from-IsCut used [] has =
    ([], refl, record { texts = take_text-nil (28000 - used); sources = refl })
bounded_from-IsCut used (item ∷ items) ((text, own), has) = elim (Bool-cases (leb 28000 used)) [
  | inl full ↦ ([], rw full refl, nothing-IsCut used (item ∷ items) full)
  | inr short ↦
      let clipped = take_text (28000 - used) text in
      let rest = bounded_from-IsCut (used + length (codes clipped)) items has in
      (
        set item "text" (str clipped) ∷ rest.0,
        rw (short, own, rest.1) refl,
        record {
          texts =
              bounded_from-step used item text rest.0 items (ground (arith, short)) own
                rest.2.texts;
          sources = ap₂ (λ s ss. s ∷ ss) (sources-set item clipped) rest.2.sources;
        },
      )
]

-- Where the worker `answer` has evidence whose items all have a text, it is cut to evidence
-- whose text is the first 28,000 characters of that text, each item with the sources of the item
-- that stood at its place.
pub answer_evidence-IsCut :
    (print : Json → String) (run_id : String) (nodes : List NodeRow) (items : List Dict)
    → evidence_of print run_id nodes ≡ some items
    → All HasText items
    → (out : List Dict) × (answer_evidence print run_id nodes ≡ some out) × IsCut 0 items out
unfolding answer_evidence
answer_evidence-IsCut print run_id nodes items h has = rw h (bounded_from-IsCut 0 items has)
