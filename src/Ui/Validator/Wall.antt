-- ===== src/Ui/Validator/Wall.antt =====
-- s13code/ui/validator.py: what `validate_surface` lets through.
use s14code.Prelude.{
  ℕ, ◌≡◌, refl, ◌∙◌, none, some, List, [], ◌∷◌, arith, length, ◌⊎◌, All, ◌+◌, subst, sym,
  Bool-cases, inl, inr, ◌==◌,
}
use s14code.Json.{
  Json, null, bool, int, str, arr, obj, Items, nil, cons, Dict, empty, entry, get_or,
}
use s14code.Ui.Validator.{
  Verdict, ◌>>=◌, valid, type_error, attribute_error, ValidationResult, FieldFault, check_component,
  add_outcome, validate_value, validate_components, validate_surface,
}
use s14code.Ui.Validator.Passed.{IsAdmitted-check_component}
use s14code.Ui.Validator.Admitted.{IsAdmitted, check_component-IsAdmitted}

unfoldable pub count : Items → ℕ
count nil = 0
count (cons x xs) = 1 + count xs

-- The component stands in the list.
abbrev pub Listed : Dict → Items → Type 0
Listed c nil = ⊥
Listed c (cons x xs) = (x ≡ obj c) ⊎ Listed c xs

abbrev pub Has : Dict → List Dict → Type 0
Has c [] = ⊥
Has c (d ∷ ds) = (c ≡ d) ⊎ Has c ds

-- What the loop leaves, from what it leaves for the rest.
pub record Added (comp : Dict) (rest : Verdict ValidationResult) (r : ValidationResult)
    : Type 0 where
  pub fault : FieldFault
  pub before : ValidationResult
  pub checked : check_component comp ≡ valid fault
  pub ran : rest ≡ valid before
  pub added : r ≡ add_outcome comp fault before

valid_inj : {a b : ValidationResult} → valid a ≡ valid b → a ≡ b
valid_inj {a} {b} h = ground (arith)

added :
    (comp : Dict) (m : Verdict FieldFault) (rest : Verdict ValidationResult) (r : ValidationResult)
    → check_component comp ≡ m
    → (m >>= λ fault. rest >>= λ b. valid (add_outcome comp fault b)) ≡ valid r
    → Added comp rest r
added comp (valid fault) (valid b) r e h = record {
  fault = fault;
  before = b;
  checked = e;
  ran = refl;
  added = sym (valid_inj h);
}
added comp (valid fault) type_error r e h = ground (arith)
added comp (valid fault) attribute_error r e h = ground (arith)
added comp type_error rest r e h = ground (arith)
added comp attribute_error rest r e h = ground (arith)

validate_components-Added :
    (comp : Dict) (xs : Items) (r : ValidationResult)
    → validate_components (cons (obj comp) xs) ≡ valid r
    → Added comp (validate_components xs) r
unfolding validate_components
validate_components-Added comp xs r h =
    added comp (check_component comp) (validate_components xs) r refl h

outcome-IsAdmitted :
    (comp : Dict) (fault : FieldFault) (b : ValidationResult)
    → check_component comp ≡ valid fault
    → All IsAdmitted b.accepted
    → All IsAdmitted (add_outcome comp fault b).accepted
outcome-IsAdmitted comp none b e below = (check_component-IsAdmitted comp e, below)
outcome-IsAdmitted comp (some (f, i, r)) b e below = below

validate_components-IsAdmitted :
    (xs : Items) (r : ValidationResult)
    → validate_components xs ≡ valid r
    → All IsAdmitted r.accepted
unfolding validate_components
validate_components-IsAdmitted nil r h = subst (λ v. All IsAdmitted v.accepted) (valid_inj h) tt
validate_components-IsAdmitted (cons (obj comp) xs) r h =
    let step = validate_components-Added comp xs r h in
    subst (λ v. All IsAdmitted v.accepted) (sym step.added)
      (outcome-IsAdmitted comp step.fault step.before step.checked
        (validate_components-IsAdmitted xs step.before step.ran))
validate_components-IsAdmitted (cons null xs) r h = ground (arith)
validate_components-IsAdmitted (cons (bool b) xs) r h = ground (arith)
validate_components-IsAdmitted (cons (int n) xs) r h = ground (arith)
validate_components-IsAdmitted (cons (str s) xs) r h = ground (arith)
validate_components-IsAdmitted (cons (arr ys) xs) r h = ground (arith)

value-IsAdmitted :
    (v : Json) (r : ValidationResult) → validate_value v ≡ valid r → All IsAdmitted r.accepted
value-IsAdmitted (arr xs) r h = validate_components-IsAdmitted xs r h
value-IsAdmitted (str s) r h = elim (Bool-cases (s == "")) [
  | inl e ↦ subst (λ v. All IsAdmitted v.accepted) (valid_inj (rw e at h)) tt
  | inr e ↦ ground (arith)
]
value-IsAdmitted (obj empty) r h = subst (λ v. All IsAdmitted v.accepted) (valid_inj h) tt
value-IsAdmitted (obj (entry k v d)) r h = ground (arith)
value-IsAdmitted null r h = ground (arith)
value-IsAdmitted (bool b) r h = ground (arith)
value-IsAdmitted (int n) r h = ground (arith)

outcome-count :
    (comp : Dict) (fault : FieldFault) (b : ValidationResult) (n : ℕ)
    → length b.accepted + length b.rejections ≡ n
    → length (add_outcome comp fault b).accepted + length (add_outcome comp fault b).rejections
      ≡ 1 + n
outcome-count comp none b n h = ground (arith)
outcome-count comp (some (f, i, m)) b n h = ground (arith)

-- When the loop over the components returns a result, the accepted components and the rejections
-- together are as many as the components of the list.
pub validate_components-count :
    (xs : Items) (r : ValidationResult)
    → validate_components xs ≡ valid r
    → length r.accepted + length r.rejections ≡ count xs
unfolding validate_components count
validate_components-count nil r h =
    subst (λ v. length v.accepted + length v.rejections ≡ 0) (valid_inj h) refl
validate_components-count (cons (obj comp) xs) r h =
    let step = validate_components-Added comp xs r h in
    subst (λ v. length v.accepted + length v.rejections ≡ 1 + count xs) (sym step.added)
      (outcome-count comp step.fault step.before (count xs)
        (validate_components-count xs step.before step.ran))
validate_components-count (cons null xs) r h = ground (arith)
validate_components-count (cons (bool b) xs) r h = ground (arith)
validate_components-count (cons (int n) xs) r h = ground (arith)
validate_components-count (cons (str s) xs) r h = ground (arith)
validate_components-count (cons (arr ys) xs) r h = ground (arith)

-- When the wall returns a result for a surface, every component that it accepts has a type of
-- the catalog, and every property of it but `id`, `type` and `children` is declared there: a
-- binding is a dict with a JSON pointer, an enum value is one of those listed, an action names a
-- registered one, a text under a text property has no markup, and no text under any of them is a
-- script URL. This says nothing else of what stands under a number, a bool or a ref, nor of what
-- is no text under a text property.
pub validate_surface-IsAdmitted :
    (surface : Dict) (r : ValidationResult)
    → validate_surface surface ≡ valid r
    → All IsAdmitted r.accepted
unfolding validate_surface
validate_surface-IsAdmitted surface r h =
    value-IsAdmitted (get_or surface "components" (arr nil)) r h

-- What is accepted stays accepted.
outcome-Has :
    (c comp : Dict) (fault : FieldFault) (b : ValidationResult)
    → Has c b.accepted
    → Has c (add_outcome comp fault b).accepted
outcome-Has c comp none b h = inr h
outcome-Has c comp (some (f, i, r)) b h = h

obj_inj : {c d : Dict} → obj c ≡ obj d → c ≡ d
obj_inj {c} {d} h = ground (arith)

accepted-Has :
    (c comp : Dict) (fault : FieldFault) (b : ValidationResult)
    → check_component c ≡ valid none
    → check_component comp ≡ valid fault
    → c ≡ comp
    → Has c (add_outcome comp fault b).accepted
accepted-Has c comp none b safe checked e = inl e
accepted-Has c comp (some f) b safe checked e =
    let clash : ◌≡◌ {A = Verdict FieldFault} (valid none) (valid (some f)) =
      sym (subst (λ d. check_component d ≡ valid none) e safe) ∙ checked in
    ground (arith)

-- When the loop over the components returns a result, each component of the list whose type and
-- properties are as the wall asks is among the accepted ones, whatever stands beside it.
pub validate_components-Has :
    (xs : Items) (r : ValidationResult) (c : Dict)
    → validate_components xs ≡ valid r
    → IsAdmitted c
    → Listed c xs
    → Has c r.accepted
unfolding validate_components
validate_components-Has nil r c h safe listed = absurd listed
validate_components-Has (cons (obj comp) xs) r c h safe (inl e) =
    let step = validate_components-Added comp xs r h in
    subst (λ v. Has c v.accepted) (sym step.added)
      (accepted-Has c comp step.fault step.before (IsAdmitted-check_component c safe) step.checked
        (sym (obj_inj e)))
validate_components-Has (cons (obj comp) xs) r c h safe (inr below) =
    let step = validate_components-Added comp xs r h in
    subst (λ v. Has c v.accepted) (sym step.added)
      (outcome-Has c comp step.fault step.before
        (validate_components-Has xs step.before c step.ran safe below))
validate_components-Has (cons null xs) r c h safe listed = ground (arith)
validate_components-Has (cons (bool b) xs) r c h safe listed = ground (arith)
validate_components-Has (cons (int n) xs) r c h safe listed = ground (arith)
validate_components-Has (cons (str s) xs) r c h safe listed = ground (arith)
validate_components-Has (cons (arr ys) xs) r c h safe listed = ground (arith)
