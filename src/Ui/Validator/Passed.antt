-- ===== src/Ui/Validator/Passed.antt =====
-- s13code/ui/validator.py: what the checks do on an admitted component.
use s14code.Prelude.{
  String, ◌≡◌, ◌↔◌, refl, sym, subst, false, true, Bool, not, none, List, arith, Bool-cases, inl,
  inr,
}
use s14code.Json.{Json, null, bool, int, str, arr, obj, Dict, empty, entry, get_or}
use s14code.Ui.Catalog.{
  PropKind, text, binding, enum, ref, action, number, PropSpec, ComponentSpec, find_prop,
}
use s14code.Ui.Validator.{
  valid, check_prop, check_kind, action_name, is_shown, looks_like_js_url, looks_like_markup,
  check_declared, is_skipped, check_field, check_fields, check_component,
}
use s14code.Ui.Validator.Admitted.{
  NoScript, NoMarkup, IsBinding, IsListed, IsAction, Admits, IsDeclared, AdmittedFields, IsAdmitted,
  check_component-IsAdmitted,
}

NoScript-url : (v : Json) → NoScript v → looks_like_js_url v ≡ false
NoScript-url (str s) h = h s refl
NoScript-url null h = refl
NoScript-url (bool b) h = refl
NoScript-url (int n) h = refl
NoScript-url (arr xs) h = refl
NoScript-url (obj d) h = refl

NoMarkup-markup : (v : Json) → NoMarkup v → looks_like_markup v ≡ false
NoMarkup-markup (str s) h = h s refl
NoMarkup-markup null h = refl
NoMarkup-markup (bool b) h = refl
NoMarkup-markup (int n) h = refl
NoMarkup-markup (arr xs) h = refl
NoMarkup-markup (obj d) h = refl

-- A property passes where none of its tests fails.
unshown-passes :
    (p : PropSpec) (v : Json)
    → is_shown p.kind ≡ false
    → looks_like_js_url v ≡ false
    → check_kind p.kind p.values v ≡ valid none
    → check_prop p v ≡ valid none
unfolding check_prop
unshown-passes p v shown url kind = ground (arith)

shown-passes :
    (p : PropSpec) (v : Json)
    → looks_like_markup v ≡ false
    → looks_like_js_url v ≡ false
    → check_kind p.kind p.values v ≡ valid none
    → check_prop p v ≡ valid none
unfolding check_prop
shown-passes p v markup url kind = ground (arith)

-- The statement that a property with this value passes, to be carried along equations.
abbrev Passes : PropKind → List String → Json → Type 0
Passes k values v = check_prop (record { kind = k; values = values }) v ≡ valid none

IsBinding-Passes : (values : List String) (v : Json) → IsBinding v → Passes binding values v
unfolding check_prop
IsBinding-Passes values v b = subst (Passes binding values) (sym b.shape) (
    shown-passes (record { kind = binding; values = values }) (obj b.dict) refl refl
      (rw (b.bound, b.is_pointer)))

IsListed-Passes : (values : List String) (v : Json) → IsListed values v → Passes enum values v
IsListed-Passes values v l = subst (Passes enum values) (sym l.shape) (
    unshown-passes (record { kind = enum; values = values }) (str l.value) refl l.no_script
      (rw l.listed))

IsAction-Passes : (values : List String) (v : Json) → IsAction v → Passes action values v
IsAction-Passes values v a = subst (Passes action values) (sym a.shape) (
    unshown-passes (record { kind = action; values = values }) (obj a.dict) refl refl
      (rw (check_kind, action_name, get_or, a.named, a.registered) refl))

Admits-Passes :
    (k : PropKind) (values : List String) (v : Json) → Admits k values v → Passes k values v
Admits-Passes text values v s =
    shown-passes (record { kind = text; values = values }) v (NoMarkup-markup v s.0)
      (NoScript-url v s.1) refl
Admits-Passes binding values v s = IsBinding-Passes values v s
Admits-Passes enum values v s = IsListed-Passes values v s
Admits-Passes action values v s = IsAction-Passes values v s
Admits-Passes ref values v s =
    unshown-passes (record { kind = ref; values = values }) v refl (NoScript-url v s) refl
Admits-Passes number values v s =
    unshown-passes (record { kind = number; values = values }) v refl (NoScript-url v s) refl
Admits-Passes PropKind.bool values v s =
    unshown-passes (record { kind = PropKind.bool; values = values }) v refl (NoScript-url v s) refl

declared-passes :
    (spec : ComponentSpec) (field : String) (v : Json)
    → IsDeclared spec field v
    → check_declared spec.type_name field (find_prop spec.props field) v ≡ valid none
declared-passes spec field v d =
    rw d.declared (Admits-Passes d.prop.kind d.prop.values v d.admitted)

field-passes :
    (spec : ComponentSpec) (field : String) (v : Json)
    → (is_skipped field ≡ false → IsDeclared spec field v)
    → check_field spec field v ≡ valid none
field-passes spec field v h = elim (Bool-cases (is_skipped field)) [
  | inl e ↦ rw e
  | inr e ↦ rw e (declared-passes spec field v (h e))
]

AdmittedFields-passes :
    (spec : ComponentSpec) (d : Dict) → AdmittedFields spec d → check_fields spec d ≡ valid none
unfolding check_fields
AdmittedFields-passes spec empty s = refl
AdmittedFields-passes spec (entry field v d) s =
    rw (field-passes spec field v s.0) (AdmittedFields-passes spec d s.1)

-- An admitted component passes.
pub IsAdmitted-check_component : (comp : Dict) → IsAdmitted comp → check_component comp ≡ valid none
unfolding check_component
IsAdmitted-check_component comp s =
    rw (check_component, get_or, s.typed, s.in_catalog) (AdmittedFields-passes s.spec comp s.fields)

-- A component passes the checks of the wall exactly where its type is in the catalog and each of
-- its properties but `id`, `type` and `children` is declared there and as the wall asks for its
-- kind: of a number, a bool or a ref only that it is no script URL, of a text property only that
-- a text in it has no markup and is no script URL.
pub check_component_iff : (comp : Dict) → (check_component comp ≡ valid none) ↔ IsAdmitted comp
check_component_iff comp = (check_component-IsAdmitted comp, IsAdmitted-check_component comp)

-- A value that the wall does not read, under a property of a kind: one that is no script URL under a
-- number, a bool and a ref, and one that is no text under a text.
abbrev pub is_unread : PropKind → Json → Bool
is_unread ref v = not (looks_like_js_url v)
is_unread number v = not (looks_like_js_url v)
is_unread PropKind.bool v = not (looks_like_js_url v)
is_unread text (str s) = false
is_unread text v = true
is_unread _ v = false
