-- ===== src/Ui/Validator/Admitted.antt =====
-- What s13code/ui/validator.py asks of a component, said without the code that checks it.
use s14code.Prelude.{
  codes, String, ◌≡◌, refl, ap, subst, true, false, Option, none, some, List, arith, contains,
}
use s14code.Json.{Json, null, bool, int, str, arr, obj, Dict, empty, entry, get}
use s14code.Ui.Catalog.{
  PropKind, text, binding, enum, ref, action, number, PropSpec, ComponentSpec, spec_of, find_prop,
  registered_actions,
}
use s14code.Ui.Patterns.{has_markup, is_js_url, is_pointer}
use s14code.Ui.Validator.{
  Verdict, valid, type_error, attribute_error, ◌>>=◌, Fault, check_prop, check_kind, check_bound,
  check_binding, check_enum, check_typed, spec_for, check_name, action_name, is_shown,
  looks_like_js_url, looks_like_markup, check_declared, is_skipped, check_field, check_fields,
  check_component, FieldFault,
}

-- No text that starts a script.
abbrev pub NoScript : Json → Type 0
NoScript v = (s : String) → v ≡ str s → is_js_url (codes s) ≡ false

abbrev pub NoMarkup : Json → Type 0
NoMarkup v = (s : String) → v ≡ str s → has_markup (codes s) ≡ false

-- `{"$bind": p}` with a JSON pointer p
pub record IsBinding (v : Json) : Type 0 where
  pub dict : Dict
  pub pointer : String
  pub shape : v ≡ obj dict
  pub bound : get dict "$bind" ≡ some (str pointer)
  pub is_pointer : is_pointer (codes pointer) ≡ true

-- One of the values that the catalog lists.
pub record IsListed (values : List String) (v : Json) : Type 0 where
  pub value : String
  pub shape : v ≡ str value
  pub listed : contains value values ≡ true
  pub no_script : is_js_url (codes value) ≡ false

-- A dict that names a registered action.
pub record IsAction (v : Json) : Type 0 where
  pub dict : Dict
  pub name : String
  pub shape : v ≡ obj dict
  pub named : get dict "action" ≡ some (str name)
  pub registered : contains name registered_actions ≡ true

-- What the wall asks of a value under each kind: of a number, a bool and a ref only that it is no text
-- with a script URL, and nothing of a value under a text property that is no text.
abbrev pub Admits : PropKind → List String → Json → Type 0
Admits text values v = NoMarkup v × NoScript v
Admits binding values v = IsBinding v
Admits enum values v = IsListed values v
Admits action values v = IsAction v
Admits _ values v = NoScript v

-- A property that the schema declares, with a value that the wall admits under its kind.
pub record IsDeclared (spec : ComponentSpec) (field : String) (v : Json) : Type 0 where
  pub prop : PropSpec
  pub declared : find_prop spec.props field ≡ some prop
  pub admitted : Admits prop.kind prop.values v

abbrev pub AdmittedFields : ComponentSpec → Dict → Type 0
AdmittedFields spec empty = Unit
AdmittedFields spec (entry field v d) =
    (is_skipped field ≡ false → IsDeclared spec field v) × AdmittedFields spec d

-- The type of a component is in the catalog, and its properties are admitted.
pub record IsAdmitted (comp : Dict) : Type 0 where
  pub type_name : String
  pub spec : ComponentSpec
  pub typed : get comp "type" ≡ some (str type_name)
  pub in_catalog : spec_of type_name ≡ some spec
  pub fields : AdmittedFields spec comp

-- A value that passes the test on its scheme.
not_url : (v : Json) → looks_like_js_url v ≡ false → NoScript v
not_url (str s) h t e = ground (arith)
not_url null h t e = ground (arith)
not_url (bool b) h t e = ground (arith)
not_url (int n) h t e = ground (arith)
not_url (arr xs) h t e = ground (arith)
not_url (obj d) h t e = ground (arith)

check_prop-url :
    (p : PropSpec) (v : Json) → check_prop p v ≡ valid none → looks_like_js_url v ≡ false
unfolding check_prop
check_prop-url p v h = ground (arith)

check_prop-kind :
    (p : PropSpec) (v : Json)
    → check_prop p v ≡ valid none
    → check_kind p.kind p.values v ≡ valid none
unfolding check_prop
check_prop-kind p v h = ground (arith)

check_prop-markup :
    (p : PropSpec) (v : Json)
    → is_shown p.kind ≡ true
    → check_prop p v ≡ valid none
    → looks_like_markup v ≡ false
unfolding check_prop
check_prop-markup p v shown h = ground (arith)

not_markup : (v : Json) → looks_like_markup v ≡ false → NoMarkup v
not_markup (str s) h t e = ground (arith)
not_markup null h t e = ground (arith)
not_markup (bool b) h t e = ground (arith)
not_markup (int n) h t e = ground (arith)
not_markup (arr xs) h t e = ground (arith)
not_markup (obj d) h t e = ground (arith)

bound-IsBinding :
    (d : Dict) (o : Option Json)
    → get d "$bind" ≡ o
    → check_bound o ≡ valid none
    → IsBinding (obj d)
bound-IsBinding d (some (str p)) e h = record {
  dict = d;
  pointer = p;
  shape = refl;
  bound = e;
  is_pointer = ground (arith);
}
bound-IsBinding d none e h = ground (arith)
bound-IsBinding d (some null) e h = ground (arith)
bound-IsBinding d (some (bool b)) e h = ground (arith)
bound-IsBinding d (some (int n)) e h = ground (arith)
bound-IsBinding d (some (arr xs)) e h = ground (arith)
bound-IsBinding d (some (obj c)) e h = ground (arith)

check_binding-IsBinding : (v : Json) → check_binding v ≡ valid none → IsBinding v
check_binding-IsBinding (obj d) h = bound-IsBinding d (get d "$bind") refl h
check_binding-IsBinding (str s) h = ground (arith)
check_binding-IsBinding null h = ground (arith)
check_binding-IsBinding (bool b) h = ground (arith)
check_binding-IsBinding (int n) h = ground (arith)
check_binding-IsBinding (arr xs) h = ground (arith)

check_enum-IsListed :
    (values : List String) (v : Json)
    → NoScript v
    → check_enum values v ≡ valid none
    → IsListed values v
check_enum-IsListed values (str s) safe h = record {
  value = s;
  shape = refl;
  listed = ground (arith);
  no_script = safe s refl;
}
check_enum-IsListed values (obj d) safe h = ground (arith)
check_enum-IsListed values null safe h = ground (arith)
check_enum-IsListed values (bool b) safe h = ground (arith)
check_enum-IsListed values (int n) safe h = ground (arith)
check_enum-IsListed values (arr xs) safe h = ground (arith)

named-IsAction :
    (d : Dict) (o : Option Json)
    → get d "action" ≡ o
    → check_name (elim o [ none ↦ null | some v ↦ v ]) ≡ valid none
    → IsAction (obj d)
named-IsAction d (some (str s)) e h = record {
  dict = d;
  name = s;
  shape = refl;
  named = e;
  registered = ground (arith);
}
named-IsAction d none e h = ground (arith)
named-IsAction d (some null) e h = ground (arith)
named-IsAction d (some (bool b)) e h = ground (arith)
named-IsAction d (some (int n)) e h = ground (arith)
named-IsAction d (some (arr xs)) e h = ground (arith)
named-IsAction d (some (obj c)) e h = ground (arith)

check_name-IsAction : (v : Json) → check_name (action_name v) ≡ valid none → IsAction v
check_name-IsAction (obj d) h = named-IsAction d (get d "action") refl h
check_name-IsAction (str s) h = ground (arith)
check_name-IsAction null h = ground (arith)
check_name-IsAction (bool b) h = ground (arith)
check_name-IsAction (int n) h = ground (arith)
check_name-IsAction (arr xs) h = ground (arith)

check_prop-Admits :
    (k : PropKind) (values : List String) (v : Json)
    → check_prop (record { kind = k; values = values }) v ≡ valid none
    → Admits k values v
check_prop-Admits k values v h = kinds k refl
  where
    p : PropSpec
    p = record { kind = k; values = values }

    safe : NoScript v
    safe = not_url v (check_prop-url p v h)

    kinds : (j : PropKind) → k ≡ j → Admits j values v
    kinds text e = (not_markup v (check_prop-markup p v (ap is_shown e) h), safe)
    kinds binding e =
        check_binding-IsBinding v
          (subst (λ j. check_kind j values v ≡ valid none) e (check_prop-kind p v h))
    kinds enum e =
        check_enum-IsListed values v safe
          (subst (λ j. check_kind j values v ≡ valid none) e (check_prop-kind p v h))
    kinds action e =
        check_name-IsAction v
          (subst (λ j. check_kind j values v ≡ valid none) e (check_prop-kind p v h))
    kinds ref e = safe
    kinds number e = safe
    kinds PropKind.bool e = safe

check_declared-IsDeclared :
    (spec : ComponentSpec) (field : String) (v : Json) (o : Option PropSpec)
    → find_prop spec.props field ≡ o
    → check_declared spec.type_name field o v ≡ valid none
    → IsDeclared spec field v
check_declared-IsDeclared spec field v none e h = ground (arith)
check_declared-IsDeclared spec field v (some p) e h = record {
  prop = p;
  declared = e;
  admitted = check_prop-Admits p.kind p.values v h;
}

>>=-none :
    (m : Verdict Fault) (rest : Verdict FieldFault) (field : String)
    → (m >>= λ fault. elim fault [ none ↦ rest | some (i, r) ↦ valid (some (field, i, r)) ])
      ≡ valid none
    → (m ≡ valid none) × (rest ≡ valid none)
>>=-none (valid none) rest field h = (refl, h)
>>=-none (valid (some (i, r))) rest field h = ground (arith)
>>=-none type_error rest field h = ground (arith)
>>=-none attribute_error rest field h = ground (arith)

field-IsDeclared :
    (spec : ComponentSpec) (field : String) (v : Json)
    → check_field spec field v ≡ valid none
    → is_skipped field ≡ false
    → IsDeclared spec field v
field-IsDeclared spec field v h read =
    check_declared-IsDeclared spec field v (find_prop spec.props field) refl (rw read at h)

check_fields-AdmittedFields :
    (spec : ComponentSpec) (d : Dict) → check_fields spec d ≡ valid none → AdmittedFields spec d
unfolding check_fields
check_fields-AdmittedFields spec empty h = tt
check_fields-AdmittedFields spec (entry field v d) h =
    let split = >>=-none (check_field spec field v) (check_fields spec d) field h in
    (field-IsDeclared spec field v split.0, check_fields-AdmittedFields spec d split.1)

typed-IsAdmitted :
    (comp : Dict) (name : String) (o : Option ComponentSpec)
    → get comp "type" ≡ some (str name)
    → spec_of name ≡ o
    → check_typed (str name) comp o ≡ valid none
    → IsAdmitted comp
typed-IsAdmitted comp name none typed known h = ground (arith)
typed-IsAdmitted comp name (some spec) typed known h = record {
  type_name = name;
  spec = spec;
  typed = typed;
  in_catalog = known;
  fields = check_fields-AdmittedFields spec comp h;
}

-- A value or `null`, as `get_or` takes it.
abbrev or_null : Option Json → Json
or_null o = elim o [ none ↦ null | some v ↦ v ]

checked-IsAdmitted :
    (comp : Dict) (o : Option Json)
    → get comp "type" ≡ o
    → (spec_for (or_null o) >>= λ spec. check_typed (or_null o) comp spec) ≡ valid none
    → IsAdmitted comp
checked-IsAdmitted comp (some (str name)) e h = typed-IsAdmitted comp name (spec_of name) e refl h
checked-IsAdmitted comp none e h = ground (arith)
checked-IsAdmitted comp (some null) e h = ground (arith)
checked-IsAdmitted comp (some (bool b)) e h = ground (arith)
checked-IsAdmitted comp (some (int n)) e h = ground (arith)
checked-IsAdmitted comp (some (arr xs)) e h = ground (arith)
checked-IsAdmitted comp (some (obj d)) e h = ground (arith)

-- A component that passes the check is admitted.
pub check_component-IsAdmitted : (comp : Dict) → check_component comp ≡ valid none → IsAdmitted comp
unfolding check_component
check_component-IsAdmitted comp h = checked-IsAdmitted comp (get comp "type") refl h
