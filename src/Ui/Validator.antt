-- ===== src/Ui/Validator.antt =====
-- s13code/ui/validator.py: `validate_surface`. A component is a JSON value that need not have the
-- right shape; where Python raises on one, the verdict is that error.
pub mod Admitted
pub mod Passed
pub mod Wall
use s14code.Prelude.{
  codes, String, Bool, true, false, not, ◌&&◌, ◌||◌, Option, none, some, List, [], ◌∷◌, ◌++◌, ◌==◌,
  contains, if◌then◌else◌,
}
use s14code.Json.{
  Json, null, bool, int, str, arr, obj, Items, nil, cons, Dict, empty, entry, get, get_or,
}
use s14code.Ui.Catalog.{
  PropKind, text, binding, enum, action, PropSpec, ComponentSpec, spec_of, find_prop,
  registered_actions,
}
use s14code.Ui.Patterns.{has_markup, is_js_url, is_handler, is_pointer}

pub data Invariant : Type 0 where
  catalog data_not_code event : Invariant

-- The reasons of the source's messages.
pub data Reason : Type 0 where
  unknown_type : Json → Reason
  handler_property : Reason
  unknown_property : String → String → Reason
  carries_markup : Reason
  script_url : Reason
  not_a_binding : Reason
  invalid_pointer : Json → Reason
  not_a_value : Json → List String → Reason
  unregistered_action : Json → Reason

pub record Rejection : Type 0 where
  pub component_id : Json
  pub field : String
  pub invariant : Invariant
  pub reason : Reason

pub record ValidationResult : Type 0 where
  pub accepted : List Dict
  pub rejections : List Rejection

-- `TypeError` and `AttributeError` end the whole validation.
pub data Verdict {ℓ} (A : Type ℓ) : Type ℓ where
  valid : A → Verdict A
  type_error : Verdict A
  attribute_error : Verdict A

infixl 5 ◌>>=◌
abbrev pub ◌>>=◌ {κ μ} :
    {Early : Type κ} {Late : Type μ} → Verdict Early → (Early → Verdict Late) → Verdict Late
type_error >>= rest = type_error
attribute_error >>= rest = attribute_error
valid early >>= rest = rest early

-- What a property breaks, if it breaks anything.
abbrev pub Fault : Type 0
Fault = Option (Invariant × Reason)

abbrev pub looks_like_markup : Json → Bool
looks_like_markup (str s) = has_markup (codes s)
looks_like_markup _ = false

abbrev pub looks_like_js_url : Json → Bool
looks_like_js_url (str s) = is_js_url (codes s)
looks_like_js_url _ = false

-- `_POINTER.match(value["$bind"])`, which raises on what is no text.
abbrev pub check_pointer : Json → Verdict Fault
check_pointer (str p) =
    valid (if is_pointer (codes p) then none else some (data_not_code, invalid_pointer (str p)))
check_pointer _ = type_error

abbrev pub check_bound : Option Json → Verdict Fault
check_bound none = valid (some (data_not_code, not_a_binding))
check_bound (some v) = check_pointer v

abbrev pub check_binding : Json → Verdict Fault
check_binding (obj d) = check_bound (get d "$bind")
check_binding _ = valid (some (data_not_code, not_a_binding))

abbrev pub is_text_in : List String → Json → Bool
is_text_in values (str s) = contains s values
is_text_in values _ = false

abbrev pub check_enum : List String → Json → Verdict Fault
check_enum values v =
    valid (if is_text_in values v then none else some (data_not_code, not_a_value v values))

-- `action_name not in REGISTERED_ACTIONS`, which raises on a list and on a dict.
abbrev pub check_name : Json → Verdict Fault
check_name (arr xs) = type_error
check_name (obj d) = type_error
check_name v =
    valid (if is_text_in registered_actions v then none else some (event, unregistered_action v))

abbrev pub action_name : Json → Json
action_name (obj d) = get_or d "action" null
action_name _ = null

-- The tests that depend on the kind.
abbrev pub check_kind : PropKind → List String → Json → Verdict Fault
check_kind binding values v = check_binding v
check_kind enum values v = check_enum values v
check_kind action values v = check_name (action_name v)
check_kind _ values v = valid none

abbrev pub is_shown : PropKind → Bool
is_shown text = true
is_shown binding = true
is_shown _ = false

unfoldable pub check_prop : PropSpec → Json → Verdict Fault
unfolding has_markup is_js_url is_pointer get
check_prop prop v =
    if is_shown prop.kind && looks_like_markup v
    then valid (some (data_not_code, carries_markup))
    else if looks_like_js_url v
    then valid (some (data_not_code, script_url))
    else check_kind prop.kind prop.values v

abbrev pub check_declared : String → String → Option PropSpec → Json → Verdict Fault
check_declared ctype field none v = valid (
    some (
      data_not_code,
      if is_handler (codes field) then handler_property else unknown_property field ctype,
    ))
check_declared ctype field (some prop) v = check_prop prop v

-- `field_name in ("id", "type", "children")`
abbrev pub is_skipped : String → Bool
is_skipped field = contains field ("id" ∷ "type" ∷ "children" ∷ [])

-- One property of a component.
abbrev pub check_field : ComponentSpec → String → Json → Verdict Fault
check_field spec field v =
    if is_skipped field
    then valid none
    else check_declared spec.type_name field (find_prop spec.props field) v

-- The first property that breaks an invariant, with its name.
abbrev pub FieldFault : Type 0
FieldFault = Option (String × Invariant × Reason)

-- The loop over `comp.items()`, which breaks at the first fault.
unfoldable pub check_fields : ComponentSpec → Dict → Verdict FieldFault
unfolding check_prop is_handler find_prop
check_fields spec empty = valid none
check_fields spec (entry field v d) =
    let rest = check_fields spec d in
    check_field spec field v >>= λ fault. elim fault [
      | none ↦ rest
      | some (i, r) ↦ valid (some (field, i, r))
    ]

-- `COMPONENTS.get(ctype)`, which raises on a list and on a dict.
abbrev pub spec_for : Json → Verdict (Option ComponentSpec)
spec_for (str name) = valid (spec_of name)
spec_for (arr xs) = type_error
spec_for (obj d) = type_error
spec_for _ = valid none

abbrev pub check_typed : Json → Dict → Option ComponentSpec → Verdict FieldFault
check_typed ctype comp none = valid (some ("type", catalog, unknown_type ctype))
check_typed ctype comp (some spec) = check_fields spec comp

-- One component: nothing, or what it breaks first.
unfoldable pub check_component : Dict → Verdict FieldFault
unfolding check_fields spec_of get
check_component comp =
    let ctype = get_or comp "type" null in spec_for ctype >>= λ spec. check_typed ctype comp spec

abbrev pub add_outcome : Dict → FieldFault → ValidationResult → ValidationResult
add_outcome comp none r = record r { accepted = comp ∷ r.accepted }
add_outcome comp (some (field, i, reason)) r = record r {
  rejections =
      record {
        component_id = get_or comp "id" (str "<no id>");
        field = field;
        invariant = i;
        reason = reason;
      }
      ∷ r.rejections;
}

-- The loop over the components.
unfoldable pub validate_components : Items → Verdict ValidationResult
unfolding check_component
validate_components nil = valid (record { accepted = []; rejections = [] })
validate_components (cons (obj comp) xs) =
    let rest = validate_components xs in
    check_component comp >>= λ fault. rest >>= λ r. valid (add_outcome comp fault r)
validate_components (cons _ xs) = attribute_error

-- What `for comp in components` goes through, where the value is no list: a text and a dict give
-- texts, which have no `get`.
abbrev pub validate_value : Json → Verdict ValidationResult
validate_value (arr xs) = validate_components xs
validate_value (str s) =
    if s == "" then valid (record { accepted = []; rejections = [] }) else attribute_error
validate_value (obj empty) = valid (record { accepted = []; rejections = [] })
validate_value (obj (entry k v d)) = attribute_error
validate_value _ = type_error

unfoldable pub validate_surface : Dict → Verdict ValidationResult
unfolding validate_components
validate_surface surface = validate_value (get_or surface "components" (arr nil))
