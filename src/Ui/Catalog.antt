-- ===== src/Ui/Catalog.antt =====
-- s13code/ui/catalog.py: the component types, their properties and the registered actions.
use s14code.Prelude.{String, Option, none, some, List, [], ◌∷◌, ◌==◌, first, if◌then◌else◌}

pub data PropKind : Type 0 where
  text binding enum ref action number bool : PropKind

pub record PropSpec : Type 0 where
  pub kind : PropKind
  pub values : List String

pub record ComponentSpec : Type 0 where
  pub type_name : String
  pub props : List (String × PropSpec)
  pub source : String

abbrev plain : PropKind → PropSpec
plain k = record { kind = k; values = [] }

abbrev one_of : List String → PropSpec
one_of vs = record { kind = enum; values = vs }

abbrev pub tone : PropSpec
tone = one_of ("neutral" ∷ "good" ∷ "warn" ∷ "bad" ∷ [])

abbrev basic : String → List (String × PropSpec) → ComponentSpec
basic name props = record { type_name = name; props = props; source = "a2ui-basic" }

abbrev custom : String → List (String × PropSpec) → ComponentSpec
custom name props = record { type_name = name; props = props; source = "custom" }

-- `COMPONENTS`, in the order of the source.
abbrev pub components : List ComponentSpec
components =
    basic "Row" (
      ("children", plain ref)
      ∷ ("align", one_of ("start" ∷ "center" ∷ "end" ∷ "stretch" ∷ "baseline" ∷ []))
      ∷ ("justify", one_of ("start" ∷ "center" ∷ "end" ∷ "spaceBetween" ∷ "spaceAround" ∷ []))
      ∷ [])
    ∷ basic "Column" (("children", plain ref) ∷ [])
    ∷ basic "List" (("children", plain ref) ∷ [])
    ∷ basic "Card" (("title", plain text) ∷ ("children", plain ref) ∷ [])
    ∷ basic "Divider" []
    ∷ basic "Text" (
        ("text", plain binding)
        ∷ ("variant", one_of ("heading" ∷ "subtitle" ∷ "body" ∷ "caption" ∷ []))
        ∷ [])
    ∷ basic "Image" (("src", plain text) ∷ ("alt", plain text) ∷ [])
    ∷ basic "TextField"
        (("label", plain text) ∷ ("value", plain binding) ∷ ("placeholder", plain text) ∷ [])
    ∷ basic "CheckBox" (("label", plain text) ∷ ("checked", plain binding) ∷ [])
    ∷ basic "Slider" (
        ("label", plain text)
        ∷ ("value", plain binding)
        ∷ ("min", plain number)
        ∷ ("max", plain number)
        ∷ [])
    ∷ basic "InputChoice"
        (("label", plain text) ∷ ("options", plain binding) ∷ ("value", plain binding) ∷ [])
    ∷ basic "DateTime" (("label", plain text) ∷ ("value", plain binding) ∷ [])
    ∷ basic "Button" (("label", plain text) ∷ ("onPress", plain action) ∷ [])
    ∷ basic "Tabs" (("labels", plain text) ∷ ("children", plain ref) ∷ [])
    ∷ basic "Modal" (("title", plain text) ∷ ("children", plain ref) ∷ ("open", plain binding) ∷ [])
    ∷ custom "BarChart" (
        ("title", plain text)
        ∷ ("data", plain binding)
        ∷ ("xKey", plain text)
        ∷ ("yKey", plain text)
        ∷ [])
    ∷ custom "Sparkline" (("data", plain binding) ∷ ("tone", tone) ∷ [])
    ∷ custom "StatTile" (
        ("label", plain text)
        ∷ ("value", plain binding)
        ∷ ("unit", plain text)
        ∷ ("delta", plain binding)
        ∷ ("tone", tone)
        ∷ [])
    ∷ custom "ProgressBar" (("value", plain binding) ∷ ("max", plain number) ∷ ("tone", tone) ∷ [])
    ∷ custom "Timeline" (("title", plain text) ∷ ("events", plain binding) ∷ [])
    ∷ custom "DataTable" (
        ("columns", plain text)
        ∷ ("rows", plain binding)
        ∷ ("sortable", plain bool)
        ∷ ("filterKey", plain text)
        ∷ [])
    ∷ custom "Heatmap"
        (("title", plain text) ∷ ("data", plain binding) ∷ ("columns", plain number) ∷ [])
    ∷ custom "Notice" (("text", plain binding) ∷ ("tone", tone) ∷ [])
    ∷ custom "ApprovalCard" (
        ("summary", plain binding)
        ∷ ("params", plain binding)
        ∷ ("confirm", plain action)
        ∷ ("reject", plain action)
        ∷ [])
    ∷ []

abbrev pub registered_actions : List String
registered_actions = "approve" ∷ "reject" ∷ "rerun" ∷ "request_data" ∷ []

-- `COMPONENTS[ctype]` and `spec.props[field_name]`, where they are there.
unfoldable pub spec_of : String → Option ComponentSpec
spec_of name = first (λ c. c.type_name == name) components

unfoldable pub find_prop : List (String × PropSpec) → String → Option PropSpec
find_prop [] name = none
find_prop ((n, p) ∷ ps) name = if n == name then some p else find_prop ps name
