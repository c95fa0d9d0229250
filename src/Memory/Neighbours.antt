-- ===== src/Memory/Neighbours.antt =====
-- The neighbours of `recall` in s13code/core/memory/store.py: the chunks beside those that it
-- selected. `render` is the text that `json_extract` gives of a list or an object, `parse` Python's
-- `int` of a text.
pub mod Expanded
pub mod Complete
mod Tests
use s14code.Prelude.{
  ℕ, suc, ◌+◌, ◌-◌, String, Bool, true, false, not, ◌&&◌, Option, none, some, List, [], ◌∷◌, ◌++◌,
  ◌==◌, contains, leb, nat_eq, select, if◌then◌else◌,
}
use s14code.Json.{ℤ, pos, negsuc, Json, null, bool, int, str, arr, obj, Dict, get}
use s14code.Memory.{MemoryKind, MemoryScope, MemoryRecord, recall}
use s14code.Memory.Documents.{is_chunk, record_ids}

-- What SQLite compares; NULL is `none`.
pub data SqlValue : Type 0 where
  integer : ℤ → SqlValue
  text : String → SqlValue

-- Where a record stands: without a document, version and ordinal it has no neighbours, and of some
-- kinds of values the driver or `int` raises.
pub record Place : Type 0 where
  pub document_id : SqlValue
  pub version : SqlValue
  pub ordinal : ℤ

pub data Placed : Type 0 where
  nowhere raised : Placed
  at : Place → Placed

abbrev pub int_leb : ℤ → ℤ → Bool
int_leb (pos a) (pos b) = leb a b
int_leb (pos a) (negsuc b) = false
int_leb (negsuc a) (pos b) = true
int_leb (negsuc a) (negsuc b) = leb b a

abbrev pub int_plus : ℤ → ℕ → ℤ
int_plus (pos a) n = pos (a + n)
int_plus (negsuc a) n = if leb (a + 1) n then pos (n - (a + 1)) else negsuc (a - n)

abbrev pub int_minus : ℤ → ℕ → ℤ
int_minus (pos a) n = if leb n a then pos (a - n) else negsuc (n - a - 1)
int_minus (negsuc a) n = negsuc (a + n)

abbrev pub int_same : ℤ → ℤ → Bool
int_same a b = int_leb a b && int_leb b a

abbrev pub of_bool : Bool → ℤ
of_bool true = pos 1
of_bool false = pos 0

-- `json_extract`
abbrev pub extracted : (Json → String) → Option Json → Option SqlValue
extracted render none = none
extracted render (some null) = none
extracted render (some (bool b)) = some (integer (of_bool b))
extracted render (some (int z)) = some (integer z)
extracted render (some (str s)) = some (text s)
extracted render (some v) = some (text (render v))

-- A value that is bound to a `?`, not `None`.
abbrev pub bound_value : Json → Option SqlValue
bound_value (bool b) = some (integer (of_bool b))
bound_value (int z) = some (integer z)
bound_value (str s) = some (text s)
bound_value _ = none

-- `int(ordinal)`
abbrev pub int_value : (String → Option ℤ) → Json → Option ℤ
int_value parse (bool b) = some (of_bool b)
int_value parse (int z) = some z
int_value parse (str s) = parse s
int_value parse _ = none

-- `metadata.get(k)`, without `None`.
abbrev pub present : Dict → String → Option Json
present d k = elim (get d k) [ none ↦ none | some null ↦ none | some v ↦ some v ]

abbrev pub place : Option SqlValue → Option SqlValue → Option ℤ → Placed
place (some document_id) (some version) (some ordinal) =
    at (record { document_id = document_id; version = version; ordinal = ordinal })
place _ _ _ = raised

unfoldable pub place_of : (String → Option ℤ) → Dict → Placed
unfolding get
place_of parse metadata =
    placed (present metadata "document_id") (present metadata "document_version")
      (present metadata "ordinal")
  where
    placed : Option Json → Option Json → Option Json → Placed
    placed (some d) (some v) (some o) = place (bound_value d) (bound_value v) (int_value parse o)
    placed _ _ _ = nowhere

-- `=`, false where a side is NULL.
abbrev pub sql_eq : Option SqlValue → SqlValue → Bool
sql_eq (some (integer a)) (integer b) = int_same a b
sql_eq (some (text s)) (text t) = s == t
sql_eq _ _ = false

-- `BETWEEN`: a text is above every number.
abbrev pub is_between : Option SqlValue → ℤ → ℤ → Bool
is_between (some (integer z)) low high = int_leb low z && int_leb z high
is_between _ low high = false

-- The WHERE of the query for the neighbours of a place.
unfoldable pub is_neighbour : (Json → String) → ℕ → Place → MemoryRecord → Bool
unfolding get
is_neighbour render n p r =
    r.status == "current"
    && is_chunk r.kind
    && sql_eq (extracted render (get r.metadata "document_id")) p.document_id
    && sql_eq (extracted render (get r.metadata "document_version")) p.version
    && is_between (extracted render (get r.metadata "ordinal")) (int_minus p.ordinal n)
        (int_plus p.ordinal n)

-- An ordinal of a row that the query selects is a number.
abbrev pub row_ordinal : (Json → String) → MemoryRecord → ℤ
row_ordinal render r = number (extracted render (get r.metadata "ordinal"))
  where
    number : Option SqlValue → ℤ
    number (some (integer z)) = z
    number _ = pos 0

-- `ORDER BY json_extract(metadata_json, '$.ordinal')`
abbrev pub insert_row : (Json → String) → MemoryRecord → List MemoryRecord → List MemoryRecord
insert_row render r [] = r ∷ []
insert_row render r (x ∷ xs) =
    if int_leb (row_ordinal render r) (row_ordinal render x)
    then r ∷ x ∷ xs
    else x ∷ insert_row render r xs

abbrev pub ordered_rows : (Json → String) → List MemoryRecord → List MemoryRecord
ordered_rows render [] = []
ordered_rows render (r ∷ rs) = insert_row render r (ordered_rows render rs)

-- The loop over the rows of one query, with `seen` and `expanded`.
abbrev pub add_new :
    List String → List MemoryRecord → List MemoryRecord → List String × List MemoryRecord
add_new seen expanded [] = (seen, expanded)
add_new seen expanded (x ∷ xs) =
    let skipped = add_new seen expanded xs in
    let added = add_new (x.id ∷ seen) (expanded ++ x ∷ []) xs in
    if contains x.id seen then skipped else added

module _ (render : Json → String) (parse : String → Option ℤ) (rows : List MemoryRecord)
    (n : ℕ) where
  abbrev pub expand :
      List String → List MemoryRecord → List MemoryRecord → Option (List MemoryRecord)
  expand seen expanded [] = some expanded
  expand seen expanded (r ∷ rs) = elim (place_of parse r.metadata) [
    | nowhere ↦ expand seen expanded rs
    | raised ↦ none
    | at p ↦
        let s =
          add_new seen expanded (ordered_rows render (select (is_neighbour render n p) rows)) in
        expand s.0 s.1 rs
  ]

-- `recall` with `expand_neighbors`: `none` is an exception.
unfoldable pub recall_near :
    (Json → String)
    → (String → Option ℤ)
    → (List MemoryRecord → List MemoryRecord)
    → List MemoryRecord
    → MemoryScope
    → List MemoryKind
    → ℕ
    → Bool
    → String
    → ℕ
    → Option (List MemoryRecord)
unfolding recall place_of is_neighbour get
recall_near render parse rank rows request kinds limit include_history now n =
    let selected = recall rank rows request kinds limit include_history now in
    if nat_eq n 0
    then some selected
    else expand render parse rows n (record_ids selected) selected selected
