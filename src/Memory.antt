-- ===== src/Memory.antt =====
-- s13code/core/memory/store.py and models.py: the records of the memory, and who may write and read
-- them. An id and a time are arguments where the source makes them; times are texts, compared as
-- such. A record's confidence and its embedding, both floats, are left out.
pub mod Governed
pub mod Recall
pub mod Documents
pub mod Neighbours
mod Tests
use s14code.Prelude.{
  String, Bool, true, false, not, ◌&&◌, ◌||◌, Option, none, some, List, [], ◌∷◌, ◌++◌, ◌==◌, any,
  first, select, take, update_where, if◌then◌else◌, ℕ, concat,
}
use s14code.Json.{str, Dict, empty, entry}
use s14code.Sorting.{text_le}

pub data MemoryKind : Type 0 where
  working episode fact playbook policy audit document_chunk : MemoryKind

abbrev pub kind_text : MemoryKind → String
kind_text working = "working"
kind_text episode = "episode"
kind_text fact = "fact"
kind_text playbook = "playbook"
kind_text policy = "policy"
kind_text audit = "audit"
kind_text document_chunk = "document_chunk"

abbrev pub is_policy : MemoryKind → Bool
is_policy policy = true
is_policy _ = false

abbrev pub is_audit : MemoryKind → Bool
is_audit audit = true
is_audit _ = false

abbrev pub is_working : MemoryKind → Bool
is_working working = true
is_working _ = false

pub record MemoryScope : Type 0 where
  pub tenant_id : String
  pub project_id : Option String
  pub user_id : Option String
  pub agent_id : Option String
  pub run_id : Option String

pub record Principal : Type 0 where
  pub id : String
  pub role : String

pub record SourceRef : Type 0 where
  pub uri : String
  pub author : String
  pub captured_at : String
  pub excerpt : Option String

pub record MemoryRecord : Type 0 where
  pub kind : MemoryKind
  pub scope : MemoryScope
  pub text : String
  pub sources : List SourceRef
  pub principal : Principal
  pub metadata : Dict
  pub valid_from : String
  pub valid_to : Option String
  pub id : String
  pub created_at : String
  pub status : String
  pub supersedes_id : Option String

pub data MemoryError : Type 0 where
  no_source policy_denied audit_denied unknown_record other_scope not_current duplicate_id :
      MemoryError

pub data Outcome : Type 0 where
  stored : List MemoryRecord → Outcome
  refused : MemoryError → Outcome

abbrev pub is_nil {ℓ} : {A : Type ℓ} → List A → Bool
is_nil [] = true
is_nil (x ∷ xs) = false

-- `_assert_write_allowed`: what it raises.
abbrev pub write_error : MemoryRecord → Option MemoryError
write_error r =
    if is_nil r.sources && not (is_working r.kind || is_audit r.kind)
    then some no_source
    else if is_policy r.kind && not (r.principal.role == "operator" || r.principal.role == "system")
    then some policy_denied
    else if is_audit r.kind && not (r.principal.role == "gateway")
    then some audit_denied
    else none

abbrev pub option_eq : Option String → Option String → Bool
option_eq none none = true
option_eq (some a) (some b) = a == b
option_eq _ _ = false

abbrev pub scope_eq : MemoryScope → MemoryScope → Bool
scope_eq a b =
    a.tenant_id == b.tenant_id
    && option_eq a.project_id b.project_id
    && option_eq a.user_id b.user_id
    && option_eq a.agent_id b.agent_id
    && option_eq a.run_id b.run_id

-- The tests on the record that is superseded. The empty text is no id.
abbrev pub old_error : MemoryRecord → Option MemoryRecord → Option MemoryError
old_error r none = some unknown_record
old_error r (some old) =
    if not (scope_eq old.scope r.scope && kind_text old.kind == kind_text r.kind)
    then some other_scope
    else if not (old.status == "current")
    then some not_current
    else none

abbrev pub superseded_id : MemoryRecord → Option String
superseded_id r = elim r.supersedes_id [
  | none ↦ none
  | some id ↦ if id == "" then none else some id
]

abbrev pub supersede_error : List MemoryRecord → MemoryRecord → Option MemoryError
supersede_error rows r = elim (superseded_id r) [
  | none ↦ none
  | some id ↦ old_error r (first (λ x. x.id == id) rows)
]

-- UPDATE records SET status='superseded' WHERE id=?
abbrev pub supersede : Option String → List MemoryRecord → List MemoryRecord
supersede none rows = rows
supersede (some id) rows =
    update_where (λ x. x.id == id) (λ x. record x { status = "superseded" }) rows

-- The insert and the update.
abbrev pub store_row : List MemoryRecord → MemoryRecord → List MemoryRecord
store_row rows r = supersede (superseded_id r) (rows ++ r ∷ [])

-- `_write` without its audit record.
unfoldable pub write_row : List MemoryRecord → MemoryRecord → Outcome
write_row rows r = elim (write_error r) [
  | some e ↦ refused e
  | none ↦ elim (supersede_error rows r) [
    | some e ↦ refused e
    | none ↦
        if any (λ x. x.id == r.id) rows then refused duplicate_id else stored (store_row rows r)
  ]
]

-- `_append_audit`
abbrev pub audit_of : String → String → MemoryRecord → MemoryRecord
audit_of audit_id now r = record {
  kind = audit;
  scope = r.scope;
  text = concat "write " (concat (kind_text r.kind) (concat " " r.id));
  sources = [];
  principal = record { id = "memory-gateway"; role = "gateway" };
  metadata = entry "record_id" (str r.id) (entry "actor" (str r.principal.id) empty);
  valid_from = now;
  valid_to = none;
  id = audit_id;
  created_at = now;
  status = "current";
  supersedes_id = none;
}

-- What a write leaves: the rows that its connection then has, and what it raises. Nothing rolls
-- back the row of a record whose audit record is refused.
pub record Written : Type 0 where
  pub rows : List MemoryRecord
  pub error : Option MemoryError

abbrev pub audited : List MemoryRecord → Outcome → Written
audited rows (refused e) = record { rows = rows; error = some e }
audited rows (stored rows') = record { rows = rows'; error = none }

-- `_write`, from what its insert gave.
abbrev pub written : Bool → List MemoryRecord → MemoryRecord → String → String → Outcome → Written
written with_audit rows r audit_id now (refused e) = record { rows = rows; error = some e }
written with_audit rows r audit_id now (stored rows') =
    if with_audit && not (is_audit r.kind)
    then audited rows' (write_row rows' (audit_of audit_id now r))
    else record { rows = rows'; error = none }

-- `write`, with or without an audit record, under the id and at the time that are made for it.
unfoldable pub write : Bool → List MemoryRecord → MemoryRecord → String → String → Written
unfolding write_row
write with_audit rows r audit_id now = written with_audit rows r audit_id now (write_row rows r)

-- A column of `_scope_where`: `(column IS NULL OR column=?)`. No column equals NULL.
abbrev pub column_open : Option String → Option String → Bool
column_open none value = true
column_open (some c) none = false
column_open (some c) (some v) = c == v

unfoldable pub is_visible : MemoryScope → MemoryScope → Bool
is_visible request s =
    s.tenant_id == request.tenant_id
    && column_open s.project_id request.project_id
    && column_open s.user_id request.user_id
    && column_open s.agent_id request.agent_id
    && column_open s.run_id request.run_id

-- `valid_to IS NULL OR valid_to > now`
abbrev pub is_valid_at : String → Option String → Bool
is_valid_at now none = true
is_valid_at now (some t) = not (text_le t now)

abbrev pub is_live : String → MemoryRecord → Bool
is_live now r = r.status == "current" && is_valid_at now r.valid_to

-- `kind IN (…)`, or without kinds neither audit nor policy.
abbrev pub is_kind_asked : List MemoryKind → MemoryKind → Bool
is_kind_asked [] k = not (is_audit k || is_policy k)
is_kind_asked (x ∷ xs) k = any (λ y. kind_text y == kind_text k) (x ∷ xs)

abbrev pub is_candidate : MemoryScope → List MemoryKind → Bool → String → MemoryRecord → Bool
is_candidate request kinds include_history now r =
    is_visible request r.scope && (include_history || is_live now r) && is_kind_asked kinds r.kind

-- `recall` without neighbours. `rank` puts the rows in the order of their scores.
unfoldable pub recall :
    (List MemoryRecord → List MemoryRecord)
    → List MemoryRecord
    → MemoryScope
    → List MemoryKind
    → ℕ
    → Bool
    → String
    → List MemoryRecord
unfolding is_visible
recall rank rows request kinds limit include_history now =
    take limit (rank (select (is_candidate request kinds include_history now) rows))
