-- ===== src/Memory/Recall.antt =====
-- s13code/core/memory/store.py: what `recall` can return.
use s14code.Prelude.{
  String, ◌≡◌, ◌≢◌, refl, sym, subst, ap, ◌∙◌, Bool, true, false, Option, none, some, List, [], ◌∷◌,
  ◌++◌, ◌==◌, All, All-map, All-take, All-select, All-intro, All-select_of, All-update_where,
  if◌then◌else◌, arith, ℕ, eq_iff, eq→path,
}
use s14code.Memory.{
  MemoryKind, MemoryScope, MemoryRecord, stored, superseded_id, supersede, write_row, column_open,
  is_visible, is_candidate, recall,
}
use s14code.Memory.Governed.{write_row-Stored}

-- What a request may see: its own tenant, and on each lower level its own value or none.
pub record InScope (request s : MemoryScope) : Type 0 where
  pub tenant : s.tenant_id ≡ request.tenant_id
  pub project : (v : String) → s.project_id ≡ some v → request.project_id ≡ some v
  pub user : (v : String) → s.user_id ≡ some v → request.user_id ≡ some v
  pub agent : (v : String) → s.agent_id ≡ some v → request.agent_id ≡ some v
  pub run : (v : String) → s.run_id ≡ some v → request.run_id ≡ some v

column-open :
    (c value : Option String)
    → column_open c value ≡ true
    → (v : String) → c ≡ some v
    → value ≡ some v
column-open none value h v e = cc
column-open (some c) none h v e = ground (arith)
column-open (some c) (some w) h v e = ap some (sym (eq→path c w h)) ∙ e

pub visible-InScope : (request s : MemoryScope) → is_visible request s ≡ true → InScope request s
unfolding is_visible
visible-InScope request s h = record {
  tenant = eq→path s.tenant_id request.tenant_id (ground (arith));
  project = column-open s.project_id request.project_id (ground (arith));
  user = column-open s.user_id request.user_id (ground (arith));
  agent = column-open s.agent_id request.agent_id (ground (arith));
  run = column-open s.run_id request.run_id (ground (arith));
}

-- The order of the scores only moves rows.
abbrev pub OnlyMoves : (List MemoryRecord → List MemoryRecord) → Type 1
OnlyMoves rank = (P : MemoryRecord → Type 0) (xs : List MemoryRecord) → All P xs → All P (rank xs)

pub recall-candidates :
    (rank : List MemoryRecord → List MemoryRecord) (rows : List MemoryRecord)
    (request : MemoryScope) (kinds : List MemoryKind) (limit : ℕ) (history : Bool) (now : String)
    → OnlyMoves rank
    → All
        (λ r. is_candidate request kinds history now r ≡ true)
        (recall rank rows request kinds limit history now)
unfolding recall
recall-candidates rank rows request kinds limit history now moves =
    All-take _ limit _
      (moves _ _ (All-select _ (is_candidate request kinds history now) rows (λ r h. h)))

-- Where the order of the scores only moves rows, each record that `recall` returns without
-- neighbours has the request's tenant, and on each lower level of its scope the request's value
-- or none.
pub recall-InScope :
    (rank : List MemoryRecord → List MemoryRecord) (rows : List MemoryRecord)
    (request : MemoryScope) (kinds : List MemoryKind) (limit : ℕ) (history : Bool) (now : String)
    → OnlyMoves rank
    → All (λ r. InScope request r.scope) (recall rank rows request kinds limit history now)
recall-InScope rank rows request kinds limit history now moves =
    All-map _ _ _ (λ r h. visible-InScope request r.scope (ground (arith)))
      (recall-candidates rank rows request kinds limit history now moves)

abbrev Retired : String → MemoryRecord → Type 0
Retired id x = x.id ≡ id → x.status ≡ "superseded"

supersede-Retired :
    (id : String) (rows : List MemoryRecord) → All (Retired id) (supersede (some id) rows)
supersede-Retired id rows =
    All-update_where (λ _. Unit {0}) (Retired id) (λ x. x.id == id)
      (λ x. record x { status = "superseded" }) rows (λ x _. retire x (x.id == id) refl)
      (All-intro (λ _. Unit {0}) rows (λ _. tt))
  where
    retire :
        (x : MemoryRecord) (b : Bool)
        → (x.id == id) ≡ b
        → Retired id (if b then record x { status = "superseded" } else x)
    retire x true h e = refl
    retire x false h e = ground (arith, eq_iff x.id id)

current-ne-superseded : (s : String) → (s == "current") ≡ true → s ≢ "superseded"
current-ne-superseded s h e = ground (arith, eq_iff s "current", eq_iff "superseded" "current")

-- After a write that supersedes an id was stored, a recall without history and neighbours, where
-- the order of the scores only moves rows, returns no record with that id.
pub recall-superseded :
    (rank : List MemoryRecord → List MemoryRecord) (rows rows' : List MemoryRecord)
    (r : MemoryRecord) (id : String) (request : MemoryScope) (kinds : List MemoryKind) (limit : ℕ)
    (now : String)
    → OnlyMoves rank
    → write_row rows r ≡ stored rows'
    → superseded_id r ≡ some id
    → All (λ x. x.id ≢ id) (recall rank rows' request kinds limit false now)
unfolding recall
recall-superseded rank rows rows' r id request kinds limit now moves h old = All-take _ limit _ (
    moves _ _ (
      All-select_of (Retired id) (λ x. x.id ≢ id) (is_candidate request kinds false now) rows'
        (λ x retired live same. current-ne-superseded x.status (ground (arith)) (retired same))
        retired_rows))
  where
    retired_rows : All (Retired id) rows'
    retired_rows = subst (All (Retired id)) (sym (write_row-Stored rows r rows' h).after) (
        subst (λ o. All (Retired id) (supersede o (rows ++ r ∷ []))) (sym old)
          (supersede-Retired id (rows ++ r ∷ [])))
