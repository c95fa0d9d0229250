-- ===== src/Graph/Patch/States.antt =====
-- `apply_patch` of s13code/core/live_graph/store.py: the state of each task after a patch, as one
-- function of its state before.
use s14code.Prelude.{
  String, ◌≡◌, refl, ◌∙◌, ap, Bool, false, ◌||◌, Option, none, some, List, [], ◌∷◌, map, arith,
  ◌==◌, eq_iff, if◌then◌else◌, contains, first, any, any-update_where, ◌&&◌,
}
use s14code.Graph.Model.{
  NodeState, pending, cancelled, waiting, is_open, GraphPatch, NodeRow, GraphDb,
}
use s14code.Graph.Store.{is_node, set_state}
use s14code.Graph.Patch.{cancel_tasks, set_states, leftovers, cancel_leftovers}

-- The column `state` of a task, where the task is there.
abbrev pub state_of : List NodeRow → String → String → Option NodeState
state_of rows run_id id = elim (first (is_node run_id id) rows) [
  | none ↦ none
  | some n ↦ some n.state
]

-- A new state for a task that is there.
abbrev pub put_state : NodeState → Option NodeState → Option NodeState
put_state s none = none
put_state s (some _) = some s

pub state_of-set_state :
    (rows : List NodeRow) (s : NodeState) (run_id n id : String)
    → state_of (set_state s run_id n rows) run_id id
      ≡ (if id == n then put_state s (state_of rows run_id id) else state_of rows run_id id)
state_of-set_state [] s run_id n id = ground arith
state_of-set_state (row ∷ rows) s run_id n id =
    ground
      (arith, state_of-set_state rows s run_id n id, eq_iff id n, eq_iff row.id n, eq_iff row.id id)

put_twice :
    (a b : Bool) (s : NodeState) (o : Option NodeState)
    → (if b then put_state s (if a then put_state s o else o) else (if a then put_state s o else o))
      ≡ (if a || b then put_state s o else o)
put_twice a b s o = ground arith

pub state_of-set_states :
    (ids : List String) (rows : List NodeRow) (s : NodeState) (run_id id : String)
    → state_of (set_states s run_id ids rows) run_id id
      ≡ (if contains id ids then put_state s (state_of rows run_id id) else state_of rows run_id id)
unfolding set_states
state_of-set_states [] rows s run_id id = refl
state_of-set_states (n ∷ ns) rows s run_id id =
    state_of-set_states ns (set_state s run_id n rows) s run_id id
    ∙ ap (λ o. if contains id ns then put_state s o else o) (state_of-set_state rows s run_id n id)
    ∙ put_twice (id == n) (contains id ns) s (state_of rows run_id id)

pub nodes-cancel_tasks :
    (run_id reason : String) (rows : List NodeRow) (ids : List String) (db : GraphDb)
    → (cancel_tasks run_id reason rows ids db).nodes ≡ set_states cancelled run_id ids db.nodes
unfolding cancel_tasks set_states
nodes-cancel_tasks run_id reason rows [] db = refl
nodes-cancel_tasks run_id reason rows (n ∷ ns) db = nodes-cancel_tasks run_id reason rows ns _

abbrev pub names : List (String × Bool) → List String
names ls = map (λ l. l.0) ls

pub nodes-cancel_leftovers :
    (run_id : String) (ls : List (String × Bool)) (db : GraphDb)
    → (cancel_leftovers run_id ls db).nodes ≡ set_states cancelled run_id (names ls) db.nodes
unfolding cancel_leftovers set_states
nodes-cancel_leftovers run_id [] db = refl
nodes-cancel_leftovers run_id ((n, r) ∷ ls) db = nodes-cancel_leftovers run_id ls _

-- The primary key of `nodes`: no two rows have the same run and id.
abbrev pub IsKeyed : List NodeRow → Type 0
IsKeyed [] = Unit
IsKeyed (n ∷ ns) = (any (is_node n.run_id n.id) ns ≡ false) × IsKeyed ns

pub state_of-absent :
    (rows : List NodeRow) (run_id id : String)
    → any (is_node run_id id) rows ≡ false
    → state_of rows run_id id ≡ none
state_of-absent [] run_id id h = refl
state_of-absent (row ∷ rows) run_id id h = ground (arith, state_of-absent rows run_id id)

abbrev pub open_in : Option NodeState → Bool
open_in none = false
open_in (some s) = is_open s

-- A finish finds exactly the tasks of the run that are open.
pub leftovers-open :
    (rows : List NodeRow) (run_id id : String)
    → IsKeyed rows
    → contains id (names (leftovers run_id rows)) ≡ open_in (state_of rows run_id id)
leftovers-open [] run_id id k = refl
leftovers-open (row ∷ rows) run_id id k = ground (
  arith,
  leftovers-open rows run_id id k.1,
  state_of-absent rows run_id id,
  k.0,
  eq_iff row.run_id run_id,
  eq_iff row.id id,
  eq_iff id row.id,
)

-- What a patch makes of the state of one task, read off the patch.
abbrev pub settle : GraphPatch → String → NodeState → NodeState
settle patch id s =
    let s1 = if contains id patch.cancel then cancelled else s in
    let s2 = if contains id patch.wait then waiting else s1 in
    let s3 = if contains id patch.resume then pending else s2 in
    if patch.finish && is_open s3 then cancelled else s3

abbrev pub settle_option : GraphPatch → String → Option NodeState → Option NodeState
settle_option patch id none = none
settle_option patch id (some s) = some (settle patch id s)

any-key :
    (rows : List NodeRow) (s : NodeState) (run_id id r i : String)
    → any (is_node r i) (set_state s run_id id rows) ≡ any (is_node r i) rows
any-key rows s run_id id r i =
    any-update_where (is_node r i) (is_node run_id id) (λ n. record n { state = s }) rows
      (λ n. refl)

IsKeyed-set_state :
    (rows : List NodeRow) (s : NodeState) (run_id id : String)
    → IsKeyed rows
    → IsKeyed (set_state s run_id id rows)
IsKeyed-set_state [] s run_id id k = tt
IsKeyed-set_state (row ∷ rows) s run_id id k =
    ground
      (arith, any-key rows s run_id id row.run_id row.id, IsKeyed-set_state rows s run_id id k.1)

pub IsKeyed-set_states :
    (ids : List String) (rows : List NodeRow) (s : NodeState) (run_id : String)
    → IsKeyed rows
    → IsKeyed (set_states s run_id ids rows)
unfolding set_states
IsKeyed-set_states [] rows s run_id k = k
IsKeyed-set_states (n ∷ ns) rows s run_id k =
    IsKeyed-set_states ns (set_state s run_id n rows) s run_id (IsKeyed-set_state rows s run_id n k)
