-- ===== src/Planner.antt =====
-- s13code/planner.py: `ConstrainedGraphPatchPlanner`. What `json.loads` gives comes in as a value;
-- every exception of `_parse` sends `plan` to the fallback, so `none` stands for each of them.
pub mod Sound
pub mod Complete
mod Tests
use s14code.Prelude.{
  codes, ℕ, String, Bool, true, false, not, ◌&&◌, ◌||◌, Option, none, some, List, [], ◌∷◌, ◌==◌,
  leb, length, nat_eq, if◌then◌else◌, contains, ◌>>=◌, ◌>>◌, require,
}
use s14code.Json.{
  Json, null, bool, int, str, arr, obj, Items, nil, cons, Dict, empty, entry, get, get_or, set,
  as_dict, as_items, as_bool, as_text,
}
use s14code.Graph.Model.{TaskSpec, GraphPatch}

abbrev pub is_ascii_letter : ℕ → Bool
is_ascii_letter c = leb b'A' c && leb c b'Z' || leb b'a' c && leb c b'z'

abbrev pub is_id_char : ℕ → Bool
is_id_char c = is_ascii_letter c || leb b'0' c && leb c b'9' || nat_eq c b'_' || nat_eq c b'-'

abbrev pub all_id_chars : List ℕ → Bool
all_id_chars [] = true
all_id_chars (c ∷ cs) = is_id_char c && all_id_chars cs

-- `_ID.fullmatch`
abbrev pub matches_id : List ℕ → Bool
matches_id [] = false
matches_id (c ∷ cs) = is_ascii_letter c && all_id_chars cs && leb (length cs) 63

unfoldable pub is_id : String → Bool
is_id s = matches_id (codes s)

-- `not set(d).difference(allowed)`
abbrev pub only_keys : List String → Dict → Bool
only_keys allowed empty = true
only_keys allowed (entry k v d) = contains k allowed && only_keys allowed d

abbrev pub as_id : Json → Option String
as_id (str s) = if is_id s then some s else none
as_id _ = none

-- What `for raw in v` goes through. The letters of a text and the keys of a dict are texts, which
-- are no tasks.
abbrev pub as_tasks : Json → Option Items
as_tasks (arr xs) = some xs
as_tasks (str s) = if s == "" then some nil else none
as_tasks (obj empty) = some nil
as_tasks _ = none

abbrev pub as_role : List String → Json → Option String
as_role roles (str s) = if contains s roles then some s else none
as_role roles _ = none

unfoldable pub parse_task : List String → Json → Option TaskSpec
unfolding get set is_id
parse_task roles raw = do
  d ← as_dict raw
  require (only_keys ("id" ∷ "role" ∷ "input" ∷ "metadata" ∷ []) d)
  node_id ← as_id (get_or d "id" null)
  role ← as_role roles (get_or d "role" null)
  task_input ← as_dict (get_or d "input" (obj empty))
  metadata ← as_dict (get_or d "metadata" (obj empty))
  some (record {
    id = node_id;
    skill = role;
    input = task_input;
    metadata = set metadata "agent" (str role);
  })

unfoldable pub parse_tasks : List String → Items → Option (List TaskSpec)
unfolding parse_task
parse_tasks roles nil = some []
parse_tasks roles (cons raw xs) = do
  t ← parse_task roles raw
  ts ← parse_tasks roles xs
  some (t ∷ ts)

-- `id_list`
unfoldable pub parse_ids : Items → Option (List String)
unfolding is_id
parse_ids nil = some []
parse_ids (cons x xs) = do id ← as_id x; ids ← parse_ids xs; some (id ∷ ids)

abbrev pub as_edge : Json → Option (String × String)
as_edge (arr (cons a (cons b nil))) = do parent ← as_id a; child ← as_id b; some (parent, child)
as_edge _ = none

unfoldable pub parse_edges : Items → Option (List (String × String))
unfolding is_id
parse_edges nil = some []
parse_edges (cons x xs) = do e ← as_edge x; es ← parse_edges xs; some (e ∷ es)

-- `NON_BROWSER_ROLES`
abbrev pub non_browser_roles : List String
non_browser_roles =
    "researcher" ∷ "retriever" ∷ "distiller" ∷ "summariser" ∷ "formatter" ∷ "coder_validator" ∷ []

abbrev pub patch_keys : List String
patch_keys = "add" ∷ "connect" ∷ "cancel" ∷ "wait" ∷ "resume" ∷ "finish" ∷ "reason" ∷ []

-- `_parse`, after `json.loads`.
unfoldable pub parse_patch : List String → Json → Option GraphPatch
unfolding parse_tasks parse_edges parse_ids get
parse_patch roles v = do
  data' ← as_dict v
  require (only_keys patch_keys data')
  raws ← as_tasks (get_or data' "add" (arr nil))
  add ← parse_tasks roles raws
  pairs ← as_items (get_or data' "connect" (arr nil))
  connect ← parse_edges pairs
  finish ← as_bool (get_or data' "finish" (bool false))
  reason ← as_text (get_or data' "reason" (str ""))
  cancel_items ← as_items (get_or data' "cancel" (arr nil))
  cancel ← parse_ids cancel_items
  wait_items ← as_items (get_or data' "wait" (arr nil))
  wait ← parse_ids wait_items
  resume_items ← as_items (get_or data' "resume" (arr nil))
  resume ← parse_ids resume_items
  some (record {
    add = add;
    connect = connect;
    cancel = cancel;
    wait = wait;
    resume = resume;
    finish = finish;
    reason = reason;
  })

-- `plan`: the reply is `none` where the model or `json.loads` raises.
unfoldable pub plan_patch : List String → Option Json → GraphPatch → GraphPatch
unfolding parse_patch
plan_patch roles reply fallback = elim (reply >>= parse_patch roles) [
  | none ↦ fallback
  | some patch ↦ patch
]
