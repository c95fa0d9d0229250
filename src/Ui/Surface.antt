-- ===== src/Ui/Surface.antt =====
-- s13code/ui/surface.py: the surface of a run and the surface of an approval.
pub mod Clean
pub mod Bound
pub mod Linked
use s14code.Prelude.{
  codes, ℕ, ◌+◌, String, Bool, true, false, ◌&&◌, ◌||◌, Option, none, some, List, [], ◌∷◌, ◌++◌,
  map, ◌==◌, if◌then◌else◌, contains, length, select, concat, show, join, is_infix,
}
use s14code.Json.{Json, str, arr, obj, Items, nil, cons, Dict, empty, entry, get, set}
use s14code.Sorting.{sort_by}
use s14code.Graph.Model.{
  NodeState, pending, running, succeeded, failed, cancelled, waiting, value, is_succeeded, NodeRow,
  GraphSnapshot,
}

-- `_TONE_FOR_STATE.get(state, "neutral")`
abbrev pub tone_for : NodeState → String
tone_for succeeded = "good"
tone_for running = "neutral"
tone_for pending = "neutral"
tone_for failed = "bad"
tone_for cancelled = "warn"
tone_for waiting = "warn"

-- {"$bind": p}
abbrev pub bind : String → Json
bind p = obj (entry "$bind" (str p) empty)

abbrev pub texts : List String → Items
texts [] = nil
texts (t ∷ ts) = cons (str t) (texts ts)

abbrev pub dicts : List Dict → Items
dicts [] = nil
dicts (d ∷ ds) = cons (obj d) (dicts ds)

-- The names that carry the index of a node: f"row_{i}" and the like.
abbrev pub row_id : ℕ → String
row_id i = concat "row_" (show i)

abbrev pub name_id : ℕ → String
name_id i = concat "name_" (show i)

abbrev pub state_id : ℕ → String
state_id i = concat "state_" (show i)

abbrev pub name_key : ℕ → String
name_key i = concat "node_" (concat (show i) "_name")

abbrev pub state_key : ℕ → String
state_key i = concat "node_" (concat (show i) "_state")

-- What the builder has made: the components, the root's children and the data model.
pub record Built : Type 0 where
  pub components : List Dict
  pub children : List String
  pub data_model : Dict

abbrev pub title_component : Dict
title_component = entry "id" (str "h_title") (
    entry "type" (str "Text")
      (entry "variant" (str "heading") (entry "text" (bind "/title") empty)))

abbrev pub opening : String → Built
opening run_id = record {
  components = title_component ∷ [];
  children = "h_title" ∷ [];
  data_model =
      entry "title" (str (concat "Run " run_id))
        (entry "rows" (arr nil) (entry "answer" (str "") empty));
}

abbrev pub row_component : ℕ → Dict
row_component i = entry "id" (str (row_id i)) (
    entry "type" (str "Row") (
      entry "align" (str "center") (
        entry "justify" (str "spaceBetween")
          (entry "children" (arr (texts (name_id i ∷ state_id i ∷ []))) empty))))

abbrev pub name_component : ℕ → Dict
name_component i = entry "id" (str (name_id i)) (
    entry "type" (str "Text")
      (entry "variant" (str "body") (entry "text" (bind (concat "/" (name_key i))) empty)))

abbrev pub state_component : ℕ → NodeState → Dict
state_component i state = entry "id" (str (state_id i)) (
    entry "type" (str "StatTile") (
      entry "label" (str "state") (
        entry "value" (bind (concat "/" (state_key i)))
          (entry "tone" (str (tone_for state)) empty))))

-- The body of the loop over the nodes.
unfoldable pub add_node : ℕ → NodeRow → Built → Built
unfolding set show
add_node i n b = record {
  components = b.components ++ row_component i ∷ name_component i ∷ state_component i n.state ∷ [];
  children = b.children ++ row_id i ∷ [];
  data_model =
      set (set b.data_model (name_key i) (str (concat n.id (concat "  ·  " n.skill)))) (state_key i)
        (str (value n.state));
}

unfoldable pub add_nodes : ℕ → List NodeRow → Built → Built
unfolding add_node
add_nodes i [] b = b
add_nodes i (n ∷ ns) b = add_nodes (i + 1) ns (add_node i n b)

-- The first of the keys with a text under it.
unfoldable pub text_under : List String → Dict → Option String
unfolding get
text_under [] d = none
text_under (k ∷ ks) d =
    let rest = text_under ks d in elim (get d k) [ some (str s) ↦ some s | _ ↦ rest ]

-- `node.get("result") or {}`
abbrev pub result_of : NodeRow → Dict
result_of n = elim n.result [ none ↦ empty | some d ↦ d ]

abbrev pub is_answer : NodeRow → Bool
is_answer n =
    is_succeeded n.state
    && (is_infix (codes "answer") (codes n.id) || contains n.skill ("answer" ∷ "answerer" ∷ []))

-- `_find_answer`
unfoldable pub find_answer : List NodeRow → Option String
unfolding text_under
find_answer [] = none
find_answer (n ∷ ns) =
    let rest = find_answer ns in
    let own = text_under ("text" ∷ "answer" ∷ "output" ∷ []) (result_of n) in
    if is_answer n then elim own [ none ↦ rest | some s ↦ some s ] else rest

abbrev pub answer_component : Dict
answer_component =
    entry "id" (str "answer") (entry "type" (str "Text") (entry "text" (bind "/answer") empty))

unfoldable pub add_answer : Option String → Built → Built
unfolding set
add_answer none b = b
add_answer (some s) b = record {
  components = b.components ++ answer_component ∷ [];
  children = b.children ++ "answer" ∷ [];
  data_model = set b.data_model "answer" (str s);
}

abbrev pub is_failed : NodeState → Bool
is_failed failed = true
is_failed _ = false

abbrev pub failed_ids : List NodeRow → List String
failed_ids ns = map (λ n. n.id) (select (λ n. is_failed n.state) ns)

abbrev pub notice_text : List String → String
notice_text ids = concat (show (length ids)) (
    concat " task(s) failed: "
      (concat (join ", " (sort_by (λ id. id) ids)) ". No result was invented."))

abbrev pub notice_component : Dict
notice_component =
    entry "id" (str "notice")
      (entry "type" (str "Notice") (entry "text" (bind "/notice") (entry "tone" (str "bad") empty)))

unfoldable pub add_notice : List String → Built → Built
unfolding set show sort_by
add_notice [] b = b
add_notice (id ∷ ids) b = record {
  components = b.components ++ notice_component ∷ [];
  children = b.children ++ "notice" ∷ [];
  data_model = set b.data_model "notice" (str (notice_text (id ∷ ids)));
}

abbrev pub root_component : List String → Dict
root_component children =
    entry "id" (str "root")
      (entry "type" (str "Column") (entry "children" (arr (texts children)) empty))

unfoldable pub build_run : GraphSnapshot → Built
unfolding add_nodes find_answer add_answer add_notice sort_by
build_run snapshot = add_notice (failed_ids snapshot.nodes) (
    add_answer (find_answer snapshot.nodes)
      (add_nodes 0 (sort_by (λ n. n.id) snapshot.nodes) (opening snapshot.run_id)))

abbrev pub run_components : Built → List Dict
run_components b = root_component b.children ∷ b.components

unfoldable pub build_run_surface : GraphSnapshot → Dict
unfolding build_run
build_run_surface snapshot =
    let b = build_run snapshot in
    entry "root" (str "root") (
      entry "components" (arr (dicts (run_components b)))
        (entry "dataModel" (obj b.data_model) empty))

abbrev pub card_component : String → String → Dict
card_component run_id node_id = entry "id" (str "card") (
    entry "type" (str "ApprovalCard") (
      entry "summary" (bind "/summary") (
        entry "params" (bind "/params") (
          entry "confirm"
            (obj (entry "action" (str "approve") (entry "args" (bind "/params") empty)))
            (entry "reject"
              (obj (
                entry "action" (str "reject") (
                  entry "args"
                    (obj (entry "run_id" (str run_id) (entry "node_id" (str node_id) empty)))
                    empty)))
              empty)))))

abbrev pub approval_components : String → String → List Dict
approval_components run_id node_id =
    root_component ("card" ∷ []) ∷ card_component run_id node_id ∷ []

unfoldable pub build_approval_surface : String → String → String → Dict → Dict
build_approval_surface run_id node_id summary params = entry "root" (str "root") (
    entry "components" (arr (dicts (approval_components run_id node_id))) (
      entry "dataModel" (obj (entry "summary" (str summary) (entry "params" (obj params) empty)))
        empty))
