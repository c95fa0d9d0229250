-- ===== src/Runtime/Nodes.antt =====
-- What the planner of s13code/runtime.py reads in a snapshot of the graph. A subject and the text of a
-- result are texts, and paths and hits lists, as the workers write them.
use s14code.Prelude.{
  String, Bool, true, false, not, ◌&&◌, ◌||◌, Option, none, some, List, ◌==◌, all, any, codes,
  is_prefix, map, select, if◌then◌else◌,
}
use s14code.Json.{Json, null, str, arr, Items, nil, Dict, get, get_or, truthy}
use s14code.Graph.Model.{NodeRow, is_open, is_succeeded, Event}
use s14code.Ui.Patterns.{is_space}
use s14code.Chunking.Words.{is_suffix}

-- `s.startswith(p)` and `s.endswith(p)`
abbrev pub starts_with : String → String → Bool
starts_with p s = is_prefix (codes p) (codes s)

abbrev pub ends_with : String → String → Bool
ends_with p s = is_suffix (codes p) (codes s)

-- `event.node_id == id`
abbrev pub is_about : Event → String → Bool
is_about e id = elim e.node_id [ none ↦ false | some n ↦ n == id ]

abbrev pub has_kind : Event → String → Bool
has_kind e kind = e.kind == kind

-- `event.kind in ("task_succeeded", "task_failed")`
abbrev pub has_outcome : Event → Bool
has_outcome e = e.kind == "task_succeeded" || e.kind == "task_failed"

-- `id in graph.nodes`
unfoldable pub has_node : String → List NodeRow → Bool
has_node id nodes = any (λ n. n.id == id) nodes

abbrev pub node_ids : List NodeRow → List String
node_ids nodes = map (λ (n : NodeRow). n.id) nodes

-- `node["state"] in {"succeeded", "failed", "cancelled"}`
abbrev pub is_over : NodeRow → Bool
is_over n = not (is_open n.state)

-- `_is_research_node`
unfoldable pub is_research_node : String → Bool
is_research_node id = not (id == "") && (starts_with "search_" id || ends_with "_retry" id)

-- `nid in superseded`
abbrev pub is_superseded : List NodeRow → String → Bool
is_superseded nodes id = any (λ n. corrects (get n.input "corrective_for")) nodes
  where
    corrects : Option Json → Bool
    corrects (some (str s)) = s == id
    corrects _ = false

-- The nodes of `_research_leaf_ids`, in the order of their ids.
unfoldable pub research_leaves : List NodeRow → List NodeRow
unfolding is_research_node get
research_leaves nodes = select (λ n. is_research_node n.id && not (is_superseded nodes n.id)) nodes

-- `not (v or "").strip()`
abbrev pub is_blank_text : Json → Bool
is_blank_text (str s) = all is_space (codes s)
is_blank_text v = not (truthy v)

-- `_weak_evidence`
unfoldable pub weak_evidence : Option Dict → Bool
unfolding get is_space
weak_evidence none = true
weak_evidence (some result) =
    truthy (get_or result "insufficient" null)
    || is_blank_text (get_or result "text" null) && not (truthy (get_or result "hits" null))

-- `(node.get("input") or {}).get("subject") or event.node_id`
abbrev pub subject_of : NodeRow → String → String
subject_of n id = text (get_or n.input "subject" null)
  where
    text : Json → String
    text (str s) = if s == "" then id else s
    text _ = id

-- A list of the payload, "" as no list.
abbrev pub items_of : Json → Items
items_of (arr xs) = xs
items_of _ = nil

-- The nodes that have succeeded, but the answer.
unfoldable pub answer_parents : List NodeRow → List String
answer_parents nodes = node_ids (select (λ n. not (n.id == "answer") && is_succeeded n.state) nodes)
