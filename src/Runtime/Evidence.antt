-- ===== src/Runtime/Evidence.antt =====
-- The evidence that the worker `answer` of s13code/runtime.py gives to a language model. `print` is
-- Python's `str` of a value that is no text. What raises gives `none`.
pub mod Bounded
mod Tests
use s14code.Prelude.{
  ℕ, ◌+◌, ◌-◌, String, Bool, true, false, not, ◌&&◌, ◌||◌, Option, none, some, List, [], ◌∷◌, ◌++◌,
  ◌==◌, ◌>>=◌, codes, concat, contains, first, join, leb, length, map, take_text, if◌then◌else◌,
}
use s14code.Json.{
  Json, null, str, arr, obj, Items, nil, cons, Dict, empty, entry, get, get_or, set, as_dict,
  as_items, as_text, truthy,
}
use s14code.Graph.Model.{NodeRow, NodeState, failed}
use s14code.Memory.{kind_text, MemoryRecord, SourceRef}

-- A piece of evidence with its text, its one source and its kind.
abbrev pub piece : Json → Json → String → Dict
piece text source kind =
    entry "text" text (entry "sources" (arr (cons source nil)) (entry "kind" (str kind) empty))

-- `[item for item in hits]`, of dicts.
abbrev pub dicts : Items → Option (List Dict)
dicts nil = some []
dicts (cons x xs) = as_dict x >>= λ d. dicts xs >>= λ ds. some (d ∷ ds)

-- `result.get("hits", [])`
abbrev pub hits_of : Dict → Option (List Dict)
hits_of result = as_items (get_or result "hits" (arr nil)) >>= dicts

abbrev pub texts_of : Items → Option (List String)
texts_of nil = some []
texts_of (cons x xs) = as_text x >>= λ t. texts_of xs >>= λ ts. some (t ∷ ts)

-- `node.get("result") or {}`
abbrev pub result_of : NodeRow → Dict
result_of n = elim n.result [ none ↦ empty | some d ↦ d ]

-- `snapshot.nodes.get(id, {}).get("result") or {}`
abbrev pub result_at : String → List NodeRow → Dict
result_at id nodes = elim (first (λ n. n.id == id) nodes) [ none ↦ empty | some n ↦ result_of n ]

-- `remembered`: a node `remember` without a result raises.
abbrev pub fact_at : List NodeRow → Option (Option Dict)
fact_at nodes = elim (first (λ n. n.id == "remember") nodes) [
  | none ↦ some none
  | some n ↦ n.result >>= λ result.
      let fact = get_or result "fact" null in
      if truthy fact then (as_dict fact >>= λ d. some (some d)) else some none
]

abbrev pub is_failed : NodeState → Bool
is_failed failed = true
is_failed _ = false

abbrev pub output_skills : List String
output_skills =
    "distiller" ∷ "coder_validator" ∷ "researcher" ∷ "retriever" ∷ "summariser" ∷ "formatter" ∷ []

module _ (print : Json → String) (run_id : String) where
  -- `f"{v}"`
  abbrev shown : Json → String
  shown (str s) = s
  shown v = print v

  abbrev own_source : String → Json
  own_source id = str (concat "graph://" (concat run_id (concat "/" id)))

  -- The hits of a search; `other` is the source of a hit without a URL.
  abbrev pub search_pieces : String → Json → List Dict → List Dict
  search_pieces kind other hits =
      map
        (λ hit.
          piece
            (str (
              concat (shown (get_or hit "title" (str "")))
                (concat ": " (shown (get_or hit "snippet" (str ""))))))
            (get_or hit "url" other) kind)
        hits

  abbrev pub has_key : Dict → String → Bool
  has_key d k = truthy (get_or d k null)

  -- `result["text"]` of a page, a text.
  abbrev pub page_piece : Dict → Option (List Dict)
  page_piece result = as_text (get_or result "text" null) >>= λ text.
      get result "url" >>= λ url. some (piece (str (take_text 12000 text)) url "web_page" ∷ [])

  abbrev pub index_piece : Dict → Option (List Dict)
  index_piece result = get result "chunks" >>= λ chunks. get result "source_uri" >>= λ uri. some (
      piece (str (concat "Indexed " (concat (shown chunks) " semantic chunks from this document.")))
        uri "index_report"
      ∷ [])

  abbrev pub output_piece : String → Dict → List Dict
  output_piece id result = piece (get_or result "text" null) (own_source id) "role_output" ∷ []

  abbrev pub calendar_piece : Dict → Option (List Dict)
  calendar_piece result = as_items (get_or result "artifacts" null) >>= λ artifacts.
      texts_of artifacts >>= λ names. some (
        entry "text" (str (concat "Calendar reminders created: " (join ", " names)))
          (entry "sources" (arr artifacts) (entry "kind" (str "calendar_artifact") empty))
        ∷ [])

  abbrev pub failure_piece : String → Dict → List Dict
  failure_piece id result =
      piece (get_or result "error" (str "task failed")) (own_source id) "failure" ∷ []

  -- The branches of the loop over the nodes.
  unfoldable pub node_pieces : NodeRow → Option (List Dict)
  unfolding get
  node_pieces n =
      let result = result_of n in
      if n.skill == "fetch_url" && has_key result "text"
      then page_piece result
      else if n.skill == "web_search"
      then (hits_of result >>= λ hits.
          some (search_pieces "search_result" (str (concat "search://" n.id)) hits))
      else if n.skill == "researcher"
      then (hits_of result >>= λ hits. some (search_pieces "research" (own_source n.id) hits))
      else if n.skill == "index_file" && has_key result "source_uri"
      then index_piece result
      else if contains n.skill output_skills && has_key result "text"
      then some (output_piece n.id result)
      else if n.skill == "create_reminder" && has_key result "artifacts"
      then calendar_piece result
      else if is_failed n.state
      then some (failure_piece n.id result)
      else some []

  abbrev pub nodes_pieces : List NodeRow → Option (List Dict)
  nodes_pieces [] = some []
  nodes_pieces (n ∷ ns) =
      node_pieces n >>= λ early. nodes_pieces ns >>= λ late. some (early ++ late)

  -- `evidence`, before it is cut. A fact that is remembered is a dict, a hit too.
  unfoldable pub evidence_of : List NodeRow → Option (List Dict)
  unfolding get node_pieces
  evidence_of nodes = hits_of (result_at "recall" nodes) >>= λ hits. fact_at nodes >>= λ fact.
      nodes_pieces nodes >>= λ pieces. elim fact [
        | none ↦ some (hits ++ pieces)
        | some remembered ↦ some (remembered ∷ hits ++ pieces)
      ]

-- The loop over the evidence, with `used` and `bounded`.
abbrev pub bounded_from : ℕ → List Dict → Option (List Dict)
bounded_from used [] = some []
bounded_from used (item ∷ items) =
    if leb 28000 used
    then some []
    else (as_text (get_or item "text" (str "")) >>= λ text.
        let clipped = take_text (28000 - used) text in
        bounded_from (used + length (codes clipped)) items >>= λ late.
        some (set item "text" (str clipped) ∷ late))

-- The evidence of the answer, cut.
unfoldable pub answer_evidence : (Json → String) → String → List NodeRow → Option (List Dict)
unfolding evidence_of get set
answer_evidence print run_id nodes = evidence_of print run_id nodes >>= bounded_from 0
