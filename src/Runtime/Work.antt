-- ===== src/Runtime/Work.antt =====
-- The later rules of `DeterministicPlanner` of s13code/runtime.py, and its `plan`.
use s14code.Prelude.{
  String, Bool, true, false, not, ◌&&◌, ◌||◌, Option, none, some, List, [], ◌∷◌, ◌==◌, all,
  contains, select, if◌then◌else◌,
}
use s14code.Json.{arr, Items, nil, cons, get, get_or}
use s14code.Graph.Model.{GraphPatch, empty_patch, NodeRow, Event}
use s14code.Runtime.Nodes.{starts_with, is_about, has_kind, has_node, node_ids, is_over, items_of}
use s14code.Runtime.Rules.{
  WorkIntent, or_else, when, text_entry, plain_task, role_task, grow, end_run, edges_to, edges_from,
  index_tasks, fetch_tasks, has_any, is_mode, query, answer_patch, start_rule, compose_answer_rule,
  compose_research_rule, research_rule,
}

-- `event.node_id and event.node_id.startswith(…)`, for any of the prefixes.
abbrev pub is_about_any : Event → (String → Bool) → Bool
is_about_any e p = elim e.node_id [ none ↦ false | some id ↦ not (id == "") && p id ]

abbrev pub is_work : String → Bool
is_work id = starts_with "fetch_" id || starts_with "search_" id

-- `work and all(… for node in work)`
abbrev pub all_over : List NodeRow → Bool
all_over work = has_any work && all is_over work

abbrev pub nodes_with : (String → Bool) → List NodeRow → List NodeRow
nodes_with p nodes = select (λ n. p n.id) nodes

abbrev pub any_items : Items → Bool
any_items nil = false
any_items (cons x xs) = true

module _ (w : WorkIntent) where
  unfoldable pub index_file_rule : Event → Option GraphPatch
  index_file_rule e = when (is_about e "index_file" && has_kind e "task_succeeded") (
      grow (plain_task "recall" "memory_recall" (query w) ∷ []) (("index_file", "recall") ∷ [])
        "file is indexed; retrieval can now inspect it")

  unfoldable pub birthday_rule : List NodeRow → Event → Option GraphPatch
  unfolding answer_patch
  birthday_rule nodes e =
      if is_mode w "birthday_reminder"
      then or_else
          (when (is_about e "remember" && has_kind e "task_succeeded") (
            grow
              (role_task "reminder" "create_reminder" (text_entry "prompt" w.prompt)
                  "calendar_writer"
                ∷ [])
              (("remember", "reminder") ∷ [])
              "explicit fact is durable; create calendar artifacts"))
          (or_else
            (when (is_about e "reminder")
              (answer_patch w nodes "calendar reminder artifacts are ready"))
            (when (is_about e "recall") empty_patch))
      else none

  unfoldable pub read_file_rule : List NodeRow → Event → Option GraphPatch
  unfolding answer_patch
  read_file_rule nodes e =
      when (is_mode w "read_file" && is_about e "read_file")
        (answer_patch w nodes "safe sandbox read reached a terminal outcome")

  unfoldable pub directory_rule : List NodeRow → Event → Option GraphPatch
  unfolding answer_patch get index_tasks
  directory_rule nodes e =
      let paths = items_of (get_or e.payload "paths" (arr nil)) in
      when
        (is_mode w "index_directory"
          && (is_about e "list_directory" && has_kind e "task_succeeded"))
        (if any_items paths
          then grow (index_tasks 0 paths) (edges_from "list_directory" (index_tasks 0 paths))
              "directory outcome discovered concrete files; index them in parallel"
          else answer_patch w nodes "the directory contained no matching files")

  unfoldable pub indexed_rule : List NodeRow → Event → Option GraphPatch
  unfolding answer_patch
  indexed_rule nodes e =
      when
        (is_mode w "index_directory"
          && is_about_any e (starts_with "index_")
          && all_over (nodes_with (starts_with "index_") nodes))
        (answer_patch w nodes "all discovered documents reached a terminal state")

  unfoldable pub search_rule : List NodeRow → Event → Option GraphPatch
  unfolding answer_patch get fetch_tasks
  search_rule nodes e =
      let hits = items_of (get_or e.payload "hits" (arr nil)) in
      when (is_mode w "search_fetch" && (is_about e "search" && has_kind e "task_succeeded")) (
        if any_items hits
        then grow (fetch_tasks 3 0 hits) (edges_from "search" (fetch_tasks 3 0 hits))
            "search outcome discovered concrete pages; fetch them in parallel"
        else answer_patch w nodes "search returned no URLs; explain the failure")

  unfoldable pub recall_rule : List NodeRow → Event → Option GraphPatch
  unfolding answer_patch has_node
  recall_rule nodes e = when (is_about e "recall") (
      if is_mode w "index_file" && not (has_node "distill" nodes)
      then grow (role_task "distill" "distiller" (query w) "paper_distiller" ∷ [])
          (("recall", "distill") ∷ []) "retrieved paper evidence is ready for extraction"
      else answer_patch w nodes "authorized retrieval completed")

  unfoldable pub distilled_rule : List NodeRow → Event → Option GraphPatch
  unfolding answer_patch
  distilled_rule nodes e =
      when (is_about e "distill" && not (is_mode w "structured_compare"))
        (answer_patch w nodes "specialist synthesis completed")

  -- The research nodes, or where there is none the pages.
  abbrev pub frontier_parents : List NodeRow → List String
  frontier_parents nodes =
      let searches = nodes_with (starts_with "search_") nodes in
      if has_any searches
      then node_ids searches
      else node_ids (nodes_with (starts_with "fetch_") nodes)

  abbrev pub distilling_modes : List String
  distilling_modes = "fetch" ∷ "search_fetch" ∷ "parallel_search" ∷ "structured_compare" ∷ []

  unfoldable pub frontier_rule : List NodeRow → Event → Option GraphPatch
  unfolding answer_patch has_node
  frontier_rule nodes e = when (is_about_any e is_work && all_over (nodes_with is_work nodes)) (
      if contains w.mode distilling_modes && not (has_node "distill" nodes)
      then grow (role_task "distill" "distiller" (query w) "distiller" ∷ [])
          (edges_to "distill" (frontier_parents nodes))
          "research evidence landed; specialist synthesis can begin"
      else answer_patch w nodes "the current research frontier has landed")

  unfoldable pub structured_rule : List NodeRow → Event → Option GraphPatch
  unfolding answer_patch
  structured_rule nodes e =
      if is_mode w "structured_compare"
      then or_else
          (when (is_about e "distill") (
            grow (role_task "validate" "coder_validator" (query w) "structured_validator" ∷ [])
              (("distill", "validate") ∷ []) "validate compared structure before answering"))
          (when (is_about e "validate")
            (answer_patch w nodes "structured compare fields validated"))
      else none

  unfoldable pub failed_rule : List NodeRow → Event → Option GraphPatch
  unfolding answer_patch
  failed_rule nodes e =
      when
        (has_kind e "task_failed"
          && not (is_about e "answer")
          && all_over (nodes_with (λ id. not (id == "answer")) nodes))
        (answer_patch w nodes "work ended with a visible failure; explain it")

  abbrev pub answered_rule : Event → Option GraphPatch
  answered_rule e =
      or_else
        (when (is_about e "answer" && has_kind e "task_succeeded")
          (end_run "grounded answer produced"))
        (when (is_about e "answer" && has_kind e "task_failed")
          (end_run "answer worker failed; failure retained in journal"))

  abbrev pub rule_of : List NodeRow → Event → Option GraphPatch
  rule_of nodes e = or_else (start_rule w e) (
      or_else (compose_answer_rule w nodes e) (
        or_else (compose_research_rule w nodes e) (
          or_else (research_rule w nodes e) (
            or_else (index_file_rule e) (
              or_else (birthday_rule nodes e) (
                or_else (read_file_rule nodes e) (
                  or_else (directory_rule nodes e) (
                    or_else (indexed_rule nodes e) (
                      or_else (search_rule nodes e) (
                        or_else (recall_rule nodes e) (
                          or_else (distilled_rule nodes e) (
                            or_else (frontier_rule nodes e) (
                              or_else (structured_rule nodes e)
                                (or_else (failed_rule nodes e) (answered_rule e)))))))))))))))

  -- `plan`
  unfoldable pub plan_event : List NodeRow → Event → GraphPatch
  unfolding compose_answer_rule compose_research_rule research_rule index_file_rule birthday_rule
      read_file_rule directory_rule indexed_rule search_rule recall_rule distilled_rule
      frontier_rule structured_rule failed_rule
  plan_event nodes e = elim (rule_of nodes e) [ none ↦ empty_patch | some p ↦ p ]
