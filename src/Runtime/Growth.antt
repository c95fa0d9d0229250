-- ===== src/Runtime/Growth.antt =====
-- What the planner of s13code/runtime.py does to a graph.
use s14code.Prelude.{
  String, ◌≡◌, refl, Bool, true, false, not, ◌&&◌, Option, none, some, List, [], ◌∷◌, arith, All,
  All-map, any, subst, Bool-cases, inl, inr, eq→path, ◌||◌, ◌==◌, contains, if_both, if_cases,
}
use s14code.Json.{arr, nil, get_or}
use s14code.Graph.Model.{TaskSpec, GraphPatch, empty_patch, NodeRow, Event}
use s14code.Runtime.Nodes.{starts_with, is_about, has_kind, has_node, items_of}
use s14code.Runtime.Rules.{
  WorkIntent, or_else, when, index_tasks, fetch_tasks, has_any, is_mode, query, plain_task,
  role_task, answer_patch, start_rule, first_tasks, text_entry, compose_answer_rule,
  compose_research_rule, research_rule,
}
use s14code.Runtime.Work.{
  is_about_any, is_work, all_over, nodes_with, any_items, index_file_rule, birthday_rule,
  read_file_rule, directory_rule, indexed_rule, search_rule, recall_rule, distilled_rule,
  frontier_parents, distilling_modes, frontier_rule, structured_rule, failed_rule, answered_rule,
  rule_of, plan_event,
}
use s14code.Runtime.Holds.{
  Holds, Known, or_else-Holds, when-Holds, empty-Grows, end_run-Grows, other-Grows, one_other-Grows,
  answer_patch-Grows, distill-Grows, none-Holds, compose_answer_rule-Holds,
  compose_research_rule-Holds, research_rule-Holds,
}
use s14code.Runtime.Tasks.{
  adds, may_lead, is_repeated, Grows, ids_there, edges_from-HasGoodEdges, index_tasks-IsOther,
  fetch_tasks-IsOther,
}

module _ (w : WorkIntent) (nodes : List NodeRow) (e : Event) where
  -- A rule that answers, under a condition.
  answering-Holds :
      (b : Bool) (reason : String) → Holds w nodes e (when b (answer_patch w nodes reason))
  answering-Holds b reason =
      when-Holds w nodes e b (answer_patch w nodes reason)
        (λ h. answer_patch-Grows w nodes e reason)

  index_file_rule-Holds : Holds w nodes e (index_file_rule w e)
  unfolding index_file_rule
  index_file_rule-Holds =
      when-Holds w nodes e (is_about e "index_file" && has_kind e "task_succeeded") _ (λ h.
        one_other-Grows w nodes e (plain_task "recall" "memory_recall" (query w))
          (("index_file", "recall") ∷ []) "file is indexed; retrieval can now inspect it"
          ((ground (arith, h), refl), tt) refl refl refl)

  birthday_rule-Holds : Holds w nodes e (birthday_rule w nodes e)
  unfolding birthday_rule
  birthday_rule-Holds =
      if_both (Holds w nodes e) (is_mode w "birthday_reminder")
        (or_else-Holds w nodes e (when _ _) _
          (when-Holds w nodes e (is_about e "remember" && has_kind e "task_succeeded") _ (λ h.
            one_other-Grows w nodes e
              (role_task "reminder" "create_reminder" (text_entry "prompt" w.prompt)
                "calendar_writer")
              (("remember", "reminder") ∷ []) "explicit fact is durable; create calendar artifacts"
              ((ground (arith, h), refl), tt) refl refl refl))
          (or_else-Holds w nodes e (when _ _) (when _ _)
            (answering-Holds (is_about e "reminder") "calendar reminder artifacts are ready")
            (when-Holds w nodes e (is_about e "recall") _ (λ h. empty-Grows w nodes e ""))))
        (none-Holds w nodes e)

  read_file_rule-Holds : Holds w nodes e (read_file_rule w nodes e)
  unfolding read_file_rule
  read_file_rule-Holds =
      answering-Holds (is_mode w "read_file" && is_about e "read_file")
        "safe sandbox read reached a terminal outcome"

  directory_rule-Holds : Holds w nodes e (directory_rule w nodes e)
  unfolding directory_rule
  directory_rule-Holds =
      let paths = items_of (get_or e.payload "paths" (arr nil)) in
      when-Holds w nodes e
        (is_mode w "index_directory"
          && (is_about e "list_directory" && has_kind e "task_succeeded"))
        _
        (λ h.
          if_both (Grows nodes e) (any_items paths)
            (other-Grows w nodes e (index_tasks 0 paths) _
              "directory outcome discovered concrete files; index them in parallel"
              (edges_from-HasGoodEdges nodes e "list_directory" (index_tasks 0 paths)
                (ground (arith, h)))
              (index_tasks-IsOther 0 paths))
            (answer_patch-Grows w nodes e "the directory contained no matching files"))

  indexed_rule-Holds : Holds w nodes e (indexed_rule w nodes e)
  unfolding indexed_rule
  indexed_rule-Holds = answering-Holds _ "all discovered documents reached a terminal state"

  search_rule-Holds : Holds w nodes e (search_rule w nodes e)
  unfolding search_rule
  search_rule-Holds =
      let hits = items_of (get_or e.payload "hits" (arr nil)) in
      when-Holds w nodes e
        (is_mode w "search_fetch" && (is_about e "search" && has_kind e "task_succeeded")) _
        (λ h.
          if_both (Grows nodes e) (any_items hits)
            (other-Grows w nodes e (fetch_tasks 3 0 hits) _
              "search outcome discovered concrete pages; fetch them in parallel"
              (edges_from-HasGoodEdges nodes e "search" (fetch_tasks 3 0 hits) (ground (arith, h)))
              (fetch_tasks-IsOther 3 0 hits))
            (answer_patch-Grows w nodes e "search returned no URLs; explain the failure"))

  recall_rule-Holds : Holds w nodes e (recall_rule w nodes e)
  unfolding recall_rule
  recall_rule-Holds = when-Holds w nodes e (is_about e "recall") _ (λ h.
      if_cases (Grows nodes e) (is_mode w "index_file" && not (has_node "distill" nodes))
        (λ k.
          distill-Grows w nodes e "paper_distiller" ("recall" ∷ [])
            "retrieved paper evidence is ready for extraction" (ground (arith, k))
            (ground (arith, h), tt))
        (λ k. answer_patch-Grows w nodes e "authorized retrieval completed"))

  distilled_rule-Holds : Holds w nodes e (distilled_rule w nodes e)
  unfolding distilled_rule
  distilled_rule-Holds = answering-Holds _ "specialist synthesis completed"

  parents-Known : All (Known w nodes e) (frontier_parents w nodes)
  parents-Known =
      if_both (All (Known w nodes e)) (has_any (nodes_with (starts_with "search_") nodes))
        (ids_there nodes e (λ n. starts_with "search_" n.id))
        (ids_there nodes e (λ n. starts_with "fetch_" n.id))

  frontier_rule-Holds : Holds w nodes e (frontier_rule w nodes e)
  unfolding frontier_rule
  frontier_rule-Holds =
      when-Holds w nodes e (is_about_any e is_work && all_over (nodes_with is_work nodes)) _ (λ h.
        if_cases (Grows nodes e)
          (contains w.mode (distilling_modes w) && not (has_node "distill" nodes))
          (λ k.
            distill-Grows w nodes e "distiller" (frontier_parents w nodes)
              "research evidence landed; specialist synthesis can begin" (ground (arith, k))
              parents-Known)
          (λ k. answer_patch-Grows w nodes e "the current research frontier has landed"))

  structured_rule-Holds : Holds w nodes e (structured_rule w nodes e)
  unfolding structured_rule
  structured_rule-Holds =
      if_both (Holds w nodes e) (is_mode w "structured_compare")
        (or_else-Holds w nodes e (when _ _) (when _ _)
          (when-Holds w nodes e (is_about e "distill") _ (λ h.
            one_other-Grows w nodes e
              (role_task "validate" "coder_validator" (query w) "structured_validator")
              (("distill", "validate") ∷ []) "validate compared structure before answering"
              ((ground (arith, h), refl), tt) refl refl refl))
          (answering-Holds (is_about e "validate") "structured compare fields validated"))
        (none-Holds w nodes e)

  failed_rule-Holds : Holds w nodes e (failed_rule w nodes e)
  unfolding failed_rule
  failed_rule-Holds = answering-Holds _ "work ended with a visible failure; explain it"

  answered_rule-Holds : Holds w nodes e (answered_rule w e)
  answered_rule-Holds =
      or_else-Holds w nodes e (when _ _) (when _ _)
        (when-Holds w nodes e (is_about e "answer" && has_kind e "task_succeeded") _
          (λ h. end_run-Grows w nodes e "grounded answer produced"))
        (when-Holds w nodes e (is_about e "answer" && has_kind e "task_failed") _
          (λ h. end_run-Grows w nodes e "answer worker failed; failure retained in journal"))

  -- The first frontier is whatever the request asks for.
  started :
      (id : String) (tasks : List TaskSpec)
      → has_kind e "run_started" ≡ true
      → is_repeated nodes e tasks id ≡ false
  started id tasks h = ground (arith, h)

  start_rule-Holds : Holds w nodes e (start_rule w e)
  start_rule-Holds = when-Holds w nodes e (has_kind e "run_started") _ (λ h. record {
    cancels = refl;
    waits = refl;
    resumes = refl;
    edges = tt;
    answer_once = started "answer" (first_tasks w) h;
    surface_once = started "surface" (first_tasks w) h;
    distill_once = started "distill" (first_tasks w) h;
    ends = refl;
  })

  rule_of-Holds : Holds w nodes e (rule_of w nodes e)
  rule_of-Holds = or_else-Holds w nodes e (start_rule w e) _ start_rule-Holds (
      or_else-Holds w nodes e (compose_answer_rule w nodes e) _
        (compose_answer_rule-Holds w nodes e)
        (or_else-Holds w nodes e (compose_research_rule w nodes e) _
          (compose_research_rule-Holds w nodes e)
          (or_else-Holds w nodes e (research_rule w nodes e) _ (research_rule-Holds w nodes e)
            later)))
    where
      last : Holds w nodes e (
          or_else (distilled_rule w nodes e) (
            or_else (frontier_rule w nodes e) (
              or_else
                (structured_rule w nodes e)
                (or_else (failed_rule w nodes e) (answered_rule w e)))))
      last = or_else-Holds w nodes e (distilled_rule w nodes e) _ distilled_rule-Holds (
          or_else-Holds w nodes e (frontier_rule w nodes e) _ frontier_rule-Holds (
            or_else-Holds w nodes e (structured_rule w nodes e) _ structured_rule-Holds (
              or_else-Holds w nodes e (failed_rule w nodes e) _ failed_rule-Holds
                answered_rule-Holds)))

      later : Holds w nodes e (
          or_else (index_file_rule w e) (
            or_else (birthday_rule w nodes e) (
              or_else (read_file_rule w nodes e) (
                or_else (directory_rule w nodes e) (
                  or_else (indexed_rule w nodes e) (
                    or_else (search_rule w nodes e) (
                      or_else (recall_rule w nodes e) (
                        or_else (distilled_rule w nodes e) (
                          or_else (frontier_rule w nodes e) (
                            or_else
                              (structured_rule w nodes e)
                              (or_else (failed_rule w nodes e) (answered_rule w e))))))))))))
      later = or_else-Holds w nodes e (index_file_rule w e) _ index_file_rule-Holds (
          or_else-Holds w nodes e (birthday_rule w nodes e) _ birthday_rule-Holds (
            or_else-Holds w nodes e (read_file_rule w nodes e) _ read_file_rule-Holds (
              or_else-Holds w nodes e (directory_rule w nodes e) _ directory_rule-Holds (
                or_else-Holds w nodes e (indexed_rule w nodes e) _ indexed_rule-Holds (
                  or_else-Holds w nodes e (search_rule w nodes e) _ search_rule-Holds
                    (or_else-Holds w nodes e (recall_rule w nodes e) _ recall_rule-Holds last))))))

  plan_event-Grows : Grows nodes e (plan_event w nodes e)
  unfolding plan_event Holds
  plan_event-Grows = of_rule (rule_of w nodes e) rule_of-Holds
    where
      of_rule :
          (o : Option GraphPatch)
          → Holds w nodes e o
          → Grows nodes e (elim o [ none ↦ empty_patch | some p ↦ p ])
      of_rule none h = empty-Grows w nodes e ""
      of_rule (some p) h = h

-- The node that the event is about, where it is about one, is in the graph.
abbrev pub has_subject : List NodeRow → Event → Bool
has_subject nodes e = elim e.node_id [ none ↦ true | some id ↦ has_node id nodes ]

-- A patch that only adds, or only finishes, with edges from nodes of the graph to added tasks.
pub record IsGrowth (nodes : List NodeRow) (e : Event) (p : GraphPatch) : Type 0 where
  pub cancels : p.cancel ≡ []
  pub waits : p.wait ≡ []
  pub resumes : p.resume ≡ []
  pub edges : All (λ d. (has_node d.0 nodes ≡ true) × (adds d.1 p.add ≡ true)) p.connect
  pub answer_once : is_repeated nodes e p.add "answer" ≡ false
  pub surface_once : is_repeated nodes e p.add "surface" ≡ false
  pub distill_once : is_repeated nodes e p.add "distill" ≡ false
  pub ends : (p.finish && any (λ t. true) p.add) ≡ false

may_lead-there :
    (nodes : List NodeRow) (o : Option String) (id : String)
    → elim o [ none ↦ true | some n ↦ has_node n nodes ] ≡ true
    → (elim o [ none ↦ false | some n ↦ n == id ] || has_node id nodes) ≡ true
    → has_node id nodes ≡ true
may_lead-there nodes none id here h = h
may_lead-there nodes (some n) id here h = elim (Bool-cases (n == id)) [
  | inl own ↦ subst (λ m. has_node m nodes ≡ true) (eq→path n id own) here
  | inr other ↦ ground (arith, h, other)
]

-- Whatever the request, for a snapshot that has the node that the event is about, where it is
-- about one, the deterministic planner's patch cancels, parks and resumes nothing, its edges go
-- from nodes of the snapshot to tasks that it adds, it adds no task where it finishes the run,
-- and no `answer`, `surface` or `distill` to a graph that has one, unless the event is the start
-- of the run.
pub plan_event-IsGrowth :
    (w : WorkIntent) (nodes : List NodeRow) (e : Event)
    → has_subject nodes e ≡ true
    → IsGrowth nodes e (plan_event w nodes e)
plan_event-IsGrowth w nodes e here =
    let p = plan_event w nodes e in
    let g = plan_event-Grows w nodes e in
    record {
      cancels = g.cancels;
      waits = g.waits;
      resumes = g.resumes;
      edges =
          All-map (λ d. (may_lead nodes e d.0 ≡ true) × (adds d.1 p.add ≡ true))
            (λ d. (has_node d.0 nodes ≡ true) × (adds d.1 p.add ≡ true)) p.connect
            (λ d k. (may_lead-there nodes e.node_id d.0 here k.0, k.1)) g.edges;
      answer_once = g.answer_once;
      surface_once = g.surface_once;
      distill_once = g.distill_once;
      ends = g.ends;
    }
