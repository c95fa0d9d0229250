-- ===== src/Runtime/Ending.antt =====
-- The end of the answer under the planner of s13code/runtime.py.
use s14code.Prelude.{
  ◌≡◌, refl, ap, true, false, none, some, List, arith, ◌==◌, eq_iff, Bool-cases, inl, inr,
}
use s14code.Graph.Model.{NodeRow, Event}
use s14code.Runtime.Nodes.{has_outcome, has_kind, is_research_node, research_leaves}
use s14code.Runtime.Rules.{
  WorkIntent, start_rule, compose_answer_rule, compose_research_rule, research_rule,
}
use s14code.Runtime.Work.{
  index_file_rule, birthday_rule, read_file_rule, directory_rule, indexed_rule, search_rule,
  recall_rule, distilled_rule, frontier_rule, structured_rule, failed_rule, answered_rule, rule_of,
  plan_event,
}

module _ (w : WorkIntent) (nodes : List NodeRow) (e : Event)
    (about : e.node_id ≡ some "answer") where
  passed_compose_answer_rule : compose_answer_rule w nodes e ≡ none
  unfolding compose_answer_rule
  passed_compose_answer_rule = rw (compose_answer_rule, about) (ground arith)

  passed_compose_research_rule : compose_research_rule w nodes e ≡ none
  unfolding compose_research_rule research_leaves
  passed_compose_research_rule = rw (compose_research_rule, about) (ground arith)

  passed_research_rule : research_rule w nodes e ≡ none
  unfolding research_rule is_research_node
  passed_research_rule = rw (research_rule, about) (ground arith)

  passed_index_file_rule : index_file_rule w e ≡ none
  unfolding index_file_rule
  passed_index_file_rule = rw (index_file_rule, about) (ground arith)

  passed_birthday_rule : birthday_rule w nodes e ≡ none
  unfolding birthday_rule
  passed_birthday_rule = rw (birthday_rule, about) (ground arith)

  passed_read_file_rule : read_file_rule w nodes e ≡ none
  unfolding read_file_rule
  passed_read_file_rule = rw (read_file_rule, about) (ground arith)

  passed_directory_rule : directory_rule w nodes e ≡ none
  unfolding directory_rule
  passed_directory_rule = rw (directory_rule, about) (ground arith)

  passed_indexed_rule : indexed_rule w nodes e ≡ none
  unfolding indexed_rule
  passed_indexed_rule = rw (indexed_rule, about) (ground arith)

  passed_search_rule : search_rule w nodes e ≡ none
  unfolding search_rule
  passed_search_rule = rw (search_rule, about) (ground arith)

  passed_recall_rule : recall_rule w nodes e ≡ none
  unfolding recall_rule
  passed_recall_rule = rw (recall_rule, about) (ground arith)

  passed_distilled_rule : distilled_rule w nodes e ≡ none
  unfolding distilled_rule
  passed_distilled_rule = rw (distilled_rule, about) (ground arith)

  passed_frontier_rule : frontier_rule w nodes e ≡ none
  unfolding frontier_rule
  passed_frontier_rule = rw (frontier_rule, about) (ground arith)

  passed_structured_rule : structured_rule w nodes e ≡ none
  unfolding structured_rule
  passed_structured_rule = rw (structured_rule, about) (ground arith)

  passed_failed_rule : failed_rule w nodes e ≡ none
  unfolding failed_rule
  passed_failed_rule = rw (failed_rule, about) (ground arith)

  module _ (outcome : has_outcome e ≡ true) where
    not_started : has_kind e "run_started" ≡ false
    not_started = elim (Bool-cases (e.kind == "task_succeeded")) [
      | inl ok ↦ ap (λ k. k == "run_started") ((eq_iff e.kind "task_succeeded").0 ok)
      | inr no' ↦
          ap (λ k. k == "run_started")
            ((eq_iff e.kind "task_failed").0 (ground (arith, outcome, no')))
    ]

    passed_start_rule : start_rule w e ≡ none
    passed_start_rule = rw (start_rule, not_started) refl

    rule_of-answered_rule : rule_of w nodes e ≡ answered_rule w e
    rule_of-answered_rule =
        rw
          (
            rule_of, passed_start_rule, passed_compose_answer_rule, passed_compose_research_rule,
            passed_research_rule, passed_index_file_rule, passed_birthday_rule,
            passed_read_file_rule, passed_directory_rule, passed_indexed_rule, passed_search_rule,
            passed_recall_rule, passed_distilled_rule, passed_frontier_rule, passed_structured_rule,
            passed_failed_rule,
          )
          refl

    -- For the event that the node `answer` has succeeded or failed, the deterministic planner's
    -- patch finishes the run, whatever the mode and the other nodes are.
    pub plan_event-finish : (plan_event w nodes e).finish ≡ true
    unfolding plan_event
    plan_event-finish = rw (plan_event, rule_of-answered_rule, about) (ground (arith, outcome))
