-- ===== src/Runtime/Rules.antt =====
-- `DeterministicPlanner` of s13code/runtime.py: its rules in their order, each with the patch that it
-- returns, or none where it is passed over.
use s14code.Prelude.{
  ℕ, zero, suc, ◌+◌, String, Bool, true, false, not, ◌&&◌, Option, none, some, List, [], ◌∷◌, ◌++◌,
  ◌==◌, all, concat, first, map, show, if◌then◌else◌,
}
use s14code.Json.{
  null, bool, int, pos, str, Items, nil, cons, Dict, empty, entry, get, get_or, as_dict, truthy,
}
use s14code.Graph.Model.{TaskSpec, GraphPatch, empty_patch, NodeRow, Event}
use s14code.Runtime.Nodes.{
  ends_with, is_about, has_kind, has_outcome, has_node, node_ids, is_over, is_research_node,
  research_leaves, weak_evidence, subject_of, answer_parents,
}

-- What `run` derives from the request: the mode and the first tasks of `_work_intent`, whether it
-- asks to remember, and `_slug`.
pub record WorkIntent : Type 0 where
  pub prompt : String
  pub mode : String
  pub initial_frontier : List TaskSpec
  pub explicit_memory : Bool
  pub slug : String → String

abbrev pub or_else : Option GraphPatch → Option GraphPatch → Option GraphPatch
or_else none q = q
or_else (some p) q = some p

abbrev pub when : Bool → GraphPatch → Option GraphPatch
when b p = if b then some p else none

abbrev pub text_entry : String → String → Dict
text_entry k v = entry k (str v) empty

abbrev pub plain_task : String → String → Dict → TaskSpec
plain_task id skill input = record { id = id; skill = skill; input = input; metadata = empty }

abbrev pub role_task : String → String → Dict → String → TaskSpec
role_task id skill input agent = record {
  id = id;
  skill = skill;
  input = input;
  metadata = text_entry "agent" agent;
}

abbrev pub grow : List TaskSpec → List (String × String) → String → GraphPatch
grow tasks edges reason = record empty_patch { add = tasks; connect = edges; reason = reason }

abbrev pub end_run : String → GraphPatch
end_run reason = record empty_patch { finish = true; reason = reason }

-- `tuple((parent, child) for parent in parents)`
abbrev pub edges_to : String → List String → List (String × String)
edges_to child parents = map (λ parent. (parent, child)) parents

abbrev pub edges_from : String → List TaskSpec → List (String × String)
edges_from parent tasks = map (λ (t : TaskSpec). (parent, t.id)) tasks

-- `index_{i + 1}` for each path, from a number on.
unfoldable pub index_tasks : ℕ → Items → List TaskSpec
index_tasks i nil = []
index_tasks i (cons path paths) =
    plain_task (concat "index_" (show (i + 1))) "index_file" (entry "path" path empty)
    ∷ index_tasks (i + 1) paths

-- `fetch_{i + 1}` for each of the first hits that has a url.
unfoldable pub fetch_tasks : ℕ → ℕ → Items → List TaskSpec
unfolding get
fetch_tasks zero i hits = []
fetch_tasks (suc limit) i nil = []
fetch_tasks (suc limit) i (cons hit hits) =
    let rest = fetch_tasks limit (i + 1) hits in
    elim (as_dict hit) [
      | none ↦ rest
      | some d ↦
          if truthy (get_or d "url" null)
          then plain_task (concat "fetch_" (show (i + 1))) "fetch_url"
              (entry "url" (get_or d "url" null) empty)
            ∷ rest
          else rest
    ]

abbrev pub has_any : List NodeRow → Bool
has_any [] = false
has_any (n ∷ ns) = true

module _ (w : WorkIntent) where
  abbrev pub is_mode : String → Bool
  is_mode m = w.mode == m

  abbrev pub query : Dict
  query = text_entry "query" w.prompt

  -- `answer_patch`
  unfoldable pub answer_patch : List NodeRow → String → GraphPatch
  unfolding has_node answer_parents
  answer_patch nodes reason =
      if has_node "answer" nodes
      then empty_patch
      else grow (plain_task "answer" "answer_with_evidence" query ∷ [])
          (edges_to "answer" (answer_parents nodes)) reason

  abbrev pub first_tasks : List TaskSpec
  first_tasks =
      if w.explicit_memory
      then w.initial_frontier
        ++ plain_task "remember" "remember_explicit_fact" (text_entry "text" w.prompt) ∷ []
      else w.initial_frontier

  abbrev pub start_rule : Event → Option GraphPatch
  start_rule e =
      when (has_kind e "run_started")
        (grow first_tasks [] (concat "first frontier selected for " w.mode))

  abbrev pub surface_end : Event → Option GraphPatch
  surface_end e = when (is_about e "surface" && has_outcome e) (
      end_run (
        if has_kind e "task_succeeded"
        then "Gemini composed a surface the S14 validator accepted"
        else "surface composition failed; failure retained in journal"))

  abbrev pub surface_task : TaskSpec
  surface_task = role_task "surface" "compose_surface" query "ui_composer"

  unfoldable pub compose_answer_rule : List NodeRow → Event → Option GraphPatch
  unfolding has_node
  compose_answer_rule nodes e =
      if is_mode "compose_answer"
      then or_else (surface_end e) (
          or_else
            (when
              (is_about e "content"
                && has_kind e "task_succeeded"
                && not (has_node "surface" nodes))
              (grow (surface_task ∷ []) (("content", "surface") ∷ [])
                "content produced; compose a validated A2UI surface from the real outcome"))
            (when (is_about e "content" && has_kind e "task_failed")
              (end_run "content worker failed; failure retained in journal")))
      else none

  unfoldable pub compose_research_rule : List NodeRow → Event → Option GraphPatch
  unfolding has_node research_leaves
  compose_research_rule nodes e =
      if is_mode "compose_research"
      then or_else (surface_end e) (
          when
            (is_about e "distill" && has_kind e "task_succeeded" && not (has_node "surface" nodes))
            (grow (surface_task ∷ [])
              (edges_to "surface" (node_ids (research_leaves nodes) ++ "distill" ∷ []))
              "research distilled; compose a validated A2UI surface from the real outcomes"))
      else none

  abbrev pub retry_id : String → String
  retry_id subject = concat "research_" (concat (w.slug subject) "_retry")

  abbrev pub retry_patch : String → String → GraphPatch
  retry_patch id subject =
      grow
        (record {
          id = retry_id subject;
          skill = "researcher";
          input =
              entry "query"
                (str (
                  concat "detailed factual overview of "
                    (concat subject " — key figures and sources")))
                (entry "max_results" (int (pos 3))
                  (entry "subject" (str subject) (text_entry "corrective_for" id)));
          metadata = entry "agent" (str "researcher") (entry "corrective" (bool true) empty);
        }
          ∷ [])
        []
        (concat "weak evidence for " (
          concat subject
            "; an outcome must earn the next node — adding corrective re-research before distill"))

  abbrev pub subject_at : List NodeRow → String → String
  subject_at nodes id = elim (first (λ n. n.id == id) nodes) [
    | none ↦ id
    | some n ↦ subject_of n id
  ]

  abbrev pub result_at : List NodeRow → String → Option Dict
  result_at nodes id = elim (first (λ n. n.id == id) nodes) [ none ↦ none | some n ↦ n.result ]

  -- The corrective research for a subject with weak evidence, once.
  unfoldable pub retry_rule : List NodeRow → Event → String → Option GraphPatch
  unfolding get has_node weak_evidence
  retry_rule nodes e id =
      when
        (has_kind e "task_succeeded"
          && not (ends_with "_retry" id)
          && (weak_evidence (result_at nodes id)
              && not (has_node (retry_id (subject_at nodes id)) nodes)))
        (retry_patch id (subject_at nodes id))

  -- After a research outcome that needs no correction.
  unfoldable pub distill_patch : List NodeRow → GraphPatch
  unfolding has_node research_leaves
  distill_patch nodes =
      if has_node "distill" nodes
      then grow [] [] "research outcome already accounted for; awaiting distill"
      else if has_any (research_leaves nodes) && all is_over (research_leaves nodes)
      then grow (role_task "distill" "distiller" query "distiller" ∷ [])
          (edges_to "distill" (node_ids (research_leaves nodes)))
          "all corrected research evidence landed; synthesis can begin"
      else grow [] [] "holding distill until the corrected research evidence lands"

  unfoldable pub research_rule : List NodeRow → Event → Option GraphPatch
  unfolding is_research_node retry_rule distill_patch
  research_rule nodes e = elim e.node_id [
    | none ↦ none
    | some id ↦
        if is_mode "compose_research" && is_research_node id && has_outcome e
        then or_else (retry_rule nodes e id) (some (distill_patch nodes))
        else none
  ]
