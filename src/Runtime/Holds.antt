-- ===== src/Runtime/Holds.antt =====
-- The rules of the planner of s13code/runtime.py for composed surfaces and research, against the graph.
use s14code.Prelude.{
  String, ◌≡◌, refl, Bool, true, false, not, ◌&&◌, Option, none, some, List, [], ◌∷◌, ◌++◌, ◌==◌,
  arith, All, All-append, concat, if◌then◌else◌, if_both, if_cases, concat_other,
}
use s14code.Graph.Model.{TaskSpec, GraphPatch, NodeRow, Event, is_succeeded}
use s14code.Runtime.Nodes.{
  is_about, has_kind, has_outcome, has_node, node_ids, is_research_node, is_superseded,
  research_leaves, answer_parents,
}
use s14code.Runtime.Rules.{
  WorkIntent, or_else, when, grow, end_run, edges_to, is_mode, query, plain_task, role_task,
  answer_patch, surface_end, surface_task, compose_answer_rule, compose_research_rule, retry_patch,
  subject_at, retry_rule, distill_patch, research_rule,
}
use s14code.Runtime.Tasks.{may_lead, HasGoodEdges, Grows, ids_there, edges_to-HasGoodEdges, IsOther}

module _ (w : WorkIntent) (nodes : List NodeRow) (e : Event) where
  -- A rule that is passed over, or gives a patch that grows the graph.
  unfoldable pub Holds : Option GraphPatch → Type 0
  Holds none = Unit
  Holds (some p) = Grows nodes e p

  abbrev pub Known : String → Type 0
  Known id = may_lead nodes e id ≡ true

  pub or_else-Holds : (p q : Option GraphPatch) → Holds p → Holds q → Holds (or_else p q)
  unfolding Holds
  or_else-Holds none q h k = k
  or_else-Holds (some p) q h k = h

  pub when-Holds : (b : Bool) (p : GraphPatch) → (b ≡ true → Grows nodes e p) → Holds (when b p)
  unfolding Holds
  when-Holds true p h = h refl
  when-Holds false p h = tt

  pub empty-Grows : (reason : String) → Grows nodes e (grow [] [] reason)
  empty-Grows reason = record {
    cancels = refl;
    waits = refl;
    resumes = refl;
    edges = tt;
    answer_once = refl;
    surface_once = refl;
    distill_once = refl;
    ends = refl;
  }

  pub end_run-Grows : (reason : String) → Grows nodes e (end_run reason)
  end_run-Grows reason = record {
    cancels = refl;
    waits = refl;
    resumes = refl;
    edges = tt;
    answer_once = refl;
    surface_once = refl;
    distill_once = refl;
    ends = refl;
  }

  pub other-Grows :
      (tasks : List TaskSpec) (edges : List (String × String)) (reason : String)
      → HasGoodEdges nodes e tasks edges
      → IsOther tasks
      → Grows nodes e (grow tasks edges reason)
  other-Grows tasks edges reason h o = record {
    cancels = refl;
    waits = refl;
    resumes = refl;
    edges = h;
    answer_once = rw o.no_answer refl;
    surface_once = rw o.no_surface refl;
    distill_once = rw o.no_distill refl;
    ends = refl;
  }

  -- One task that is none of the three.
  pub one_other-Grows :
      (t : TaskSpec) (edges : List (String × String)) (reason : String)
      → HasGoodEdges nodes e (t ∷ []) edges
      → (t.id == "answer") ≡ false
      → (t.id == "surface") ≡ false
      → (t.id == "distill") ≡ false
      → Grows nodes e (grow (t ∷ []) edges reason)
  one_other-Grows t edges reason h a s d =
      other-Grows (t ∷ []) edges reason h
        (record { no_answer = rw a refl; no_surface = rw s refl; no_distill = rw d refl })

  pub answer_patch-Grows : (reason : String) → Grows nodes e (answer_patch w nodes reason)
  unfolding answer_patch answer_parents
  answer_patch-Grows reason =
      if_cases (Grows nodes e) (has_node "answer" nodes) (λ old. empty-Grows "")
        (λ new. record {
          cancels = refl;
          waits = refl;
          resumes = refl;
          edges =
              edges_to-HasGoodEdges nodes e
                (plain_task "answer" "answer_with_evidence" (query w) ∷ []) "answer"
                (answer_parents nodes) refl
                (ids_there nodes e (λ n. not (n.id == "answer") && is_succeeded n.state));
          answer_once = rw new refl;
          surface_once = refl;
          distill_once = refl;
          ends = refl;
        })

  surface-Grows :
      (parents : List String) (reason : String)
      → has_node "surface" nodes ≡ false
      → All Known parents
      → Grows nodes e (grow (surface_task w ∷ []) (edges_to "surface" parents) reason)
  surface-Grows parents reason new h = record {
    cancels = refl;
    waits = refl;
    resumes = refl;
    edges = edges_to-HasGoodEdges nodes e (surface_task w ∷ []) "surface" parents refl h;
    answer_once = refl;
    surface_once = rw new refl;
    distill_once = refl;
    ends = refl;
  }

  pub distill-Grows :
      (agent : String) (parents : List String) (reason : String)
      → has_node "distill" nodes ≡ false
      → All Known parents
      → Grows nodes e (
          grow
            (role_task "distill" "distiller" (query w) agent ∷ [])
            (edges_to "distill" parents)
            reason)
  distill-Grows agent parents reason new h = record {
    cancels = refl;
    waits = refl;
    resumes = refl;
    edges =
        edges_to-HasGoodEdges nodes e (role_task "distill" "distiller" (query w) agent ∷ [])
          "distill" parents refl h;
    answer_once = refl;
    surface_once = refl;
    distill_once = rw new refl;
    ends = refl;
  }

  pub none-Holds : Holds none
  unfolding Holds
  none-Holds = tt

  pub some-Holds : (p : GraphPatch) → Grows nodes e p → Holds (some p)
  unfolding Holds
  some-Holds p h = h

  leaves-Known : All Known (node_ids (research_leaves nodes))
  unfolding research_leaves
  leaves-Known = ids_there nodes e (λ n. is_research_node n.id && not (is_superseded nodes n.id))

  -- The node of the event is there.
  about-Known : (id : String) (b : Bool) → (is_about e id && b) ≡ true → Known id
  about-Known id b h = ground (arith, h)

  surface_end-Holds : Holds (surface_end w e)
  surface_end-Holds =
      when-Holds (is_about e "surface" && has_outcome e) (end_run _) (λ h. end_run-Grows _)

  pub compose_answer_rule-Holds : Holds (compose_answer_rule w nodes e)
  unfolding compose_answer_rule
  compose_answer_rule-Holds =
      if_both Holds (is_mode w "compose_answer")
        (or_else-Holds (surface_end w e) _ surface_end-Holds (
          or_else-Holds (when _ _) (when _ _)
            (when-Holds
              (is_about e "content"
                && has_kind e "task_succeeded"
                && not (has_node "surface" nodes))
              _
              (λ h.
                surface-Grows ("content" ∷ [])
                  "content produced; compose a validated A2UI surface from the real outcome"
                  (ground (arith, h)) (ground (arith, h), tt)))
            (when-Holds (is_about e "content" && has_kind e "task_failed") _
              (λ h. end_run-Grows "content worker failed; failure retained in journal"))))
        none-Holds

  pub compose_research_rule-Holds : Holds (compose_research_rule w nodes e)
  unfolding compose_research_rule research_leaves
  compose_research_rule-Holds =
      if_both Holds (is_mode w "compose_research")
        (or_else-Holds (surface_end w e) _ surface_end-Holds (
          when-Holds
            (is_about e "distill" && has_kind e "task_succeeded" && not (has_node "surface" nodes))
            _
            (λ h.
              surface-Grows (node_ids (research_leaves nodes) ++ "distill" ∷ [])
                "research distilled; compose a validated A2UI surface from the real outcomes"
                (ground (arith, h))
                (All-append Known (node_ids (research_leaves nodes)) ("distill" ∷ []) leaves-Known
                  (ground (arith, h), tt)))))
        none-Holds

  retry_rule-Holds : (id : String) → Holds (retry_rule w nodes e id)
  unfolding retry_rule
  retry_rule-Holds id =
      let subject = subject_at w nodes id in
      let rest = concat (w.slug subject) "_retry" in
      when-Holds _ (retry_patch w id subject) (λ h.
        one_other-Grows _ [] _ tt (concat_other "research_" rest "answer" refl)
          (concat_other "research_" rest "surface" refl)
          (concat_other "research_" rest "distill" refl))

  distill_patch-Grows : Grows nodes e (distill_patch w nodes)
  unfolding distill_patch
  distill_patch-Grows =
      if_cases (Grows nodes e) (has_node "distill" nodes)
        (λ old. empty-Grows "research outcome already accounted for; awaiting distill")
        (λ new.
          if_both (Grows nodes e) _
            (distill-Grows "distiller" (node_ids (research_leaves nodes))
              "all corrected research evidence landed; synthesis can begin" new leaves-Known)
            (empty-Grows "holding distill until the corrected research evidence lands"))

  pub research_rule-Holds : Holds (research_rule w nodes e)
  unfolding research_rule
  research_rule-Holds = of_node e.node_id
    where
      of_node :
          (o : Option String)
          → Holds (elim o [
            | none ↦ none
            | some id ↦
                if is_mode w "compose_research" && is_research_node id && has_outcome e
                then or_else (retry_rule w nodes e id) (some (distill_patch w nodes))
                else none
          ])
      of_node none = none-Holds
      of_node (some id) =
          if_both Holds (is_mode w "compose_research" && is_research_node id && has_outcome e)
            (or_else-Holds (retry_rule w nodes e id) _ (retry_rule-Holds id)
              (some-Holds (distill_patch w nodes) distill_patch-Grows))
            none-Holds
