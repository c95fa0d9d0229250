-- ===== src/Runtime/Tasks.antt =====
-- The tasks and edges of a patch of the planner of s13code/runtime.py, against the graph.
use s14code.Prelude.{
  ℕ, zero, suc, ◌+◌, String, ◌≡◌, refl, Bool, true, false, not, ◌&&◌, ◌||◌, Option, none, some,
  List, [], ◌∷◌, ◌==◌, arith, All, All-map, All-select_of, any, concat, select, show, if◌then◌else◌,
  if_both, eq_refl, concat_other,
}
use s14code.Json.{null, Items, nil, cons, Dict, empty, entry, get_or, as_dict, truthy}
use s14code.Graph.Model.{TaskSpec, GraphPatch, NodeRow, Event}
use s14code.Runtime.Nodes.{is_about, has_kind, has_node, node_ids}
use s14code.Runtime.Rules.{edges_to, edges_from, index_tasks, fetch_tasks, plain_task}

abbrev pub adds : String → List TaskSpec → Bool
adds id tasks = any (λ t. t.id == id) tasks

-- A node of the graph, or the one that the event is about, be it in the graph or not.
abbrev pub may_lead : List NodeRow → Event → String → Bool
may_lead nodes e id = is_about e id || has_node id nodes

-- Every edge goes from one of these to a task that the patch adds.
abbrev pub HasGoodEdges : List NodeRow → Event → List TaskSpec → List (String × String) → Type 0
HasGoodEdges nodes e tasks edges =
    All (λ d. (may_lead nodes e d.0 ≡ true) × (adds d.1 tasks ≡ true)) edges

-- The task is not added to a graph that has it, but by the first frontier.
abbrev pub is_repeated : List NodeRow → Event → List TaskSpec → String → Bool
is_repeated nodes e tasks id =
    adds id tasks && (has_node id nodes && not (has_kind e "run_started"))

-- A patch that only adds, or only finishes, but for an event about a node that is missing.
pub record Grows (nodes : List NodeRow) (e : Event) (p : GraphPatch) : Type 0 where
  pub cancels : p.cancel ≡ []
  pub waits : p.wait ≡ []
  pub resumes : p.resume ≡ []
  pub edges : HasGoodEdges nodes e p.add p.connect
  pub answer_once : is_repeated nodes e p.add "answer" ≡ false
  pub surface_once : is_repeated nodes e p.add "surface" ≡ false
  pub distill_once : is_repeated nodes e p.add "distill" ≡ false
  pub ends : (p.finish && any (λ t. true) p.add) ≡ false

pub rows_there : (nodes : List NodeRow) → All (λ n. has_node n.id nodes ≡ true) nodes
unfolding has_node
rows_there [] = tt
rows_there (n ∷ ns) = (
  rw (eq_refl n.id) refl,
  All-map (λ x. has_node x.id ns ≡ true) (λ x. has_node x.id (n ∷ ns) ≡ true) ns
      (λ x h. ground (arith, h)) (rows_there ns),
)

pub ids_there :
    (nodes : List NodeRow) (e : Event) (p : NodeRow → Bool)
    → All (λ id. may_lead nodes e id ≡ true) (node_ids (select p nodes))
ids_there nodes e p = of_nodes (select p nodes) (
    All-select_of (λ n. has_node n.id nodes ≡ true) (λ n. may_lead nodes e n.id ≡ true) p nodes
      (λ n h k. ground (arith, h)) (rows_there nodes))
  where
    of_nodes :
        (ns : List NodeRow)
        → All (λ n. may_lead nodes e n.id ≡ true) ns
        → All (λ id. may_lead nodes e id ≡ true) (node_ids ns)
    of_nodes [] h = tt
    of_nodes (n ∷ ns) h = (h.0, of_nodes ns h.1)

pub edges_to-HasGoodEdges :
    (nodes : List NodeRow) (e : Event) (tasks : List TaskSpec) (child : String)
    (parents : List String)
    → adds child tasks ≡ true
    → All (λ id. may_lead nodes e id ≡ true) parents
    → HasGoodEdges nodes e tasks (edges_to child parents)
edges_to-HasGoodEdges nodes e tasks child [] a h = tt
edges_to-HasGoodEdges nodes e tasks child (p ∷ parents) a h =
    ((h.0, a), edges_to-HasGoodEdges nodes e tasks child parents a h.1)

pub edges_from-HasGoodEdges :
    (nodes : List NodeRow) (e : Event) (parent : String) (tasks : List TaskSpec)
    → may_lead nodes e parent ≡ true
    → HasGoodEdges nodes e tasks (edges_from parent tasks)
edges_from-HasGoodEdges nodes e parent [] h = tt
edges_from-HasGoodEdges nodes e parent (t ∷ tasks) h = (
  (h, rw (eq_refl t.id) refl),
  All-map (λ d. (may_lead nodes e d.0 ≡ true) × (adds d.1 tasks ≡ true))
      (λ d. (may_lead nodes e d.0 ≡ true) × (adds d.1 (t ∷ tasks) ≡ true)) (edges_from parent tasks)
      (λ d k. (k.0, ground (arith, k.1))) (edges_from-HasGoodEdges nodes e parent tasks h),
)

-- The tasks with a prefix are none of the three that are added once.
pub record IsOther (tasks : List TaskSpec) : Type 0 where
  pub no_answer : adds "answer" tasks ≡ false
  pub no_surface : adds "surface" tasks ≡ false
  pub no_distill : adds "distill" tasks ≡ false

IsOther-cons :
    (t : TaskSpec) (tasks : List TaskSpec)
    → (t.id == "answer") ≡ false
    → (t.id == "surface") ≡ false
    → (t.id == "distill") ≡ false
    → IsOther tasks
    → IsOther (t ∷ tasks)
IsOther-cons t tasks a s d o = record {
  no_answer = rw a o.no_answer;
  no_surface = rw s o.no_surface;
  no_distill = rw d o.no_distill;
}

pub index_tasks-IsOther : (i : ℕ) (paths : Items) → IsOther (index_tasks i paths)
unfolding index_tasks
index_tasks-IsOther i nil = record { no_answer = refl; no_surface = refl; no_distill = refl }
index_tasks-IsOther i (cons path paths) =
    let n = show (i + 1) in
    IsOther-cons (plain_task (concat "index_" n) "index_file" (entry "path" path empty))
      (index_tasks (i + 1) paths) (concat_other "index_" n "answer" refl)
      (concat_other "index_" n "surface" refl) (concat_other "index_" n "distill" refl)
      (index_tasks-IsOther (i + 1) paths)

pub fetch_tasks-IsOther : (limit i : ℕ) (hits : Items) → IsOther (fetch_tasks limit i hits)
unfolding fetch_tasks
fetch_tasks-IsOther zero i hits = record { no_answer = refl; no_surface = refl; no_distill = refl }
fetch_tasks-IsOther (suc limit) i nil = record {
  no_answer = refl;
  no_surface = refl;
  no_distill = refl;
}
fetch_tasks-IsOther (suc limit) i (cons hit hits) =
    of_hit (as_dict hit) (fetch_tasks-IsOther limit (i + 1) hits)
  where
    of_hit :
        (o : Option Dict)
        → IsOther (fetch_tasks limit (i + 1) hits)
        → IsOther (elim o [
          | none ↦ fetch_tasks limit (i + 1) hits
          | some d ↦
              if truthy (get_or d "url" null)
              then plain_task
                  (concat "fetch_" (show (i + 1)))
                  "fetch_url"
                  (entry "url" (get_or d "url" null) empty)
                ∷ fetch_tasks limit (i + 1) hits
              else fetch_tasks limit (i + 1) hits
        ])
    of_hit none rest = rest
    of_hit (some d) rest =
        let n = show (i + 1) in
        if_both IsOther (truthy (get_or d "url" null))
          (IsOther-cons
            (plain_task (concat "fetch_" n) "fetch_url" (entry "url" (get_or d "url" null) empty))
            (fetch_tasks limit (i + 1) hits) (concat_other "fetch_" n "answer" refl)
            (concat_other "fetch_" n "surface" refl) (concat_other "fetch_" n "distill" refl) rest)
          rest
