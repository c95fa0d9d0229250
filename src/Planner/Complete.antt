-- ===== src/Planner/Complete.antt =====
-- s13code/planner.py: the JSON of a proposal, as `_prompt` asks for it.
use s14code.Prelude.{
  ◌≡◌, String, refl, ap, true, some, List, [], ◌∷◌, All, arith, ◌==◌, Bool-cases, inl, inr,
}
use s14code.Json.{Json, bool, str, arr, obj, Items, nil, cons, Dict, empty, entry, get, set}
use s14code.Graph.Model.{TaskSpec, GraphPatch}
use s14code.Planner.{is_id, parse_task, parse_tasks, parse_ids, parse_edges, parse_patch}
use s14code.Planner.Sound.{IsTask, AllIds, IsProposal}

-- The JSON that the prompt asks for.
abbrev pub id_items : List String → Items
id_items [] = nil
id_items (id ∷ ids) = cons (str id) (id_items ids)

abbrev pub edge_items : List (String × String) → Items
edge_items [] = nil
edge_items (e ∷ es) = cons (arr (cons (str e.0) (cons (str e.1) nil))) (edge_items es)

abbrev pub task_json : TaskSpec → Json
task_json t = obj (
    entry "id" (str t.id) (
      entry "role" (str t.skill)
        (entry "input" (obj t.input) (entry "metadata" (obj t.metadata) empty))))

abbrev pub task_items : List TaskSpec → Items
task_items [] = nil
task_items (t ∷ ts) = cons (task_json t) (task_items ts)

abbrev pub proposal_json : GraphPatch → Json
proposal_json p = obj (
    entry "add" (arr (task_items p.add)) (
      entry "connect" (arr (edge_items p.connect)) (
        entry "cancel" (arr (id_items p.cancel)) (
          entry "wait" (arr (id_items p.wait)) (
            entry "resume" (arr (id_items p.resume))
              (entry "finish" (bool p.finish) (entry "reason" (str p.reason) empty)))))))

-- A write of the value that is there changes nothing.
set_same : (d : Dict) (k : String) (v : Json) → get d k ≡ some v → set d k v ≡ d
unfolding get set
set_same empty k v h = cc
set_same (entry j w d) k v h = elim (Bool-cases (j == k)) [
  | inl here ↦ rw here (ap (λ u. entry j u d) (ground (arith)))
  | inr there ↦ rw there (ap (λ e. entry j w e) (set_same d k v (rw there at h)))
]

parse_ids-id_items : (ids : List String) → AllIds ids → parse_ids (id_items ids) ≡ some ids
unfolding parse_ids
parse_ids-id_items [] h = refl
parse_ids-id_items (id ∷ ids) h = rw (h.0, parse_ids-id_items ids h.1) refl

parse_edges-edge_items :
    (es : List (String × String))
    → All (λ e. (is_id e.0 ≡ true) × (is_id e.1 ≡ true)) es
    → parse_edges (edge_items es) ≡ some es
unfolding parse_edges
parse_edges-edge_items [] h = refl
parse_edges-edge_items (e ∷ es) h = rw (h.0.0, h.0.1, parse_edges-edge_items es h.1) refl

parse_task-task_json :
    (roles : List String) (t : TaskSpec) → IsTask roles t → parse_task roles (task_json t) ≡ some t
unfolding parse_task
parse_task-task_json roles t h =
    rw (h.named, h.has_role, set_same t.metadata "agent" (str t.skill) h.agent) refl

parse_tasks-task_items :
    (roles : List String) (ts : List TaskSpec)
    → All (IsTask roles) ts
    → parse_tasks roles (task_items ts) ≡ some ts
unfolding parse_tasks
parse_tasks-task_items roles [] h = refl
parse_tasks-task_items roles (t ∷ ts) h =
    rw (parse_task-task_json roles t h.0, parse_tasks-task_items roles ts h.1) refl

-- `_parse` reads the JSON of every patch with safe ids, roles of the planner, and metadata that
-- name the role as agent, and gives that patch back.
pub parse_patch-proposal_json :
    (roles : List String) (patch : GraphPatch)
    → IsProposal roles patch
    → parse_patch roles (proposal_json patch) ≡ some patch
unfolding parse_patch
parse_patch-proposal_json roles patch h =
    rw
      (
        parse_tasks-task_items roles patch.add h.tasks,
        parse_edges-edge_items patch.connect h.edges,
        parse_ids-id_items patch.cancel h.cancels,
        parse_ids-id_items patch.wait h.waits,
        parse_ids-id_items patch.resume h.resumes,
      )
      refl
