-- ===== src/Planner/Sound.antt =====
-- s13code/planner.py: what a patch that was parsed may hold.
use s14code.Prelude.{
  ◌≡◌, String, refl, subst, true, false, Option, none, some, List, [], ◌∷◌, contains, All, arith,
  Bool-cases, inl, inr, ◌⊎◌, ◌>>=◌, require,
}
use s14code.Json.{
  Json, null, bool, int, str, arr, obj, Items, nil, cons, empty, get, get_or, get-set, as_dict,
  as_items, as_bool, as_text,
}
use s14code.Graph.Model.{TaskSpec, GraphPatch}
use s14code.Planner.{
  is_id, only_keys, as_id, as_tasks, as_role, parse_task, parse_tasks, parse_ids, as_edge,
  parse_edges, patch_keys, parse_patch, plan_patch,
}

-- A task with a safe id and a role of the catalogue, which its metadata name as its agent.
pub record IsTask (roles : List String) (t : TaskSpec) : Type 0 where
  pub named : is_id t.id ≡ true
  pub has_role : contains t.skill roles ≡ true
  pub agent : get t.metadata "agent" ≡ some (str t.skill)

abbrev pub AllIds : List String → Type 0
AllIds ids = All (λ id. is_id id ≡ true) ids

-- What a model may propose.
pub record IsProposal (roles : List String) (patch : GraphPatch) : Type 0 where
  pub tasks : All (IsTask roles) patch.add
  pub edges : All (λ e. (is_id e.0 ≡ true) × (is_id e.1 ≡ true)) patch.connect
  pub cancels : AllIds patch.cancel
  pub waits : AllIds patch.wait
  pub resumes : AllIds patch.resume

-- Where a `do` block gives a value, its first action gave one, and so did the rest on it.
>>=-some {κ μ} :
    {Early : Type κ} {Late : Type μ} (action : Option Early) (rest : Early → Option Late) {b : Late}
    → (action >>= rest) ≡ some b
    → (early : Early) × (action ≡ some early) × (rest early ≡ some b)
>>=-some none rest gives = cc
>>=-some (some early) rest gives = (early, refl, gives)

some_inj {κ} : {A : Type κ} {a b : A} → some a ≡ some b → a ≡ b
some_inj h = ground (arith)

as_id-is_id : (v : Json) (id : String) → as_id v ≡ some id → is_id id ≡ true
as_id-is_id (str s) id h = elim (Bool-cases (is_id s)) [
  | inl ok ↦ subst (λ t. is_id t ≡ true) (some_inj (rw ok at h)) ok
  | inr bad ↦ cc (rw bad at h)
]
as_id-is_id null id h = cc
as_id-is_id (bool b) id h = cc
as_id-is_id (int n) id h = cc
as_id-is_id (arr xs) id h = cc
as_id-is_id (obj d) id h = cc

as_role-contains :
    (roles : List String) (v : Json) (role : String)
    → as_role roles v ≡ some role
    → contains role roles ≡ true
as_role-contains roles (str s) role h = elim (Bool-cases (contains s roles)) [
  | inl ok ↦ subst (λ t. contains t roles ≡ true) (some_inj (rw ok at h)) ok
  | inr bad ↦ cc (rw bad at h)
]
as_role-contains roles null role h = cc
as_role-contains roles (bool b) role h = cc
as_role-contains roles (int n) role h = cc
as_role-contains roles (arr xs) role h = cc
as_role-contains roles (obj d) role h = cc

parse_task-IsTask :
    (roles : List String) (raw : Json) (t : TaskSpec)
    → parse_task roles raw ≡ some t
    → IsTask roles t
unfolding parse_task
parse_task-IsTask roles raw t h =
    let (d, _, h1) = >>=-some (as_dict raw) _ h in
    let (_, _, h2) =
      >>=-some (require (only_keys ("id" ∷ "role" ∷ "input" ∷ "metadata" ∷ []) d)) _ h1 in
    let (node_id, named, h3) = >>=-some (as_id (get_or d "id" null)) _ h2 in
    let (role, known, h4) = >>=-some (as_role roles (get_or d "role" null)) _ h3 in
    let (task_input, _, h5) = >>=-some (as_dict (get_or d "input" (obj empty))) _ h4 in
    let (metadata, _, h6) = >>=-some (as_dict (get_or d "metadata" (obj empty))) _ h5 in
    subst (IsTask roles) (some_inj h6) (record {
      named = as_id-is_id (get_or d "id" null) node_id named;
      has_role = as_role-contains roles (get_or d "role" null) role known;
      agent = get-set metadata "agent" "agent" (str role);
    })

parse_tasks-IsTask :
    (roles : List String) (xs : Items) (ts : List TaskSpec)
    → parse_tasks roles xs ≡ some ts
    → All (IsTask roles) ts
unfolding parse_tasks
parse_tasks-IsTask roles nil ts h = subst (All (IsTask roles)) (some_inj h) tt
parse_tasks-IsTask roles (cons raw xs) ts h =
    let (t, first, h1) = >>=-some (parse_task roles raw) _ h in
    let (rest, later, h2) = >>=-some (parse_tasks roles xs) _ h1 in
    subst (All (IsTask roles)) (some_inj h2)
      (parse_task-IsTask roles raw t first, parse_tasks-IsTask roles xs rest later)

parse_ids-AllIds : (xs : Items) (ids : List String) → parse_ids xs ≡ some ids → AllIds ids
unfolding parse_ids
parse_ids-AllIds nil ids h = subst AllIds (some_inj h) tt
parse_ids-AllIds (cons x xs) ids h =
    let (id, first, h1) = >>=-some (as_id x) _ h in
    let (rest, later, h2) = >>=-some (parse_ids xs) _ h1 in
    subst AllIds (some_inj h2) (as_id-is_id x id first, parse_ids-AllIds xs rest later)

abbrev EdgeIds : String × String → Type 0
EdgeIds e = (is_id e.0 ≡ true) × (is_id e.1 ≡ true)

as_edge-EdgeIds : (x : Json) (e : String × String) → as_edge x ≡ some e → EdgeIds e
as_edge-EdgeIds (arr (cons a (cons b nil))) e h =
    let (parent, first, h1) = >>=-some (as_id a) _ h in
    let (child, second, h2) = >>=-some (as_id b) _ h1 in
    subst EdgeIds (some_inj h2) (as_id-is_id a parent first, as_id-is_id b child second)
as_edge-EdgeIds (arr nil) e h = cc
as_edge-EdgeIds (arr (cons a nil)) e h = cc
as_edge-EdgeIds (arr (cons a (cons b (cons c xs)))) e h = cc
as_edge-EdgeIds null e h = cc
as_edge-EdgeIds (bool b) e h = cc
as_edge-EdgeIds (int n) e h = cc
as_edge-EdgeIds (str s) e h = cc
as_edge-EdgeIds (obj d) e h = cc

parse_edges-EdgeIds :
    (xs : Items) (es : List (String × String)) → parse_edges xs ≡ some es → All EdgeIds es
unfolding parse_edges
parse_edges-EdgeIds nil es h = subst (All EdgeIds) (some_inj h) tt
parse_edges-EdgeIds (cons x xs) es h =
    let (e, first, h1) = >>=-some (as_edge x) _ h in
    let (rest, later, h2) = >>=-some (parse_edges xs) _ h1 in
    subst (All EdgeIds) (some_inj h2) (as_edge-EdgeIds x e first, parse_edges-EdgeIds xs rest later)

-- A patch that `_parse` returns adds only tasks with a safe id and a role of the planner, which
-- their metadata name as their agent, and its edges, cancels, waits and resumes hold only safe
-- ids.
pub parse_patch-IsProposal :
    (roles : List String) (v : Json) (patch : GraphPatch)
    → parse_patch roles v ≡ some patch
    → IsProposal roles patch
unfolding parse_patch
parse_patch-IsProposal roles v patch h =
    let (d, _, h1) = >>=-some (as_dict v) _ h in
    let (_, _, h2) = >>=-some (require (only_keys patch_keys d)) _ h1 in
    let (raws, _, h3) = >>=-some (as_tasks (get_or d "add" (arr nil))) _ h2 in
    let (add, tasks, h4) = >>=-some (parse_tasks roles raws) _ h3 in
    let (pairs, _, h5) = >>=-some (as_items (get_or d "connect" (arr nil))) _ h4 in
    let (connect, edges, h6) = >>=-some (parse_edges pairs) _ h5 in
    let (finish, _, h7) = >>=-some (as_bool (get_or d "finish" (bool false))) _ h6 in
    let (reason, _, h8) = >>=-some (as_text (get_or d "reason" (str ""))) _ h7 in
    let (cancels, _, h9) = >>=-some (as_items (get_or d "cancel" (arr nil))) _ h8 in
    let (cancel, cancel_ids, h10) = >>=-some (parse_ids cancels) _ h9 in
    let (waits, _, h11) = >>=-some (as_items (get_or d "wait" (arr nil))) _ h10 in
    let (wait, wait_ids, h12) = >>=-some (parse_ids waits) _ h11 in
    let (resumes, _, h13) = >>=-some (as_items (get_or d "resume" (arr nil))) _ h12 in
    let (resume, resume_ids, h14) = >>=-some (parse_ids resumes) _ h13 in
    subst (IsProposal roles) (some_inj h14) (record {
      tasks = parse_tasks-IsTask roles raws add tasks;
      edges = parse_edges-EdgeIds pairs connect edges;
      cancels = parse_ids-AllIds cancels cancel cancel_ids;
      waits = parse_ids-AllIds waits wait wait_ids;
      resumes = parse_ids-AllIds resumes resume resume_ids;
    })

-- Whatever the model replies, the planner's patch is one that adds only tasks with a safe id and
-- a role of the planner and names only safe ids, or it is the fallback's patch.
pub plan_patch-IsProposal :
    (roles : List String) (reply : Option Json) (fallback : GraphPatch)
    → IsProposal roles (plan_patch roles reply fallback)
      ⊎ (plan_patch roles reply fallback ≡ fallback)
unfolding plan_patch
plan_patch-IsProposal roles none fallback = inr refl
plan_patch-IsProposal roles (some v) fallback = parsed (parse_patch roles v) refl
  where
    parsed :
        (o : Option GraphPatch)
        → parse_patch roles v ≡ o
        → IsProposal roles (elim o [ none ↦ fallback | some patch ↦ patch ])
          ⊎ (elim o [ none ↦ fallback | some patch ↦ patch ] ≡ fallback)
    parsed none h = inr refl
    parsed (some patch) h = inl (parse_patch-IsProposal roles v patch h)
