-- ===== src/Ui/Surface/Clean.antt =====
-- s13code/ui/surface.py against s13code/ui/validator.py: what the wall does to a built surface.
use s14code.Prelude.{
  codes, ℕ, zero, suc, ◌+◌, ◌%◌, ◌/◌, ◌≡◌, String, refl, sym, subst, Bool, true, not, ◌&&◌, Option,
  none, some, List, [], ◌∷◌, ◌++◌, arith, All, All-append, concat, codes-concat, show, decimal,
  digit, ltb, if_both, nat_eq,
}
use s14code.Json.{Dict}
use s14code.Graph.Model.{
  NodeState, pending, running, succeeded, failed, cancelled, waiting, NodeRow, GraphSnapshot,
}
use s14code.Sorting.{sort_by}
use s14code.Ui.Patterns.{is_space, is_unspaced_end, is_pointer}
use s14code.Ui.Validator.{valid, check_component, validate_components, validate_surface}
use s14code.Ui.Surface.{
  Built, dicts, opening, row_component, name_component, state_component, add_node, add_nodes,
  add_answer, add_notice, root_component, run_components, approval_components, build_run,
  build_run_surface, build_approval_surface, title_component, name_key, state_key, failed_ids,
  find_answer,
}

-- No white space at all.
abbrev unspaced : List ℕ → Bool
unspaced [] = true
unspaced (c ∷ cs) = not (is_space c) && unspaced cs

unspaced-append :
    (cs ds : List ℕ) → unspaced cs ≡ true → unspaced ds ≡ true → unspaced (cs ++ ds) ≡ true
unspaced-append [] ds h k = k
unspaced-append (c ∷ cs) ds h k = ground (arith, unspaced-append cs ds)

unspaced-end : (cs : List ℕ) → unspaced cs ≡ true → is_unspaced_end cs ≡ true
unfolding is_unspaced_end
unspaced-end [] h = refl
unspaced-end (c ∷ []) h = ground (arith)
unspaced-end (c ∷ d ∷ cs) h = ground (arith, unspaced-end (d ∷ cs))

unspaced-digit : (n : ℕ) → unspaced (codes (digit n)) ≡ true
unfolding is_space
unspaced-digit n = if_both P (nat_eq n 0) refl (
    if_both P (nat_eq n 1) refl (
      if_both P (nat_eq n 2) refl (
        if_both P (nat_eq n 3) refl (
          if_both P (nat_eq n 4) refl (
            if_both P (nat_eq n 5) refl (
              if_both P (nat_eq n 6) refl
                (if_both P (nat_eq n 7) refl (if_both P (nat_eq n 8) refl refl))))))))
  where
    P : String → Type 0
    P d = unspaced (codes d) ≡ true

unspaced-decimal : (fuel n : ℕ) → unspaced (codes (decimal fuel n)) ≡ true
unfolding decimal
unspaced-decimal zero n = refl
unspaced-decimal (suc fuel) n =
    if_both (λ t. unspaced (codes t) ≡ true) (ltb n 10) (unspaced-digit n)
      (subst (λ cs. unspaced cs ≡ true)
        (sym (codes-concat (decimal fuel (n / 10)) (digit (n % 10))))
        (unspaced-append (codes (decimal fuel (n / 10))) (codes (digit (n % 10)))
          (unspaced-decimal fuel (n / 10)) (unspaced-digit (n % 10))))

unspaced-show :
    (i : ℕ) (t : String) → unspaced (codes t) ≡ true → unspaced (codes (concat (show i) t)) ≡ true
unfolding show
unspaced-show i t h =
    subst (λ cs. unspaced cs ≡ true) (sym (codes-concat (show i) t))
      (unspaced-append (codes (show i)) (codes t) (unspaced-decimal (suc i) i) h)

name-pointer : (i : ℕ) → is_pointer (codes (concat "/" (name_key i))) ≡ true
unfolding is_pointer
name-pointer i = unspaced-end (codes (name_key i)) (
    unspaced-append (codes "node_") (codes (concat (show i) "_name")) refl
      (unspaced-show i "_name" refl))

name_passes : (i : ℕ) → check_component (name_component i) ≡ valid none
unfolding check_component
name_passes i = rw (name-pointer i) refl

state-pointer : (i : ℕ) → is_pointer (codes (concat "/" (state_key i))) ≡ true
unfolding is_pointer
state-pointer i = unspaced-end (codes (state_key i)) (
    unspaced-append (codes "node_") (codes (concat (show i) "_state")) refl
      (unspaced-show i "_state" refl))

row_passes : (i : ℕ) → check_component (row_component i) ≡ valid none
unfolding check_component
row_passes i = refl

state_passes : (i : ℕ) (s : NodeState) → check_component (state_component i s) ≡ valid none
unfolding check_component
state_passes i pending = rw (state-pointer i) refl
state_passes i running = rw (state-pointer i) refl
state_passes i succeeded = rw (state-pointer i) refl
state_passes i failed = rw (state-pointer i) refl
state_passes i cancelled = rw (state-pointer i) refl
state_passes i waiting = rw (state-pointer i) refl

root_passes : (children : List String) → check_component (root_component children) ≡ valid none
unfolding check_component
root_passes children = refl

-- The wall has nothing against any component of the list.
abbrev Passing : List Dict → Type 0
Passing cs = All (λ c. check_component c ≡ valid none) cs

add_node-Passing :
    (i : ℕ) (n : NodeRow) (b : Built) → Passing b.components → Passing (add_node i n b).components
unfolding add_node
add_node-Passing i n b p =
    All-append _ b.components _ p (row_passes i, (name_passes i, (state_passes i n.state, tt)))

add_nodes-Passing :
    (i : ℕ) (ns : List NodeRow) (b : Built)
    → Passing b.components
    → Passing (add_nodes i ns b).components
unfolding add_nodes
add_nodes-Passing i [] b p = p
add_nodes-Passing i (n ∷ ns) b p =
    add_nodes-Passing (i + 1) ns (add_node i n b) (add_node-Passing i n b p)

add_answer-Passing :
    (o : Option String) (b : Built) → Passing b.components → Passing (add_answer o b).components
unfolding add_answer check_component
add_answer-Passing none b p = p
add_answer-Passing (some s) b p = All-append _ b.components _ p (refl, tt)

add_notice-Passing :
    (ids : List String) (b : Built) → Passing b.components → Passing (add_notice ids b).components
unfolding add_notice check_component
add_notice-Passing [] b p = p
add_notice-Passing (id ∷ ids) b p = All-append _ b.components _ p (refl, tt)

opening_passes : check_component title_component ≡ valid none
unfolding check_component
opening_passes = refl

build_run-Passing : (snapshot : GraphSnapshot) → Passing (run_components (build_run snapshot))
unfolding build_run
build_run-Passing snapshot = (
  root_passes (build_run snapshot).children,
  add_notice-Passing (failed_ids snapshot.nodes) answered (
      add_answer-Passing (find_answer snapshot.nodes) listed
        (add_nodes-Passing 0 nodes (opening snapshot.run_id) (opening_passes, tt))),
)
  where
    nodes : List NodeRow
    nodes = sort_by (λ n. n.id) snapshot.nodes

    listed : Built
    listed = add_nodes 0 nodes (opening snapshot.run_id)

    answered : Built
    answered = add_answer (find_answer snapshot.nodes) listed

-- A list of passing components is accepted as it is.
dicts-accepted :
    (cs : List Dict)
    → Passing cs
    → validate_components (dicts cs) ≡ valid (record { accepted = cs; rejections = [] })
unfolding validate_components
dicts-accepted [] p = refl
dicts-accepted (c ∷ cs) p = rw (p.0, dicts-accepted cs p.1) refl

-- For every run, the wall accepts each component of the surface that `build_run_surface` makes,
-- in its order, and rejects none.
pub build_run_surface-accepted :
    (snapshot : GraphSnapshot)
    → validate_surface (build_run_surface snapshot)
      ≡ valid (record { accepted = run_components (build_run snapshot); rejections = [] })
unfolding validate_surface build_run_surface
build_run_surface-accepted snapshot =
    dicts-accepted (run_components (build_run snapshot)) (build_run-Passing snapshot)

approval-Passing : (run_id node_id : String) → Passing (approval_components run_id node_id)
unfolding check_component
approval-Passing run_id node_id = (refl, (refl, tt))

-- Whatever the run, the node, the summary and the parameters are, the wall accepts both
-- components of the approval surface and rejects none.
pub build_approval_surface-accepted :
    (run_id node_id summary : String) (params : Dict)
    → validate_surface (build_approval_surface run_id node_id summary params)
      ≡ valid (record { accepted = approval_components run_id node_id; rejections = [] })
unfolding validate_surface build_approval_surface
build_approval_surface-accepted run_id node_id summary params =
    dicts-accepted (approval_components run_id node_id) (approval-Passing run_id node_id)
