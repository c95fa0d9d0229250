-- ===== src/Ui/Surface/Linked.antt =====
-- s13code/ui/surface.py: the children that the components of a built surface name.
use s14code.Prelude.{
  ℕ, ◌+◌, ◌≡◌, String, refl, Bool, true, false, ◌&&◌, Option, none, some, List, [], ◌∷◌, ◌++◌,
  arith, All, All-append, All-map, ◌==◌, eq_refl, any, any-append,
}
use s14code.Json.{Json, null, bool, int, str, arr, obj, Items, nil, cons, Dict, get}
use s14code.Sorting.{sort_by}
use s14code.Graph.Model.{NodeRow, GraphSnapshot}
use s14code.Ui.Surface.{
  Built, opening, row_component, name_component, state_component, add_node, add_nodes, add_answer,
  add_notice, answer_component, notice_component, run_components, build_run, failed_ids,
  find_answer, row_id, name_id, state_id, texts,
}

abbrev pub is_text : String → Option Json → Bool
is_text id (some (str s)) = s == id
is_text id _ = false

-- The component has the id.
unfoldable pub has_id : String → Dict → Bool
unfolding get
has_id id c = is_text id (get c "id")

-- Every item is the id of a component of the list.
unfoldable pub all_ids : List Dict → Items → Bool
unfolding has_id
all_ids cs nil = true
all_ids cs (cons (str s) xs) = any (has_id s) cs && all_ids cs xs
all_ids cs (cons v xs) = false

abbrev pub links : List Dict → Option Json → Bool
links cs (some (arr xs)) = all_ids cs xs
links cs _ = true

-- Every child that the component names is the id of a component of the list.
unfoldable pub is_linked : List Dict → Dict → Bool
unfolding all_ids
is_linked cs c = links cs (get c "children")

-- Every id of a component of the one list is one of the other.
abbrev Within : List Dict → List Dict → Type 0
Within cs ds = (id : String) → any (has_id id) cs ≡ true → any (has_id id) ds ≡ true

all_ids_mono :
    (cs ds : List Dict) → Within cs ds → (xs : Items) → all_ids cs xs ≡ true → all_ids ds xs ≡ true
unfolding all_ids
all_ids_mono cs ds w nil h = refl
all_ids_mono cs ds w (cons (str s) xs) h = ground (arith, all_ids_mono cs ds w xs, w s)
all_ids_mono cs ds w (cons null xs) h = h
all_ids_mono cs ds w (cons (bool x) xs) h = h
all_ids_mono cs ds w (cons (int x) xs) h = h
all_ids_mono cs ds w (cons (arr x) xs) h = h
all_ids_mono cs ds w (cons (obj x) xs) h = h

links_mono :
    (cs ds : List Dict) → Within cs ds → (o : Option Json) → links cs o ≡ true → links ds o ≡ true
links_mono cs ds w (some (arr xs)) h = all_ids_mono cs ds w xs h
links_mono cs ds w none h = h
links_mono cs ds w (some null) h = h
links_mono cs ds w (some (bool x)) h = h
links_mono cs ds w (some (int x)) h = h
links_mono cs ds w (some (str x)) h = h
links_mono cs ds w (some (obj x)) h = h

is_linked_mono :
    (cs ds : List Dict) → Within cs ds → (c : Dict) → is_linked cs c ≡ true → is_linked ds c ≡ true
unfolding is_linked
is_linked_mono cs ds w c h = links_mono cs ds w (get c "children") h

Within-append : (cs ds : List Dict) → Within cs (cs ++ ds)
Within-append cs ds id h = ground (arith, any-append (has_id id) cs ds)

all_ids-texts_append :
    (cs : List Dict) (ids more : List String)
    → all_ids cs (texts ids) ≡ true
    → all_ids cs (texts more) ≡ true
    → all_ids cs (texts (ids ++ more)) ≡ true
unfolding all_ids
all_ids-texts_append cs [] more h k = k
all_ids-texts_append cs (id ∷ ids) more h k = ground (arith, all_ids-texts_append cs ids more)

-- The children of the root, and those of every component, are there.
record Linked (b : Built) : Type 0 where
  root : all_ids b.components (texts b.children) ≡ true
  rest : All (λ c. is_linked b.components c ≡ true) b.components

extended :
    (cs ds : List Dict)
    → All (λ c. is_linked cs c ≡ true) cs
    → All (λ c. is_linked (cs ++ ds) c ≡ true) ds
    → All (λ c. is_linked (cs ++ ds) c ≡ true) (cs ++ ds)
extended cs ds p q =
    All-append (λ c. is_linked (cs ++ ds) c ≡ true) cs ds
      (All-map (λ c. is_linked cs c ≡ true) (λ c. is_linked (cs ++ ds) c ≡ true) cs
        (is_linked_mono cs (cs ++ ds) (Within-append cs ds)) p)
      q

-- A text is an id of a list where it is one of the part behind.
behind :
    (cs ds : List Dict) (id : String)
    → any (has_id id) ds ≡ true
    → any (has_id id) (cs ++ ds) ≡ true
behind cs ds id h = ground (arith, any-append (has_id id) cs ds)

module _ (i : ℕ) (n : NodeRow) (b : Built) where
  abbrev new : List Dict
  new = row_component i ∷ name_component i ∷ state_component i n.state ∷ []

  row_there : any (has_id (row_id i)) (b.components ++ new) ≡ true
  unfolding has_id
  row_there = behind b.components new (row_id i) (rw (eq_refl (row_id i)) refl)

  name_there : any (has_id (name_id i)) (b.components ++ new) ≡ true
  unfolding has_id
  name_there = behind b.components new (name_id i) (ground (arith, eq_refl (name_id i)))

  state_there : any (has_id (state_id i)) (b.components ++ new) ≡ true
  unfolding has_id
  state_there = behind b.components new (state_id i) (ground (arith, eq_refl (state_id i)))

  add_node-Linked : Linked b → Linked (add_node i n b)
  unfolding add_node is_linked all_ids
  add_node-Linked p = record {
    root =
        all_ids-texts_append (b.components ++ new) b.children (row_id i ∷ [])
          (all_ids_mono b.components (b.components ++ new) (Within-append b.components new)
            (texts b.children) p.root)
          (rw row_there refl);
    rest = extended b.components new p.rest (rw (name_there, state_there) refl, (refl, (refl, tt)));
  }

add_nodes-Linked : (i : ℕ) (ns : List NodeRow) (b : Built) → Linked b → Linked (add_nodes i ns b)
unfolding add_nodes
add_nodes-Linked i [] b p = p
add_nodes-Linked i (n ∷ ns) b p =
    add_nodes-Linked (i + 1) ns (add_node i n b) (add_node-Linked i n b p)

-- One more component without children, and its id as a child of the root.
add_leaf :
    (b : Built) (id : String) (c d : Dict)
    → Linked b
    → has_id id c ≡ true
    → is_linked (b.components ++ c ∷ []) c ≡ true
    → Linked (record {
      components = b.components ++ c ∷ [];
      children = b.children ++ id ∷ [];
      data_model = d;
    })
unfolding all_ids
add_leaf b id c d p named linked = record {
  root =
      all_ids-texts_append (b.components ++ c ∷ []) b.children (id ∷ [])
        (all_ids_mono b.components (b.components ++ c ∷ []) (Within-append b.components (c ∷ []))
          (texts b.children) p.root)
        (rw (behind b.components (c ∷ []) id (rw named refl)) refl);
  rest = extended b.components (c ∷ []) p.rest (linked, tt);
}

add_answer-Linked : (o : Option String) (b : Built) → Linked b → Linked (add_answer o b)
unfolding add_answer has_id is_linked
add_answer-Linked none b p = p
add_answer-Linked (some s) b p = add_leaf b "answer" answer_component _ p refl refl

add_notice-Linked : (ids : List String) (b : Built) → Linked b → Linked (add_notice ids b)
unfolding add_notice has_id is_linked
add_notice-Linked [] b p = p
add_notice-Linked (id ∷ ids) b p = add_leaf b "notice" notice_component _ p refl refl

opening-Linked : (run_id : String) → Linked (opening run_id)
unfolding all_ids is_linked
opening-Linked run_id = record { root = refl; rest = (refl, tt) }

run_components-Linked :
    (b : Built) → Linked b → All (λ c. is_linked (run_components b) c ≡ true) (run_components b)
unfolding is_linked
run_components-Linked b p = (
  all_ids_mono b.components (run_components b) wider (texts b.children) p.root,
  All-map (λ c. is_linked b.components c ≡ true) (λ c. is_linked (run_components b) c ≡ true)
      b.components (is_linked_mono b.components (run_components b) wider) p.rest,
)
  where
    wider : Within b.components (run_components b)
    wider id h = ground (arith)

-- For every run, each child that a component of its surface names is the id of a component of
-- the surface.
pub build_run-is_linked :
    (snapshot : GraphSnapshot)
    → All
        (λ c. is_linked (run_components (build_run snapshot)) c ≡ true)
        (run_components (build_run snapshot))
unfolding build_run
build_run-is_linked snapshot = run_components-Linked (build_run snapshot) (
    add_notice-Linked (failed_ids snapshot.nodes) answered (
      add_answer-Linked (find_answer snapshot.nodes) listed
        (add_nodes-Linked 0 nodes (opening snapshot.run_id) (opening-Linked snapshot.run_id))))
  where
    nodes : List NodeRow
    nodes = sort_by (λ n. n.id) snapshot.nodes

    listed : Built
    listed = add_nodes 0 nodes (opening snapshot.run_id)

    answered : Built
    answered = add_answer (find_answer snapshot.nodes) listed
