-- ===== src/Ui/Surface/Bound.antt =====
-- s13code/ui/surface.py: the bindings of a built surface against its data model.
use Prim.Native.Char.{code}
use s14code.Prelude.{
  ℕ, ◌+◌, ◌≡◌, String, refl, ap, ◌∙◌, Bool, true, false, ◌&&◌, Option, none, some, List, [], ◌∷◌,
  arith, All, All-append, All-map, if◌then◌else◌, nat_eq, eq_refl, concat,
}
use s14code.Json.{Json, null, bool, int, str, arr, obj, Dict, empty, entry, get, set, get-set}
use s14code.Sorting.{sort_by}
use s14code.Graph.Model.{NodeRow, GraphSnapshot, value}
use s14code.Ui.Surface.{
  Built, opening, add_node, add_nodes, add_answer, add_notice, run_components, build_run, name_key,
  state_key, failed_ids, find_answer, notice_text,
}

-- The dict has the key.
abbrev pub has : Dict → String → Bool
has d k = elim (get d k) [ none ↦ false | some v ↦ true ]

-- The key that a pointer names: what follows its slash.
abbrev pub key_of : String → Option String
key_of String.[] = none
key_of (String.◌∷◌ c s) = if nat_eq (code c) b'/' then some s else none

abbrev pub names_key : Dict → Option String → Bool
names_key model none = false
names_key model (some k) = has model k

abbrev pub resolves_pointer : Dict → Option Json → Bool
resolves_pointer model none = true
resolves_pointer model (some (str p)) = names_key model (key_of p)
resolves_pointer model (some v) = false

-- A value that is no binding, or one whose pointer names a key of the data model.
abbrev pub resolves_value : Dict → Json → Bool
resolves_value model (obj d) = resolves_pointer model (get d "$bind")
resolves_value model _ = true

-- Every property of the component that is a binding names a key of the data model.
unfoldable pub resolves : Dict → Dict → Bool
unfolding get
resolves model empty = true
resolves model (entry k v d) = resolves_value model v && resolves model d

abbrev Grows : Dict → Dict → Type 0
Grows a b = (k : String) → has a k ≡ true → has b k ≡ true

Grows-set : (d : Dict) (k : String) (v : Json) → Grows d (set d k v)
Grows-set d k v j h =
    ap (λ (o : Option Json). elim o [ none ↦ false | some w ↦ true ]) (get-set d k j v)
    ∙ ground (arith)

has-set : (d : Dict) (k : String) (v : Json) → has (set d k v) k ≡ true
has-set d k v =
    ap (λ (o : Option Json). elim o [ none ↦ false | some w ↦ true ]) (get-set d k k v)
    ∙ rw (eq_refl k) refl

pointer-Grows :
    (a b : Dict)
    → Grows a b
    → (o : Option Json) → resolves_pointer a o ≡ true
    → resolves_pointer b o ≡ true
pointer-Grows a b g none h = refl
pointer-Grows a b g (some (str p)) h = named (key_of p) h
  where
    named : (o : Option String) → names_key a o ≡ true → names_key b o ≡ true
    named none k = k
    named (some i) k = g i k
pointer-Grows a b g (some null) h = h
pointer-Grows a b g (some (bool x)) h = h
pointer-Grows a b g (some (int x)) h = h
pointer-Grows a b g (some (arr x)) h = h
pointer-Grows a b g (some (obj x)) h = h

value-Grows :
    (a b : Dict) → Grows a b → (v : Json) → resolves_value a v ≡ true → resolves_value b v ≡ true
value-Grows a b g (obj d) h = pointer-Grows a b g (get d "$bind") h
value-Grows a b g null h = h
value-Grows a b g (bool x) h = h
value-Grows a b g (int x) h = h
value-Grows a b g (str x) h = h
value-Grows a b g (arr x) h = h

resolves-Grows : (a b : Dict) → Grows a b → (c : Dict) → resolves a c ≡ true → resolves b c ≡ true
unfolding resolves
resolves-Grows a b g empty h = refl
resolves-Grows a b g (entry k v d) h = ground (arith, value-Grows a b g v, resolves-Grows a b g d)

-- All bindings of the components built so far resolve.
abbrev Bound : Built → Type 0
Bound b = All (λ c. resolves b.data_model c ≡ true) b.components

-- The components stay bound where the data model grows.
grown :
    (b : Built) (d : Dict)
    → Grows b.data_model d
    → Bound b
    → All (λ c. resolves d c ≡ true) b.components
grown b d g p =
    All-map (λ c. resolves b.data_model c ≡ true) (λ c. resolves d c ≡ true) b.components
      (resolves-Grows b.data_model d g) p

add_node-Bound : (i : ℕ) (n : NodeRow) (b : Built) → Bound b → Bound (add_node i n b)
unfolding add_node resolves
add_node-Bound i n b p =
    All-append (λ c. resolves final c ≡ true) b.components _
      (grown b final
        (λ k h.
          Grows-set named (state_key i) state k (Grows-set b.data_model (name_key i) name k h))
        p)
      (
        refl,
        (
          rw
              (Grows-set named (state_key i) state (name_key i)
                (has-set b.data_model (name_key i) name))
              refl,
          (rw (has-set named (state_key i) state) refl, tt),
        ),
      )
  where
    name : Json
    name = str (concat n.id (concat "  ·  " n.skill))

    state : Json
    state = str (value n.state)

    named : Dict
    named = set b.data_model (name_key i) name

    final : Dict
    final = set named (state_key i) state

add_nodes-Bound : (i : ℕ) (ns : List NodeRow) (b : Built) → Bound b → Bound (add_nodes i ns b)
unfolding add_nodes
add_nodes-Bound i [] b p = p
add_nodes-Bound i (n ∷ ns) b p =
    add_nodes-Bound (i + 1) ns (add_node i n b) (add_node-Bound i n b p)

add_answer-Bound : (o : Option String) (b : Built) → Bound b → Bound (add_answer o b)
unfolding add_answer resolves
add_answer-Bound none b p = p
add_answer-Bound (some s) b p =
    All-append (λ c. resolves (set b.data_model "answer" (str s)) c ≡ true) b.components _
      (grown b _ (Grows-set b.data_model "answer" (str s)) p)
      (rw (has-set b.data_model "answer" (str s)) refl, tt)

add_notice-Bound : (ids : List String) (b : Built) → Bound b → Bound (add_notice ids b)
unfolding add_notice resolves
add_notice-Bound [] b p = p
add_notice-Bound (id ∷ ids) b p =
    let text = str (notice_text (id ∷ ids)) in
    All-append (λ c. resolves (set b.data_model "notice" text) c ≡ true) b.components _
      (grown b _ (Grows-set b.data_model "notice" text) p)
      (rw (has-set b.data_model "notice" text) refl, tt)

opening-Bound : (run_id : String) → Bound (opening run_id)
unfolding resolves
opening-Bound run_id = (refl, tt)

-- For every run, each binding of a component of its surface names a key of the surface's data
-- model.
pub build_run-resolves :
    (snapshot : GraphSnapshot)
    → All
        (λ c. resolves (build_run snapshot).data_model c ≡ true)
        (run_components (build_run snapshot))
unfolding build_run resolves
build_run-resolves snapshot = (
  refl,
  add_notice-Bound (failed_ids snapshot.nodes) answered (
      add_answer-Bound (find_answer snapshot.nodes) listed
        (add_nodes-Bound 0 nodes (opening snapshot.run_id) (opening-Bound snapshot.run_id))),
)
  where
    nodes : List NodeRow
    nodes = sort_by (λ n. n.id) snapshot.nodes

    listed : Built
    listed = add_nodes 0 nodes (opening snapshot.run_id)

    answered : Built
    answered = add_answer (find_answer snapshot.nodes) listed
