-- ===== src/Ui/Agui/Fold.antt =====
-- s13code/ui/agui.py: what a client holds after it has folded a stream.
use s14code.Prelude.{
  ℕ, ◌≡◌, String, refl, ap, ◌∙◌, sym, subst, Bool, true, false, ◌&&◌, Option, none, some, List, [],
  ◌∷◌, ◌++◌, map, arith, if◌then◌else◌, ◌==◌, eq→path, append-nil, append_assoc, Bool-cases, inl,
  inr, select,
}
use s14code.Json.{Json, null, obj, str, Dict, empty, entry, get, get_or, set, get-set}
use s14code.Graph.Model.{Event}
use s14code.Ui.Agui.{
  ClientState, empty_state, to_agui_event, apply_state_delta, replay_state, stream_agui,
  run_data_model, node_text,
}

-- What one event of the journal does to the client, said without the stream between them.
unfoldable pub take_in : Event → ClientState → ClientState
unfolding get set
take_in e s =
    if e.kind == "task_succeeded"
    then record s { results = set s.results (node_text e.node_id) (obj e.payload) }
    else if e.kind == "graph_patched"
    then record s {
      patches =
          s.patches
          ++ entry "reason" (get_or e.payload "reason" (str ""))
              (entry "trigger" (get_or e.payload "trigger_event" null) empty)
            ∷ [];
    }
    else s

take_all : List Event → ClientState → ClientState
take_all [] s = s
take_all (e ∷ es) s = take_all es (take_in e s)

module _ (sequence : ℕ) (node_id : Option String) (payload : Dict) (s : ClientState) where
  abbrev of_kind : String → Event
  of_kind kind = record { sequence = sequence; kind = kind; node_id = node_id; payload = payload }

  Folds : String → Type 0
  Folds kind = apply_state_delta s (to_agui_event (of_kind kind)) ≡ some (take_in (of_kind kind) s)

  known : (kind k : String) → Folds k → (kind == k) ≡ true → Folds kind
  known kind k f h = subst Folds (sym (eq→path kind k h)) f

  kind-Folds : (kind : String) → Folds kind
  unfolding Folds apply_state_delta to_agui_event take_in
  kind-Folds kind = elim (Bool-cases (kind == "run_started")) [
    | inl h0 ↦ known kind "run_started" refl h0
    | inr h0 ↦ elim (Bool-cases (kind == "graph_patched")) [
      | inl h1 ↦ known kind "graph_patched" refl h1
      | inr h1 ↦ elim (Bool-cases (kind == "task_started")) [
        | inl h2 ↦ known kind "task_started" refl h2
        | inr h2 ↦ elim (Bool-cases (kind == "task_succeeded")) [
          | inl h3 ↦ known kind "task_succeeded" refl h3
          | inr h3 ↦ elim (Bool-cases (kind == "task_failed")) [
            | inl h4 ↦ known kind "task_failed" refl h4
            | inr h4 ↦ elim (Bool-cases (kind == "task_cancelled")) [
              | inl h5 ↦ known kind "task_cancelled" refl h5
              | inr h5 ↦ elim (Bool-cases (kind == "run_resumed")) [
                | inl h6 ↦ known kind "run_resumed" refl h6
                | inr h6 ↦ rw (h0, h1, h2, h3, h4, h5, h6) refl
              ]
            ]
          ]
        ]
      ]
    ]
  ]

event-take_in :
    (e : Event) (s : ClientState) → apply_state_delta s (to_agui_event e) ≡ some (take_in e s)
unfolding Folds
event-take_in e s = kind-Folds e.sequence e.node_id e.payload s e.kind

replay-take_all :
    (es : List Event) (s : ClientState)
    → replay_state (map to_agui_event es) s ≡ some (take_all es s)
unfolding replay_state take_all
replay-take_all [] s = refl
replay-take_all (e ∷ es) s = rw (replay_state, event-take_in e s) (replay-take_all es (take_in e s))

run_data_model-take_all : (es : List Event) → run_data_model es ≡ some (take_all es empty_state)
unfolding run_data_model stream_agui
run_data_model-take_all es = rw (append-nil (map to_agui_event es)) (replay-take_all es empty_state)

-- The payload of the last success of a node.
unfoldable pub latest_result : String → List Event → Option Dict
latest_result node [] = none
latest_result node (e ∷ es) =
    let own =
      if e.kind == "task_succeeded" && node_text e.node_id == node then some e.payload else none in
    elim (latest_result node es) [ none ↦ own | some p ↦ some p ]

-- What a patch event leaves in the log.
abbrev pub patch_entry : Event → Dict
patch_entry e =
    entry "reason" (get_or e.payload "reason" (str ""))
      (entry "trigger" (get_or e.payload "trigger_event" null) empty)

abbrev pub is_patch : Event → Bool
is_patch e = e.kind == "graph_patched"

abbrev later : Option Json → Option Dict → Option Json
later old none = old
later old (some p) = some (obj p)

take_in-results :
    (e : Event) (s : ClientState) (node : String)
    → get (take_in e s).results node ≡ (
        if e.kind == "task_succeeded" && node_text e.node_id == node
        then some (obj e.payload)
        else get s.results node)
unfolding take_in
take_in-results e s node =
    ground (arith, get-set s.results (node_text e.node_id) node (obj e.payload))

take_all-results :
    (es : List Event) (s : ClientState) (node : String)
    → get (take_all es s).results node ≡ later (get s.results node) (latest_result node es)
unfolding take_all latest_result
take_all-results [] s node = refl
take_all-results (e ∷ es) s node =
    take_all-results es (take_in e s) node
    ∙ ap (λ o. later o (latest_result node es)) (take_in-results e s node)
    ∙ ground (arith)

not_both : (kind : String) → (kind == "graph_patched") ≡ true → (kind == "task_succeeded") ≡ false
not_both kind h =
    subst (λ k. (k == "task_succeeded") ≡ false) (sym (eq→path kind "graph_patched" h)) refl

take_in-patches :
    (e : Event) (s : ClientState)
    → (take_in e s).patches ≡ s.patches ++ (if is_patch e then patch_entry e ∷ [] else [])
unfolding take_in
take_in-patches e s = elim (Bool-cases (is_patch e)) [
  | inl h ↦ rw (not_both e.kind h, h) refl
  | inr h ↦ elim (Bool-cases (e.kind == "task_succeeded")) [
    | inl k ↦ rw (k, h) (sym (append-nil s.patches))
    | inr k ↦ rw (k, h) (sym (append-nil s.patches))
  ]
]

patches_of : List Event → List Dict
patches_of es = map patch_entry (select is_patch es)

patches_of-cons :
    (e : Event) (es : List Event)
    → patches_of (e ∷ es) ≡ (if is_patch e then patch_entry e ∷ [] else []) ++ patches_of es
unfolding patches_of
patches_of-cons e es = ground (arith)

take_all-patches :
    (es : List Event) (s : ClientState) → (take_all es s).patches ≡ s.patches ++ patches_of es
unfolding take_all patches_of
take_all-patches [] s = sym (append-nil s.patches)
take_all-patches (e ∷ es) s =
    take_all-patches es (take_in e s)
    ∙ ap (λ ps. ps ++ patches_of es) (take_in-patches e s)
    ∙ append_assoc s.patches (if is_patch e then patch_entry e ∷ [] else []) (patches_of es)
    ∙ ap (λ ps. s.patches ++ ps) (sym (patches_of-cons e es))

-- The data model of every journal exists; under each node it holds the payload of the node's
-- last success and nothing where there is none, and its patch log holds one entry for each patch
-- event, in their order.
pub run_data_model-content :
    (es : List Event) (node : String)
    → (s : ClientState) × (run_data_model es ≡ some s)
      × (get s.results node
          ≡ elim (latest_result node es) [ none ↦ none | some payload ↦ some (obj payload) ])
      × (s.patches ≡ map patch_entry (select is_patch es))
unfolding patches_of get
run_data_model-content es node = (
  take_all es empty_state,
  run_data_model-take_all es,
  take_all-results es empty_state node ∙ from_none (latest_result node es),
  take_all-patches es empty_state,
)
  where
    from_none :
        (o : Option Dict)
        → later none o ≡ elim o [ none ↦ none | some payload ↦ some (obj payload) ]
    from_none none = refl
    from_none (some p) = refl
