-- ===== src/Ui/Tests.antt =====
-- Runs of s13code/ui/validator.py on concrete surfaces.
use s14code.Prelude.{
  ℕ, ◌≡◌, ◌≢◌, ◌↔◌, String, refl, true, false, Option, none, some, List, [], ◌∷◌, map, select,
  length, All, inr, inl, show, arith, eq_iff,
}
use s14code.Json.{
  Json, pos, null, bool, int, str, arr, obj, Items, nil, cons, Dict, empty, entry, get,
}
use s14code.Ui.Catalog.{ComponentSpec, spec_of}
use s14code.Ui.Validator.{
  Verdict, valid, type_error, attribute_error, ValidationResult, check_component,
  validate_components, validate_surface,
}
use s14code.Ui.Validator.Admitted.{IsAdmitted, check_component-IsAdmitted}
use s14code.Ui.Validator.Passed.{check_component_iff}
use s14code.Ui.Validator.Wall.{Has, validate_surface-IsAdmitted, validate_components-Has}
use s14code.Graph.Model.{NodeState, succeeded, failed, waiting, NodeRow, GraphSnapshot, Event}
use s14code.Ui.Surface.{build_run, build_run_surface, run_components}
use s14code.Ui.Surface.Clean.{build_run_surface-accepted}
use s14code.Ui.Surface.Bound.{resolves, build_run-resolves}
use s14code.Ui.Surface.Linked.{is_linked, build_run-is_linked}
use s14code.Ui.Agui.{ClientState, run_data_model}
use s14code.Ui.Agui.Fold.{is_patch, latest_result, patch_entry, run_data_model-content}
use s14code.Ui.Hitl.{PendingAction, decide_resume}
use s14code.Ui.Hitl.Agrees.{agree, distinct, decide_resume-agree, decide_resume-list_for_dict}

-- {"id": "t", "type": "Text", "text": {"$bind": "/rows"}}
abbrev text_component : Dict
text_component =
    entry "id" (str "t")
      (entry "type" (str "Text") (entry "text" (obj (entry "$bind" (str "/rows") empty)) empty))

-- A text that smuggles markup, an event handler, and an action that is not registered.
abbrev markup_component : Dict
markup_component =
    entry "id" (str "m")
      (entry "type" (str "Card") (entry "title" (str "<script>alert(1)</script>") empty))

abbrev handler_component : Dict
handler_component =
    entry "id" (str "h") (entry "type" (str "Card") (entry "onclick" (str "x()") empty))

abbrev items : Items
items = cons (obj markup_component) (cons (obj text_component) (cons (obj handler_component) nil))

abbrev surface : Dict
surface = entry "root" (str "t") (entry "components" (arr items) empty)

abbrev result_of : Verdict ValidationResult → ValidationResult
result_of (valid r) = r
result_of type_error = record { accepted = []; rejections = [] }
result_of attribute_error = record { accepted = []; rejections = [] }

abbrev walled : ValidationResult
unfolding validate_surface
walled = result_of (validate_surface surface)

walled_ok : validate_surface surface ≡ valid walled
unfolding validate_surface
walled_ok = refl

walled-items : validate_components items ≡ valid walled
unfolding validate_surface
walled-items = refl

walled-accepted : walled.accepted ≡ text_component ∷ []
unfolding walled validate_surface
walled-accepted = refl

text_passes : check_component text_component ≡ valid none
unfolding check_component
text_passes = refl

-- A binding that is no text ends the validation.
bind_raises :
    check_component
      (entry "type" (str "Text") (entry "text" (obj (entry "$bind" null empty)) empty))
    ≡ type_error
unfolding check_component
bind_raises = refl

check_component_iff_example :
    (check_component text_component ≡ valid none) ↔ IsAdmitted text_component
check_component_iff_example = check_component_iff text_component

validate_surface-IsAdmitted_example : All IsAdmitted walled.accepted
validate_surface-IsAdmitted_example = validate_surface-IsAdmitted surface walled walled_ok

abbrev slider : ComponentSpec
unfolding spec_of
slider = elim (spec_of "Slider") [
  | some spec ↦ spec
  | none ↦ record { type_name = "Slider"; props = []; source = "" }
]

abbrev image_tag : Json
image_tag = str "<img src=x onerror=alert(1)>"

slider_passes :
    check_component (entry "type" (str "Slider") (entry "min" image_tag empty)) ≡ valid none
unfolding check_component
slider_passes = refl

validate_components-Has_example : Has text_component walled.accepted
validate_components-Has_example =
    validate_components-Has items walled text_component walled-items
      (check_component-IsAdmitted text_component text_passes) (inr (inl refl))

-- A run with one failed task, one that waits and an answer.
abbrev node : String → String → NodeState → Option Dict → NodeRow
node id skill state result = record {
  run_id = "r";
  id = id;
  skill = skill;
  input = empty;
  metadata = empty;
  state = state;
  result = result;
}

abbrev run : GraphSnapshot
run = record {
  run_id = "r";
  finished = true;
  nodes =
      node "answer" "answer" succeeded (some (entry "text" (str "42") empty))
      ∷ node "fetch" "search" failed none
      ∷ node "wait" "ask" waiting none
      ∷ [];
  edges = [];
}

run-components : length (run_components (build_run run)) ≡ 13
unfolding build_run
run-components = refl

run-answer : get (build_run run).data_model "answer" ≡ some (str "42")
unfolding build_run get
run-answer = refl

run-notice :
    get (build_run run).data_model "notice"
    ≡ some (str "1 task(s) failed: fetch. No result was invented.")
unfolding build_run get
run-notice = refl

decimal-show : show 1207 ≡ "1207"
unfolding show
decimal-show = refl

build_run_surface-accepted_example :
    validate_surface (build_run_surface run)
    ≡ valid (record { accepted = run_components (build_run run); rejections = [] })
build_run_surface-accepted_example = build_run_surface-accepted run

build_run-resolves_example :
    All (λ c. resolves (build_run run).data_model c ≡ true) (run_components (build_run run))
build_run-resolves_example = build_run-resolves run

build_run-is_linked_example :
    All (λ c. is_linked (run_components (build_run run)) c ≡ true) (run_components (build_run run))
build_run-is_linked_example = build_run-is_linked run

-- A journal with a patch and a result.
abbrev event : ℕ → String → Option String → Dict → Event
event sequence kind node_id payload = record {
  sequence = sequence;
  kind = kind;
  node_id = node_id;
  payload = payload;
}

abbrev journal : List Event
journal =
    event 1 "run_started" none empty
    ∷ event 2 "graph_patched" none (entry "reason" (str "plan") empty)
    ∷ event 3 "task_started" (some "a") empty
    ∷ event 4 "task_succeeded" (some "a") (entry "text" (str "done") empty)
    ∷ []

abbrev later_events : List Event
later_events = event 5 "graph_patched" none (entry "reason" (str "stop") empty) ∷ []

abbrev held : ClientState
held = record {
  results = entry "a" (obj (entry "text" (str "done") empty)) empty;
  patches = entry "reason" (str "plan") (entry "trigger" null empty) ∷ [];
}

run_data_model-content_example :
    (s : ClientState) × (run_data_model journal ≡ some s)
    × (get s.results "a"
        ≡ elim (latest_result "a" journal) [ none ↦ none | some payload ↦ some (obj payload) ])
    × (s.patches ≡ map patch_entry (select is_patch journal))
run_data_model-content_example = run_data_model-content journal "a"

abbrev pending_pay : PendingAction
pending_pay = record {
  run_id = "r";
  node_id = "pay";
  summary = "Pay 5";
  params = entry "to" (str "bob") (entry "amount" (int (pos 5)) empty);
}

-- The same parameters in another order.
abbrev pay_args : Dict
pay_args = entry "amount" (int (pos 5)) (entry "to" (str "bob") empty)

pay_allowed : (decide_resume pending_pay "approve" pay_args).allowed ≡ true
unfolding decide_resume
pay_allowed = refl

widened_refused :
    (decide_resume pending_pay "approve" (entry "admin" (bool true) pay_args)).allowed ≡ false
unfolding decide_resume
widened_refused = refl

pay_distinct : (distinct pay_args ≡ true) × (distinct pending_pay.params ≡ true)
unfolding distinct
pay_distinct = (refl, refl)

approve-ne-reject : ◌≢◌ {A = String} "approve" "reject"
approve-ne-reject h = ground (arith, eq_iff "approve" "reject")

decide_resume-agree_example :
    (◌≡◌ {A = String} "approve" "approve")
    × (agree (get pay_args "amount") (get pending_pay.params "amount") ≡ true)
decide_resume-agree_example =
    decide_resume-agree pending_pay "approve" pay_args "amount" pay_distinct.0 pay_distinct.1
      pay_allowed approve-ne-reject

decide_resume-list_for_dict_example :
    (decide_resume
      (record {
        run_id = "r";
        node_id = "n";
        summary = "s";
        params = entry "p" (obj (entry "k" null empty)) empty;
      })
      "approve"
      (entry "p" (arr (cons (arr (cons (str "k") (cons null nil))) nil)) empty)).allowed
    ≡ true
decide_resume-list_for_dict_example = decide_resume-list_for_dict "r" "n" "s" "p" "k" null
