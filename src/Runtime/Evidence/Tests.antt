-- ===== src/Runtime/Evidence/Tests.antt =====
-- Runs of the worker `answer` of s13code/runtime.py on a small graph.
use s14code.Prelude.{String, ◌≡◌, refl, some, List, [], ◌∷◌}
use s14code.Json.{Json, str, arr, obj, nil, cons, Dict, empty, entry}
use s14code.Graph.Model.{NodeRow, NodeState, succeeded, failed}
use s14code.Runtime.Evidence.{answer_evidence, evidence_of}
use s14code.Runtime.Evidence.Bounded.{IsCut, answer_evidence-IsCut}

abbrev node : String → String → NodeState → Dict → NodeRow
node id skill state result = record {
  run_id = "r";
  id = id;
  skill = skill;
  input = empty;
  metadata = empty;
  state = state;
  result = some result;
}

abbrev hit : Dict
hit = entry "id" (str "c1") (
    entry "kind" (str "fact")
      (entry "text" (str "born in May") (entry "sources" (arr (cons (str "u") nil)) empty)))

abbrev nodes : List NodeRow
nodes =
    node "distill" "distiller" succeeded (entry "text" (str "a summary") empty)
    ∷ node "fetch_0" "fetch_url" failed (entry "error" (str "timed out") empty)
    ∷ node "recall" "memory_recall" succeeded (entry "hits" (arr (cons (obj hit) nil)) empty)
    ∷ node "study" "researcher" succeeded (entry "text" (str "a finding") empty)
    ∷ node "search_0" "web_search" failed (entry "error" (str "offline") empty)
    ∷ []

abbrev print : Json → String
print v = "?"

abbrev made : String → String → String → Dict
made text id kind =
    entry "text" (str text)
      (entry "sources" (arr (cons (str id) nil)) (entry "kind" (str kind) empty))

abbrev items : List Dict
items =
    hit
    ∷ made "a summary" "graph://r/distill" "role_output"
    ∷ made "timed out" "graph://r/fetch_0" "failure"
    ∷ []

-- The text of the researcher and the error of the search are not among the evidence.
evidence_ok : evidence_of print "r" nodes ≡ some items
unfolding evidence_of
evidence_ok = refl

answer_evidence-IsCut_example :
    (out : List Dict) × (answer_evidence print "r" nodes ≡ some out) × IsCut 0 items out
unfolding evidence_of
answer_evidence-IsCut_example =
    answer_evidence-IsCut print "r" nodes items evidence_ok
      (("born in May", refl), (("a summary", refl), (("timed out", refl), tt)))
