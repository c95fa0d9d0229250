-- ===== src/Planner/Tests.antt =====
-- Runs of s13code/planner.py on concrete replies.
use s14code.Prelude.{◌≡◌, refl, none, some, [], ◌∷◌}
use s14code.Json.{str, arr, obj, nil, cons, empty, entry, get}
use s14code.Graph.Model.{GraphPatch, empty_patch}
use s14code.Planner.{is_id, parse_patch, non_browser_roles}
use s14code.Planner.Sound.{IsProposal, parse_patch-IsProposal}
use s14code.Planner.Complete.{proposal_json, parse_patch-proposal_json}

-- {"add": [{"id": "look", "role": "researcher", "input": {}, "metadata": {"agent": "researcher"}}],
--  "connect": [["look", "tell"]], "reason": "search first"}
abbrev proposal : GraphPatch
proposal = record empty_patch {
  add =
      record {
        id = "look";
        skill = "researcher";
        input = empty;
        metadata = entry "agent" (str "researcher") empty;
      }
      ∷ [];
  connect = ("look", "tell") ∷ [];
  reason = "search first";
}

proposal_ok : parse_patch non_browser_roles (proposal_json proposal) ≡ some proposal
unfolding parse_patch
proposal_ok = refl

proposal-IsProposal : IsProposal non_browser_roles proposal
unfolding is_id get
proposal-IsProposal = record {
  tasks = (record { named = refl; has_role = refl; agent = refl }, tt);
  edges = ((refl, refl), tt);
  cancels = tt;
  waits = tt;
  resumes = tt;
}

-- A tool in place of a role, and an id with a blank.
tool_refused :
    parse_patch non_browser_roles (
      obj (
        entry "add"
          (arr (cons (obj (entry "id" (str "x") (entry "role" (str "shell") empty))) nil))
          empty))
    ≡ none
unfolding parse_patch
tool_refused = refl

blank_refused :
    parse_patch non_browser_roles (obj (entry "cancel" (arr (cons (str "a b") nil)) empty)) ≡ none
unfolding parse_patch
blank_refused = refl

parse_patch-IsProposal_example : IsProposal non_browser_roles proposal
parse_patch-IsProposal_example =
    parse_patch-IsProposal non_browser_roles (proposal_json proposal) proposal proposal_ok

parse_patch-proposal_json_example :
    parse_patch non_browser_roles (proposal_json proposal) ≡ some proposal
parse_patch-proposal_json_example =
    parse_patch-proposal_json non_browser_roles proposal proposal-IsProposal
