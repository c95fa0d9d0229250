-- ===== src/Graph/Model.antt =====
-- The data of s13code/core/live_graph/core.py, and the tables of store.py. A row of a table is a
-- record; a table is the list of its rows in the order of insertion.
use s14code.Prelude.{ℕ, String, Bool, true, false, ◌||◌, Option, if◌then◌else◌, List, []}
use s14code.Json.{Dict}

pub data NodeState : Type 0 where
  pending running succeeded failed cancelled waiting : NodeState

-- The value of the enumeration, as the column `state` holds it.
abbrev pub value : NodeState → String
value pending = "pending"
value running = "running"
value succeeded = "succeeded"
value failed = "failed"
value cancelled = "cancelled"
value waiting = "waiting"

abbrev pub is_pending : NodeState → Bool
is_pending pending = true
is_pending _ = false

abbrev pub is_running : NodeState → Bool
is_running running = true
is_running _ = false

abbrev pub is_waiting : NodeState → Bool
is_waiting waiting = true
is_waiting _ = false

abbrev pub is_succeeded : NodeState → Bool
is_succeeded succeeded = true
is_succeeded _ = false

abbrev pub is_cancelled : NodeState → Bool
is_cancelled cancelled = true
is_cancelled _ = false

-- `state in (PENDING, WAITING, RUNNING)`
abbrev pub is_open : NodeState → Bool
is_open s = is_pending s || is_waiting s || is_running s

pub record TaskSpec : Type 0 where
  pub id : String
  pub skill : String
  pub input : Dict
  pub metadata : Dict

pub record GraphPatch : Type 0 where
  pub add : List TaskSpec
  pub connect : List (String × String)
  pub cancel : List String
  pub wait : List String
  pub resume : List String
  pub finish : Bool
  pub reason : String

-- `GraphPatch()`
abbrev pub empty_patch : GraphPatch
empty_patch = record {
  add = [];
  connect = [];
  cancel = [];
  wait = [];
  resume = [];
  finish = false;
  reason = "";
}

pub record Event : Type 0 where
  pub sequence : ℕ
  pub kind : String
  pub node_id : Option String
  pub payload : Dict

-- A row of `runs`, `nodes`, `edges`, `events` and `patches`.
pub record RunRow : Type 0 where
  pub id : String
  pub finished : Bool
  pub context : Dict

pub record NodeRow : Type 0 where
  pub run_id : String
  pub id : String
  pub skill : String
  pub input : Dict
  pub metadata : Dict
  pub state : NodeState
  pub result : Option Dict

pub record EdgeRow : Type 0 where
  pub run_id : String
  pub parent_id : String
  pub child_id : String

pub record EventRow : Type 0 where
  pub run_id : String
  pub event : Event

pub record PatchRow : Type 0 where
  pub run_id : String
  pub trigger_event : ℕ
  pub patch : Dict

-- The database of a `GraphStore`. `last_sequence` is the counter of AUTOINCREMENT.
pub record GraphDb : Type 0 where
  pub runs : List RunRow
  pub nodes : List NodeRow
  pub edges : List EdgeRow
  pub events : List EventRow
  pub patches : List PatchRow
  pub last_sequence : ℕ

abbrev pub empty_db : GraphDb
empty_db = record {
  runs = [];
  nodes = [];
  edges = [];
  events = [];
  patches = [];
  last_sequence = 0;
}

-- `GraphSnapshot.nodes` is a dict in the order of its ids: the rows in that order.
pub record GraphSnapshot : Type 0 where
  pub run_id : String
  pub finished : Bool
  pub nodes : List NodeRow
  pub edges : List (String × String)

-- What the methods raise: `KeyError`, `GraphMutationError` by its message, the foreign key of
-- SQLite, and `RuntimeError` of the executor.
pub data GraphError : Type 0 where
  unknown_run : GraphError
  unknown_node : String → GraphError
  not_running : String → GraphError
  finished_graph : GraphError
  duplicate_task : GraphError
  unknown_edge : String → String → GraphError
  self_dependency : GraphError
  unknown_task : String → GraphError
  cannot_cancel : String → NodeState → GraphError
  cannot_wait : String → GraphError
  cannot_resume : String → GraphError
  dependency_cycle : GraphError
  foreign_key : GraphError

pub data Result {ℓ} (A : Type ℓ) : Type ℓ where
  raise : GraphError → Result A
  ok : A → Result A

-- `if not b: raise e`
abbrev pub guard : Bool → GraphError → Result (Unit {0})
guard b e = if b then ok tt else raise e

infixl 5 ◌>>=◌ ◌>>◌
abbrev pub ◌>>=◌ {κ μ} :
    {Early : Type κ} {Late : Type μ} → Result Early → (Early → Result Late) → Result Late
raise e >>= rest = raise e
ok early >>= rest = rest early

abbrev pub ◌>>◌ {μ} : {Late : Type μ} → Result (Unit {0}) → Result Late → Result Late
first >> second = first >>= λ _. second
