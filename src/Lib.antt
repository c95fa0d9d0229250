-- ===== src/Lib.antt =====
-- S14Code runs agents over a durable task graph and shows their work on surfaces that a client
-- draws. Modelled are the live graph (s13code/core/live_graph), where a planner changes a graph
-- by patches and an executor runs its tasks, and the injection wall (s13code/ui), which each
-- surface passes before a client draws it, with what stands around it: the surface that the
-- service builds from a graph, the stream of AG-UI events, and the approval of a parked action.
-- Two smaller parts are the parser that stands between a model and the graph (s13code/planner.py)
-- and the records of the memory (s13code/core/memory).
--
-- Prelude names the numbers, lists, options and texts of the other modules, with Prelude.Tests
-- (Boolean tests), Prelude.Lists (list functions) and Prelude.Texts (concatenation, decimal
-- numbers). Json is the JSON values that the source keeps in columns and surfaces, with dicts in
-- the order of their keys' insertion. Sorting is the stable sort of ORDER BY and `sorted`.
--
-- Graph is s13code/core/live_graph:
--
--   Graph.Model: the data of core.py (NodeState, TaskSpec, GraphPatch, Event, GraphSnapshot) and
--     the tables of store.py, a table being the list of its rows in the order of insertion.
--
--   Graph.Store: the methods of GraphStore but `apply_patch`, each from a database to its result
--     and the new database. An exception is `raise`, and rolls the transaction back.
--
--   Graph.Cycle: `_has_cycle`. `active` and `seen` are lists of ids.
--
--   Graph.Patch: `apply_patch`, cut into its checks, its inserts, its changes of state and its
--     log.
--
--   Graph.Executor: `LiveGraphExecutor` of core.py. The planner is a function of the snapshot
--     and the event. The batches in which workers end, and their results, are a list that the
--     loop takes: each list is one schedule of the event loop.
--
--   Graph.Invariant: the methods as steps of a relation, and the databases that they reach.
--     Graph.Journal, Graph.Ready, Graph.Once and Graph.Attempts are about the journal, `ready`,
--     the patch of an event, and the states after `resume` and `record_outcome`.
--
-- Ui is s13code/ui:
--
--   Ui.Catalog: catalog.py. Ui.Patterns: the regular expressions of validator.py as recognisers
--     over code points. Ui.Validator: its `validate_surface`, with what it asks of a component
--     said on its own in Ui.Validator.Admitted, that this is what it checks in
--     Ui.Validator.Passed, and the surface in Ui.Validator.Wall.
--
--   Ui.Surface: surface.py, over the GraphSnapshot of Graph.Model.
--
--   Ui.Hitl: hitl.py. Two canonical forms are compared as Python compares tuples, so True is 1.
--
--   Ui.Agui: agui.py. The fold of a client is `none` where Python raises.
--
-- Planner is s13code/planner.py: `_parse` over the value that json.loads gives, with `none` for
-- each exception, Planner.Sound on what a parsed patch holds, Planner.Complete on the JSON of a
-- proposal.
--
-- Memory is s13code/core/memory/store.py and models.py: who may write a record, what a write
-- supersedes, its audit record, and the rows that `recall` may return. The rows are those that
-- the connection sees: a write whose audit record is refused raises, and its record stays in the
-- open transaction. The order of the scores is an argument, since scores are floats of an
-- embedding. Memory.Governed is about writes, Memory.Recall about reads. Memory.Documents is
-- `ingest_document`: its rows, its transaction and its hash, which is an argument; one time
-- stands for the times that the source reads for the rows of one call. Memory.Neighbours is
-- `expand_neighbors` of `recall`, whose exceptions are `none`; Python's `int` of a text and
-- SQLite's text of a list or an object are arguments.
--
-- Chunking is s13code/core/memory/chunking.py over code points: Chunking.Words (strip, find,
-- words), Chunking.Markdown (headings, fences, tables and the prepared page), Chunking.Segments
-- (semantic_chunks). The segmenter is an argument that gives a text or raises, and the word
-- budget is positive. Chunking.Pieces, Chunking.Ends and Chunking.Cut are about texts, the ends
-- of blocks and one turn of the loop, Chunking.Cover about the whole.
--
-- A2a is s13code/core/a2a_adapter/server.py: the tasks in memory and in the table, each with the
-- place where its call or job stands. A2a.Calls has the methods, cut where they await; A2a.Steps
-- puts the parts together in any order, with restarts; A2a.Rpc is the dispatch of one call that
-- nothing interrupts; A2a.Push is the retried notification with its ledger. The handler, the ids,
-- the times, the hashes and what a post gives are arguments. A2a.Mirror is about the table,
-- A2a.Final about tasks that have ended.
--
-- Runtime is the deterministic planner in s13code/runtime.py, over the rows of a snapshot of the
-- live graph: Runtime.Nodes (what it reads), Runtime.Rules and Runtime.Work (its rules in their
-- order, and `plan`). The mode, the first tasks and `_slug` are arguments. Its patches are
-- GraphPatch values, which Graph.Patch applies. Runtime.Tasks, Runtime.Holds, Runtime.Growth and
-- Runtime.Ending are about the patches. Runtime.Recalled is the worker `recall`, which asks
-- Memory's `recall` and leaves out the records of its own run (Runtime.Recalled.Diverse is about
-- it); its query is read as ASCII. Runtime.Evidence is what the worker `answer` gathers from the
-- nodes of a snapshot and cuts for its prompt (Runtime.Evidence.Bounded is about the cut).
--
-- Bounds. The cycle search recurses on fuel, one more than the number of edges, since a call
-- below another either meets a known node or a node that is a parent not yet seen. The chunker's
-- loop has one turn more than the document has code points, since each turn moves on; its search
-- for the top of a table has as many turns as the end of the block, since each row starts before
-- the next. Python's limit on the depth of recursion is not modelled, nor is the 64-bit limit of
-- SQLite's row ids. The loop of the executor recurses on its list of batches. A number is written
-- in decimal on fuel one above it. Where the source's `capacity` is negative the model's is 0;
-- neither launches a task.
--
-- Not modelled: SQLite itself (the SQL is read as operations on lists; where SQL leaves an order
-- open, the order of the rows is taken), the coroutines of the workers, floats in JSON, and the
-- parts of the repository that call models and the network: the A2A client and its gRPC bindings,
-- the workers of the runtime other than those above, the HTTP routes and the scripts.
pub mod Prelude
pub mod Json
pub mod Sorting
pub mod Graph
pub mod Ui
pub mod Planner
pub mod Memory
pub mod Chunking
pub mod A2a
pub mod Runtime
