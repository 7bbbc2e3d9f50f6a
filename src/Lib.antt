-- ===== src/Lib.antt =====
-- gddp-runtime: a runtime that dispatches the nodes of a project graph to executors and verifies what
-- comes back. This library models its two cores.
--
-- Verification (scripts/runtime/verification): a run gathers evidence without a model
-- (deterministic/, in Verification/Deterministic), asks the semantic lane where the evidence leaves
-- criteria unsettled, decides a verdict by a matrix of twelve rows (decision_engine.py, in
-- Verification/Context, Signals and Matrix), takes the worse of that verdict and the integrity lane's
-- (integrity_combiner.py, in Verification/Combiner), rates what the lanes read and writes a receipt
-- (orchestrator.py, in Verification/Coverage and Orchestrator; the receipt of schemas.py in
-- Verification/Schemas and Receipt). A stored receipt counts for one job only (admission.py, in
-- Verification/Admission), and a verdict may send a node back (retry_budget.py, in
-- Verification/Retry).
--
-- Heartbeat (scripts/runtime/heartbeat): a tick
--   * turns unblocked nodes ready and writes an event for each (frontier.py: the first pass in
--     Heartbeat/Frontier, the second in Heartbeat/Bootstrap), while the tokens that open a node's
--     dependencies are repaired (scripts/runtime/gate_tokens.py, in Heartbeat/Gates);
--   * plans the pending events (runner.py, in Heartbeat/Planning): it claims an event
--     (Heartbeat/Claims), classifies it to a ready node (classifier.py, in Heartbeat/Classifier;
--     Handover joins it to the frontier), finds the commit to start from (Heartbeat/Chaining), and, under
--     the capacity and the gate of scope_checker.py (Heartbeat/Scope), builds a job (job_factory.py,
--     in Heartbeat/Jobs) and reserves a session for it;
--   * groups what it planned (Heartbeat/Dispatching, sized by graph_reader.py in Heartbeat/Graph and
--     Policy), dispatches the groups and records the outcomes (Heartbeat/Recording).
-- Jobs, queue and executor sessions are rows in SQLite (state_recorder.py, in Heartbeat/Recorder,
-- Sessions and Recovery; the tables of scripts/init_db.py in Heartbeat/Store). What executors return
-- is compared (completion_discipline.py, in Heartbeat/Completion), a good verdict makes a node
-- provisional (provisional_status.py, in Heartbeat/Provisional), an operator may adopt a commit
-- (adoption.py, in Heartbeat/Adoption), and a turn resumes a session or starts afresh
-- (continuity_policy.py, in Heartbeat/Continuity). A reviewed result that the operator rejects is tried
-- again (scripts/runtime/return_router.py, in Heartbeat/Returns), and a merged pull request becomes a
-- result of its job (return_router.py and results_store.py, in Heartbeat/Merges).
--
-- A definition has the name of the Python function, method or class that it models, and its `--`
-- comment gives the private name where that differs. A table is the list of its rows, and a write is
-- a function on the database. An exception is an `err`, a missing value is `none`, and a dictionary is
-- the list of its items. Almost all loops run over lists and are structural. Fuel is used for the
-- digits of a number (Prelude/Decimal), which get as many rounds as the number itself, and for the
-- slices of a list of dispatches (Heartbeat/Dispatching), which get as many rounds as the list is long;
-- a slice takes at least one.
--
-- Floats are the interface FloatOps of Prelude/Floats, with the order and range laws of the floats
-- that are not NaN; percentages are an instance. Parameters stand for what is not in the repository or
-- is not modelled: the two harnesses that ask a model, what git, the files, the clock and the generator
-- of identifiers answer (Sources, GateHost, AdoptionHost, TurnHost, ReturnHost, MergeHost),
-- which writes of the graph files succeed (GraphWrites), the order of texts, the language's tables of word characters, small letters and quotations, the status
-- rewriters of the graph checkout (NodeCli, with the law that they keep a file's gate and dependencies)
-- and, in the planning, what handle_merged_pr leaves. Probes and constraint scans, which run
-- subprocesses, enter as the checks that they return, and the dispatch of a group as its results.
--
-- Not modelled: the reconciler, the dispatcher and the executor adapters, which drive processes and
-- git; the prompts and harnesses of the models; the decisions of the orchestrator; the decision
-- results; and the command-line tools.
--
-- Prelude holds the shared names and lemmas. Tests hold the theorems at concrete inputs.
pub mod Prelude
pub mod Verification
pub mod Heartbeat
pub mod Tests
