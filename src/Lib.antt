-- ===== src/Lib.antt =====
-- A verification library for FiniexRAGEngine's core: the acquisition of articles with the health of
-- their sources, retrieval, the pass of a pipeline, breaking detection, episodes and stories, the numbered
-- journal of outcomes, the stream that serves it, the schema's migrations, and the guards over spending
-- and stalled workers.
--
-- An acquisition pass (Ingest) asks the store of the sources' health (Health) whom to poll, stores what
-- is new and has it examined for breaking stories (Breaking).
-- A pass of a pipeline (Pipeline) groups the active symbols by their query, retrieves the context of
-- each (Retrieval), asks the model, guards the row and yields an envelope (Outcome, from
-- finiexragengine/types/outcome_types.py). The episode tracker folds it into its open stories and stamps
-- their identity on its rows (Breaking); the outcome store numbers and stores it together with the rows
-- of the episode registry (Stream.Store, Stream.Sequencer); a connecting consumer is served from the
-- journal (Stream.Replay) and then from a queue that the tail of the journal fills (Stream.Dispatcher,
-- Stream.Session).
--
-- Prelude holds the shared names: lists, Boolean tests, a Python dict as an association list, signed
-- numbers, a stable sort. Errors is exceptions/ragengine_errors.py with a result type for what raises.
-- Retrieval/Corpus is types/article_types.py, `query` of core/rag/pgvector_store.py and `_cosine`.
-- Retrieval/Retriever is core/rag/retriever.py: `retrieve` keeps its name, `_squeeze` is `squeeze` with
--   its loop `squeeze_from` and loop body `squeeze_one`, `_rank_key` is the order `rank_le`. Kept, Dropped,
--   Ranking, Search, Admitted and Funnel are proofs about it.
-- Pipeline/Contract is core/pipeline/envelope_contract.py, Pipeline/OutputGuard is output_guard.py,
--   Pipeline/Evaluator is symbol_evaluator.py.
-- Pipeline/Runner, Pipeline/Messages and Pipeline/Run are core/pipeline/pipeline_runner.py:
--   `_group_by_query` is `group_by_query`, the loop over the groups `eval_groups` with its body
--   `take_eval`, `_persist` is `persist`, `_run` is `run`. Groups and Rows are proofs about the loop;
--   Complete, Status, Journal, Quiet and Coherent about the whole pass.
-- Breaking/Detector is core/pipeline/breaking_detector.py: `detect` keeps its name, its loop body is
--   `detect_one`, `_tier` is `tier_of`. Flags is the proof about it.
-- Breaking/StoryRule is core/pipeline/breaking_story_rule.py: `assign_stories`, `find` and `union` keep
--   their names, `_vectors` is `vectors`, `_cosine` is `cosine_of`. Chains, Roots, Linked, Ids and Stories
--   are proofs about it: Roots on the union-find, Linked on the double loop, Ids on the numbering.
-- Breaking/Preflight is core/pipeline/detection_preflight.py with the properties of
--   `DetectionReachability`, all under their names; Silence is the proof about it.
-- Timeframe is utils/timeframe.py; Boundary is the proof about it.
-- Breaking/EpisodeRule is core/pipeline/breaking_episode_rule.py: `observe` there is `observe`, in two
--   parts, `close_expired` and `decide`; the state is the record `BreakingEpisodeRule`. Keys, Gap and
--   Hold are proofs about it.
-- Breaking/Tracker and Breaking/EpisodeId are core/pipeline/breaking_episode.py: `observe` is
--   `observe_envelope`, its loop body `observe_result`; `seed` is `seed`. Agreement, Rows and Identity
--   are proofs about it.
-- Breaking/Bus is core/pipeline/breaking_bus.py: `publish` and `notify` keep their names, `subscribe`
--   is `subscribe_bus`.
-- Stream/Types is types/stream_types.py.
-- Stream/Sequencer is core/outcome/stream_sequencer.py: `mint`, `reconcile` and `_reconcile_one` keep
--   their names. Clamp and Rewind are proofs about it.
-- Stream/Store is core/outcome/outcome_store.py and episode_registry.py: `save`, `stream_head`,
--   `envelopes_by_seq`, `oldest_seq_since` and `upsert` keep their names. Gapless, Reads, Window, Registry
--   and Rejournal are proofs about it.
-- Stream/Replay is core/outcome/stream_replay.py: `plan`, `_from_cursor` and `_recent` keep their
--   names. Cursor and History are proofs about it.
-- Stream/Dispatcher is core/outcome/stream_dispatcher.py: `_advance` is `advance`, its loop `tail_loop`
--   with `round`; `_fan_out` is `fan_out`. Room, Tail and Rejoin are proofs about it.
-- Stream/Session is core/outcome/stream_session.py: `frames` and `_live` (`live_frames`). Once, Refused and
--   Connect are proofs about it.
-- Guard/Budget is core/observability/budget_guard.py; Probes and Warnings are proofs about it.
-- Schema is core/schema/migration_runner.py and schema_guard.py: `discover`, `apply` and
--   `verify_schema_current` keep their names, `status` is `migration_status`. Ledger, Runs, Current and
--   Passes are proofs about it.
-- Ingest, Ingest/Books and Ingest/Accounting are core/pipeline/ingestor.py: `run` is `run_ingest`,
--   `_run_pass` is `run_pass` with its loop `account_all`, `_plan_pass` is `plan_pass`. It calls Health
--   for the polls and Breaking/Detector for the flags. Polls, Reported, Saved, Safe and Kept are proofs
--   about it.
-- Health and Health/Passes are core/observability/source_health_store.py: `_apply_flag`, `should_poll`,
--   `record_success`, `record_failure` and `_resolve_pass` keep their names, less an underscore;
--   `pass_scope` is `begin_pass` and `end_pass`. Health/Boot is its construction with `_load_quarantines`.
--   Ladder, Outage, Memory, Flags and Restart are proofs about it. The reporting columns are left out.
-- Guard/Watchdog is core/observability/stall_watchdog.py: `check` with its loop body `check_worker`;
--   Status, Due, Look and Speaks are proofs about it.
-- Examples runs the definitions and the theorems on concrete data.
--
-- State is passed explicitly: an operation that mutates an object returns the new one. Instants are
-- natural numbers of microseconds (milliseconds in `available_msc`); urgency and confidence are only
-- compared, so each is its place in that order. The database is a record of its tables, a statement of
-- SQL a function on them, and a failure an argument that names the step that raises. That a
-- transaction is atomic and that its row lock orders the transactions of one stream is documented
-- behaviour of PostgreSQL. Every loop is structural recursion on the list that the source
-- iterates, except the tail's and the search for a root, which run on fuel. For a root the number of
-- candidates is enough, as every step moves to a smaller index. For the tail more than the distance from
-- the cursor to the head is enough, as every round but the last moves the cursor.
--
-- What a pass asks of the model is a function of the symbol and the query, as no query is asked twice in
-- one pass. Floats are compared only, so each is its place in their order, except in `cosine`, whose
-- arithmetic is an argument.
--
-- Not modelled: network access, feed parsing, the language model and the index of the vector search, the
-- configuration's validation and merge, reports, display, the HTTP surface and the
-- command line.
pub mod Prelude
pub mod Errors
pub mod Outcome
pub mod Retrieval
pub mod Pipeline
pub mod Breaking
pub mod Stream
pub mod Guard
pub mod Timeframe
pub mod Health
pub mod Schema
pub mod Ingest
pub mod Examples
