-- ===== src/Pipeline/Run.antt =====
-- `_run` and `_persist` of finiexragengine/core/pipeline/pipeline_runner.py: the envelope of one pass,
-- its episodes and its place in the journal. The pass starts from what the ingest pass and the census of
-- the sources returned: one of them that raises ends the pass without an envelope, and so does an
-- evaluation that fails with another error than a `FiniexRagError`; neither is modelled.
pub mod Complete
pub mod Status
pub mod Journal
pub mod Quiet
pub mod Coherent
use finiex_ragengine.Prelude.{
  ℕ, ◌+◌, ◌++◌, String, Bool, true, false, Option, none, some, List, [], ◌∷◌, length, if◌then◌else◌,
  contains, str_eq, ◌||◌,
}
use finiex_ragengine.Prelude.Dict
use finiex_ragengine.Prelude.Dict.{Dict}
use finiex_ragengine.Prelude.Sort.{sort_by}
use finiex_ragengine.Errors.{Fallible}
use finiex_ragengine.Outcome.{
  RunError, RunMetadata, RetrievalFunnel, AnalysisEnvelope, EpisodeUpsert,
}
use finiex_ragengine.Breaking.Tracker.{BreakingEpisodeTracker, BreakingPass, observe_envelope}
use finiex_ragengine.Stream.Store.{Db, SaveStep, Saved, save}
use finiex_ragengine.Pipeline.OutputGuard.{PyText}
use finiex_ragengine.Pipeline.Messages.{not_persisted, joined}
use finiex_ragengine.Pipeline.Evaluator.{SymbolEval}
use finiex_ragengine.Pipeline.Runner.{
  PipelineConfig, PromptMetadata, active_symbols, group_by_query, IngestResult, ReachCensus, error,
  fetch_errors, reach_errors, PassRows, eval_groups, derive_status,
}

-- What a runner is built with. Without a store nothing is persisted.
pub record PipelineRunner : Type 0 where
  pub config : PipelineConfig
  pub prompt_metadata : PromptMetadata
  pub config_fingerprint : String
  pub llm_model : String
  pub episodes : BreakingEpisodeTracker
  pub outcome_store : Option Db

-- What one pass reads and what it asks for.
pub record PassInputs : Type 0 where
  pub py : PyText
  pub utc_stamp : ℕ → String
  pub to_json : Dict String → String
  pub ingest : IngestResult
  pub census : ReachCensus
  pub evaluate : String → String → Fallible SymbolEval
  pub reason : String
  pub timestamp : ℕ
  pub identity : Option String
  pub now_msc : ℕ
  -- the step at which the store fails, and the text of its `VectorStoreError`
  pub fault : Option (SaveStep × String)

pub record PipelineRunResult : Type 0 where
  pub envelope : AnalysisEnvelope
  pub breaking : BreakingPass

unfoldable pub source_errors : PassInputs → List RunError
unfolding fetch_errors reach_errors
source_errors io =
    fetch_errors io.ingest.failed_sources
    ++ reach_errors io.ingest.failed_sources io.census.unreached

unfoldable pub pass_rows : PipelineRunner → PassInputs → PassRows
unfolding source_errors active_symbols group_by_query eval_groups
pass_rows runner io =
    eval_groups io.py runner.config.output_guard io.evaluate
      (group_by_query (active_symbols runner.config))
      (record { errors = source_errors io; results = []; evals = []; per_symbol_tokens = [] })

unfoldable pub sum_evals : (SymbolEval → ℕ) → List SymbolEval → ℕ
sum_evals f [] = 0
sum_evals f (ev ∷ evs) = f ev + sum_evals f evs

-- {ev.model_snapshot for ev in evals if ev.model_snapshot}
unfoldable pub snapshots_of : List SymbolEval → List String
unfolding contains
snapshots_of [] = []
snapshots_of (ev ∷ evs) =
    let rest = snapshots_of evs in
    if str_eq ev.model_snapshot "" || contains rest ev.model_snapshot
    then rest
    else ev.model_snapshot ∷ rest

abbrev pub put_some {ℓ} : {A : Type ℓ} → Dict A → String → Option A → Dict A
put_some d k none = d
put_some d k (some v) = Dict.put d k v

unfoldable pub retrieval_by_symbol : Dict RetrievalFunnel → List SymbolEval → Dict RetrievalFunnel
retrieval_by_symbol d [] = d
retrieval_by_symbol d (ev ∷ evs) =
    retrieval_by_symbol (put_some d ev.result.symbol ev.retrieval) evs

unfoldable pub raw_by_symbol : Dict String → List SymbolEval → Dict String
raw_by_symbol d [] = d
raw_by_symbol d (ev ∷ evs) =
    raw_by_symbol (if str_eq ev.raw_output "" then d else Dict.put d ev.result.symbol ev.raw_output)
      evs

-- `raw_output or None`
abbrev pub raw_or_none : (Dict String → String) → Dict String → Option String
raw_or_none to_json [] = none
raw_or_none to_json (x ∷ d) = some (to_json (x ∷ d))

unfoldable pub metadata_of : PipelineRunner → PassInputs → PassRows → RunMetadata
unfolding sum_evals snapshots_of retrieval_by_symbol joined
metadata_of runner io s = record {
  model = runner.llm_model;
  model_snapshot = joined ", " (sort_by io.py.str_le (snapshots_of s.evals));
  sources_configured = io.census.configured;
  sources_reached = io.census.reached;
  articles_found = io.ingest.fetched;
  articles_relevant = sum_evals (λ ev. length ev.articles) s.evals;
  prompt_tokens = sum_evals (λ ev. ev.usage.prompt_tokens) s.evals;
  completion_tokens = sum_evals (λ ev. ev.usage.completion_tokens) s.evals;
  per_symbol_tokens = s.per_symbol_tokens;
  per_symbol_retrieval = retrieval_by_symbol [] s.evals;
  variant_group = runner.config.variant_group;
  variant = runner.config.variant;
}

unfoldable pub envelope_of : PipelineRunner → PassInputs → PassRows → AnalysisEnvelope
unfolding metadata_of derive_status
envelope_of runner io s = record {
  seq = none;
  stream_epoch = none;
  pipeline_id = runner.config.pipeline_id;
  outcome_type = runner.config.outcome_type;
  instance_id = "";
  config_fingerprint = runner.config_fingerprint;
  prompt_version = runner.prompt_metadata.version;
  prompt_id = runner.prompt_metadata.id;
  prompt_hash = runner.prompt_metadata.content_hash;
  trigger_reason = io.reason;
  timestamp = io.timestamp;
  available_msc = none;
  available_msc_resyncs = none;
  available_msc_max_correction_ms = none;
  status = derive_status s.errors s.evals;
  result = s.results;
  metadata = metadata_of runner io s;
  errors = s.errors;
}

-- What `_persist` does to the envelope when `save` raises.
unfoldable pub degrade_unsaved : String → AnalysisEnvelope → AnalysisEnvelope
unfolding error not_persisted
degrade_unsaved text envelope = record envelope {
  errors = envelope.errors ++ error "VECTOR_STORE_ERROR" (not_persisted text) ∷ [];
  status = if str_eq envelope.status "success" then "partial" else envelope.status;
}

-- The store after `save`, and the envelope that is served.
unfoldable pub after_save : Saved → Option (SaveStep × String) → Option Db × AnalysisEnvelope
unfolding degrade_unsaved
after_save saved none = (some saved.db, saved.envelope)
after_save saved (some (step, text)) = (some saved.db, degrade_unsaved text saved.envelope)

abbrev pub fault_step : Option (SaveStep × String) → Option SaveStep
fault_step none = none
fault_step (some (step, text)) = some step

unfoldable pub persist :
    Option Db
    → PassInputs
    → AnalysisEnvelope
    → List SymbolEval
    → List EpisodeUpsert
    → Option Db × AnalysisEnvelope
unfolding after_save raw_by_symbol
persist none io envelope evals episodes = (none, envelope)
persist (some db) io envelope evals episodes =
    let raw_output = raw_or_none io.to_json (raw_by_symbol [] evals) in
    after_save (save db io.identity envelope raw_output episodes io.now_msc (fault_step io.fault))
      io.fault

-- `_run`: the runner with its tracker and store moved on, and the result.
unfoldable pub run : PipelineRunner → PassInputs → PipelineRunner × PipelineRunResult
unfolding pass_rows envelope_of persist
run runner io =
    let s = pass_rows runner io in
    let (episodes, breaking, stamped) =
      observe_envelope io.utc_stamp runner.episodes (envelope_of runner io s) in
    let (store, envelope) = persist runner.outcome_store io stamped s.evals breaking.episodes in
    (
      record runner { episodes = episodes; outcome_store = store },
      record { envelope = envelope; breaking = breaking },
    )
