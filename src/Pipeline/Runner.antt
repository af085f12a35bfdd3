-- ===== src/Pipeline/Runner.antt =====
-- finiexragengine/core/pipeline/pipeline_runner.py, with `SymbolSpec` and `PipelineConfig` of
-- types/config_types/pipeline_config_types.py and the ingest's report of types/ingest_types.py.
-- `evaluate` is asked once for each query of a pass; clocks, the cost and the texts of floats are
-- arguments.
pub mod Groups
pub mod Rows
use finiex_ragengine.Prelude.{
  ℕ, ◌+◌, ◌++◌, String, Bool, true, false, not, ◌||◌, ◌&&◌, Option, none, some, List, [], ◌∷◌, map,
  length, keep_if, is_some, if◌then◌else◌, str_eq,
}
use finiex_ragengine.Prelude.Dict
use finiex_ragengine.Prelude.Dict.{Dict}
use finiex_ragengine.Errors.{FiniexRagError, Fallible, gives, raises}
use finiex_ragengine.Outcome.{
  SentimentResult, RunError, RunMetadata, RetrievalFunnel, AnalysisEnvelope, EpisodeUpsert,
}
use finiex_ragengine.Breaking.EpisodeRule.{or_else}
use finiex_ragengine.Breaking.Tracker.{BreakingEpisodeTracker, BreakingPass, observe_envelope}
use finiex_ragengine.Stream.Store.{Db, SaveStep, Saved, save}
use finiex_ragengine.Pipeline.Contract.{taxonomy_type, degraded_row}
use finiex_ragengine.Pipeline.OutputGuard.{OutputGuardConfig, PyText, GuardViolation, violations}
use finiex_ragengine.Pipeline.Messages.{
  about, analysis_degraded, guard_detail, guard_degraded, not_persisted,
}
use finiex_ragengine.Pipeline.Evaluator.{SymbolEval, total_tokens}

pub record SymbolSpec : Type 0 where
  pub key : String
  pub base : String
  pub quote : String
  pub query : Option String
  pub enabled : Bool

unfoldable pub retrieval_query : SymbolSpec → String
unfolding or_else
retrieval_query spec = or_else spec.query spec.key

-- The fields of the configuration and of the prompt's metadata that the runner reads.
pub record PipelineConfig : Type 0 where
  pub pipeline_id : String
  pub outcome_type : String
  pub symbols : List SymbolSpec
  pub output_guard : OutputGuardConfig
  pub variant_group : Option String
  pub variant : Option String

pub record PromptMetadata : Type 0 where
  pub id : String
  pub version : String
  pub content_hash : String

unfoldable pub active_symbols : PipelineConfig → List SymbolSpec
unfolding keep_if
active_symbols config = keep_if (λ (spec : SymbolSpec). spec.enabled) config.symbols

-- One query's symbols: the canonical one, which is evaluated, and the others.
pub record Group : Type 0 where
  pub canonical : SymbolSpec
  pub others : List SymbolSpec

abbrev pub members : Group → List SymbolSpec
members g = g.canonical ∷ g.others

-- groups.setdefault(query, []).append(spec)
abbrev pub join : SymbolSpec → Option Group → Group
join spec none = record { canonical = spec; others = [] }
join spec (some g) = record g { others = g.others ++ spec ∷ [] }

unfoldable pub group_from : Dict Group → List SymbolSpec → Dict Group
unfolding retrieval_query
group_from groups [] = groups
group_from groups (spec ∷ specs) =
    let q = retrieval_query spec in
    group_from (Dict.put groups q (join spec (Dict.get groups q))) specs

unfoldable pub group_by_query : List SymbolSpec → Dict Group
unfolding group_from
group_by_query specs = group_from [] specs

-- What an ingest reports, and the reach of the source set.
pub record IngestResult : Type 0 where
  pub fetched : ℕ
  pub failed_sources : Dict String

pub record UnreachedSource : Type 0 where
  pub source_id : String
  pub reason : String

pub record ReachCensus : Type 0 where
  pub configured : ℕ
  pub reached : ℕ
  pub unreached : List UnreachedSource

unfoldable pub error : String → String → RunError
error error_type message = record { error_type = error_type; message = message }

unfoldable pub fetch_errors : Dict String → List RunError
unfolding error about
fetch_errors [] = []
fetch_errors ((source_id, message) ∷ d) =
    error "SOURCE_UNREACHABLE" (about source_id message) ∷ fetch_errors d

unfoldable pub reach_errors : Dict String → List UnreachedSource → List RunError
unfolding error about
reach_errors failed [] = []
reach_errors failed (entry ∷ entries) =
    let rest = reach_errors failed entries in
    if Dict.has failed entry.source_id
    then rest
    else error "SOURCE_UNREACHABLE" (about entry.source_id entry.reason) ∷ rest

-- What the loop over the groups carries.
pub record PassRows : Type 0 where
  pub errors : List RunError
  pub results : List SentimentResult
  pub evals : List SymbolEval
  pub per_symbol_tokens : Dict ℕ

unfoldable pub stamp : SentimentResult → SymbolSpec → SentimentResult
stamp result spec = record result {
  base_currency = some spec.base;
  quote_currency = some spec.quote;
}

unfoldable pub fan : SentimentResult → SymbolSpec → SentimentResult
fan result spec = record result {
  symbol = spec.key;
  base_currency = some spec.base;
  quote_currency = some spec.quote;
}

-- One error and one contract row for each symbol of the group; `detail` follows the symbol's name.
unfoldable pub degrade : String → String → String → List SymbolSpec → PassRows → PassRows
unfolding error about stamp
degrade error_type detail reasoning [] s = s
degrade error_type detail reasoning (spec ∷ specs) s =
    degrade error_type detail reasoning specs (record s {
      errors = s.errors ++ error error_type (about spec.key detail) ∷ [];
      results = s.results ++ stamp (degraded_row spec.key reasoning) spec ∷ [];
    })

-- An analysis that the guard found coherent (no violation), or not.
unfoldable pub accept : List GuardViolation → SymbolEval → List SymbolSpec → PassRows → PassRows
unfolding degrade fan guard_detail guard_degraded
accept [] ev specs s = record s { results = s.results ++ map (fan ev.result) specs }
accept (v ∷ vs) ev specs s =
    degrade "PARTIAL_RESPONSE" (guard_detail (v ∷ vs)) (guard_degraded (v ∷ vs)) specs s

module _ (py : PyText) (guard : OutputGuardConfig) where
  -- What the loop body does with the analysis or its failure.
  unfoldable pub take_eval : Fallible SymbolEval → Group → PassRows → PassRows
  unfolding degrade accept taxonomy_type violations total_tokens analysis_degraded
  take_eval (raises exc) g s =
      let error_type = taxonomy_type exc in
      degrade error_type exc.text (analysis_degraded error_type) (members g) s
  take_eval (gives ev) g s = accept (violations py guard ev.result) ev (members g) (record s {
    evals = s.evals ++ ev ∷ [];
    per_symbol_tokens = Dict.put s.per_symbol_tokens g.canonical.key (total_tokens ev.usage);
  })

  unfoldable pub eval_groups :
      (String → String → Fallible SymbolEval) → Dict Group → PassRows → PassRows
  unfolding take_eval
  eval_groups evaluate [] s = s
  eval_groups evaluate ((q, g) ∷ groups) s =
      eval_groups evaluate groups (take_eval (evaluate g.canonical.key q) g s)

unfoldable pub any_budget : List RunError → Bool
any_budget [] = false
any_budget (e ∷ es) = str_eq e.error_type "BUDGET_EXCEEDED" || any_budget es

abbrev pub is_empty {ℓ} : {A : Type ℓ} → List A → Bool
is_empty [] = true
is_empty (_ ∷ _) = false

unfoldable pub derive_status : List RunError → List SymbolEval → String
unfolding any_budget
derive_status errors evals =
    if any_budget errors
    then "partial"
    else if is_empty evals
    then "error"
    else if is_empty errors
    then "success"
    else "partial"
