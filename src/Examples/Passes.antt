-- ===== src/Examples/Passes.antt =====
-- Passes of a small pipeline.
use finiex_ragengine.Prelude.{
  ◌≡◌, refl, sym, ap, keep_if, ◌↔◌, String, Bool, true, false, none, some, List, [], ◌∷◌, map, All,
  str_eq, if◌then◌else◌,
}
use finiex_ragengine.Prelude.Dict
use finiex_ragengine.Prelude.Int.{pos}
use finiex_ragengine.Errors.{ErrorClass, FiniexRagError, Fallible, gives, raises, gives-injective}
use finiex_ragengine.Outcome.{SentimentResult}
use finiex_ragengine.Breaking.EpisodeRule.{new_rule, is_open}
use finiex_ragengine.Breaking.Tracker.{new_tracker}
use finiex_ragengine.Stream.Store.{empty_db, committing}
use finiex_ragengine.Pipeline.OutputGuard.{PyText}
use finiex_ragengine.Pipeline.Contract.{hold_row}
use finiex_ragengine.Pipeline.Evaluator.{SymbolEval}
use finiex_ragengine.Pipeline.Runner.{
  SymbolSpec, retrieval_query, group_by_query, active_symbols, is_empty,
}
use finiex_ragengine.Pipeline.Runner.Groups.{members?, keys_of, count, group_by_query-members}
use finiex_ragengine.Pipeline.Run.{PipelineRunner, PassInputs, pass_rows, run}
use finiex_ragengine.Pipeline.Run.Complete.{symbols, run_complete}
use finiex_ragengine.Pipeline.Run.Status.{AllClean, Saves, run_success}
use finiex_ragengine.Pipeline.Run.Journal.{
  Journaled, StoreGapless, run_all, run-Journaled, run_all-Sound,
}
use finiex_ragengine.Pipeline.Run.Coherent.{Guarded, run_coherent}
use finiex_ragengine.Pipeline.Run.Quiet.{IsQuiet, NoneBreaking, run_quiet}
use finiex_ragengine.Breaking.Tracker.Agreement.{InStep}
use finiex_ragengine.Stream.Store.Gapless.{empty-IsGapless}
use finiex_ragengine.Examples.{row_for}

abbrev py : PyText
py = record {
  strip = λ s. s;
  score_text = λ x. "0.4";
  confidence_text = λ x. "0.8";
  str_le = λ a b. true;
}

abbrev spec_of : String → String → String → String → Bool → SymbolSpec
spec_of key base quote query enabled = record {
  key = key;
  base = base;
  quote = quote;
  query = some query;
  enabled = enabled;
}

-- Two symbols share a query; the query of a third fails; a fourth is switched off.
abbrev specs : List SymbolSpec
specs =
    spec_of "ETHUSD" "ETH" "USD" "Ethereum" true
    ∷ spec_of "BTCUSD" "BTC" "USD" "Bitcoin" true
    ∷ spec_of "ETHEUR" "ETH" "EUR" "Ethereum" true
    ∷ spec_of "SOLUSD" "SOL" "USD" "Solana" false
    ∷ []

abbrev runner : PipelineRunner
runner = record {
  config = record {
    pipeline_id = "crypto";
    outcome_type = "sentiment";
    symbols = specs;
    output_guard = record { score_signal_tolerance = pos 10; hold_confidence_max = 90 };
    variant_group = none;
    variant = none;
  };
  prompt_metadata = record { id = "sentiment"; version = "v5"; content_hash = "h" };
  config_fingerprint = "f";
  llm_model = "small";
  episodes = new_tracker (record { rule = new_rule 70 100; query_map = [] });
  outcome_store = some empty_db;
}

abbrev evaluation : SentimentResult → SymbolEval
evaluation row = record {
  result = row;
  prompt = "p";
  usage = record { prompt_tokens = 100; completion_tokens = 20 };
  articles = [];
  raw_output = "{}";
  model_snapshot = "small-1";
  retrieval = none;
}

abbrev timeout : FiniexRagError
timeout = record {
  error_class = ErrorClass.llm_timeout;
  text = "30 s";
  error_type = none;
  status = none;
}

abbrev one_fails : String → String → Fallible SymbolEval
one_fails key query =
    if str_eq query "Bitcoin" then raises timeout else gives (evaluation (row_for key true 90))

abbrev all_answer : String → String → Fallible SymbolEval
all_answer key query = gives (evaluation (row_for key false 10))

abbrev inputs : (String → String → Fallible SymbolEval) → PassInputs
inputs evaluate = record {
  py = py;
  utc_stamp = λ t. "t";
  to_json = λ d. "{}";
  ingest = record { fetched = 3; failed_sources = [] };
  census = record { configured = 2; reached = 2; unreached = [] };
  evaluate = evaluate;
  reason = "scheduled";
  timestamp = 1000;
  identity = some "abc";
  now_msc = 1;
  fault = none;
}

abbrev signal_of : SentimentResult → String × String
signal_of r = (r.symbol, r.signal)

-- Rows come by group, in the order of the groups' first symbols.
served :
    map signal_of (pass_rows runner (inputs one_fails)).results
    ≡ ("ETHUSD", "bullish") ∷ ("ETHEUR", "bullish") ∷ ("BTCUSD", "HOLD") ∷ []
unfolding pass_rows hold_row Dict.put Dict.get
served = refl

group_by_query-members_example :
    members? (Dict.get (group_by_query specs) "Ethereum")
    ≡ keep_if (λ spec. str_eq (retrieval_query spec) "Ethereum") specs
group_by_query-members_example = group_by_query-members specs "Ethereum"

run_complete_example :
    count "ETHEUR" (symbols (run runner (inputs one_fails)).1.envelope.result)
    ≡ count "ETHEUR" (keys_of (active_symbols runner.config))
run_complete_example = run_complete runner (inputs one_fails) "ETHEUR"

run_success_example :
    let io = inputs all_answer in
    let groups = group_by_query (active_symbols runner.config) in
    ((run runner io).1.envelope.status ≡ "success") ↔ (
      (io.ingest.failed_sources ≡ [])
      × (io.census.unreached ≡ [])
      × AllClean io.py runner.config.output_guard io.evaluate groups
      × (is_empty groups ≡ false)
      × Saves runner.outcome_store io.fault)
run_success_example = run_success runner (inputs all_answer)

run-Journaled_example :
    let io = record (inputs one_fails) { fault = some (committing, "disk full") } in
    let r = run runner io in Journaled empty_db io.fault r.0.outcome_store r.1.envelope
run-Journaled_example =
    run-Journaled runner (record (inputs one_fails) { fault = some (committing, "disk full") })
      empty_db refl

new-InStep : InStep runner.episodes
unfolding new_tracker new_rule is_open Dict.get
new-InStep k = (refl, refl)

run_all-Sound_example :
    let ios = inputs one_fails ∷ inputs all_answer ∷ [] in
    InStep (run_all runner ios).episodes × StoreGapless (run_all runner ios).outcome_store "crypto"
run_all-Sound_example =
    run_all-Sound runner (inputs one_fails ∷ inputs all_answer ∷ []) "crypto" new-InStep
      (empty-IsGapless "crypto")

all_answer-IsQuiet :
    (key query : String) (ev : SymbolEval) → all_answer key query ≡ gives ev → IsQuiet ev.result
all_answer-IsQuiet key query ev h =
    ap (λ (e : SymbolEval). e.result.is_breaking) (sym (gives-injective h))

quiet_pass :
    NoneBreaking py runner.config.output_guard all_answer
      (group_by_query (active_symbols runner.config))
unfolding group_by_query active_symbols Dict.put Dict.get
quiet_pass = (
  (λ ev h _. all_answer-IsQuiet "ETHUSD" "Ethereum" ev h),
  ((λ ev h _. all_answer-IsQuiet "BTCUSD" "Bitcoin" ev h), tt),
)

run_quiet_example : (run runner (inputs all_answer)).1.breaking.started ≡ []
run_quiet_example = run_quiet runner (inputs all_answer) quiet_pass

run_coherent_example :
    All (Guarded py runner.config.output_guard) (run runner (inputs one_fails)).1.envelope.result
run_coherent_example = run_coherent runner (inputs one_fails)
