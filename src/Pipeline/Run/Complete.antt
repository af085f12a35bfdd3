-- ===== src/Pipeline/Run/Complete.antt =====
-- The rows of the envelope that `_run` of finiexragengine/core/pipeline/pipeline_runner.py serves.
use finiex_ragengine.Prelude.{
  ℕ, String, ◌≡◌, refl, ap, ◌∙◌, Option, none, some, List, [], ◌∷◌, map, Bool-cases, inl, inr,
}
use mathlib.Core.List.{map-append}
use finiex_ragengine.Prelude.Int.{ℤ}
use finiex_ragengine.Prelude.Dict.{Dict}
use finiex_ragengine.Errors.{Fallible, gives, raises}
use finiex_ragengine.Outcome.{SentimentResult, AnalysisEnvelope, EpisodeUpsert}
use finiex_ragengine.Breaking.EpisodeRule.{BreakingPassDecision}
use finiex_ragengine.Breaking.Tracker.{
  BreakingEpisodeTracker, PassState, stamp_identity, observe_result, observe_rows, observe_envelope,
  start_pass,
}
use finiex_ragengine.Stream.Store.{Db, SaveStep, before_stamp, save}
use finiex_ragengine.Pipeline.Contract.{hold_row, taxonomy_type}
use finiex_ragengine.Pipeline.OutputGuard.{OutputGuardConfig, PyText, GuardViolation, violations}
use finiex_ragengine.Pipeline.Messages.{analysis_degraded, guard_detail, guard_degraded}
use finiex_ragengine.Pipeline.Evaluator.{SymbolEval}
use finiex_ragengine.Pipeline.Runner.{
  SymbolSpec, Group, members, active_symbols, group_by_query, stamp, fan,
}
use finiex_ragengine.Pipeline.Runner.Groups.{keys_of, grouped, count, count-group_by_query}
use finiex_ragengine.Pipeline.Runner.Rows.{
  degraded, accepted, group_adds, groups_add, eval_groups-added,
}
use finiex_ragengine.Pipeline.Run.{
  PipelineRunner, PassInputs, pass_rows, envelope_of, after_save, fault_step, raw_or_none,
  raw_by_symbol, persist, run,
}

abbrev pub symbols : List SentimentResult → List String
symbols rows = map (λ (r : SentimentResult). r.symbol) rows

symbols-degraded :
    (t d r : String) (specs : List SymbolSpec) → symbols (degraded t d r specs).rows ≡ keys_of specs
unfolding stamp hold_row
symbols-degraded t d r [] = refl
symbols-degraded t d r (spec ∷ specs) = ap (λ ks. spec.key ∷ ks) (symbols-degraded t d r specs)

symbols-fan :
    (row : SentimentResult) (specs : List SymbolSpec)
    → symbols (map (fan row) specs) ≡ keys_of specs
unfolding fan
symbols-fan row [] = refl
symbols-fan row (spec ∷ specs) = ap (λ ks. spec.key ∷ ks) (symbols-fan row specs)

symbols-accepted :
    (vs : List GuardViolation) (ev : SymbolEval) (specs : List SymbolSpec)
    → symbols (accepted vs ev specs).rows ≡ keys_of specs
symbols-accepted [] ev specs = symbols-fan ev.result specs
symbols-accepted (v ∷ vs) ev specs =
    symbols-degraded "PARTIAL_RESPONSE" (guard_detail (v ∷ vs)) (guard_degraded (v ∷ vs)) specs

module _ (py : PyText) (guard : OutputGuardConfig)
    (evaluate : String → String → Fallible SymbolEval) where
  symbols-group_adds :
      (r : Fallible SymbolEval) (g : Group)
      → symbols (group_adds py guard r g).rows ≡ keys_of (members g)
  symbols-group_adds (raises exc) g =
      symbols-degraded (taxonomy_type exc) exc.text (analysis_degraded (taxonomy_type exc))
        (members g)
  symbols-group_adds (gives ev) g = symbols-accepted (violations py guard ev.result) ev (members g)

  symbols-groups_add :
      (groups : Dict Group) → symbols (groups_add py guard evaluate groups).rows ≡ grouped groups
  unfolding groups_add
  symbols-groups_add [] = refl
  symbols-groups_add ((q, g) ∷ groups) =
      let r = evaluate g.canonical.key q in
      map-append _ (group_adds py guard r g).rows (groups_add py guard evaluate groups).rows
      ∙ rw (symbols-group_adds r g, symbols-groups_add groups) refl

stamp_identity_symbol :
    (utc_stamp : ℕ → String) (envelope : AnalysisEnvelope) (result : SentimentResult) (key : String)
    (d : BreakingPassDecision) (times : Option ℤ × Option ℤ) (start : Option ℕ) (s : PassState)
    → (stamp_identity utc_stamp envelope result key d times start s).1.symbol ≡ result.symbol
unfolding stamp_identity
stamp_identity_symbol utc_stamp envelope result key d times none s = refl
stamp_identity_symbol utc_stamp envelope result key d times (some start) s = refl

observe_rows_symbols :
    (utc_stamp : ℕ → String) (envelope : AnalysisEnvelope) (rows : List SentimentResult)
    (s : PassState)
    → symbols (observe_rows utc_stamp envelope rows s).1 ≡ symbols rows
unfolding observe_rows observe_result
observe_rows_symbols utc_stamp envelope [] s = refl
observe_rows_symbols utc_stamp envelope (r ∷ rs) s =
    rw
      (
        observe_rows_symbols utc_stamp envelope rs (observe_result utc_stamp envelope r s).0,
        stamp_identity_symbol utc_stamp envelope r _ _ _ _ _,
      )
      refl

saved_result :
    (db : Db) (io : PassInputs) (envelope : AnalysisEnvelope) (raw_output : Option String)
    (episodes : List EpisodeUpsert) (f : Option (SaveStep × String))
    → (after_save
        (save db io.identity envelope raw_output episodes io.now_msc (fault_step f))
        f).1.result
      ≡ envelope.result
unfolding after_save save
saved_result db io envelope raw_output episodes none = refl
saved_result db io envelope raw_output episodes (some (step, text)) =
    elim (Bool-cases (before_stamp step)) [ inl e ↦ rw e refl | inr e ↦ rw e refl ]

pub persist_result :
    (store : Option Db) (io : PassInputs) (envelope : AnalysisEnvelope) (evals : List SymbolEval)
    (episodes : List EpisodeUpsert)
    → (persist store io envelope evals episodes).1.result ≡ envelope.result
unfolding persist
persist_result none io envelope evals episodes = refl
persist_result (some db) io envelope evals episodes =
    saved_result db io envelope (raw_or_none io.to_json (raw_by_symbol [] evals)) episodes io.fault

observe_symbols :
    (utc_stamp : ℕ → String) (t : BreakingEpisodeTracker) (envelope : AnalysisEnvelope)
    → symbols (observe_envelope utc_stamp t envelope).2.result ≡ symbols envelope.result
unfolding observe_envelope
observe_symbols utc_stamp t envelope =
    observe_rows_symbols utc_stamp envelope envelope.result (start_pass t)

pass_symbols :
    (runner : PipelineRunner) (io : PassInputs)
    → symbols (pass_rows runner io).results
      ≡ grouped (group_by_query (active_symbols runner.config))
unfolding pass_rows
pass_symbols runner io =
    let groups = group_by_query (active_symbols runner.config) in
    let guard = runner.config.output_guard in
    ap (λ a. symbols a.rows) (eval_groups-added io.py guard io.evaluate groups _)
    ∙ symbols-groups_add io.py guard io.evaluate groups

-- Whatever fails (sources, evaluations, the guard, the store), every active symbol has its row in
-- the served envelope: it occurs there exactly as often as among the active symbols.
pub run_complete :
    (runner : PipelineRunner) (io : PassInputs) (symbol : String)
    → count symbol (symbols (run runner io).1.envelope.result)
      ≡ count symbol (keys_of (active_symbols runner.config))
unfolding run envelope_of
run_complete runner io symbol =
    let s = pass_rows runner io in
    let observed = observe_envelope io.utc_stamp runner.episodes (envelope_of runner io s) in
    ap (λ rows. count symbol (symbols rows))
      (persist_result runner.outcome_store io observed.2 s.evals observed.1.episodes)
    ∙ ap (count symbol) (
        observe_symbols io.utc_stamp runner.episodes (envelope_of runner io s)
        ∙ pass_symbols runner io)
    ∙ count-group_by_query symbol (active_symbols runner.config)
