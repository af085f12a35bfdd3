-- ===== src/Pipeline/Run/Quiet.antt =====
-- What it takes for a pass of finiexragengine/core/pipeline/pipeline_runner.py to open an episode.
use finiex_ragengine.Prelude.{
  ℕ, String, ◌≡◌, refl, ap, ◌∙◌, Bool, true, false, Option, none, some, List, [], ◌∷◌, map, All,
  All-append, arith, if◌then◌else◌,
}
use finiex_ragengine.Prelude.Dict
use finiex_ragengine.Prelude.Dict.{Dict}
use finiex_ragengine.Prelude.Int.{ℤ}
use finiex_ragengine.Errors.{Fallible, gives, raises}
use finiex_ragengine.Outcome.{SentimentResult, AnalysisEnvelope, EpisodeUpsert}
use finiex_ragengine.Breaking.EpisodeRule.{
  BreakingEpisodeRule, BreakingPassDecision, OpenState, close_expired, decide, observe, key_for,
}
use finiex_ragengine.Breaking.Tracker.{
  PassState, record_edge, write_row, stamp_identity, reaction_times, running_start, observe_result,
  observe_rows, observe_envelope, start_pass,
}
use finiex_ragengine.Pipeline.Contract.{hold_row, taxonomy_type}
use finiex_ragengine.Pipeline.OutputGuard.{OutputGuardConfig, PyText, GuardViolation, violations}
use finiex_ragengine.Pipeline.Messages.{analysis_degraded, guard_detail, guard_degraded}
use finiex_ragengine.Pipeline.Evaluator.{SymbolEval}
use finiex_ragengine.Pipeline.Runner.{
  SymbolSpec, Group, members, active_symbols, group_by_query, stamp, fan,
}
use finiex_ragengine.Pipeline.Runner.Rows.{
  Added, degraded, accepted, group_adds, groups_add, eval_groups-added,
}
use finiex_ragengine.Pipeline.Run.{PipelineRunner, PassInputs, pass_rows, envelope_of, run}

decide_quiet :
    (r : BreakingEpisodeRule) (key : String) (ts urgency : ℕ) (o : Option OpenState)
    → (decide r key ts false urgency o).1.opened ≡ false
unfolding decide
decide_quiet r key ts urgency none = refl
decide_quiet r key ts urgency (some o) = refl

observe_quiet :
    (r : BreakingEpisodeRule) (key : String) (ts urgency : ℕ) (b : Bool)
    → b ≡ false
    → (observe r key ts b urgency).1.opened ≡ false
unfolding observe
observe_quiet r key ts urgency true q = cc
observe_quiet r key ts urgency false q =
    let r' = close_expired r key ts (Dict.get r.open_episodes key) in
    decide_quiet r' key ts urgency (Dict.get r'.open_episodes key)

record_edge_quiet :
    (ts : ℕ) (result : SentimentResult) (key : String) (d : BreakingPassDecision)
    (times : Option ℤ × Option ℤ) (s : PassState)
    → d.opened ≡ false
    → (record_edge ts result key d times s).outcome.started ≡ s.outcome.started
unfolding record_edge
record_edge_quiet ts result key d times s h = ground (arith, h)

write_row_started :
    (row : EpisodeUpsert) (s : PassState) → (write_row row s).outcome.started ≡ s.outcome.started
unfolding write_row
write_row_started row s = ground arith

stamp_identity_started :
    (utc_stamp : ℕ → String) (envelope : AnalysisEnvelope) (result : SentimentResult) (key : String)
    (d : BreakingPassDecision) (times : Option ℤ × Option ℤ) (start : Option ℕ) (s : PassState)
    → (stamp_identity utc_stamp envelope result key d times start s).0.outcome.started
      ≡ s.outcome.started
unfolding stamp_identity
stamp_identity_started utc_stamp envelope result key d times none s = refl
stamp_identity_started utc_stamp envelope result key d times (some start) s = write_row_started _ _

observe_result_quiet :
    (utc_stamp : ℕ → String) (envelope : AnalysisEnvelope) (result : SentimentResult)
    (s : PassState)
    → result.is_breaking ≡ false
    → (observe_result utc_stamp envelope result s).0.outcome.started ≡ s.outcome.started
unfolding observe_result
observe_result_quiet utc_stamp envelope result s h =
    let g = s.tracker.grouping in
    let key = key_for g result.symbol result.base_currency in
    let r = observe g.rule key envelope.timestamp result.is_breaking result.urgency in
    let d = r.1 in
    let ts = envelope.timestamp in
    let times = if d.opened then reaction_times result ts else (none, none) in
    let s' : PassState = record s {
      tracker = record s.tracker { grouping = record g { rule = r.0 } };
    } in
    stamp_identity_started utc_stamp envelope result key d times (running_start d)
      (record_edge ts result key d times s')
    ∙ record_edge_quiet ts result key d times s' (observe_quiet g.rule key ts result.urgency _ h)

abbrev pub IsQuiet : SentimentResult → Type 0
IsQuiet r = r.is_breaking ≡ false

observe_rows_quiet :
    (utc_stamp : ℕ → String) (envelope : AnalysisEnvelope) (rows : List SentimentResult)
    (s : PassState)
    → All IsQuiet rows
    → (observe_rows utc_stamp envelope rows s).0.outcome.started ≡ s.outcome.started
unfolding observe_rows
observe_rows_quiet utc_stamp envelope [] s a = refl
observe_rows_quiet utc_stamp envelope (r ∷ rs) s a =
    observe_rows_quiet utc_stamp envelope rs (observe_result utc_stamp envelope r s).0 a.1
    ∙ observe_result_quiet utc_stamp envelope r s a.0

degraded-IsQuiet :
    (t d r : String) (specs : List SymbolSpec) → All IsQuiet (degraded t d r specs).rows
unfolding stamp hold_row
degraded-IsQuiet t d r [] = tt
degraded-IsQuiet t d r (spec ∷ specs) = (refl, degraded-IsQuiet t d r specs)

fan-IsQuiet :
    (row : SentimentResult) (specs : List SymbolSpec)
    → IsQuiet row
    → All IsQuiet (map (fan row) specs)
unfolding fan
fan-IsQuiet row [] h = tt
fan-IsQuiet row (spec ∷ specs) h = (h, fan-IsQuiet row specs h)

accepted-IsQuiet :
    (vs : List GuardViolation) (ev : SymbolEval) (specs : List SymbolSpec)
    → (vs ≡ [] → IsQuiet ev.result)
    → All IsQuiet (accepted vs ev specs).rows
accepted-IsQuiet [] ev specs h = fan-IsQuiet ev.result specs (h refl)
accepted-IsQuiet (v ∷ vs) ev specs h =
    degraded-IsQuiet "PARTIAL_RESPONSE" (guard_detail (v ∷ vs)) (guard_degraded (v ∷ vs)) specs

module _ (py : PyText) (guard : OutputGuardConfig)
    (evaluate : String → String → Fallible SymbolEval) where
  -- No query's evaluation is at once coherent and breaking.
  abbrev pub NoneBreaking : Dict Group → Type 0
  NoneBreaking [] = Unit
  NoneBreaking ((q, g) ∷ groups) =
      ((ev : SymbolEval)
        → evaluate g.canonical.key q ≡ gives ev
        → violations py guard ev.result ≡ []
        → IsQuiet ev.result)
      × NoneBreaking groups

  group_adds-IsQuiet :
      (r : Fallible SymbolEval) (g : Group)
      → ((ev : SymbolEval) → r ≡ gives ev → violations py guard ev.result ≡ [] → IsQuiet ev.result)
      → All IsQuiet (group_adds py guard r g).rows
  group_adds-IsQuiet (raises exc) g h =
      degraded-IsQuiet (taxonomy_type exc) exc.text (analysis_degraded (taxonomy_type exc))
        (members g)
  group_adds-IsQuiet (gives ev) g h =
      accepted-IsQuiet (violations py guard ev.result) ev (members g) (h ev refl)

  groups_add-IsQuiet :
      (groups : Dict Group)
      → NoneBreaking groups
      → All IsQuiet (groups_add py guard evaluate groups).rows
  unfolding groups_add
  groups_add-IsQuiet [] h = tt
  groups_add-IsQuiet ((q, g) ∷ groups) h =
      let r = evaluate g.canonical.key q in
      All-append IsQuiet (group_adds py guard r g).rows (groups_add py guard evaluate groups).rows
        (group_adds-IsQuiet r g h.0) (groups_add-IsQuiet groups h.1)

pub pass_results :
    (runner : PipelineRunner) (io : PassInputs)
    → (pass_rows runner io).results
      ≡ (groups_add io.py runner.config.output_guard io.evaluate
          (group_by_query (active_symbols runner.config))).rows
unfolding pass_rows
pass_results runner io =
    let groups = group_by_query (active_symbols runner.config) in
    ap (λ (a : Added). a.rows)
      (eval_groups-added io.py runner.config.output_guard io.evaluate groups _)

-- Where no query's evaluation is at once coherent and breaking, the pass opens no episode: a row
-- that is degraded, by a failure or by the guard, never opens one.
pub run_quiet :
    (runner : PipelineRunner) (io : PassInputs)
    → NoneBreaking io.py runner.config.output_guard io.evaluate
        (group_by_query (active_symbols runner.config))
    → (run runner io).1.breaking.started ≡ []
unfolding run observe_envelope envelope_of
run_quiet runner io h =
    let groups = group_by_query (active_symbols runner.config) in
    let guard = runner.config.output_guard in
    let s = pass_rows runner io in
    observe_rows_quiet io.utc_stamp (envelope_of runner io s) s.results (start_pass runner.episodes)
      (rw (pass_results runner io) (groups_add-IsQuiet io.py guard io.evaluate groups h))
