-- ===== src/Pipeline/Run/Coherent.antt =====
-- The rows that pass the guard of finiexragengine/core/pipeline/output_guard.py, and those that a
-- pass of core/pipeline/pipeline_runner.py lets through.
use finiex_ragengine.Prelude.{
  ℕ, ◌≤◌, String, ◌≡◌, ◌≢◌, refl, Bool, true, false, Option, none, some, List, [], ◌∷◌, map, All,
  All-append, arith, eq_iff, str_eq, Bool-cases, inl, inr,
}
use finiex_ragengine.Prelude.Int.{ℤ, ltb_ℤ, negate}
use finiex_ragengine.Prelude.Dict.{Dict}
use finiex_ragengine.Errors.{Fallible, gives, raises}
use finiex_ragengine.Outcome.{SentimentResult, AnalysisEnvelope}
use finiex_ragengine.Pipeline.Contract.{hold_row, taxonomy_type}
use finiex_ragengine.Pipeline.OutputGuard.{
  PyText, OutputGuardConfig, GuardViolation, found, buys_below, sells_above, certain_hold,
  unexplained, unsourced, violations,
}
use finiex_ragengine.Pipeline.Messages.{analysis_degraded, guard_detail, guard_degraded}
use finiex_ragengine.Pipeline.Evaluator.{SymbolEval}
use finiex_ragengine.Pipeline.Runner.{
  SymbolSpec, Group, members, stamp, fan, active_symbols, group_by_query,
}
use finiex_ragengine.Pipeline.Runner.Rows.{degraded, accepted, group_adds, groups_add}
use finiex_ragengine.Breaking.EpisodeRule.{BreakingPassDecision}
use finiex_ragengine.Breaking.Tracker.{
  PassState, stamp_identity, observe_result, observe_rows, observe_envelope, start_pass,
}
use finiex_ragengine.Pipeline.Run.{PipelineRunner, PassInputs, pass_rows, envelope_of, run}
use finiex_ragengine.Pipeline.Run.Complete.{persist_result}
use finiex_ragengine.Pipeline.Run.Quiet.{pass_results}

-- A row of the model that does not contradict itself.
pub record IsCoherent (py : PyText) (config : OutputGuardConfig) (r : SentimentResult)
    : Type 0 where
  pub buys :
      r.signal ≡ "BUY" → ltb_ℤ r.sentiment_score (negate config.score_signal_tolerance) ≡ false
  pub sells : r.signal ≡ "SELL" → ltb_ℤ config.score_signal_tolerance r.sentiment_score ≡ false
  pub holds : r.signal ≡ "HOLD" → r.confidence ≤ config.hold_confidence_max
  pub explained : py.strip r.reasoning ≢ ""
  pub sourced : r.signal ≢ "HOLD" → r.sources ≢ []

found-nil :
    (b : Bool) (rule detail : String) (rest : List GuardViolation)
    → found b rule detail rest ≡ []
    → (b ≡ false) × (rest ≡ [])
found-nil true rule detail rest h = cc
found-nil false rule detail rest h = (refl, h)

not_llm : (basis : String) → str_eq basis "llm" ≡ false → basis ≢ "llm"
not_llm basis e h = let t = (eq_iff basis "llm").1 h in cc

found_some : {v : GuardViolation} {rest : List GuardViolation} → (v ∷ rest) ≢ []
found_some h = cc

module _ (py : PyText) (config : OutputGuardConfig) where
  coherent :
      (r : SentimentResult)
      → buys_below py config r ≡ false
      → sells_above py config r ≡ false
      → certain_hold py config r ≡ false
      → unexplained py config r ≡ false
      → unsourced py config r ≡ false
      → IsCoherent py config r
  unfolding buys_below sells_above certain_hold unexplained unsourced
  coherent r b s c u n = record {
    buys = λ e. ground (arith, b, (eq_iff r.signal "BUY").1 e);
    sells = λ e. ground (arith, s, (eq_iff r.signal "SELL").1 e);
    holds = λ e. ground (arith, c, (eq_iff r.signal "HOLD").1 e);
    explained = λ e. let t = (eq_iff (py.strip r.reasoning) "").1 e in cc;
    sourced = λ e none_cited. elim (Bool-cases (str_eq r.signal "HOLD")) [
      | inl t ↦ e ((eq_iff r.signal "HOLD").0 t)
      | inr f ↦ let q = rw (f, none_cited) at n in absurd (cc)
    ];
  }

  -- A row of the model passes the guard only if it is coherent.
  pub violations-IsCoherent :
      (r : SentimentResult) → r.basis ≡ "llm" → violations py config r ≡ [] → IsCoherent py config r
  unfolding violations
  violations-IsCoherent r basis h =
      let model = (eq_iff r.basis "llm").1 basis in
      elim (Bool-cases (buys_below py config r)) [
        | inl b ↦ absurd (found_some (rw (model, b) at h))
        | inr b ↦
            let sells = found-nil _ _ _ _ (rw (model, b) at h) in
            let holds = found-nil _ _ _ _ sells.1 in
            let explained = found-nil _ _ _ _ holds.1 in
            let sourced = found-nil _ _ _ _ explained.1 in
            coherent r b sells.0 holds.0 explained.0 sourced.0
      ]

  -- A row of the model is coherent.
  abbrev pub Guarded : SentimentResult → Type 0
  Guarded r = r.basis ≡ "llm" → IsCoherent py config r

  Guarded-degraded :
      (t d r : String) (specs : List SymbolSpec) → All Guarded (degraded t d r specs).rows
  unfolding stamp hold_row
  Guarded-degraded t d r [] = tt
  Guarded-degraded t d r (spec ∷ specs) =
      ((λ e. absurd (not_llm "degraded" refl e)), Guarded-degraded t d r specs)

  Guarded-fan :
      (row : SentimentResult) (specs : List SymbolSpec)
      → Guarded row
      → All Guarded (map (fan row) specs)
  unfolding fan
  Guarded-fan row [] h = tt
  Guarded-fan row (spec ∷ specs) h = (
    (λ e.
        let c = h e in
        record {
          buys = c.buys;
          sells = c.sells;
          holds = c.holds;
          explained = c.explained;
          sourced = c.sourced;
        }),
    Guarded-fan row specs h,
  )

  Guarded-accepted :
      (vs : List GuardViolation) (ev : SymbolEval) (specs : List SymbolSpec)
      → (vs ≡ [] → Guarded ev.result)
      → All Guarded (accepted vs ev specs).rows
  Guarded-accepted [] ev specs h = Guarded-fan ev.result specs (h refl)
  Guarded-accepted (v ∷ vs) ev specs h =
      Guarded-degraded "PARTIAL_RESPONSE" (guard_detail (v ∷ vs)) (guard_degraded (v ∷ vs)) specs

  Guarded-group :
      (r : Fallible SymbolEval) (g : Group) → All Guarded (group_adds py config r g).rows
  Guarded-group (raises exc) g =
      Guarded-degraded (taxonomy_type exc) exc.text (analysis_degraded (taxonomy_type exc))
        (members g)
  Guarded-group (gives ev) g =
      Guarded-accepted (violations py config ev.result) ev (members g)
        λ h basis. violations-IsCoherent ev.result basis h

  Guarded-groups :
      (evaluate : String → String → Fallible SymbolEval) (groups : Dict Group)
      → All Guarded (groups_add py config evaluate groups).rows
  unfolding groups_add
  Guarded-groups evaluate [] = tt
  Guarded-groups evaluate ((q, g) ∷ groups) =
      let r = evaluate g.canonical.key q in
      All-append Guarded (group_adds py config r g).rows (groups_add py config evaluate groups).rows
        (Guarded-group r g) (Guarded-groups evaluate groups)

  Guarded-stamped :
      (utc_stamp : ℕ → String) (envelope : AnalysisEnvelope) (result : SentimentResult)
      (key : String) (d : BreakingPassDecision) (times : Option ℤ × Option ℤ) (start : Option ℕ)
      (s : PassState)
      → Guarded result
      → Guarded (stamp_identity utc_stamp envelope result key d times start s).1
  unfolding stamp_identity
  Guarded-stamped utc_stamp envelope result key d times none s h = h
  Guarded-stamped utc_stamp envelope result key d times (some start) s h = λ e.
      let c = h e in
      record {
        buys = c.buys;
        sells = c.sells;
        holds = c.holds;
        explained = c.explained;
        sourced = c.sourced;
      }

  Guarded-observed :
      (utc_stamp : ℕ → String) (envelope : AnalysisEnvelope) (rows : List SentimentResult)
      (s : PassState)
      → All Guarded rows
      → All Guarded (observe_rows utc_stamp envelope rows s).1
  unfolding observe_rows observe_result
  Guarded-observed utc_stamp envelope [] s a = tt
  Guarded-observed utc_stamp envelope (r ∷ rs) s a = (
    Guarded-stamped utc_stamp envelope r _ _ _ _ _ a.0,
    Guarded-observed utc_stamp envelope rs (observe_result utc_stamp envelope r s).0 a.1,
  )

-- Every row of the served envelope that comes from the model is coherent: it does not say BUY with a
-- score below the tolerance, nor SELL with one above it, nor HOLD with too high a confidence; it has
-- a reasoning that is not blank, and sources unless it says HOLD.
pub run_coherent :
    (runner : PipelineRunner) (io : PassInputs)
    → All (Guarded io.py runner.config.output_guard) (run runner io).1.envelope.result
unfolding run observe_envelope envelope_of
run_coherent runner io =
    let groups = group_by_query (active_symbols runner.config) in
    let guard = runner.config.output_guard in
    let s = pass_rows runner io in
    let observed = observe_envelope io.utc_stamp runner.episodes (envelope_of runner io s) in
    rw (persist_result runner.outcome_store io observed.2 s.evals observed.1.episodes) (
      Guarded-observed io.py guard io.utc_stamp (envelope_of runner io s) s.results
        (start_pass runner.episodes)
        (rw (pass_results runner io) (Guarded-groups io.py guard io.evaluate groups)))
