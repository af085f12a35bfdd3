-- ===== src/Pipeline/Run/Journal.antt =====
-- The journal and the tracker under the passes of finiexragengine/core/pipeline/pipeline_runner.py.
use finiex_ragengine.Prelude.{◌++◌, String, ◌≡◌, ◌≢◌, refl, Option, none, some, List, [], ◌∷◌}
use finiex_ragengine.Outcome.{RunError, AnalysisEnvelope, EpisodeUpsert}
use finiex_ragengine.Breaking.Tracker.{observe_envelope}
use finiex_ragengine.Breaking.Tracker.Agreement.{InStep, observe_envelope-InStep}
use finiex_ragengine.Stream.Store.{Db, SaveStep, Saved, OutcomeRow, save}
use finiex_ragengine.Stream.Store.Gapless.{IsGapless, SaveCall, call_all, call_all-IsGapless}
use finiex_ragengine.Pipeline.Evaluator.{SymbolEval}
use finiex_ragengine.Pipeline.Messages.{not_persisted}
use finiex_ragengine.Pipeline.Runner.{error}
use finiex_ragengine.Pipeline.Run.{
  PipelineRunner, PassInputs, pass_rows, envelope_of, after_save, fault_step, raw_or_none,
  raw_by_symbol, persist, run,
}
use finiex_ragengine.Pipeline.Run.Status.{degrade_unsaved_status}

-- The journal that a pass leaves, by what became of its save.
abbrev pub Journaled : Db → Option (SaveStep × String) → Option Db → AnalysisEnvelope → Type 0
Journaled db none store envelope =
    (after : Db) × (row : OutcomeRow) × (store ≡ some after)
    × (after.outcomes ≡ db.outcomes ++ row ∷ [])
    × (row.envelope ≡ envelope)
    × (row.status ≡ envelope.status)
    × (row.pipeline_id ≡ envelope.pipeline_id)
Journaled db (some (step, text)) store envelope =
    (earlier : List RunError) × (store ≡ some db)
    × (envelope.status ≢ "success")
    × (envelope.errors ≡ earlier ++ error "VECTOR_STORE_ERROR" (not_persisted text) ∷ [])

after_save-Journaled :
    (db : Db) (io : PassInputs) (envelope : AnalysisEnvelope) (raw_output : Option String)
    (episodes : List EpisodeUpsert) (f : Option (SaveStep × String))
    → let r =
        after_save (save db io.identity envelope raw_output episodes io.now_msc (fault_step f)) f in
      Journaled db f r.0 r.1
unfolding after_save save
after_save-Journaled db io envelope raw_output episodes none =
    let s = save db io.identity envelope raw_output episodes io.now_msc none in
    (s.db, _, refl, refl, refl, refl, refl)
after_save-Journaled db io envelope raw_output episodes (some (step, text)) =
    let s = save db io.identity envelope raw_output episodes io.now_msc (some step) in
    (s.envelope.errors, refl, degrade_unsaved_status text s.envelope, refl)

persist-Journaled :
    (store : Option Db) (db : Db) (io : PassInputs) (envelope : AnalysisEnvelope)
    (evals : List SymbolEval) (episodes : List EpisodeUpsert)
    → store ≡ some db
    → let r = persist store io envelope evals episodes in Journaled db io.fault r.0 r.1
unfolding persist
persist-Journaled store db io envelope evals episodes e = rw e (
    after_save-Journaled db io envelope (raw_or_none io.to_json (raw_by_symbol [] evals)) episodes
      io.fault)

-- A pass of a runner with a store. Where the save commits, the journal has one more row, and that
-- row holds exactly the envelope that is served. Where it fails, at whatever step, the tables are
-- what they were, and the served envelope is no "success" and says so in its last error.
pub run-Journaled :
    (runner : PipelineRunner) (io : PassInputs) (db : Db)
    → runner.outcome_store ≡ some db
    → let r = run runner io in Journaled db io.fault r.0.outcome_store r.1.envelope
unfolding run
run-Journaled runner io db e =
    let s = pass_rows runner io in
    let observed = observe_envelope io.utc_stamp runner.episodes (envelope_of runner io s) in
    persist-Journaled runner.outcome_store db io observed.2 s.evals observed.1.episodes e

abbrev pub StoreGapless : Option Db → String → Type 0
StoreGapless none pid = Unit
StoreGapless (some db) pid = IsGapless db pid

after_save_store :
    (saved : Saved) (f : Option (SaveStep × String)) → (after_save saved f).0 ≡ some saved.db
unfolding after_save
after_save_store saved none = refl
after_save_store saved (some (step, text)) = refl

persist-Gapless :
    (store : Option Db) (io : PassInputs) (envelope : AnalysisEnvelope) (evals : List SymbolEval)
    (episodes : List EpisodeUpsert) (pid : String)
    → StoreGapless store pid
    → StoreGapless (persist store io envelope evals episodes).0 pid
unfolding persist call_all
persist-Gapless none io envelope evals episodes pid g = tt
persist-Gapless (some db) io envelope evals episodes pid g =
    let raw_output = raw_or_none io.to_json (raw_by_symbol [] evals) in
    let fault = fault_step io.fault in
    let c : SaveCall = record {
      identity = io.identity;
      envelope = envelope;
      raw_output = raw_output;
      episodes = episodes;
      now_msc = io.now_msc;
      fault = fault;
    } in
    rw
      (after_save_store (save db io.identity envelope raw_output episodes io.now_msc fault)
        io.fault)
      (call_all-IsGapless db (c ∷ []) pid g)

-- The runner after a series of passes.
unfoldable pub run_all : PipelineRunner → List PassInputs → PipelineRunner
run_all runner [] = runner
run_all runner (io ∷ ios) = run_all (run runner io).0 ios

-- Passes in any number, whatever each of them meets (failing sources, evaluations or saves), keep
-- the tracker in step with its rule, and in every stream of the journal the numbers without a gap.
pub run_all-Sound :
    (runner : PipelineRunner) (ios : List PassInputs) (pid : String)
    → InStep runner.episodes
    → StoreGapless runner.outcome_store pid
    → InStep (run_all runner ios).episodes × StoreGapless (run_all runner ios).outcome_store pid
unfolding run_all run
run_all-Sound runner [] pid t g = (t, g)
run_all-Sound runner (io ∷ ios) pid t g =
    let s = pass_rows runner io in
    let envelope = envelope_of runner io s in
    let observed = observe_envelope io.utc_stamp runner.episodes envelope in
    run_all-Sound (run runner io).0 ios pid
      (observe_envelope-InStep io.utc_stamp runner.episodes envelope t)
      (persist-Gapless runner.outcome_store io observed.2 s.evals observed.1.episodes pid g)
