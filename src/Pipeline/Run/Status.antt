-- ===== src/Pipeline/Run/Status.antt =====
-- The status of the envelope that `_run` of finiexragengine/core/pipeline/pipeline_runner.py serves.
use finiex_ragengine.Prelude.{
  ◌++◌, String, ◌≡◌, ◌≢◌, ◌↔◌, refl, sym, ap, ◌∙◌, false, Option, none, some, List, [], ◌∷◌, eq_iff,
  str_eq, Bool-cases, inl, inr,
}
use finiex_ragengine.Prelude.Dict
use finiex_ragengine.Prelude.Dict.{Dict}
use finiex_ragengine.Errors.{Fallible, gives, raises, gives-injective}
use finiex_ragengine.Outcome.{RunError, AnalysisEnvelope, EpisodeUpsert}
use finiex_ragengine.Breaking.Tracker.{observe_envelope}
use finiex_ragengine.Stream.Store.{Db, SaveStep, save}
use finiex_ragengine.Pipeline.OutputGuard.{OutputGuardConfig, PyText, GuardViolation, violations}
use finiex_ragengine.Pipeline.Evaluator.{SymbolEval}
use finiex_ragengine.Pipeline.Runner.{
  SymbolSpec, Group, active_symbols, group_by_query, any_budget, is_empty, derive_status,
  UnreachedSource, fetch_errors, reach_errors,
}
use finiex_ragengine.Pipeline.Runner.Rows.{accepted, group_adds, groups_add, eval_groups-added}
use finiex_ragengine.Pipeline.Run.{
  PipelineRunner, PassInputs, source_errors, pass_rows, envelope_of, degrade_unsaved, after_save,
  fault_step, raw_or_none, raw_by_symbol, persist, run,
}

append_nil_iff : {A : Type 0} (xs ys : List A) → (xs ++ ys ≡ []) ↔ ((xs ≡ []) × (ys ≡ []))
append_nil_iff [] ys = ((λ h. (refl, h)), λ h. h.1)
append_nil_iff (x ∷ xs) ys = ((λ h. cc), λ h. cc)

accepted_iff :
    (vs : List GuardViolation) (ev : SymbolEval) (spec : SymbolSpec) (specs : List SymbolSpec)
    → ((accepted vs ev (spec ∷ specs)).errors ≡ []) ↔ (vs ≡ [])
accepted_iff [] ev spec specs = ((λ h. refl), λ h. refl)
accepted_iff (v ∷ vs) ev spec specs = ((λ h. cc), λ h. cc)

module _ (py : PyText) (guard : OutputGuardConfig) where
  -- An evaluation that succeeds and that the guard finds coherent.
  abbrev pub Clean : Fallible SymbolEval → Type 0
  Clean r = (ev : SymbolEval) × (r ≡ gives ev) × (violations py guard ev.result ≡ [])

  Clean-iff :
      (r : Fallible SymbolEval) (g : Group) → ((group_adds py guard r g).errors ≡ []) ↔ Clean r
  Clean-iff (raises exc) g = ((λ h. cc), λ h. cc)
  Clean-iff (gives ev) g =
      let a = accepted_iff (violations py guard ev.result) ev g.canonical g.others in
      (
        (λ h. (ev, refl, a.0 h)),
        λ h.
            a.1 (ap (λ (x : SymbolEval). violations py guard x.result) (gives-injective h.1) ∙ h.2),
      )

  module _ (evaluate : String → String → Fallible SymbolEval) where
    -- Every group's evaluation is clean.
    abbrev pub AllClean : Dict Group → Type 0
    AllClean [] = Unit
    AllClean ((q, g) ∷ groups) = Clean (evaluate g.canonical.key q) × AllClean groups

    AllClean-iff :
        (groups : Dict Group)
        → ((groups_add py guard evaluate groups).errors ≡ []) ↔ AllClean groups
    unfolding groups_add
    AllClean-iff [] = ((λ h. tt), λ h. refl)
    AllClean-iff ((q, g) ∷ groups) =
        let r = evaluate g.canonical.key q in
        let parts =
          append_nil_iff (group_adds py guard r g).errors
            (groups_add py guard evaluate groups).errors in
        let one = Clean-iff r g in
        let rest = AllClean-iff groups in
        ((λ h. (one.0 (parts.0 h).0, rest.0 (parts.0 h).1)), λ h. parts.1 (one.1 h.0, rest.1 h.1))

    clean_evals :
        (groups : Dict Group)
        → AllClean groups
        → is_empty (groups_add py guard evaluate groups).evals ≡ is_empty groups
    unfolding groups_add
    clean_evals [] c = refl
    clean_evals ((q, g) ∷ groups) c = rw c.0.1 refl

not_success : (s : String) → str_eq s "success" ≡ false → s ≢ "success"
not_success s e h = let t = (eq_iff s "success").1 h in cc

derive_status_success :
    (errors : List RunError) (evals : List SymbolEval)
    → (derive_status errors evals ≡ "success") ↔ ((errors ≡ []) × (is_empty evals ≡ false))
unfolding derive_status any_budget
derive_status_success [] [] = ((λ h. absurd (not_success "error" refl h)), λ h. cc)
derive_status_success [] (ev ∷ evals) = ((λ h. (refl, refl)), λ h. refl)
derive_status_success (e ∷ errors) evals = elim (Bool-cases (any_budget (e ∷ errors))) [
  | inl b ↦ rw b ((λ h. absurd (not_success "partial" refl h)), λ h. cc)
  | inr b ↦ elim (Bool-cases (is_empty evals)) [
    | inl n ↦ rw (b, n) ((λ h. absurd (not_success "error" refl h)), λ h. cc)
    | inr n ↦ rw (b, n) ((λ h. absurd (not_success "partial" refl h)), λ h. cc)
  ]
]

-- The pass has no store, or the store takes the envelope.
abbrev pub Saves : Option Db → Option (SaveStep × String) → Type 0
Saves none f = Unit
Saves (some db) none = Unit
Saves (some db) (some f) = ⊥

pub degrade_unsaved_status :
    (text : String) (envelope : AnalysisEnvelope)
    → (degrade_unsaved text envelope).status ≢ "success"
unfolding degrade_unsaved
degrade_unsaved_status text envelope = elim (Bool-cases (str_eq envelope.status "success")) [
  | inl e ↦ rw e (not_success "partial" refl)
  | inr e ↦ rw e (not_success envelope.status e)
]

save_status :
    (db : Db) (io : PassInputs) (envelope : AnalysisEnvelope) (raw_output : Option String)
    (episodes : List EpisodeUpsert)
    → (save db io.identity envelope raw_output episodes io.now_msc none).envelope.status
      ≡ envelope.status
unfolding save
save_status db io envelope raw_output episodes = refl

saved_status :
    (db : Db) (io : PassInputs) (envelope : AnalysisEnvelope) (raw_output : Option String)
    (episodes : List EpisodeUpsert) (f : Option (SaveStep × String))
    → let r =
        (after_save
          (save db io.identity envelope raw_output episodes io.now_msc (fault_step f))
          f).1 in
      (r.status ≡ "success") ↔ ((envelope.status ≡ "success") × Saves (some db) f)
unfolding after_save
saved_status db io envelope raw_output episodes none =
    let kept = save_status db io envelope raw_output episodes in
    ((λ h. (sym kept ∙ h, tt)), λ h. kept ∙ h.0)
saved_status db io envelope raw_output episodes (some (step, text)) = (
  (λ h. absurd (
      degrade_unsaved_status text
        (save db io.identity envelope raw_output episodes io.now_msc (some step)).envelope h)),
  λ h. absurd h.1,
)

persist_status :
    (store : Option Db) (io : PassInputs) (envelope : AnalysisEnvelope) (evals : List SymbolEval)
    (episodes : List EpisodeUpsert)
    → ((persist store io envelope evals episodes).1.status ≡ "success")
      ↔ ((envelope.status ≡ "success") × Saves store io.fault)
unfolding persist
persist_status none io envelope evals episodes = ((λ h. (h, tt)), λ h. h.0)
persist_status (some db) io envelope evals episodes =
    saved_status db io envelope (raw_or_none io.to_json (raw_by_symbol [] evals)) episodes io.fault

pass_errors :
    (runner : PipelineRunner) (io : PassInputs)
    → let groups = group_by_query (active_symbols runner.config) in
      let a = groups_add io.py runner.config.output_guard io.evaluate groups in
      ((pass_rows runner io).errors ≡ source_errors io ++ a.errors)
      × ((pass_rows runner io).evals ≡ a.evals)
unfolding pass_rows
pass_errors runner io =
    let groups = group_by_query (active_symbols runner.config) in
    let e = eval_groups-added io.py runner.config.output_guard io.evaluate groups _ in
    (ap (λ a. a.errors) e, ap (λ a. a.evals) e)

-- No source contributes an error exactly where none failed and none was unreached.
source_errors_iff :
    (failed : Dict String) (unreached : List UnreachedSource)
    → (fetch_errors failed ++ reach_errors failed unreached ≡ [])
      ↔ ((failed ≡ []) × (unreached ≡ []))
unfolding fetch_errors reach_errors Dict.get
source_errors_iff [] [] = ((λ h. (refl, refl)), λ h. refl)
source_errors_iff [] (entry ∷ entries) = ((λ h. cc), λ h. cc)
source_errors_iff (x ∷ failed) unreached = ((λ h. cc), λ h. cc)

-- The served envelope says "success" exactly where some query was evaluated, no source failed or was
-- unreached, every query's evaluation succeeded and passed the guard, and the store, where there is
-- one, took the envelope.
pub run_success :
    (runner : PipelineRunner) (io : PassInputs)
    → let groups = group_by_query (active_symbols runner.config) in
      ((run runner io).1.envelope.status ≡ "success") ↔ (
        (io.ingest.failed_sources ≡ [])
        × (io.census.unreached ≡ [])
        × AllClean io.py runner.config.output_guard io.evaluate groups
        × (is_empty groups ≡ false)
        × Saves runner.outcome_store io.fault)
unfolding run envelope_of observe_envelope source_errors
run_success runner io =
    let groups = group_by_query (active_symbols runner.config) in
    let guard = runner.config.output_guard in
    let s = pass_rows runner io in
    let p = pass_errors runner io in
    let observed = observe_envelope io.utc_stamp runner.episodes (envelope_of runner io s) in
    let saved = persist_status runner.outcome_store io observed.2 s.evals observed.1.episodes in
    let status = derive_status_success s.errors s.evals in
    let parts =
      append_nil_iff (source_errors io) (groups_add io.py guard io.evaluate groups).errors in
    let sources = source_errors_iff io.ingest.failed_sources io.census.unreached in
    let all = AllClean-iff io.py guard io.evaluate groups in
    let evals = clean_evals io.py guard io.evaluate groups in
    (
      (λ h.
          let a = saved.0 h in
          let b = status.0 a.0 in
          let c = parts.0 (sym p.0 ∙ b.0) in
          let clean = all.0 c.1 in
          let none_failed = sources.0 c.0 in
          (
            none_failed.0,
            none_failed.1,
            clean,
            sym (evals clean) ∙ ap is_empty (sym p.1) ∙ b.1,
            a.1,
          )),
      λ h. saved.1 (
        status.1
            (p.0 ∙ parts.1 (sources.1 (h.0, h.1), all.1 h.2), ap is_empty p.1 ∙ evals h.2 ∙ h.3),
        h.4,
      ),
    )
