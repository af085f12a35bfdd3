-- ===== src/Pipeline/Runner/Rows.antt =====
-- What the loop over the groups in finiexragengine/core/pipeline/pipeline_runner.py produces, group
-- by group.
use finiex_ragengine.Prelude.{ℕ, ◌++◌, String, ◌≡◌, refl, sym, ap, ◌∙◌, List, [], ◌∷◌, map}
use mathlib.Core.List.{append-nil, append_assoc}
use finiex_ragengine.Prelude.Dict
use finiex_ragengine.Prelude.Dict.{Dict}
use finiex_ragengine.Errors.{Fallible, gives, raises}
use finiex_ragengine.Outcome.{SentimentResult, RunError}
use finiex_ragengine.Pipeline.Contract.{taxonomy_type, degraded_row}
use finiex_ragengine.Pipeline.OutputGuard.{OutputGuardConfig, PyText, GuardViolation, violations}
use finiex_ragengine.Pipeline.Messages.{about, analysis_degraded, guard_detail, guard_degraded}
use finiex_ragengine.Pipeline.Evaluator.{SymbolEval, total_tokens}
use finiex_ragengine.Pipeline.Runner.{
  SymbolSpec, Group, members, error, PassRows, stamp, fan, degrade, accept, take_eval, eval_groups,
}

-- What one group adds to the pass.
pub record Added : Type 0 where
  pub errors : List RunError
  pub rows : List SentimentResult
  pub evals : List SymbolEval

abbrev pub degraded : String → String → String → List SymbolSpec → Added
degraded error_type detail reasoning specs = record {
  errors = map (λ (spec : SymbolSpec). error error_type (about spec.key detail)) specs;
  rows = map (λ (spec : SymbolSpec). stamp (degraded_row spec.key reasoning) spec) specs;
  evals = [];
}

abbrev pub added : PassRows → Added
added s = record { errors = s.errors; rows = s.results; evals = s.evals }

abbrev pub both : Added → Added → Added
both a b = record {
  errors = a.errors ++ b.errors;
  rows = a.rows ++ b.rows;
  evals = a.evals ++ b.evals;
}

abbrev pub only : SymbolEval → Added
only ev = record { errors = []; rows = []; evals = ev ∷ [] }

abbrev pub accepted : List GuardViolation → SymbolEval → List SymbolSpec → Added
accepted [] ev specs = record { errors = []; rows = map (fan ev.result) specs; evals = [] }
accepted (v ∷ vs) ev specs =
    degraded "PARTIAL_RESPONSE" (guard_detail (v ∷ vs)) (guard_degraded (v ∷ vs)) specs

both_assoc : (a b c : Added) → both (both a b) c ≡ both a (both b c)
both_assoc a b c =
    rw
      (
        append_assoc a.errors b.errors c.errors,
        append_assoc a.rows b.rows c.rows,
        append_assoc a.evals b.evals c.evals,
      )
      refl

both_nil : (a : Added) → both a (record { errors = []; rows = []; evals = [] }) ≡ a
both_nil a = rw (append-nil a.errors, append-nil a.rows, append-nil a.evals) refl

degrade-added :
    (t d r : String) (specs : List SymbolSpec) (s : PassRows)
    → added (degrade t d r specs s) ≡ both (added s) (degraded t d r specs)
unfolding degrade
degrade-added t d r [] s = sym (both_nil (added s))
degrade-added t d r (spec ∷ specs) s =
    let one = degraded t d r (spec ∷ []) in
    let s' : PassRows = record s {
      errors = s.errors ++ one.errors;
      results = s.results ++ one.rows;
    } in
    let e : added s' ≡ both (added s) one = rw (append-nil s.evals) refl in
    degrade-added t d r specs s'
    ∙ ap (λ a. both a (degraded t d r specs)) e
    ∙ both_assoc (added s) one (degraded t d r specs)

accept-added :
    (vs : List GuardViolation) (ev : SymbolEval) (specs : List SymbolSpec) (s : PassRows)
    → added (accept vs ev specs s) ≡ both (added s) (accepted vs ev specs)
unfolding accept
accept-added [] ev specs s = rw (append-nil s.errors, append-nil s.evals) refl
accept-added (v ∷ vs) ev specs s =
    degrade-added "PARTIAL_RESPONSE" (guard_detail (v ∷ vs)) (guard_degraded (v ∷ vs)) specs s

counted :
    (s : PassRows) (ev : SymbolEval) (tokens : Dict ℕ)
    → added (record s { evals = s.evals ++ ev ∷ []; per_symbol_tokens = tokens })
      ≡ both (added s) (only ev)
counted s ev tokens = rw (append-nil s.errors, append-nil s.results) refl

module _ (py : PyText) (guard : OutputGuardConfig) where
  abbrev pub group_adds : Fallible SymbolEval → Group → Added
  group_adds (raises exc) g =
      degraded (taxonomy_type exc) exc.text (analysis_degraded (taxonomy_type exc)) (members g)
  group_adds (gives ev) g = both (only ev) (accepted (violations py guard ev.result) ev (members g))

  take_eval-added :
      (r : Fallible SymbolEval) (g : Group) (s : PassRows)
      → added (take_eval py guard r g s) ≡ both (added s) (group_adds r g)
  unfolding take_eval
  take_eval-added (raises exc) g s =
      degrade-added (taxonomy_type exc) exc.text (analysis_degraded (taxonomy_type exc)) (members g)
        s
  take_eval-added (gives ev) g s =
      let vs = violations py guard ev.result in
      let tokens = Dict.put s.per_symbol_tokens g.canonical.key (total_tokens ev.usage) in
      accept-added vs ev (members g) _
      ∙ ap (λ a. both a (accepted vs ev (members g))) (counted s ev tokens)
      ∙ both_assoc (added s) (only ev) (accepted vs ev (members g))

  module _ (evaluate : String → String → Fallible SymbolEval) where
    unfoldable pub groups_add : Dict Group → Added
    groups_add [] = record { errors = []; rows = []; evals = [] }
    groups_add ((q, g) ∷ groups) =
        both (group_adds (evaluate g.canonical.key q) g) (groups_add groups)

    -- A pass is what its groups add, one after the other.
    pub eval_groups-added :
        (groups : Dict Group) (s : PassRows)
        → added (eval_groups py guard evaluate groups s) ≡ both (added s) (groups_add groups)
    unfolding eval_groups groups_add
    eval_groups-added [] s = sym (both_nil (added s))
    eval_groups-added ((q, g) ∷ groups) s =
        let r = evaluate g.canonical.key q in
        eval_groups-added groups (take_eval py guard r g s)
        ∙ ap (λ a. both a (groups_add groups)) (take_eval-added r g s)
        ∙ both_assoc (added s) (group_adds r g) (groups_add groups)
