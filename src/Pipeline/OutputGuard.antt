-- ===== src/Pipeline/OutputGuard.antt =====
-- finiexragengine/core/pipeline/output_guard.py, with `OutputGuardConfig` of
-- types/config_types/pipeline_config_types.py.
use Prim.Native.String.{String, ◌++◌}
use finiex_ragengine.Prelude.{
  ℕ, Bool, true, false, not, ◌&&◌, List, [], ◌∷◌, ltb, if◌then◌else◌, str_eq,
}
use finiex_ragengine.Prelude.Int.{ℤ, ltb_ℤ, negate}
use finiex_ragengine.Outcome.{ArticleRef, SentimentResult}

pub record OutputGuardConfig : Type 0 where
  pub score_signal_tolerance : ℤ
  pub hold_confidence_max : ℕ

-- What Python's library does with text: `str.strip`, a float in a text, and the order of texts.
pub record PyText : Type 0 where
  pub strip : String → String
  pub score_text : ℤ → String
  pub confidence_text : ℕ → String
  pub str_le : String → String → Bool

pub record GuardViolation : Type 0 where
  pub rule : String
  pub detail : String

-- `__str__`
unfoldable pub violation_text : GuardViolation → String
violation_text v = if str_eq v.detail "" then v.rule else v.rule ++ " (" ++ v.detail ++ ")"

abbrev pub no_sources : List ArticleRef → Bool
no_sources [] = true
no_sources (_ ∷ _) = false

abbrev pub found : Bool → String → String → List GuardViolation → List GuardViolation
found b rule detail rest = if b then record { rule = rule; detail = detail } ∷ rest else rest

module _ (py : PyText) (config : OutputGuardConfig) (result : SentimentResult) where
  unfoldable pub buys_below : Bool
  buys_below =
      str_eq result.signal "BUY"
      && ltb_ℤ result.sentiment_score (negate config.score_signal_tolerance)

  unfoldable pub sells_above : Bool
  sells_above =
      str_eq result.signal "SELL" && ltb_ℤ config.score_signal_tolerance result.sentiment_score

  unfoldable pub certain_hold : Bool
  certain_hold = str_eq result.signal "HOLD" && ltb config.hold_confidence_max result.confidence

  unfoldable pub unexplained : Bool
  unexplained = str_eq (py.strip result.reasoning) ""

  unfoldable pub unsourced : Bool
  unsourced = not (str_eq result.signal "HOLD") && no_sources result.sources

  -- The rules in their order; the second is an `elif` of the first.
  unfoldable pub violations : List GuardViolation
  unfolding buys_below sells_above certain_hold unexplained unsourced
  violations =
      let score = py.score_text result.sentiment_score in
      let provenance = found unsourced "missing_provenance" "non-HOLD with no sources" [] in
      let reasoning = found unexplained "empty_reasoning" "" provenance in
      let hold =
        found certain_hold "hold_confidence"
          ("HOLD with confidence=" ++ py.confidence_text result.confidence) reasoning in
      if not (str_eq result.basis "llm")
      then []
      else if buys_below
      then found true "signal_score_coherence" ("BUY with sentiment_score=" ++ score) hold
      else found sells_above "signal_score_coherence" ("SELL with sentiment_score=" ++ score) hold
