-- ===== src/Pipeline/Contract.antt =====
-- finiexragengine/core/pipeline/envelope_contract.py, over the exceptions of
-- finiexragengine/exceptions/ragengine_errors.py.
use finiex_ragengine.Prelude.{
  String, ◌≡◌, refl, Bool, false, ◌||◌, Option, none, some, [], if◌then◌else◌, str_eq,
}
use finiex_ragengine.Prelude.Int.{pos}
use finiex_ragengine.Errors.{ErrorClass, FiniexRagError}
use finiex_ragengine.Outcome.{SentimentResult}

-- No class of the table is a subclass of another, so the first match is the only one.
unfoldable pub taxonomy_type : FiniexRagError → String
taxonomy_type exc = elim exc.error_class [
  | ErrorClass.source_fetch ↦ "SOURCE_UNREACHABLE"
  | ErrorClass.llm_timeout ↦ "LLM_TIMEOUT"
  | ErrorClass.llm_api ↦ "LLM_API_ERROR"
  | ErrorClass.llm_parse ↦ "LLM_PARSE_ERROR"
  | ErrorClass.vector_store ↦ "VECTOR_STORE_ERROR"
  | ErrorClass.budget_exceeded ↦ "BUDGET_EXCEEDED"
  | _ ↦ "PARTIAL_RESPONSE"
]

-- `basis not in RESULT_BASES`
unfoldable pub known_basis : String → Bool
known_basis basis = str_eq basis "llm" || str_eq basis "no_data" || str_eq basis "degraded"

-- `SentimentResult(…)` with the model's defaults in the fields that are not given.
unfoldable pub hold_row : String → String → String → SentimentResult
hold_row symbol reasoning basis = record {
  symbol = symbol;
  signal = "HOLD";
  sentiment_score = pos 0;
  confidence = 0;
  reasoning = reasoning;
  urgency = 0;
  is_breaking = false;
  sources = [];
  evidence_as_of = none;
  breaking_reason = none;
  basis = basis;
  base_currency = none;
  quote_currency = none;
  breaking_episode_id = none;
  breaking_episode_start = false;
}

-- `none` is the `ValueError`.
unfoldable pub hold_result : String → String → String → Option SentimentResult
unfolding known_basis
hold_result symbol reasoning basis =
    if known_basis basis then some (hold_row symbol reasoning basis) else none

-- `hold_result` with its default basis, which is known.
abbrev pub degraded_row : String → String → SentimentResult
degraded_row symbol reasoning = hold_row symbol reasoning "degraded"

pub hold_result_degraded :
    (symbol reasoning : String)
    → hold_result symbol reasoning "degraded" ≡ some (degraded_row symbol reasoning)
unfolding hold_result known_basis
hold_result_degraded symbol reasoning = refl
