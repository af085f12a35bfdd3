-- ===== src/Examples.antt =====
-- Concrete rows, envelopes and calls, and the theorems and functions of the library run on them.
pub mod Episodes
pub mod Streams
pub mod Guards
pub mod Delivery
pub mod Passes
pub mod Retrievals
pub mod Detections
pub mod Sources
pub mod Stories
pub mod Migrations
pub mod Ingests
use finiex_ragengine.Prelude.{ℕ, String, Bool, true, false, Option, none, some, List, [], ◌∷◌}
use finiex_ragengine.Prelude.Int.{pos}
use finiex_ragengine.Outcome.{SentimentResult, RunMetadata, AnalysisEnvelope, EpisodeUpsert}

abbrev pub row_for : String → Bool → ℕ → SentimentResult
row_for symbol is_breaking urgency = record {
  symbol = symbol;
  signal = "bullish";
  sentiment_score = pos 40;
  confidence = 80;
  reasoning = "rate cut";
  urgency = urgency;
  is_breaking = is_breaking;
  sources =
      record {
        article_id = "a1";
        fetched_at = some 90;
        published_at = some 60;
        retrieval_tier = some "recent";
      }
      ∷ [];
  evidence_as_of = some 90;
  breaking_reason = some "surprise cut";
  basis = "news";
  base_currency = some "USD";
  quote_currency = none;
  breaking_episode_id = none;
  breaking_episode_start = false;
}

abbrev pub no_metadata : RunMetadata
no_metadata = record {
  model = "small";
  model_snapshot = "";
  sources_configured = 0;
  sources_reached = 0;
  articles_found = 0;
  articles_relevant = 0;
  prompt_tokens = 0;
  completion_tokens = 0;
  per_symbol_tokens = [];
  per_symbol_retrieval = [];
  variant_group = none;
  variant = none;
}

abbrev pub envelope_at : String → ℕ → List SentimentResult → AnalysisEnvelope
envelope_at pid ts rows = record {
  seq = none;
  stream_epoch = none;
  pipeline_id = pid;
  outcome_type = "sentiment";
  instance_id = "";
  config_fingerprint = "";
  prompt_version = "v1";
  prompt_id = "";
  prompt_hash = "";
  trigger_reason = "scheduled";
  timestamp = ts;
  available_msc = none;
  available_msc_resyncs = none;
  available_msc_max_correction_ms = none;
  status = "success";
  result = rows;
  metadata = no_metadata;
  errors = [];
}

abbrev pub upsert_at : String → ℕ → EpisodeUpsert
upsert_at id ts = record {
  episode_id = id;
  pipeline_id = "fx";
  episode_key = "USD";
  symbol = "EURUSD";
  signal = "bullish";
  started_at = 100;
  last_seen_at = ts;
  opened = true;
  urgency = 90;
  reason = "rate cut";
  breaking_reason = "surprise cut";
  prompt_version = "v1";
  engine_s = none;
  end_to_end_s = none;
}
