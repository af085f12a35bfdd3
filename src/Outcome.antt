-- ===== src/Outcome.antt =====
-- finiexragengine/types/outcome_types.py and the decision shapes of types/eval_types.py: the rows
-- that the pipeline, the episode tracker and the outcome store hand to one another.
-- The fields are those that the modelled code reads or writes. Instants are microseconds since the
-- epoch; `urgency` and `confidence` lie in [0, 1] and are only compared, so each is its place in
-- that order; `sentiment_score` lies in [-1, 1] and is a signed number in the same unit.
use finiex_ragengine.Prelude.{ℕ, String, Bool, Option, List}
use finiex_ragengine.Prelude.Dict.{Dict}
use finiex_ragengine.Prelude.Int.{ℤ}

-- provenance of one row
pub record ArticleRef : Type 0 where
  pub article_id : String
  pub fetched_at : Option ℕ
  pub published_at : Option ℕ
  pub retrieval_tier : Option String

-- How one retrieval came to its articles: counts, and the candidates' distances before the floor.
pub record RetrievalFunnel : Type 0 where
  pub in_window : ℕ
  pub floor_dropped : ℕ
  pub tier_duplicates : ℕ
  pub near_duplicates : ℕ
  pub kept : ℕ
  pub deep_kept : ℕ
  pub best_distance : Option ℕ
  pub worst_distance : Option ℕ
  pub floor : Option ℕ

pub record SentimentResult : Type 0 where
  pub symbol : String
  pub signal : String
  pub sentiment_score : ℤ
  pub confidence : ℕ
  pub reasoning : String
  pub urgency : ℕ
  pub is_breaking : Bool
  pub sources : List ArticleRef
  pub evidence_as_of : Option ℕ
  pub breaking_reason : Option String
  pub basis : String
  pub base_currency : Option String
  pub quote_currency : Option String
  pub breaking_episode_id : Option String
  pub breaking_episode_start : Bool

pub record RunError : Type 0 where
  pub error_type : String
  pub message : String

-- What a run did. Times and the cost are measurements and are left out.
pub record RunMetadata : Type 0 where
  pub model : String
  pub model_snapshot : String
  pub sources_configured : ℕ
  pub sources_reached : ℕ
  pub articles_found : ℕ
  pub articles_relevant : ℕ
  pub prompt_tokens : ℕ
  pub completion_tokens : ℕ
  pub per_symbol_tokens : Dict ℕ
  pub per_symbol_retrieval : Dict RetrievalFunnel
  pub variant_group : Option String
  pub variant : Option String

-- The envelope around the rows. `seq`, `stream_epoch` and `available_msc` are stamped by the store.
pub record AnalysisEnvelope : Type 0 where
  pub seq : Option ℕ
  pub stream_epoch : Option ℕ
  pub pipeline_id : String
  pub outcome_type : String
  pub instance_id : String
  pub config_fingerprint : String
  pub prompt_version : String
  pub prompt_id : String
  pub prompt_hash : String
  pub trigger_reason : String
  pub timestamp : ℕ
  pub available_msc : Option ℕ
  pub available_msc_resyncs : Option ℕ
  pub available_msc_max_correction_ms : Option ℕ
  pub status : String
  pub result : List SentimentResult
  pub metadata : RunMetadata
  pub errors : List RunError

-- `EpisodeUpsert` of eval_types.py: one row of the episode registry as of this pass.
pub record EpisodeUpsert : Type 0 where
  pub episode_id : String
  pub pipeline_id : String
  pub episode_key : String
  pub symbol : String
  pub signal : String
  pub started_at : ℕ
  pub last_seen_at : ℕ
  pub opened : Bool
  pub urgency : ℕ
  pub reason : String
  pub breaking_reason : String
  pub prompt_version : String
  pub engine_s : Option ℤ
  pub end_to_end_s : Option ℤ
