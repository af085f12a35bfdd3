-- ===== src/Ingest.antt =====
-- finiexragengine/core/pipeline/ingestor.py: one acquisition pass over the sources of a set, with
-- `existing_ids` and `upsert` of core/rag/pgvector_store.py. What a feed answers, what the provider
-- embeds and where the database fails are arguments; the poll log keeps its own errors to itself. The fetches are independent of one another, so
-- their order is not modelled; timings, hosts, token counts, message texts and the count of dropped
-- characters are left out. The clock is read once.
pub mod Books
pub mod Accounting
pub mod Polls
pub mod Saved
pub mod Safe
pub mod Kept
pub mod Reported
use finiex_ragengine.Prelude.{
  ℕ, suc, ◌+◌, ◌++◌, String, Bool, true, false, not, ◌&&◌, ◌||◌, Option, none, some, List, [], ◌∷◌,
  length, map, keep_if, is_some, if◌then◌else◌, str_eq, contains,
}
use finiex_ragengine.Prelude.Dict
use finiex_ragengine.Retrieval.Corpus.{Article}
use finiex_ragengine.Breaking.Detector.{
  DetectorEnv, DetectionConfig, DetectionResult, FlaggedCandidate, detect, no_flags,
}
use finiex_ragengine.Health.{SourceHealthStore, should_poll, ahead}
use finiex_ragengine.Health.Passes.{Failure, record_success, record_failure, begin_pass, end_pass}

pub data PollStatus : Type 0 where
  ok failed quarantined floor_skipped suspended host_backoff embed_failed : PollStatus

pub record SourceIngest : Type 0 where
  pub fetched : ℕ
  pub embedded : ℕ
  pub rejected : ℕ
  pub stored : ℕ
  pub normalised : ℕ

pub record SourcePoll : Type 0 where
  pub source_id : String
  pub status : PollStatus
  pub ingest : Option SourceIngest
  pub until : Option ℕ
  pub rung : Option (ℕ × ℕ)

pub record PollSample : Type 0 where
  pub source_id : String
  pub is_ok : Bool
  pub duration_ms : ℕ
  pub error_type : Option String
  pub status : Option ℕ
  pub articles : ℕ

pub record Source : Type 0 where
  pub source_id : String
  pub due_for_fetch : Bool
  pub deadline_ms : Option ℕ

-- An article, and whether the normaliser changed its text.
pub record FetchedArticle : Type 0 where
  pub article : Article
  pub changed : Bool

-- `_FetchOutcome`
pub data FetchOutcome : Type 0 where
  pulled : ℕ → List FetchedArticle → FetchOutcome
  fetch_failed : ℕ → String → Option ℕ → FetchOutcome

-- What one call of the embedder does: the two errors, or which of the texts got a vector.
pub data Embedding : Type 0 where
  budget_exceeded unreachable : Embedding
  embedded : (ℕ → Bool) → Embedding

pub record Ingestor : Type 0 where
  pub sources : List Source
  pub fetch : String → FetchOutcome
  pub embed : List Article → Embedding
  pub detector : Option (DetectorEnv × DetectionConfig)
  pub journals : Bool
  -- whether the health store takes the outcome of a source's poll
  pub answers_health : String → Bool
  -- whether the corpus answers `existing_ids` and `upsert` for a source's articles
  pub answers_lookup : String → Bool
  pub answers_upsert : String → Bool
  -- whether the detector's reads and writes of the corpus succeed
  pub answers_detect : Bool
  -- where the health store fails at the end of the pass, what that leaves in it
  pub close_fault : Option SourceHealthStore

-- The state of a pass: the stores it writes, the conditional-get state it resets, and its result.
-- `raised` is an error of the database, which leaves the pass, or its end.
pub record AcquisitionPass : Type 0 where
  pub health : Option SourceHealthStore
  pub corpus : List String
  pub refused : List String
  pub resets : List String
  pub samples : List PollSample
  pub polls : List SourcePoll
  pub fetched : ℕ
  pub embedded : ℕ
  pub rejected : ℕ
  pub stored : ℕ
  pub normalised : ℕ
  pub suspended : Bool
  pub embed_failed : Bool
  pub recovered : List String
  pub detect_batch : List Article
  pub candidates : ℕ
  pub flagged : List FlaggedCandidate
  pub max_tier : ℕ
  pub raised : Bool

abbrev pub Plan : Type 0
Plan = List (Source × Option SourcePoll)

abbrev pub skip : String → PollStatus → Option ℕ → Option (ℕ × ℕ) → SourcePoll
skip id status until rung = record {
  source_id = id;
  status = status;
  ingest = none;
  until = until;
  rung = rung;
}

-- Why a source is not polled that the health store holds back.
abbrev pub held_back : ℕ → String → SourceHealthStore → SourcePoll
held_back now id h =
    if ahead now h.host_backoff
    then skip id host_backoff h.host_backoff none
    else skip id quarantined (Dict.get h.quarantined id) (Dict.get h.rungs id)

abbrev pub floor_skip : Source → Option SourcePoll
floor_skip s = if s.due_for_fetch then none else some (skip s.source_id floor_skipped none none)

abbrev pub plan_asked :
    ℕ → Source → SourceHealthStore × Bool → Option SourceHealthStore × Option SourcePoll
plan_asked now s (h, true) = (some h, floor_skip s)
plan_asked now s (h, false) = (some h, some (held_back now s.source_id h))

abbrev pub plan_one :
    ℕ → Source → Option SourceHealthStore → Option SourceHealthStore × Option SourcePoll
plan_one now s none = (none, floor_skip s)
plan_one now s (some h) = plan_asked now s (should_poll now s.source_id h)

-- `_plan_pass`
unfoldable pub plan_pass :
    ℕ → List Source → Option SourceHealthStore → Option SourceHealthStore × Plan
plan_pass now [] health = (health, [])
plan_pass now (s ∷ ss) health =
    let (h, poll) = plan_one now s health in
    let (h', plan) = plan_pass now ss h in (h', (s, poll) ∷ plan)
