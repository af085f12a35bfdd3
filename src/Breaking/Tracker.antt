-- ===== src/Breaking/Tracker.antt =====
-- finiexragengine/core/pipeline/breaking_episode.py: the live driver of the episode rule, which
-- turns an opened episode into a `BreakingEpisode` and stamps its identity on the rows. A method
-- that mutates the tracker, its outcome or a row returns the new ones.
pub mod Agreement
pub mod Rows
pub mod Identity
use finiex_ragengine.Prelude.{
  ℕ, ◌+◌, String, Bool, true, false, not, ◌&&◌, Option, none, some, List, [], ◌∷◌, ◌++◌, max,
  length, leb, ◌==◌, if◌then◌else◌, str_eq,
}
use finiex_ragengine.Prelude.Dict
use finiex_ragengine.Prelude.Dict.{Dict}
use finiex_ragengine.Prelude.Int.{ℤ, sub_ℕ}
use finiex_ragengine.Outcome.{ArticleRef, SentimentResult, AnalysisEnvelope, EpisodeUpsert}
use finiex_ragengine.Breaking.EpisodeId.{episode_id}
use finiex_ragengine.Breaking.EpisodeRule.{
  EpisodeGrouping, BreakingPassDecision, observe, key_for, or_else,
}

pub record BreakingEpisode : Type 0 where
  pub symbol : String
  pub signal : String
  pub urgency : ℕ
  pub engine_s : Option ℤ
  pub end_to_end_s : Option ℤ
  pub n_sources : ℕ
  pub reason : String
  pub breaking_reason : String

pub record OpenEpisode : Type 0 where
  pub episode : BreakingEpisode
  pub started : ℕ
  pub last_seen : ℕ
  pub started_bounded : Bool

pub record BreakingPass : Type 0 where
  pub started : List BreakingEpisode
  pub held : List String
  pub episodes : List EpisodeUpsert

unfoldable pub display_reason : BreakingEpisode → String
unfolding or_else
display_reason e = or_else (some e.breaking_reason) e.reason

-- [s.fetched_at for s in result.sources if s.fetched_at]
unfoldable pub fetched_times : List ArticleRef → List ℕ
fetched_times [] = []
fetched_times (s ∷ ss) =
    let rest = fetched_times ss in elim s.fetched_at [ none ↦ rest | some t ↦ t ∷ rest ]

-- An estimated publish date is the fetch time itself, and is left out.
abbrev is_estimate : ℕ → Option ℕ → Bool
is_estimate p none = false
is_estimate p (some f) = p == f

unfoldable pub published_times : List ArticleRef → List ℕ
published_times [] = []
published_times (s ∷ ss) =
    let rest = published_times ss in
    elim s.published_at [
      | none ↦ rest
      | some p ↦ if is_estimate p s.fetched_at then rest else p ∷ rest
    ]

-- `max` of a list that is not empty, given as its head and its tail
unfoldable pub max_of : ℕ → List ℕ → ℕ
max_of m [] = m
max_of m (x ∷ xs) = max_of (max m x) xs

-- (ts - max(stamps)).total_seconds() if stamps else None, in microseconds
unfoldable pub reaction : ℕ → List ℕ → Option ℤ
unfolding max_of
reaction ts [] = none
reaction ts (t ∷ stamps) = some (sub_ℕ ts (max_of t stamps))

unfoldable pub reaction_times : SentimentResult → ℕ → Option ℤ × Option ℤ
unfolding fetched_times published_times reaction
reaction_times result ts =
    (reaction ts (fetched_times result.sources), reaction ts (published_times result.sources))

pub record BreakingEpisodeTracker : Type 0 where
  pub grouping : EpisodeGrouping
  pub ids : Dict String
  pub open_map : Dict OpenEpisode

-- `__init__`
unfoldable pub new_tracker : EpisodeGrouping → BreakingEpisodeTracker
new_tracker grouping = record { grouping = grouping; ids = []; open_map = [] }

-- What one pass over an envelope carries from row to row.
pub record PassState : Type 0 where
  pub tracker : BreakingEpisodeTracker
  pub outcome : BreakingPass
  pub rows_written : Dict (Unit {0})

unfoldable pub opened_episode : SentimentResult → Option ℤ × Option ℤ → BreakingEpisode
unfolding or_else
opened_episode result times = record {
  symbol = result.symbol;
  signal = result.signal;
  urgency = result.urgency;
  engine_s = times.0;
  end_to_end_s = times.1;
  n_sources = length result.sources;
  reason = result.reasoning;
  breaking_reason = or_else result.breaking_reason "";
}

-- `running.last_seen = ts`, where the episode is running
abbrev touch : Dict OpenEpisode → String → ℕ → Option OpenEpisode → Dict OpenEpisode
touch d key ts none = d
touch d key ts (some running) = Dict.put d key (record running { last_seen = ts })

-- `if decision.opened: … elif decision.held: …`
unfoldable pub record_edge :
    ℕ
    → SentimentResult
    → String
    → BreakingPassDecision
    → Option ℤ × Option ℤ
    → PassState
    → PassState
unfolding opened_episode
record_edge ts result key d times s =
    let e = opened_episode result times in
    if d.opened
    then record s {
      outcome = record s.outcome { started = s.outcome.started ++ e ∷ [] };
      tracker = record s.tracker {
        open_map =
            Dict.put s.tracker.open_map key
              (record { episode = e; started = ts; last_seen = ts; started_bounded = false });
      };
    }
    else if d.held
    then record s {
      outcome = record s.outcome { held = s.outcome.held ++ result.symbol ∷ [] };
      tracker = record s.tracker {
        open_map = touch s.tracker.open_map key ts (Dict.get s.tracker.open_map key);
      };
    }
    else s

-- The identity that a row inside an episode carries.
unfoldable pub stamped_id :
    (ℕ → String) → String → SentimentResult → String → Bool → ℕ → Dict String → String
unfolding or_else
stamped_id utc_stamp pipeline_id result key opened started_at ids =
    let fresh = episode_id utc_stamp pipeline_id key started_at in
    if opened then or_else result.breaking_episode_id fresh else or_else (Dict.get ids key) fresh

unfoldable pub upsert_row :
    AnalysisEnvelope
    → SentimentResult
    → String
    → String
    → Bool
    → ℕ
    → Option ℤ × Option ℤ
    → EpisodeUpsert
unfolding or_else
upsert_row envelope result id key opened started_at times = record {
  episode_id = id;
  pipeline_id = envelope.pipeline_id;
  episode_key = key;
  symbol = result.symbol;
  signal = result.signal;
  started_at = started_at;
  last_seen_at = envelope.timestamp;
  opened = opened;
  urgency = result.urgency;
  reason = result.reasoning;
  breaking_reason = or_else result.breaking_reason "";
  prompt_version = envelope.prompt_version;
  engine_s = times.0;
  end_to_end_s = times.1;
}

-- `if stamped_id not in rows_written: …`
unfoldable pub write_row : EpisodeUpsert → PassState → PassState
write_row row s = if Dict.has s.rows_written row.episode_id then s else record s {
  rows_written = Dict.put s.rows_written row.episode_id tt;
  outcome = record s.outcome { episodes = s.outcome.episodes ++ row ∷ [] };
}

-- The branch on `decision.in_episode and decision.started_at is not None`.
unfoldable pub stamp_identity :
    (ℕ → String)
    → AnalysisEnvelope
    → SentimentResult
    → String
    → BreakingPassDecision
    → Option ℤ × Option ℤ
    → Option ℕ
    → PassState
    → PassState × SentimentResult
stamp_identity utc_stamp envelope result key d times none s = (
  record s {
    tracker = record s.tracker {
      open_map = Dict.remove s.tracker.open_map key;
      ids = Dict.remove s.tracker.ids key;
    };
  },
  result,
)
stamp_identity utc_stamp envelope result key d times (some started_at) s =
    let id =
      stamped_id utc_stamp envelope.pipeline_id result key d.opened started_at s.tracker.ids in
    let kept = record s {
      tracker = record s.tracker {
        ids = if d.opened then Dict.put s.tracker.ids key id else s.tracker.ids;
      };
    } in
    (
      write_row (upsert_row envelope result id key d.opened started_at times) kept,
      record result { breaking_episode_id = some id; breaking_episode_start = d.opened },
    )

-- `decision.in_episode and decision.started_at is not None`, as the start to go on with
abbrev pub running_start : BreakingPassDecision → Option ℕ
running_start d = if d.in_episode then d.started_at else none

-- The loop body of `observe`.
unfoldable pub observe_result :
    (ℕ → String) → AnalysisEnvelope → SentimentResult → PassState → PassState × SentimentResult
observe_result utc_stamp envelope result s =
    let ts = envelope.timestamp in
    let g = s.tracker.grouping in
    let key = key_for g result.symbol result.base_currency in
    let (rule, d) = observe g.rule key ts result.is_breaking result.urgency in
    let times = if d.opened then reaction_times result ts else (none, none) in
    let s' = record s { tracker = record s.tracker { grouping = record g { rule = rule } } } in
    stamp_identity utc_stamp envelope result key d times (running_start d)
      (record_edge ts result key d times s')

unfoldable pub observe_rows :
    (ℕ → String)
    → AnalysisEnvelope
    → List SentimentResult
    → PassState
    → PassState × List SentimentResult
observe_rows utc_stamp envelope [] s = (s, [])
observe_rows utc_stamp envelope (r ∷ rs) s =
    let (s', r') = observe_result utc_stamp envelope r s in
    let (s'', rs') = observe_rows utc_stamp envelope rs s' in (s'', r' ∷ rs')

abbrev pub empty_pass : BreakingPass
empty_pass = record { started = []; held = []; episodes = [] }

abbrev pub start_pass : BreakingEpisodeTracker → PassState
start_pass t = record { tracker = t; outcome = empty_pass; rows_written = [] }

-- `observe`: the tracker, what the pass did, and the envelope with its rows stamped.
unfoldable pub observe_envelope :
    (ℕ → String)
    → BreakingEpisodeTracker
    → AnalysisEnvelope
    → BreakingEpisodeTracker × BreakingPass × AnalysisEnvelope
observe_envelope utc_stamp t envelope =
    let (s, rows) = observe_rows utc_stamp envelope envelope.result (start_pass t) in
    (s.tracker, s.outcome, record envelope { result = rows })

unfoldable pub replay :
    (ℕ → String) → BreakingEpisodeTracker → List AnalysisEnvelope → BreakingEpisodeTracker
replay utc_stamp t [] = t
replay utc_stamp t (e ∷ es) = replay utc_stamp (observe_envelope utc_stamp t e).0 es

unfoldable pub mark_bounded : ℕ → Dict OpenEpisode → Dict OpenEpisode
mark_bounded first_ts [] = []
mark_bounded first_ts ((k, running) ∷ d) =
    (k, record running { started_bounded = leb running.started first_ts }) ∷ mark_bounded first_ts d

abbrev pub mark_from : List AnalysisEnvelope → BreakingEpisodeTracker → BreakingEpisodeTracker
mark_from [] t = t
mark_from (first ∷ _) t = record t { open_map = mark_bounded first.timestamp t.open_map }

unfoldable pub open_episodes : BreakingEpisodeTracker → List OpenEpisode
open_episodes t = Dict.values t.open_map

unfoldable pub seed :
    (ℕ → String)
    → BreakingEpisodeTracker
    → List AnalysisEnvelope
    → BreakingEpisodeTracker × List OpenEpisode
seed utc_stamp t envelopes =
    let t' = mark_from envelopes (replay utc_stamp t envelopes) in (t', open_episodes t')
