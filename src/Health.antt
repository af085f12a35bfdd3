-- ===== src/Health.antt =====
-- finiexragengine/core/observability/source_health_store.py: the quarantine of failing sources. The
-- store's tables, its memory and the open pass are one record. Here every write is accepted: the
-- operations raise a `VectorStoreError` where the database refuses one, which is an argument of their
-- caller (Ingest). The clock is read once per operation. A ratio of two integers is compared crosswise.
pub mod Passes
pub mod Ladder
pub mod Outage
pub mod Boot
pub mod Memory
pub mod Flags
pub mod Restart
use finiex_ragengine.Prelude.{
  ℕ, suc, ◌+◌, ◌-◌, ◌*◌, ◌++◌, String, Bool, true, false, not, ◌&&◌, ◌||◌, Option, none, some, List,
  [], ◌∷◌, max, min, length, ltb, leb, get_elem?, is_some, if◌then◌else◌, str_eq,
}
use finiex_ragengine.Prelude.Dict
use finiex_ragengine.Prelude.Dict.{Dict}

abbrev pub minute_micros : ℕ
minute_micros = 60_000_000

abbrev pub hour_micros : ℕ
hour_micros = 3_600_000_000

-- `deadline_ratio` and `correlated_failure_ratio` are percentages.
pub record SourceHealthConfig : Type 0 where
  pub flag_after_consecutive_failures : ℕ
  pub quarantine_hours : List ℕ
  pub ladder_reset_hours : ℕ
  pub deadline_percent : ℕ
  pub correlated_min_pollable : ℕ
  pub correlated_failure_percent : ℕ
  pub correlated_backoff_minutes : ℕ

-- The columns of a source's row that the policy reads and writes.
pub record HealthRow : Type 0 where
  pub consecutive_failures : ℕ
  pub flagged : Bool
  pub quarantined_until : Option ℕ

-- One row of the quarantine history.
pub record Episode : Type 0 where
  pub source_id : String
  pub started_at : ℕ
  pub rung : ℕ
  pub rungs_total : ℕ
  pub ended_at : Option ℕ
  pub outcome : Option String

pub record PendingFlag : Type 0 where
  pub source_id : String
  pub error_type : String
  pub status : Option ℕ
  pub duration_ms : Option ℕ
  pub deadline_ms : Option ℕ
  pub probe : Bool

-- The enclosing pass; the sets hold each source once.
pub record IngestPass : Type 0 where
  pub failed : Dict (Unit {0})
  pub succeeded : Dict (Unit {0})
  pub pending : List PendingFlag

pub record SourceHealthStore : Type 0 where
  pub config : SourceHealthConfig
  pub rows : Dict HealthRow
  pub episodes : List Episode
  pub quarantined : Dict ℕ
  pub rungs : Dict (ℕ × ℕ)
  pub probing : Dict (Unit {0})
  pub open_pass : Option IngestPass
  pub host_backoff : Option ℕ
  pub host_started_at : Option ℕ

-- list(config.quarantine_hours) or [24]
abbrev pub steps_or : List ℕ → List ℕ
steps_or [] = 24 ∷ []
steps_or (h ∷ hs) = h ∷ hs

unfoldable pub ladder : SourceHealthConfig → List ℕ
ladder config = steps_or config.quarantine_hours

unfoldable pub slow : Option ℕ → Option ℕ → ℕ → ℕ → ℕ
slow (some duration_ms) (some deadline_ms) percent last =
    if leb (percent * deadline_ms) (100 * duration_ms) then 0 else last
slow _ _ percent last = 0

abbrev pub is_outage : Option ℕ → Bool
is_outage none = false
is_outage (some status) = leb 500 status

unfoldable pub start_rung : PendingFlag → ℕ → ℕ → ℕ
unfolding slow
start_rung p percent last =
    if str_eq p.error_type "RATE_LIMITED"
    then min 1 last
    else if str_eq p.error_type "PARSE_ERROR"
    then last
    else if str_eq p.error_type "HTTP_ERROR"
    then (if is_outage p.status then 0 else last)
    else slow p.duration_ms p.deadline_ms percent last

unfoldable pub level_for : String → String
level_for error_type =
    if str_eq error_type "RATE_LIMITED" || str_eq error_type "UNREACHABLE"
    then "warning"
    else "error"

-- SELECT count(*) … AND started_at > now - window
unfoldable pub count_episodes : List Episode → String → ℕ → ℕ → ℕ
count_episodes [] source_id now window = 0
count_episodes (e ∷ es) source_id now window =
    let n = count_episodes es source_id now window in
    if str_eq e.source_id source_id && ltb now (e.started_at + window) then suc n else n

-- `_close_episode`
unfoldable pub close_episode : List Episode → String → ℕ → String → List Episode
close_episode [] source_id ended_at outcome = []
close_episode (e ∷ es) source_id ended_at outcome =
    let rest = close_episode es source_id ended_at outcome in
    if str_eq e.source_id source_id && not (is_some e.ended_at)
    then record e { ended_at = some ended_at; outcome = some outcome } ∷ rest
    else e ∷ rest

abbrev pub or_zero : Option ℕ → ℕ
or_zero none = 0
or_zero (some h) = h

unfoldable pub flag_row : ℕ → Option HealthRow → Dict HealthRow → String → Dict HealthRow
flag_row until none rows source_id = rows
flag_row until (some row) rows source_id =
    Dict.put rows source_id (record row { flagged = true; quarantined_until = some until })

-- The rung that a flag lands on: the history, the kind of failure, the top of the ladder.
unfoldable pub rung_for : SourceHealthStore → PendingFlag → ℕ → ℕ
unfolding count_episodes start_rung ladder
rung_for store p now =
    let last = length (ladder store.config) - 1 in
    let window = store.config.ladder_reset_hours * hour_micros in
    min
      (max (count_episodes store.episodes p.source_id now window)
        (start_rung p store.config.deadline_percent last))
      last

-- `_apply_flag`
unfoldable pub apply_flag : ℕ → PendingFlag → SourceHealthStore → SourceHealthStore
unfolding rung_for close_episode flag_row ladder
apply_flag now p store =
    let rung = rung_for store p now in
    let steps = ladder store.config in
    let until = now + or_zero (get_elem? steps rung) * hour_micros in
    let closed =
      if p.probe
      then close_episode store.episodes p.source_id now "escalated"
      else store.episodes in
    record store {
      rows = flag_row until (Dict.get store.rows p.source_id) store.rows p.source_id;
      episodes =
          closed
          ++ record {
            source_id = p.source_id;
            started_at = now;
            rung = rung;
            rungs_total = length steps;
            ended_at = none;
            outcome = none;
          }
            ∷ [];
      quarantined = Dict.put store.quarantined p.source_id until;
      rungs = Dict.put store.rungs p.source_id (rung, length steps);
      probing = Dict.remove store.probing p.source_id;
    }

-- Whether an instant lies ahead.
abbrev pub ahead : ℕ → Option ℕ → Bool
ahead now none = false
ahead now (some until) = ltb now until

abbrev pub poll_quarantined : ℕ → String → Option ℕ → SourceHealthStore → SourceHealthStore × Bool
poll_quarantined now source_id none store = (store, true)
poll_quarantined now source_id (some until) store = if ltb now until then (store, false) else (
  record store {
    quarantined = Dict.remove store.quarantined source_id;
    probing = Dict.put store.probing source_id tt;
  },
  true,
)

unfoldable pub should_poll : ℕ → String → SourceHealthStore → SourceHealthStore × Bool
should_poll now source_id store =
    if ahead now store.host_backoff
    then (store, false)
    else poll_quarantined now source_id (Dict.get store.quarantined source_id) store
