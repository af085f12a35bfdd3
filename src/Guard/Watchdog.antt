-- ===== src/Guard/Watchdog.antt =====
-- finiexragengine/core/observability/stall_watchdog.py and types/worker_types.py. Instants and
-- durations are in microseconds. `silent > threshold` is written `last_run_at + threshold < now`. The
-- text of an alert and its delivery are not modelled.
pub mod Status
pub mod Due
pub mod Look
pub mod Speaks
use finiex_ragengine.Prelude.{
  ℕ, ◌+◌, ◌*◌, String, Bool, true, false, not, ◌&&◌, Option, none, some, List, [], ◌∷◌, max, min,
  ltb, leb, if◌then◌else◌, is_some,
}
use finiex_ragengine.Prelude.Dict
use finiex_ragengine.Prelude.Dict.{Dict}
use finiex_ragengine.Prelude.Int.{ℤ, sub_ℕ}

pub record WorkerState : Type 0 where
  pub name : String
  pub interval_seconds : ℕ
  pub last_run_at : Option ℕ
  pub stopped_at : Option ℕ
  pub stopped_reason : String

pub record StallEvent : Type 0 where
  pub worker : String
  pub stalled : Bool
  pub silent : ℤ
  pub threshold : ℕ
  pub last_run_at : Option ℕ
  pub dead : Bool
  pub dead_reason : String
  pub repeat : Bool

pub record StallWatchdogConfig : Type 0 where
  pub enabled : Bool
  pub factor : ℕ
  pub floor_minutes : ℕ

pub record StallWatchdog : Type 0 where
  pub config : StallWatchdogConfig
  pub stalled : Dict ℕ
  pub reannounce_gap : Dict ℕ

-- `__init__`
unfoldable pub new_watchdog : StallWatchdogConfig → StallWatchdog
new_watchdog config = record { config = config; stalled = []; reannounce_gap = [] }

abbrev pub reannounce_first : ℕ
reannounce_first = 3_600_000_000

abbrev pub reannounce_max : ℕ
reannounce_max = 21_600_000_000

-- `threshold_seconds`
unfoldable pub threshold_of : StallWatchdogConfig → WorkerState → ℕ
threshold_of c state = max (c.factor * state.interval_seconds) (c.floor_minutes * 60) * 1_000_000

-- `is_stalled`
unfoldable pub is_stalled : StallWatchdogConfig → WorkerState → ℕ → ℕ → Bool
is_stalled c state last now = ltb (last + threshold_of c state) now

unfoldable pub event_of : StallWatchdogConfig → WorkerState → ℕ → ℕ → Bool → Bool → StallEvent
event_of c state last now stalled repeat = record {
  worker = state.name;
  stalled = stalled;
  silent = sub_ℕ now last;
  threshold = threshold_of c state;
  last_run_at = some last;
  dead = stalled && is_some state.stopped_at;
  dead_reason = if stalled then state.stopped_reason else "";
  repeat = repeat;
}

abbrev pub gap_or_first : Option ℕ → ℕ
gap_or_first none = reannounce_first
gap_or_first (some waited) = waited

-- gap = min(waited * 2, _REANNOUNCE_MAX)
unfoldable pub next_gap : StallWatchdog → String → ℕ
next_gap w name = min (gap_or_first (Dict.get w.reannounce_gap name) * 2) reannounce_max

-- The branches of the loop body of `check`, by when the stall is to be announced again, if one is
-- known.
unfoldable pub check_stall :
    StallWatchdog → ℕ → WorkerState → ℕ → Option ℕ → StallWatchdog × Option StallEvent
check_stall w now state last none =
    if is_stalled w.config state last now
    then (
      record w { stalled = Dict.put w.stalled state.name (now + reannounce_first) },
      some (event_of w.config state last now true false),
    )
    else (w, none)
check_stall w now state last (some due) =
    let gap = next_gap w state.name in
    if is_stalled w.config state last now
    then if leb due now
      then (
        record w {
          reannounce_gap = Dict.put w.reannounce_gap state.name gap;
          stalled = Dict.put w.stalled state.name (now + gap);
        },
        some (event_of w.config state last now true true),
      )
      else (w, none)
    else (
      record w {
        stalled = Dict.remove w.stalled state.name;
        reannounce_gap = Dict.remove w.reannounce_gap state.name;
      },
      some (event_of w.config state last now false false),
    )

abbrev pub check_ran :
    StallWatchdog → ℕ → WorkerState → Option ℕ → StallWatchdog × Option StallEvent
check_ran w now state none = (w, none)
check_ran w now state (some last) = check_stall w now state last (Dict.get w.stalled state.name)

-- The loop body of `check`: a worker that never ran is starting up.
unfoldable pub check_worker : StallWatchdog → ℕ → WorkerState → StallWatchdog × Option StallEvent
check_worker w now state = check_ran w now state state.last_run_at

abbrev pub with_event : Option StallEvent → List StallEvent → List StallEvent
with_event none l = l
with_event (some e) l = e ∷ l

unfoldable pub check_all : StallWatchdog → ℕ → List WorkerState → StallWatchdog × List StallEvent
check_all w now [] = (w, [])
check_all w now (state ∷ states) =
    let (w', event) = check_worker w now state in
    let (w'', events) = check_all w' now states in (w'', with_event event events)

-- `check`
unfoldable pub check : StallWatchdog → ℕ → List WorkerState → StallWatchdog × List StallEvent
check w now states = if w.config.enabled then check_all w now states else (w, [])
