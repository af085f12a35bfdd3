-- ===== src/Stream/Replay.antt =====
-- finiexragengine/core/outcome/stream_replay.py: what a connect resolves to. Reads the store through
-- its three reads and writes nothing. The clock's reading is an argument, in microseconds. Where
-- the source may subtract below zero it takes the maximum with 1 or 0 at once, and so does `-`.
pub mod Cursor
pub mod History
use finiex_ragengine.Prelude.{
  ℕ, ◌+◌, ◌-◌, ◌*◌, String, Bool, true, false, not, ◌&&◌, Option, none, some, List, [], max, min,
  ltb, leb, ◌==◌, if◌then◌else◌,
}
use finiex_ragengine.Outcome.{AnalysisEnvelope}
use finiex_ragengine.Stream.Types.{
  StreamHead, ControlFrame, replay_truncated, cursor_ahead, epoch_changed,
}
use finiex_ragengine.Stream.Store.{Db, stream_head, envelopes_by_seq, oldest_seq_since}

pub record StreamReplay : Type 0 where
  pub window_hours : ℕ
  pub max_frames : ℕ

-- `ReplayPlan` of stream_types.py; each envelope stands with its `seq`.
pub record ReplayPlan : Type 0 where
  pub head : StreamHead
  pub control : Option ControlFrame
  pub envelopes : List (ℕ × AnalysisEnvelope)
  pub emit_live : Bool
  pub terminal : Bool

abbrev pub micros_per_hour : ℕ
micros_per_hour = 3_600_000_000

-- `_window_floor`
unfoldable pub window_floor : Db → StreamReplay → ℕ → String → Option ℕ
window_floor db cfg now pid = oldest_seq_since db pid (now - cfg.window_hours * micros_per_hour)

-- `_limit`
unfoldable pub limit_of : ℕ → ℕ → ℕ
limit_of head_seq after_seq = max 1 (head_seq - after_seq)

-- epoch is not None and head.epoch and epoch != head.epoch
unfoldable pub is_stale_epoch : StreamHead → Option ℕ → Bool
is_stale_epoch head none = false
is_stale_epoch head (some epoch) = not (head.epoch == 0) && not (epoch == head.epoch)

abbrev pub epoch_or_zero : Option ℕ → ℕ
epoch_or_zero none = 0
epoch_or_zero (some e) = e

abbrev pub closing : StreamHead → ControlFrame → ReplayPlan
closing head control = record {
  head = head;
  control = some control;
  envelopes = [];
  emit_live = false;
  terminal = true;
}

-- `floor`: the window's floor and the volume's, whichever bites harder.
unfoldable pub floor_of : StreamReplay → StreamHead → Option ℕ → ℕ
floor_of cfg head none = max 1 (head.seq + 1 - cfg.max_frames)
floor_of cfg head (some age) = max age (max 1 (head.seq + 1 - cfg.max_frames))

abbrev pub min_limit : ℕ → Option ℕ → ℕ
min_limit bound none = bound
min_limit bound (some limit) = min bound limit

-- `_from_cursor`, after its two terminal tests.
unfoldable pub from_floor : Db → StreamReplay → String → StreamHead → ℕ → Option ℕ → ℕ → ReplayPlan
unfolding limit_of
from_floor db cfg pid head since limit floor =
    let truncated = ltb since (floor - 1) in
    let start = if truncated then floor - 1 else since in
    record {
      head = head;
      control = if truncated then some (replay_truncated since floor cfg.window_hours) else none;
      envelopes = envelopes_by_seq db pid start (min_limit (limit_of head.seq start) limit);
      emit_live = true;
      terminal = false;
    }

unfoldable pub from_cursor :
    Db → StreamReplay → ℕ → String → StreamHead → ℕ → Option ℕ → Option ℕ → ReplayPlan
unfolding is_stale_epoch floor_of from_floor window_floor
from_cursor db cfg now pid head since epoch limit =
    if is_stale_epoch head epoch
    then closing head (epoch_changed (epoch_or_zero epoch) head.seq)
    else if ltb head.seq since
    then closing head (cursor_ahead since head.seq)
    else from_floor db cfg pid head since limit (floor_of cfg head (window_floor db cfg now pid))

abbrev pub oldest_allowed : ℕ → Option ℕ → ℕ
oldest_allowed head_seq none = head_seq
oldest_allowed head_seq (some floor) = floor

-- the position after which `_recent` reads
unfoldable pub recent_after : StreamReplay → ℕ → ℕ → Option ℕ → ℕ
recent_after cfg head_seq history floor =
    max (max (head_seq - history) (oldest_allowed head_seq floor - 1)) (head_seq - cfg.max_frames)

-- `_recent`
unfoldable pub recent : Db → StreamReplay → ℕ → String → ℕ → ℕ → List (ℕ × AnalysisEnvelope)
unfolding recent_after window_floor
recent db cfg now pid head_seq history =
    let after = recent_after cfg head_seq history (window_floor db cfg now pid) in
    if head_seq == 0 then [] else envelopes_by_seq db pid after (head_seq - after)

abbrev live_plan : StreamHead → List (ℕ × AnalysisEnvelope) → ReplayPlan
live_plan head envelopes = record {
  head = head;
  control = none;
  envelopes = envelopes;
  emit_live = true;
  terminal = false;
}

-- `if history:` of `plan`
unfoldable pub plan_history : Db → StreamReplay → ℕ → String → StreamHead → Option ℕ → ReplayPlan
unfolding recent
plan_history db cfg now pid head none = live_plan head []
plan_history db cfg now pid head (some history) =
    if history == 0
    then live_plan head []
    else live_plan head (recent db cfg now pid head.seq history)

unfoldable pub plan :
    Db → StreamReplay → ℕ → String → Option ℕ → Option ℕ → Option ℕ → Option ℕ → ReplayPlan
unfolding from_cursor plan_history
plan db cfg now pid history none epoch limit =
    plan_history db cfg now pid (stream_head db pid) history
plan db cfg now pid history (some since) epoch limit =
    from_cursor db cfg now pid (stream_head db pid) since epoch limit
