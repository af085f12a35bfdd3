-- ===== src/Stream/Types.antt =====
-- finiexragengine/types/stream_types.py. `available_msc` is in milliseconds since the epoch.
use finiex_ragengine.Prelude.{ℕ, String, Option}

pub record StreamStamp : Type 0 where
  pub seq : ℕ
  pub epoch : ℕ
  pub available_msc : ℕ
  pub resyncs : ℕ
  pub max_correction_ms : ℕ

-- `reason` of an `EpochBump`
pub data BumpReason : Type 0 where
  counter_behind_journal cluster_changed : BumpReason

pub record EpochBump : Type 0 where
  pub pipeline_id : String
  pub previous_epoch : ℕ
  pub new_epoch : ℕ
  pub reason : BumpReason
  pub previous_seq : ℕ
  pub new_seq : ℕ
  pub cluster_id : Option String

pub record StreamHead : Type 0 where
  pub seq : ℕ
  pub epoch : ℕ
  pub available_msc : Option ℕ

-- A control code with the fields that the code carries.
pub data ControlFrame : Type 0 where
  -- head_seq
  live : ℕ → ControlFrame
  -- requested_since, oldest_available_seq, window_hours
  replay_truncated : ℕ → ℕ → ℕ → ControlFrame
  -- requested_since, head_seq
  cursor_ahead : ℕ → ℕ → ControlFrame
  -- previous_epoch, head_seq
  epoch_changed : ℕ → ℕ → ControlFrame
  auth_revoked : ControlFrame
