-- ===== src/Breaking/EpisodeId.antt =====
-- `episode_id` of finiexragengine/core/pipeline/breaking_episode.py. `utc_stamp` renders an instant
-- in UTC to the second (Python's `strftime`), and is an argument.
use Prim.Native.String.{String, ◌++◌}
use finiex_ragengine.Prelude.{ℕ}

unfoldable pub episode_id : (ℕ → String) → String → String → ℕ → String
episode_id utc_stamp pipeline_id episode_key started_at =
    pipeline_id ++ ":" ++ episode_key ++ ":" ++ utc_stamp started_at
