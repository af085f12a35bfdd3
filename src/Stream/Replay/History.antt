-- ===== src/Stream/Replay/History.antt =====
-- The history path of stream_replay.py.
use finiex_ragengine.Prelude.{
  ℕ, ◌+◌, ◌-◌, ◌*◌, ◌≤◌, ◌<◌, String, ◌≡◌, refl, ◌∙◌, sym, ap, true, false, Option, none, some, min,
  arith, ◌==◌, length,
}
use finiex_ragengine.Stream.Store.{Db, stream_head, envelopes_by_seq}
use finiex_ragengine.Stream.Store.Gapless.{IsGapless}
use finiex_ragengine.Stream.Store.Reads.{
  numbers, segment, envelopes_by_seq-segment, oldest_seq_since_bounds, length-numbers,
  length-segment,
}
use finiex_ragengine.Stream.Replay.{
  StreamReplay, micros_per_hour, window_floor, recent_after, plan_history, plan,
}

-- Where `_recent` starts: within the last `history` and `max_frames` positions, and before the head.
after_bounds :
    (cfg : StreamReplay) (head history : ℕ) (floor : Option ℕ)
    → 0 < head
    → 0 < history
    → 0 < cfg.max_frames
    → ((n : ℕ) → floor ≡ some n → n ≤ head)
    → let after = recent_after cfg head history floor in
      (after < head) × (head ≤ after + history) × (head ≤ after + cfg.max_frames)
unfolding recent_after
after_bounds cfg head history none h i m f = omega arith
after_bounds cfg head history (some n) h i m f = omega (arith, f n refl)

-- A connect that asks for history on a stream that has produced something, in a journal without a
-- gap, is served the last positions up to the head, in order: at least one, the newest one
-- whatever its age, and no more than it asked for or than `max_frames`; nothing is announced
-- before them, and the plan goes live.
pub plan_history_exact :
    (db : Db) (cfg : StreamReplay) (now : ℕ) (pid : String) (history : ℕ) (epoch limit : Option ℕ)
    → IsGapless db pid
    → 0 < (stream_head db pid).seq
    → 0 < history
    → 0 < cfg.max_frames
    → let p = plan db cfg now pid (some history) none epoch limit in
      let k = length p.envelopes in
      (numbers p.envelopes ≡ segment ((stream_head db pid).seq + 1 - k) k)
      × (1 ≤ k)
      × (k ≤ history)
      × (k ≤ cfg.max_frames)
      × (p.control ≡ none)
      × (p.emit_live ≡ true)
unfolding plan plan_history
plan_history_exact db cfg now pid history epoch limit g h i m =
    let head = (stream_head db pid).seq in
    let floor = window_floor db cfg now pid in
    let after = recent_after cfg head history floor in
    let cut = now - cfg.window_hours * micros_per_hour in
    let within =
      after_bounds cfg head history floor h i m
        (λ n e. (oldest_seq_since_bounds db pid cut n g e).1) in
    let asked : (history == 0) ≡ false = ground arith in
    let warm : (head == 0) ≡ false = ground arith in
    let rows = envelopes_by_seq db pid after (head - after) in
    let whole : min (head - after) (head - after) ≡ head - after = omega arith in
    let served : numbers rows ≡ segment (after + 1) (head - after) =
      envelopes_by_seq-segment db pid after (head - after) g ∙ ap (segment (after + 1)) whole in
    let size : length rows ≡ head - after =
      sym (length-numbers rows) ∙ ap length served ∙ length-segment (after + 1) (head - after) in
    let first : after + 1 ≡ head + 1 - (head - after) = omega arith in
    rw (asked, warm)
      (
        rw size (served ∙ ap (λ a. segment a (head - after)) first),
        omega arith,
        omega arith,
        omega arith,
        refl,
        refl,
      )
