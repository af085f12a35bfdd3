-- ===== src/Stream/Replay/Cursor.antt =====
-- The cursor path of stream_replay.py.
use finiex_ragengine.Prelude.{
  ℕ, ◌+◌, ◌-◌, ◌≤◌, String, ◌≡◌, refl, ◌∙◌, sym, ap, true, false, not, ◌||◌, ◌⊎◌, Option, none,
  some, [], max, min, arith, if◌then◌else◌, Bool-cases, inl, inr, ltb, ltb→lt, not_ltb→le, length,
}
use finiex_ragengine.Stream.Types.{StreamHead, replay_truncated, epoch_changed, cursor_ahead}
use finiex_ragengine.Stream.Store.{Db, stream_head}
use finiex_ragengine.Stream.Store.Gapless.{IsGapless}
use finiex_ragengine.Stream.Store.Reads.{
  numbers, segment, envelopes_by_seq-segment, length-numbers, length-segment,
}
use finiex_ragengine.Stream.Replay.{
  StreamReplay, window_floor, is_stale_epoch, floor_of, from_floor, from_cursor, plan,
  epoch_or_zero,
}

pub floor_of_bounds :
    (cfg : StreamReplay) (head : StreamHead) (o : Option ℕ)
    → (1 ≤ floor_of cfg head o) × (head.seq + 1 ≤ floor_of cfg head o + cfg.max_frames)
unfolding floor_of
floor_of_bounds cfg head none = omega arith
floor_of_bounds cfg head (some age) = omega arith

-- What `from_floor` serves, with no limit given.
from_floor_exact :
    (db : Db) (cfg : StreamReplay) (pid : String) (since floor : ℕ)
    → IsGapless db pid
    → 1 ≤ floor
    → let head = stream_head db pid in
      let start = max (since + 1) floor in
      let p = from_floor db cfg pid head since none floor in
      (numbers p.envelopes ≡ segment start (head.seq + 1 - start))
      × (p.control ≡ (
          if ltb (since + 1) floor
          then some (replay_truncated since floor cfg.window_hours)
          else none))
unfolding from_floor
from_floor_exact db cfg pid since floor g pos =
    let head = (stream_head db pid).seq in
    elim (Bool-cases (ltb since (floor - 1))) [
      | inl cut ↦
          let lt = ltb→lt since (floor - 1) cut in
          let here : ltb (since + 1) floor ≡ true = ground arith in
          let top : floor - 1 + 1 ≡ max (since + 1) floor = omega arith in
          let room : min (max 1 (head - (floor - 1))) (head - (floor - 1))
              ≡ head + 1 - max (since + 1) floor =
            omega arith in
          rw (cut, here)
            (
              envelopes_by_seq-segment db pid (floor - 1) (max 1 (head - (floor - 1))) g
                  ∙ rw (top, room) refl,
              refl,
            )
      | inr whole ↦
          let le = not_ltb→le since (floor - 1) whole in
          let here : ltb (since + 1) floor ≡ false = ground arith in
          let top : since + 1 ≡ max (since + 1) floor = omega arith in
          let room : min (max 1 (head - since)) (head - since) ≡ head + 1 - max (since + 1) floor =
            omega arith in
          rw (whole, here)
            (
              envelopes_by_seq-segment db pid since (max 1 (head - since)) g
                  ∙ rw room (ap (λ a. segment a (head + 1 - max (since + 1) floor)) top),
              refl,
            )
    ]

-- A cursor that is neither of another epoch nor ahead of the head is served from a journal without
-- a gap: the frames are every position from the one after the cursor, or from the replay's floor
-- where that lies higher, up to the head, in order; a truncation is announced exactly when frames
-- after the cursor are left out, and names the first position that is served; the plan goes live,
-- and holds at most `max_frames` frames.
pub plan_since_exact :
    (db : Db) (cfg : StreamReplay) (now : ℕ) (pid : String) (history : Option ℕ) (since : ℕ)
    (epoch : Option ℕ)
    → IsGapless db pid
    → is_stale_epoch (stream_head db pid) epoch ≡ false
    → since ≤ (stream_head db pid).seq
    → let head = stream_head db pid in
      let floor = floor_of cfg head (window_floor db cfg now pid) in
      let start = max (since + 1) floor in
      let p = plan db cfg now pid history (some since) epoch none in
      (numbers p.envelopes ≡ segment start (head.seq + 1 - start))
      × (p.control ≡ (
          if ltb (since + 1) floor
          then some (replay_truncated since floor cfg.window_hours)
          else none))
      × (p.emit_live ≡ true)
      × (length p.envelopes ≤ cfg.max_frames)
unfolding plan from_cursor
plan_since_exact db cfg now pid history since epoch g fresh behind =
    let head = stream_head db pid in
    let o = window_floor db cfg now pid in
    let floor = floor_of cfg head o in
    let bounds = floor_of_bounds cfg head o in
    let notahead : ltb head.seq since ≡ false = ground arith in
    let exact = from_floor_exact db cfg pid since floor g bounds.0 in
    let p = from_floor db cfg pid head since none floor in
    let size : length p.envelopes ≡ head.seq + 1 - max (since + 1) floor =
      sym (length-numbers p.envelopes)
      ∙ ap length exact.0
      ∙ length-segment (max (since + 1) floor) (head.seq + 1 - max (since + 1) floor) in
    rw (fresh, notahead) (exact.0, exact.1, refl, omega arith)

-- The two answers that end the connection serve nothing and do not go live, and each comes exactly
-- when its own condition holds: a cursor of another epoch, or one of this epoch beyond the head.
pub plan_since_terminal :
    (db : Db) (cfg : StreamReplay) (now : ℕ) (pid : String) (history : Option ℕ) (since : ℕ)
    (epoch limit : Option ℕ)
    → let head = stream_head db pid in
      let p = plan db cfg now pid history (some since) epoch limit in
      (p.terminal ≡ (is_stale_epoch head epoch || ltb head.seq since))
      × (p.emit_live ≡ not p.terminal)
      × ((p.terminal ≡ false)
          ⊎ ((p.envelopes ≡ [])
              × (p.control
                  ≡ some (
                      if is_stale_epoch head epoch
                      then epoch_changed (epoch_or_zero epoch) head.seq
                      else cursor_ahead since head.seq))))
unfolding plan from_cursor
plan_since_terminal db cfg now pid history since epoch limit =
    let head = stream_head db pid in
    elim (Bool-cases (is_stale_epoch head epoch)) [
      | inl stale ↦ rw stale (refl, refl, inr (refl, refl))
      | inr fresh ↦ elim (Bool-cases (ltb head.seq since)) [
        | inl ahead ↦ rw (fresh, ahead) (refl, refl, inr (refl, refl))
        | inr behind ↦ rw (fresh, behind) (refl, refl, inl refl)
      ]
    ]
