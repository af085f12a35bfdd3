-- ===== src/Stream/Session/Connect.antt =====
-- A reconnect with a cursor, from the replay into the live frames (stream_session.py).
use mathlib.Core.List.{map-append}
use finiex_ragengine.Prelude.{
  ℕ, zero, suc, ◌+◌, ◌-◌, ◌*◌, ◌≤◌, ◌<◌, String, ◌≡◌, refl, ◌∙◌, sym, ap, true, false, Option, none,
  some, List, [], ◌∷◌, ◌++◌, arith, ltb, ◌==◌, if◌then◌else◌, if_true, if_false, max, All,
}
use finiex_ragengine.Outcome.{AnalysisEnvelope}
use finiex_ragengine.Stream.Types.{StreamHead, ControlFrame}
use finiex_ragengine.Stream.Store.{Db, stream_head}
use finiex_ragengine.Stream.Store.Gapless.{IsGapless}
use finiex_ragengine.Stream.Store.Reads.{numbers, segment, cons-segment, oldest_seq_since_bounds}
use finiex_ragengine.Stream.Store.Window.{Numbered, window-Numbered, envelopes_by_seq-window}
use finiex_ragengine.Stream.Replay.{
  StreamReplay, ReplayPlan, micros_per_hour, plan, from_cursor, from_floor, floor_of, window_floor,
  is_stale_epoch,
}
use finiex_ragengine.Stream.Replay.Cursor.{plan_since_exact, plan_since_terminal}
use finiex_ragengine.Stream.Dispatcher.{or_number}
use finiex_ragengine.Stream.Dispatcher.Tail.{frames_of}
use finiex_ragengine.Stream.Session.{
  Frame, control_first, LiveEvent, StreamSession, position, live_frames, last_of, replayed, serve,
  history_of, frames,
}
use finiex_ragengine.Stream.Session.Once.{signals, taken, positions_of, Stays, live_frames-signals}

pub segment-append : (a j k : ℕ) → segment a j ++ segment (a + j) k ≡ segment a (j + k)
unfolding segment
segment-append a zero k =
    let e : a + 0 ≡ a = omega arith in let e' : 0 + k ≡ k = omega arith in rw (e, e') refl
segment-append a (suc j) k =
    let e : a + suc j ≡ a + 1 + j = omega arith in
    let e' : suc j + k ≡ suc (j + k) = omega arith in
    rw (e, e') (ap (λ l. a ∷ l) (segment-append (a + 1) j k))

position_of-Numbered : (x : ℕ × AnalysisEnvelope) → Numbered x → position x.1 ≡ x.0
unfolding position or_number
position_of-Numbered x h = rw h (ground arith)

or_number-Numbered :
    (x : ℕ × AnalysisEnvelope) (last : ℕ) → Numbered x → 0 < x.0 → or_number x.1.seq last ≡ x.0
unfolding or_number
or_number-Numbered x last h i = rw h (ground arith)

positions_of-frames_of :
    (es : List (ℕ × AnalysisEnvelope)) → All Numbered es → positions_of (frames_of es) ≡ numbers es
positions_of-frames_of [] n = refl
positions_of-frames_of (x ∷ es) n =
    ap (λ p. p ∷ positions_of (frames_of es)) (position_of-Numbered x n.0)
    ∙ ap (λ l. x.0 ∷ l) (positions_of-frames_of es n.1)

signals-replayed :
    (es : List (ℕ × AnalysisEnvelope)) (fs : List Frame)
    → signals (replayed es ++ fs) ≡ frames_of es ++ signals fs
unfolding signals replayed
signals-replayed [] fs = refl
signals-replayed (x ∷ es) fs = ap (λ l. x.1 ∷ l) (signals-replayed es fs)

-- the state in which the live part starts
abbrev started : ReplayPlan → StreamSession
started p = record { last_seq = last_of 0 p.envelopes; stream_epoch = p.head.epoch; closed = false }

control_first-signals :
    (epoch : ℕ) (c : Option ControlFrame) (fs : List Frame)
    → signals (control_first epoch c fs) ≡ signals fs
unfolding signals
control_first-signals epoch none fs = refl
control_first-signals epoch (some c) fs = refl

serve-signals :
    (p : ReplayPlan) (evs : List LiveEvent)
    → p.terminal ≡ false
    → signals (serve p evs) ≡ frames_of p.envelopes ++ signals (live_frames (started p) evs)
unfolding serve signals
serve-signals p evs t =
    control_first-signals p.head.epoch p.control _
    ∙ ap signals (if_false p.terminal [] _ t)
    ∙ signals-replayed p.envelopes _

last_of-segment :
    (last a k : ℕ) (es : List (ℕ × AnalysisEnvelope))
    → 0 < a
    → numbers es ≡ segment a k
    → All Numbered es
    → last_of last es ≡ (if k == 0 then last else a + k - 1)
unfolding last_of segment
last_of-segment last a zero [] i e n = refl
last_of-segment last a (suc k) [] i e n = cc
last_of-segment last a zero (x ∷ es) i e n = cc
last_of-segment last a (suc k) (x ∷ es) i e n =
    let (own, rest) = cons-segment x es a k e in
    let first = or_number-Numbered x last n.0 (omega arith) in
    let later = last_of-segment (or_number x.1.seq last) (a + 1) k es (omega arith) rest n.1 in
    ground arith

-- the parts of a plan for a cursor that is neither of another epoch nor ahead
module _ (db : Db) (cfg : StreamReplay) (now : ℕ) (pid : String) (since : ℕ) (epoch : Option ℕ)
    (g : IsGapless db pid) (fresh : is_stale_epoch (stream_head db pid) epoch ≡ false)
    (behind : since ≤ (stream_head db pid).seq) where
  abbrev answer : ReplayPlan
  answer = plan db cfg now pid none (some since) epoch none

  abbrev floor : ℕ
  floor = floor_of cfg (stream_head db pid) (window_floor db cfg now pid)

  answer-from_floor : answer ≡ from_floor db cfg pid (stream_head db pid) since none floor
  unfolding plan from_cursor
  answer-from_floor =
      if_false (is_stale_epoch (stream_head db pid) epoch) _ _ fresh
      ∙ if_false (ltb (stream_head db pid).seq since) _ _ (ground arith)

  answer_head : answer.head ≡ stream_head db pid
  unfolding from_floor
  answer_head = ap (λ (p : ReplayPlan). p.head) answer-from_floor

  answer-Numbered : All Numbered answer.envelopes
  unfolding from_floor
  answer-Numbered =
      rw
        (
          ap (λ (p : ReplayPlan). p.envelopes) answer-from_floor,
          envelopes_by_seq-window db pid _ _ g,
        )
        (window-Numbered db pid _ _)

  answer_terminal : answer.terminal ≡ false
  answer_terminal =
      (plan_since_terminal db cfg now pid none since epoch none).0 ∙ rw fresh (ground arith)

  -- the frames of the connection, as the replay's and the live ones
  connection-signals :
      (evs : List LiveEvent)
      → positions_of (signals (frames db cfg now pid none (some since) epoch evs))
        ≡ numbers answer.envelopes ++ positions_of (signals (live_frames (started answer) evs))
  unfolding frames history_of signals
  connection-signals evs =
      ap positions_of (serve-signals answer evs answer_terminal)
      ∙ map-append position (frames_of answer.envelopes)
          (signals (live_frames (started answer) evs))
      ∙ ap (λ l. l ++ positions_of (signals (live_frames (started answer) evs)))
          (positions_of-frames_of answer.envelopes answer-Numbered)

  -- the live frames, by what the replay sent and what the queue brought
  connection-live :
      (evs : List LiveEvent) (m k : ℕ)
      → 0 < (stream_head db pid).epoch
      → positions_of (taken evs) ≡ segment (m + 1) k
      → Stays (stream_head db pid).epoch evs
      → positions_of (signals (live_frames (started answer) evs))
        ≡ segment
            (max (last_of 0 answer.envelopes) m + 1)
            (m + k - max (last_of 0 answer.envelopes) m)
  connection-live evs m k z e st =
      let h = ap (λ (head : StreamHead). head.epoch) answer_head in
      live_frames-signals (started answer) evs m k refl (rw h z) e (rw h st)

  answer-numbers :
      numbers answer.envelopes
      ≡ segment (max (since + 1) floor) ((stream_head db pid).seq + 1 - max (since + 1) floor)
  answer-numbers = (plan_since_exact db cfg now pid none since epoch g fresh behind).0

  answer-last : last_of 0 answer.envelopes ≡ (
      if (stream_head db pid).seq + 1 - max (since + 1) floor == 0
      then 0
      else (stream_head db pid).seq)
  answer-last =
      last_of-segment 0 (max (since + 1) floor) _ answer.envelopes (omega arith) answer-numbers
        answer-Numbered
      ∙ ground arith

floor_of_below :
    (cfg : StreamReplay) (head : StreamHead) (o : Option ℕ)
    → 0 < head.seq
    → 0 < cfg.max_frames
    → ((n : ℕ) → o ≡ some n → n ≤ head.seq)
    → floor_of cfg head o ≤ head.seq
unfolding floor_of
floor_of_below cfg head none h f w = omega arith
floor_of_below cfg head (some n) h f w = omega (arith, w n refl)

-- the floor of a replay that may hold a frame lies at or below the head
floor_below :
    (db : Db) (cfg : StreamReplay) (now : ℕ) (pid : String)
    → IsGapless db pid
    → 0 < (stream_head db pid).seq
    → 0 < cfg.max_frames
    → floor_of cfg (stream_head db pid) (window_floor db cfg now pid) ≤ (stream_head db pid).seq
unfolding window_floor
floor_below db cfg now pid g h f =
    floor_of_below cfg (stream_head db pid) (window_floor db cfg now pid) h f
      (λ n e. (oldest_seq_since_bounds db pid (now - cfg.window_hours * micros_per_hour) n g e).1)

-- A reconnect with a cursor below the head, of no other epoch, to a numbered stream whose journal
-- has no gap, with replays of at least one frame. It subscribes first: its queue brings it, in
-- order, the positions after some `m` at or below the head that the replay is read at, up to a
-- later one, all of the head's epoch, with keep-alives in between, and it is not dropped. Then the
-- signals that it sends, replayed and live, are every position from the one after its cursor, or
-- from the replay's floor where that lies higher, up to the last that the queue brought or the
-- head: each once, in order, with no gap at the seam.
pub connect_exactly_once :
    (db : Db) (cfg : StreamReplay) (now : ℕ) (pid : String) (since : ℕ) (epoch : Option ℕ)
    (evs : List LiveEvent) (m k : ℕ)
    → IsGapless db pid
    → is_stale_epoch (stream_head db pid) epoch ≡ false
    → since < (stream_head db pid).seq
    → 0 < cfg.max_frames
    → 0 < (stream_head db pid).epoch
    → m ≤ (stream_head db pid).seq
    → positions_of (taken evs) ≡ segment (m + 1) k
    → Stays (stream_head db pid).epoch evs
    → let start =
        max (since + 1) (floor_of cfg (stream_head db pid) (window_floor db cfg now pid)) in
      positions_of (signals (frames db cfg now pid none (some since) epoch evs))
      ≡ segment start (max (stream_head db pid).seq (m + k) + 1 - start)
connect_exactly_once db cfg now pid since epoch evs m k g fresh below f z le e st =
    let head = (stream_head db pid).seq in
    let floor = floor_of cfg (stream_head db pid) (window_floor db cfg now pid) in
    let start = max (since + 1) floor in
    let behind : since ≤ head = omega arith in
    let under = floor_below db cfg now pid g (omega arith) f in
    let last = answer-last db cfg now pid since epoch g fresh behind in
    let some_left : (head + 1 - start == 0) ≡ false = ground arith in
    let at_head = last ∙ if_false (head + 1 - start == 0) 0 head some_left in
    let live = connection-live db cfg now pid since epoch g fresh behind evs m k z e st in
    let high : max head m ≡ head = omega arith in
    let join : start + (head + 1 - start) ≡ head + 1 = omega arith in
    let size : head + 1 - start + (m + k - head) ≡ max head (m + k) + 1 - start = omega arith in
    connection-signals db cfg now pid since epoch g fresh behind evs
    ∙ rw (answer-numbers db cfg now pid since epoch g fresh behind, live, at_head, high)
        (ap (λ n. segment start (head + 1 - start) ++ segment n (m + k - head)) (sym join)
          ∙ segment-append start (head + 1 - start) (m + k - head)
          ∙ ap (segment start) size)

-- A reconnect whose cursor stands exactly at the head, of no other epoch, to a numbered stream whose
-- journal has no gap: nothing is replayed, and the connection sends on every position that its
-- queue brings, those at or below its cursor included.
pub connect_resends :
    (db : Db) (cfg : StreamReplay) (now : ℕ) (pid : String) (epoch : Option ℕ)
    (evs : List LiveEvent) (m k : ℕ)
    → IsGapless db pid
    → is_stale_epoch (stream_head db pid) epoch ≡ false
    → 0 < (stream_head db pid).epoch
    → positions_of (taken evs) ≡ segment (m + 1) k
    → Stays (stream_head db pid).epoch evs
    → positions_of (signals (frames db cfg now pid none (some (stream_head db pid).seq) epoch evs))
      ≡ positions_of (taken evs)
connect_resends db cfg now pid epoch evs m k g fresh z e st =
    let head = (stream_head db pid).seq in
    let same : head ≤ head = omega arith in
    let floor = floor_of cfg (stream_head db pid) (window_floor db cfg now pid) in
    let start = max (head + 1) floor in
    let nothing : head + 1 - start ≡ 0 = omega arith in
    let none_left : (head + 1 - start == 0) ≡ true = ground arith in
    let last =
      answer-last db cfg now pid head epoch g fresh same
      ∙ if_true (head + 1 - start == 0) 0 head none_left in
    let live = connection-live db cfg now pid head epoch g fresh same evs m k z e st in
    let high : max 0 m ≡ m = omega arith in
    let size : m + k - m ≡ k = omega arith in
    connection-signals db cfg now pid head epoch g fresh same evs
    ∙ rw (answer-numbers db cfg now pid head epoch g fresh same, live, last, high, size)
        (ap (λ n. segment start n ++ segment (m + 1) k) nothing ∙ unfold segment in sym e)
