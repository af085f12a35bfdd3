-- ===== src/Stream/Session.antt =====
-- finiexragengine/core/outcome/stream_session.py: one connection's frames, from `retry:` to close. A
-- frame is what stream_frames.py renders. What the connection waits for comes as a list of events:
-- an envelope from its queue, a keep-alive that is due with the head that the store answers and the
-- clock's reading, or the mark that this subscriber was dropped.
pub mod Once
pub mod Connect
pub mod Refused
use finiex_ragengine.Prelude.{
  ℕ, String, Bool, true, false, not, Option, none, some, List, [], ◌∷◌, ◌++◌, max, leb, ◌==◌,
  if◌then◌else◌, is_some,
}
use finiex_ragengine.Outcome.{AnalysisEnvelope}
use finiex_ragengine.Stream.Types.{StreamHead, ControlFrame, live, epoch_changed}
use finiex_ragengine.Stream.Store.{Db}
use finiex_ragengine.Stream.Replay.{StreamReplay, ReplayPlan, plan}
use finiex_ragengine.Stream.Dispatcher.{or_number}

-- `render_retry`, `render_signal`, `render_control` with its epoch, `render_heartbeat` with its
-- epoch, position, clock reading and availability
pub data Frame : Type 0 where
  retry : Frame
  signal : AnalysisEnvelope → Frame
  control : ControlFrame → ℕ → Frame
  heartbeat : ℕ → ℕ → ℕ → Option ℕ → Frame

pub data LiveEvent : Type 0 where
  received : AnalysisEnvelope → LiveEvent
  quiet : StreamHead → ℕ → LiveEvent
  fell_behind : LiveEvent

pub record StreamSession : Type 0 where
  pub last_seq : ℕ
  pub stream_epoch : ℕ
  pub closed : Bool

-- int(envelope.get('seq') or 0)
unfoldable pub position : AnalysisEnvelope → ℕ
unfolding or_number
position e = or_number e.seq 0

-- The rest of the loop of `_live`, on an envelope from the queue.
unfoldable pub receive : StreamSession → AnalysisEnvelope → StreamSession × List Frame
receive s e =
    let seq = position e in
    let frame_epoch = or_number e.stream_epoch s.stream_epoch in
    if leb seq s.last_seq
    then (s, [])
    else if s.stream_epoch == 0
    then (record s { stream_epoch = frame_epoch; last_seq = seq }, signal e ∷ [])
    else if not (frame_epoch == s.stream_epoch)
    then (record s { closed = true }, control (epoch_changed s.stream_epoch seq) frame_epoch ∷ [])
    else (record s { last_seq = seq }, signal e ∷ [])

-- One round of the loop of `_live`.
unfoldable pub step : StreamSession → LiveEvent → StreamSession × List Frame
unfolding receive
step s fell_behind = (record s { closed = true }, [])
step s (quiet head now_msc) = (
  s,
  heartbeat (or_number (some head.epoch) s.stream_epoch) head.seq now_msc head.available_msc ∷ [],
)
step s (received e) = receive s e

-- `_live`
unfoldable pub live_frames : StreamSession → List LiveEvent → List Frame
live_frames s [] = []
live_frames s (ev ∷ evs) =
    let later = live_frames (step s ev).0 evs in if s.closed then [] else (step s ev).1 ++ later

-- `last_seq` after the replay
unfoldable pub last_of : ℕ → List (ℕ × AnalysisEnvelope) → ℕ
last_of last [] = last
last_of last (x ∷ es) = last_of (or_number x.1.seq last) es

unfoldable pub replayed : List (ℕ × AnalysisEnvelope) → List Frame
replayed [] = []
replayed (x ∷ es) = signal x.1 ∷ replayed es

abbrev pub control_first : ℕ → Option ControlFrame → List Frame → List Frame
control_first epoch none l = l
control_first epoch (some c) l = control c epoch ∷ l

unfoldable pub serve : ReplayPlan → List LiveEvent → List Frame
serve p events =
    let epoch = p.head.epoch in
    let last = last_of 0 p.envelopes in
    let s : StreamSession = record { last_seq = last; stream_epoch = epoch; closed = false } in
    let rest =
      replayed p.envelopes ++ control (live (max last p.head.seq)) epoch ∷ live_frames s events in
    control_first epoch p.control (if p.terminal then [] else rest)

-- if history is None and since is None: history = 1, and a cursor leaves no history
unfoldable pub history_of : Option ℕ → Option ℕ → Option ℕ
history_of none none = some 1
history_of (some h) none = some h
history_of history (some since) = none

-- `frames`
unfoldable pub frames :
    Db → StreamReplay → ℕ → String → Option ℕ → Option ℕ → Option ℕ → List LiveEvent → List Frame
unfolding serve
frames db cfg now pid history since epoch events =
    retry ∷ serve (plan db cfg now pid (history_of history since) since epoch none) events
