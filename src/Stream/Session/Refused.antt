-- ===== src/Stream/Session/Refused.antt =====
-- Which cursors a connection of stream_session.py refuses.
use mathlib.Core.List.{append_assoc}
use finiex_ragengine.Prelude.{
  ℕ, ◌≤◌, ◌<◌, String, ◌≡◌, ◌≢◌, refl, sym, ap, ◌∙◌, true, false, ◌⊎◌, Option, none, some, List, [],
  ◌∷◌, ◌++◌, max, arith, ltb, ◌==◌, if_true, if_false, Bool-cases, inl, inr,
}
use finiex_ragengine.Stream.Types.{StreamHead, ControlFrame, live, cursor_ahead, epoch_changed}
use finiex_ragengine.Stream.Store.{Db, stream_head}
use finiex_ragengine.Stream.Replay.{
  StreamReplay, ReplayPlan, is_stale_epoch, epoch_or_zero, closing, plan, from_floor, from_cursor,
  floor_of, window_floor,
}
use finiex_ragengine.Stream.Session.{
  Frame, retry, control, control_first, LiveEvent, StreamSession, live_frames, last_of, replayed,
  serve, history_of, frames,
}

-- The cursor's epoch is not given, or the stream's, or the stream has none yet.
abbrev pub OfEpoch : StreamHead → Option ℕ → Type 0
OfEpoch head none = Unit
OfEpoch head (some e) = (head.epoch ≡ 0) ⊎ (e ≡ head.epoch)

-- The cursor names an epoch, the stream has one, and they differ.
abbrev pub OtherEpoch : StreamHead → Option ℕ → Type 0
OtherEpoch head none = ⊥
OtherEpoch head (some e) = (head.epoch ≢ 0) × (e ≢ head.epoch)

epoch_cases :
    (head : StreamHead) (epoch : Option ℕ)
    → ((is_stale_epoch head epoch ≡ true) × OtherEpoch head epoch)
      ⊎ ((is_stale_epoch head epoch ≡ false) × OfEpoch head epoch)
unfolding is_stale_epoch
epoch_cases head none = inr (refl, tt)
epoch_cases head (some e) = elim (Bool-cases (head.epoch == 0)) [
  | inl z ↦ inr (ground (arith, z), inl (ground (arith, z)))
  | inr n ↦ elim (Bool-cases (e == head.epoch)) [
    | inl s ↦ inr (ground (arith, s), inr (ground (arith, s)))
    | inr d ↦ inl (ground (arith, n, d), ((λ h. ground (arith, n, h)), λ h. ground (arith, d, h)))
  ]
]

-- The connection announces that it is live, at some position of the stream's epoch.
abbrev pub GoesLive : StreamHead → List Frame → Type 0
GoesLive head fs =
    (before after : List Frame) × (seq : ℕ) × (fs ≡ before ++ control (live seq) head.epoch ∷ after)

abbrev pub Answered : StreamHead → ℕ → Option ℕ → List Frame → Type 0
Answered head since epoch fs =
    (OtherEpoch head epoch
      × (fs ≡ retry ∷ control (epoch_changed (epoch_or_zero epoch) head.seq) head.epoch ∷ []))
    ⊎ (OfEpoch head epoch
        × (head.seq < since)
        × (fs ≡ retry ∷ control (cursor_ahead since head.seq) head.epoch ∷ []))
    ⊎ (OfEpoch head epoch × (since ≤ head.seq) × GoesLive head fs)

control-split :
    (epoch : ℕ) (o : Option ControlFrame) (l : List Frame)
    → (first : List Frame) × (control_first epoch o l ≡ first ++ l)
control-split epoch none l = ([], refl)
control-split epoch (some c) l = (control c epoch ∷ [], refl)

serve-live :
    (p : ReplayPlan) (events : List LiveEvent)
    → p.terminal ≡ false
    → (before after : List Frame) × (seq : ℕ) × (retry ∷ serve p events
        ≡ before ++ control (live seq) p.head.epoch ∷ after)
unfolding serve
serve-live p events h =
    let s : StreamSession = record {
      last_seq = last_of 0 p.envelopes;
      stream_epoch = p.head.epoch;
      closed = false;
    } in
    let live_at = max (last_of 0 p.envelopes) p.head.seq in
    let started =
      replayed p.envelopes ++ control (live live_at) p.head.epoch ∷ live_frames s events in
    let (first, e) = control-split p.head.epoch p.control started in
    (
      retry ∷ first ++ replayed p.envelopes,
      live_frames s events,
      live_at,
      rw h (ap (◌∷◌ retry) (e ∙ sym (append_assoc first (replayed p.envelopes) _))),
    )

closing-served :
    (head : StreamHead) (c : ControlFrame) (events : List LiveEvent)
    → serve (closing head c) events ≡ control c head.epoch ∷ []
unfolding serve
closing-served head c events = refl

-- A connection with a cursor sends one of three things. Where the cursor names another epoch than the
-- stream's, which has one: `retry` and the change of epoch, and nothing more, whatever the queue brings.
-- Where it does not and the cursor lies beyond the head: `retry` and the notice of that, and nothing
-- more. Otherwise, and only then, it goes live.
pub frames-Answered :
    (db : Db) (cfg : StreamReplay) (now : ℕ) (pid : String) (history : Option ℕ) (since : ℕ)
    (epoch : Option ℕ) (events : List LiveEvent)
    → Answered
        (stream_head db pid)
        since
        epoch
        (frames db cfg now pid history (some since) epoch events)
unfolding frames history_of plan from_cursor from_floor
frames-Answered db cfg now pid history since epoch events =
    let head = stream_head db pid in
    let floor = floor_of cfg head (window_floor db cfg now pid) in
    let p = from_floor db cfg pid head since none floor in
    elim (epoch_cases head epoch) [
      | inl (stale, other) ↦ inl (
        other,
        ap (λ (q : ReplayPlan). retry ∷ serve q events) (if_true _ _ _ stale)
            ∙ ap (◌∷◌ retry) (closing-served head _ events),
      )
      | inr (fresh, of_epoch) ↦ elim (Bool-cases (ltb head.seq since)) [
        | inl ahead ↦ inr (
            inl (
              of_epoch,
              ground (arith, ahead),
              ap (λ (q : ReplayPlan). retry ∷ serve q events)
                    (if_false _ _ _ fresh ∙ if_true _ _ _ ahead)
                  ∙ ap (◌∷◌ retry) (closing-served head _ events),
            ))
        | inr behind ↦
            let same : from_cursor db cfg now pid head since epoch none ≡ p =
              if_false _ _ _ fresh ∙ if_false _ _ _ behind in
            inr (inr (of_epoch, ground (arith, behind), rw same (serve-live p events refl)))
      ]
    ]
