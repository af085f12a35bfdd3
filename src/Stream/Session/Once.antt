-- ===== src/Stream/Session/Once.antt =====
-- The discard rule of stream_session.py.
use finiex_ragengine.Prelude.{
  ℕ, zero, suc, ◌+◌, ◌-◌, ◌≤◌, ◌<◌, ◌≡◌, refl, ◌∙◌, ap, false, not, some, List, [], ◌∷◌, ◌++◌, map,
  arith, leb, ◌==◌, if_true, if_false, max, Bool-cases, inl, inr,
}
use finiex_ragengine.Outcome.{AnalysisEnvelope}
use finiex_ragengine.Stream.Types.{StreamHead}
use finiex_ragengine.Stream.Store.Reads.{segment}
use finiex_ragengine.Stream.Dispatcher.{or_number}
use finiex_ragengine.Stream.Session.{
  Frame, retry, signal, control, heartbeat, LiveEvent, received, quiet, fell_behind, StreamSession,
  position, receive, step, live_frames,
}

-- The envelopes among the frames, in order.
unfoldable pub signals : List Frame → List AnalysisEnvelope
signals [] = []
signals (retry ∷ fs) = signals fs
signals (signal e ∷ fs) = e ∷ signals fs
signals (control c epoch ∷ fs) = signals fs
signals (heartbeat epoch seq now available ∷ fs) = signals fs

-- The envelopes that came from the queue, in order.
unfoldable pub taken : List LiveEvent → List AnalysisEnvelope
taken [] = []
taken (received e ∷ evs) = e ∷ taken evs
taken (quiet head now ∷ evs) = taken evs
taken (fell_behind ∷ evs) = taken evs

abbrev pub positions_of : List AnalysisEnvelope → List ℕ
positions_of l = map position l

-- The subscriber is not dropped, and every envelope is of one epoch.
abbrev pub Stays : ℕ → List LiveEvent → Type 0
Stays epoch [] = Unit
Stays epoch (received e ∷ evs) = (e.stream_epoch ≡ some epoch) × Stays epoch evs
Stays epoch (quiet head now ∷ evs) = Stays epoch evs
Stays epoch (fell_behind ∷ evs) = ⊥

running :
    (s : StreamSession) (ev : LiveEvent) (evs : List LiveEvent)
    → s.closed ≡ false
    → live_frames s (ev ∷ evs) ≡ (step s ev).1 ++ live_frames (step s ev).0 evs
unfolding live_frames
running s ev evs c = if_false s.closed _ _ c

receive-skip :
    (s : StreamSession) (e : AnalysisEnvelope)
    → position e ≤ s.last_seq
    → step s (received e) ≡ (s, [])
unfolding step receive
receive-skip s e h = if_true (leb (position e) s.last_seq) _ _ (ground arith)

same_epoch :
    (e : AnalysisEnvelope) (epoch : ℕ)
    → 0 < epoch
    → e.stream_epoch ≡ some epoch
    → not (or_number e.stream_epoch epoch == epoch) ≡ false
unfolding or_number
same_epoch e epoch z h = rw h (ground arith)

receive-send :
    (s : StreamSession) (e : AnalysisEnvelope)
    → s.last_seq < position e
    → 0 < s.stream_epoch
    → e.stream_epoch ≡ some s.stream_epoch
    → step s (received e) ≡ (record s { last_seq = position e }, signal e ∷ [])
unfolding step receive
receive-send s e h z st =
    if_false (leb (position e) s.last_seq) _ _ (ground arith)
    ∙ if_false (s.stream_epoch == 0) _ _ (ground arith)
    ∙ if_false (not (or_number e.stream_epoch s.stream_epoch == s.stream_epoch)) _ _
        (same_epoch e s.stream_epoch z st)

abbrev sent : StreamSession → AnalysisEnvelope → StreamSession
sent s e = record s { last_seq = position e }

quiet_signals :
    (s : StreamSession) (head : StreamHead) (now : ℕ) (evs : List LiveEvent)
    → let next = step s (quiet head now) in
      positions_of (signals (next.1 ++ live_frames next.0 evs))
      ≡ positions_of (signals (live_frames s evs))
unfolding step signals
quiet_signals s head now evs = refl

no_more : (a n : ℕ) → n ≡ 0 → [] ≡ segment a n
unfolding segment
no_more a n h = rw h refl

-- What is sent starts after the last position sent or after the last that the queue missed,
-- whichever is higher.
pub live_frames-signals :
    (s : StreamSession) (evs : List LiveEvent) (m k : ℕ)
    → s.closed ≡ false
    → 0 < s.stream_epoch
    → positions_of (taken evs) ≡ segment (m + 1) k
    → Stays s.stream_epoch evs
    → positions_of (signals (live_frames s evs))
      ≡ segment (max s.last_seq m + 1) (m + k - max s.last_seq m)
unfolding signals taken segment
live_frames-signals s [] m zero c z e st =
    unfold live_frames in no_more (max s.last_seq m + 1) _ (omega arith)
live_frames-signals s [] m (suc k) c z e st = cc
live_frames-signals s (quiet head now ∷ evs) m k c z e st =
    ap (λ fs. positions_of (signals fs)) (running s (quiet head now) evs c)
    ∙ quiet_signals s head now evs
    ∙ live_frames-signals s evs m k c z e st
live_frames-signals s (fell_behind ∷ evs) m k c z e st = absurd st
live_frames-signals s (received v ∷ evs) m zero c z e st = cc
live_frames-signals s (received v ∷ evs) m (suc k) c z e st =
    let own : position v ≡ m + 1 = cc in
    let rest : positions_of (taken evs) ≡ segment (m + 1 + 1) k = cc in
    ap (λ fs. positions_of (signals fs)) (running s (received v) evs c)
    ∙ elim (Bool-cases (leb (position v) s.last_seq)) [
      | inl h ↦
          let up : m + suc k ≡ m + 1 + k = omega arith in
          let high : max s.last_seq m ≡ max s.last_seq (m + 1) = ground arith in
          rw (receive-skip s v (ground arith), up, high)
            (live_frames-signals s evs (m + 1) k c z rest st.1)
      | inr h ↦
          let high : max s.last_seq m ≡ m = ground arith in
          let high' : max (position v) (m + 1) ≡ m + 1 = ground arith in
          let size : m + suc k - m ≡ suc k = ground arith in
          let size' : m + 1 + k - (m + 1) ≡ k = ground arith in
          let later = live_frames-signals (sent s v) evs (m + 1) k c z rest st.1 in
          rw (receive-send s v (ground arith) z st.0, high, size)
            (ap (λ n. n ∷ positions_of (signals (live_frames (sent s v) evs))) own
              ∙ ap (λ r. (m + 1) ∷ r) (rw (high', size') at later))
    ]
