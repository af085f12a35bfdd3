-- ===== src/Stream/Dispatcher/Tail.antt =====
-- The tail loop of stream_dispatcher.py.
use mathlib.Core.List.{map-append}
use finiex_ragengine.Prelude.{
  ℕ, zero, suc, ◌+◌, ◌-◌, ◌≤◌, ◌<◌, String, ◌≡◌, refl, ◌∙◌, sym, ap, Bool, true, false, not, ◌||◌,
  some, List, [], ◌∷◌, ◌++◌, map, arith, ltb, ◌==◌, if◌then◌else◌, if_false, length, min,
  Bool-cases, inl, inr, All, take,
}
use finiex_ragengine.Prelude.Dict
use finiex_ragengine.Outcome.{AnalysisEnvelope}
use finiex_ragengine.Stream.Types.{StreamHead}
use finiex_ragengine.Stream.Store.{Db, stream_head}
use finiex_ragengine.Stream.Store.Gapless.{IsGapless}
use finiex_ragengine.Stream.Store.Reads.{numbers, segment, cons-segment, envelopes_by_seq-segment}
use finiex_ragengine.Stream.Store.Window.{
  drop, drop-drop, take-drop, take_all, length-take, length-drop, stored, envelopes_by_seq-window,
  length-stored, Numbered, numbers-after, window-Numbered, numbers-after,
}
use finiex_ragengine.Stream.Dispatcher.{
  StreamDispatcher, live_of, push, moved, or_number, round, tail_loop, advance,
}
use finiex_ragengine.Stream.Dispatcher.Room.{
  served, served-append, push-served, push-cursor, end_of,
}

-- The envelopes themselves, without their positions.
abbrev pub frames_of : List (ℕ × AnalysisEnvelope) → List AnalysisEnvelope
frames_of l = map (λ x. x.1) l

moved-seq :
    (cursor : StreamHead) (e : AnalysisEnvelope) (m : ℕ)
    → e.seq ≡ some m
    → 0 < m
    → (moved cursor e).seq ≡ m
unfolding moved or_number
moved-seq cursor e m h i = rw h (ground arith)

-- A batch that continues from the cursor's position leaves the cursor at the batch's end.
end_of-seq :
    (cursor : StreamHead) (es : List (ℕ × AnalysisEnvelope)) (k : ℕ)
    → numbers es ≡ segment (cursor.seq + 1) k
    → All Numbered es
    → (end_of cursor es).seq ≡ cursor.seq + k
unfolding end_of segment
end_of-seq cursor [] zero e n = omega arith
end_of-seq cursor [] (suc k) e n = cc
end_of-seq cursor (x ∷ es) zero e n = cc
end_of-seq cursor (x ∷ es) (suc k) e n =
    let (own, rest) = cons-segment x es (cursor.seq + 1) k e in
    let next : (moved cursor x.1).seq ≡ cursor.seq + 1 =
      moved-seq cursor x.1 x.0 n.0 (omega arith) ∙ own in
    let later = end_of-seq (moved cursor x.1) es k (rw next rest) n.1 in omega arith

module _ (db : Db) (pid : String) (g : IsGapless db pid) where
  -- what the journal holds after a position
  abbrev pub after : ℕ → List (ℕ × AnalysisEnvelope)
  after c = drop c (stored db pid)

  abbrev batch : ℕ → ℕ → List (ℕ × AnalysisEnvelope)
  batch b c = take b (after c)

  length-after : (c : ℕ) → length (after c) ≡ (stream_head db pid).seq - c
  length-after c = length-drop c (stored db pid) ∙ ap (λ n. n - c) (length-stored db pid g)

  length-batch : (b c : ℕ) → length (batch b c) ≡ min b ((stream_head db pid).seq - c)
  length-batch b c = length-take b (after c) ∙ ap (min b) (length-after c)

  batch_end :
      (cursor : StreamHead) (b : ℕ)
      → (end_of cursor (batch b cursor.seq)).seq ≡ cursor.seq + length (batch b cursor.seq)
  batch_end cursor b =
      end_of-seq cursor (batch b cursor.seq) (length (batch b cursor.seq))
        (rw length-batch
          (rw envelopes_by_seq-window at (envelopes_by_seq-segment db pid cursor.seq b g)))
        (window-Numbered db pid cursor.seq b)

  tail_loop-round :
      (fuel : ℕ) (d : StreamDispatcher) (cursor : StreamHead)
      → Dict.get d.cursor pid ≡ some cursor
      → d.stopped ≡ false
      → let es = batch d.batch_size cursor.seq in
        let d' = push d pid cursor es in
        tail_loop (suc fuel) d db pid ≡ (
          if not (length es == 0 || ltb (length es) d.batch_size)
          then tail_loop fuel d' db pid
          else d')
  unfolding tail_loop round
  tail_loop-round fuel d cursor h s =
      let read = envelopes_by_seq-window db pid cursor.seq d.batch_size g in
      rw h (
        ap (λ (r : StreamDispatcher × Bool). if r.1 then tail_loop fuel r.0 db pid else r.0)
          (if_false d.stopped _ _ s)
        ∙ rw read refl)

  join :
      (b c c' : ℕ)
      → c' ≡ c + b
      → frames_of (batch b c) ++ frames_of (after c') ≡ frames_of (after c)
  join b c c' e =
      sym (map-append (λ x. x.1) (batch b c) (after c'))
      ∙ ap frames_of (
          ap (λ n. batch b c ++ after n) e
          ∙ ap (λ l. batch b c ++ l) (sym (drop-drop b c (stored db pid)))
          ∙ take-drop b (after c))

  -- What a run of the tail leaves of a dispatcher whose cursor stood at `c`.
  abbrev Current : StreamDispatcher → ℕ → StreamDispatcher → Type 0
  Current d c d' =
      (live_of d' pid ≡ served d.queue_size (frames_of (after c)) (live_of d pid))
      × ((cursor' : StreamHead) × (Dict.get d'.cursor pid ≡ some cursor')
          × (cursor'.seq ≡ (stream_head db pid).seq))

  pub tail_loop-Current :
      (fuel : ℕ) (d : StreamDispatcher) (cursor : StreamHead)
      → Dict.get d.cursor pid ≡ some cursor
      → cursor.seq ≤ (stream_head db pid).seq
      → 0 < d.batch_size
      → d.stopped ≡ false
      → (stream_head db pid).seq < cursor.seq + fuel
      → Current d cursor.seq (tail_loop fuel d db pid)
  tail_loop-Current zero d cursor h le b s f = absurd (omega arith)
  tail_loop-Current (suc fuel) d cursor h le b s f =
      let es = batch d.batch_size cursor.seq in
      let d' = push d pid cursor es in
      let pushed = push-served d pid cursor es in
      let moved_to = push-cursor d pid cursor es h in
      let end = batch_end cursor d.batch_size in
      let size = length-batch d.batch_size cursor.seq in
      let whole : length (after cursor.seq) ≡ (stream_head db pid).seq - cursor.seq =
        length-after cursor.seq in
      rw (tail_loop-round fuel d cursor h s)
        (elim (Bool-cases (length es == 0 || ltb (length es) d.batch_size)) [
          | inl last ↦
              let all : es ≡ after cursor.seq =
                take_all d.batch_size (after cursor.seq) (ground arith) in
              let stop : cursor.seq + length es ≡ (stream_head db pid).seq = ground arith in
              rw last (
                pushed.0 ∙ ap (λ l. served d.queue_size (frames_of l) (live_of d pid)) all,
                (end_of cursor es, moved_to, end ∙ stop),
              )
          | inr more ↦
              let full : length es ≡ d.batch_size = ground arith in
              let later =
                tail_loop-Current fuel (push d pid cursor (batch d.batch_size cursor.seq))
                  (end_of cursor es) moved_to (omega arith) (rw pushed.2 b) (pushed.3 ∙ s)
                  (omega arith) in
              let reached : (end_of cursor es).seq ≡ cursor.seq + d.batch_size = omega arith in
              rw more (
                later.0
                    ∙ rw (pushed.0, pushed.1)
                        (served-append d.queue_size (frames_of es)
                          (frames_of (after (end_of cursor es).seq)) (live_of d pid))
                    ∙ ap (λ l. served d.queue_size l (live_of d pid))
                        (join d.batch_size cursor.seq (end_of cursor es).seq reached),
                later.1,
              )
        ])

-- When a notification or a sweep advances a stream that someone watches, whose cursor lies at or
-- below its head, in a journal without a gap, with batches that are not empty and fuel above the
-- distance to the head, while no connection takes from its queue: whoever has room in its queue for everything after the cursor finds all of
-- it there, in the order of the positions, each once; the others are dropped, which changes nothing
-- for anyone else; and the cursor stands at the head.
pub advance-served :
    (db : Db) (pid : String) (fuel : ℕ) (d : StreamDispatcher) (cursor : StreamHead)
    → IsGapless db pid
    → Dict.has d.subscriptions pid ≡ true
    → Dict.get d.cursor pid ≡ some cursor
    → cursor.seq ≤ (stream_head db pid).seq
    → 0 < d.batch_size
    → d.stopped ≡ false
    → (stream_head db pid).seq < cursor.seq + fuel
    → let d' = advance fuel d db pid in
      let fresh = drop cursor.seq (stored db pid) in
      (numbers fresh ≡ segment (cursor.seq + 1) ((stream_head db pid).seq - cursor.seq))
      × (live_of d' pid ≡ served d.queue_size (frames_of fresh) (live_of d pid))
      × ((cursor' : StreamHead) × (Dict.get d'.cursor pid ≡ some cursor')
          × (cursor'.seq ≡ (stream_head db pid).seq))
unfolding advance
advance-served db pid fuel d cursor g w h le b s f =
    let ran = tail_loop-Current db pid g fuel d cursor h le b s f in
    rw w (numbers-after db pid cursor.seq g, ran.0, ran.1)
