-- ===== src/Stream/Dispatcher/Rejoin.antt =====
-- A connection to a stream that was watched before and left alone since (stream_dispatcher.py).
use text.Mathlib.TextPositions.{eq_refl}
use finiex_ragengine.Prelude.{
  ℕ, ◌+◌, ◌-◌, ◌≤◌, ◌<◌, String, ◌≡◌, refl, ◌∙◌, ap, true, false, none, some, List, [], ◌∷◌, arith,
  length,
}
use finiex_ragengine.Prelude.Dict
use finiex_ragengine.Prelude.Dict.{get-put}
use finiex_ragengine.Outcome.{AnalysisEnvelope}
use finiex_ragengine.Stream.Types.{StreamHead}
use finiex_ragengine.Stream.Store.{Db, stream_head}
use finiex_ragengine.Stream.Store.Gapless.{IsGapless}
use finiex_ragengine.Stream.Store.Window.{drop, stored, length-drop, length-stored}
use finiex_ragengine.Stream.Dispatcher.{
  StreamSubscription, StreamDispatcher, live_of, subscribe, advance,
}
use finiex_ragengine.Stream.Dispatcher.Room.{served, has_room}
use finiex_ragengine.Stream.Dispatcher.Tail.{frames_of, advance-served}

abbrev fresh : ℕ → StreamSubscription
fresh id = record { id = id; queue = []; dropped = false }

length-frames_of : (l : List (ℕ × AnalysisEnvelope)) → length (frames_of l) ≡ length l
length-frames_of [] = refl
length-frames_of (x ∷ l) = omega (arith, length-frames_of l)

served-fresh :
    (maxsize id : ℕ) (es : List AnalysisEnvelope)
    → 0 < maxsize
    → maxsize < length es
    → served maxsize es (fresh id ∷ []) ≡ []
unfolding served
served-fresh maxsize id es h i =
    let no_room : has_room maxsize (length es) [] ≡ false = ground arith in rw no_room refl

subscribe_first :
    (d : StreamDispatcher) (db : Db) (pid : String) (id : ℕ) (cursor : StreamHead)
    → Dict.get d.subscriptions pid ≡ none
    → Dict.get d.cursor pid ≡ some cursor
    → let d' = subscribe d db pid id in
      (live_of d' pid ≡ fresh id ∷ [])
      × (Dict.has d'.subscriptions pid ≡ true)
      × (Dict.get d'.cursor pid ≡ some cursor)
unfolding subscribe live_of
subscribe_first d db pid id cursor n h =
    rw (n, h, get-put d.subscriptions pid pid (fresh id ∷ []), eq_refl pid) (refl, refl, h)

-- A stream that was watched before keeps the position at which its last connection left. In a
-- journal without a gap, when more envelopes came since than a queue holds, the next connection to
-- it is gone after the first advance, if it takes nothing from its queue while that runs, although
-- its queue was empty and it asked for none of those frames.
pub subscribe-dropped :
    (db : Db) (pid : String) (fuel id : ℕ) (d : StreamDispatcher) (cursor : StreamHead)
    → IsGapless db pid
    → Dict.get d.subscriptions pid ≡ none
    → Dict.get d.cursor pid ≡ some cursor
    → cursor.seq ≤ (stream_head db pid).seq
    → 0 < d.batch_size
    → d.stopped ≡ false
    → (stream_head db pid).seq < cursor.seq + fuel
    → 0 < d.queue_size
    → d.queue_size < (stream_head db pid).seq - cursor.seq
    → live_of (advance fuel (subscribe d db pid id) db pid) pid ≡ []
subscribe-dropped db pid fuel id d cursor g n h le b s f q over =
    let d' = subscribe d db pid id in
    let (live, watched, kept) = subscribe_first d db pid id cursor n h in
    let ran =
      advance-served db pid fuel d' cursor g watched kept le (unfold subscribe in b)
        (unfold subscribe in s) f in
    let rows = drop cursor.seq (stored db pid) in
    let size : length (frames_of rows) ≡ (stream_head db pid).seq - cursor.seq =
      length-frames_of rows
      ∙ length-drop cursor.seq (stored db pid)
      ∙ ap (λ n. n - cursor.seq) (length-stored db pid g) in
    ran.1
    ∙ ap (served d'.queue_size (frames_of rows)) live
    ∙ served-fresh d'.queue_size id (frames_of rows) (unfold subscribe in q)
        (unfold subscribe in (rw size over))
