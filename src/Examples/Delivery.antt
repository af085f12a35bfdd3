-- ===== src/Examples/Delivery.antt =====
-- The tail and the connections on the small stream.
use finiex_ragengine.Prelude.{ℕ, ◌+◌, ◌-◌, ◌≡◌, refl, false, none, some, List, [], ◌∷◌, arith, max}
use finiex_ragengine.Prelude.Dict
use finiex_ragengine.Outcome.{AnalysisEnvelope}
use finiex_ragengine.Examples.{envelope_at}
use finiex_ragengine.Examples.Streams.{db, db-IsGapless, db_head, cfg, not_stale}
use finiex_ragengine.Stream.Types.{StreamHead, cursor_ahead}
use finiex_ragengine.Stream.Sequencer.{mint}
use finiex_ragengine.Stream.Store.{stream_head, save}
use finiex_ragengine.Stream.Store.Gapless.{call_all}
use finiex_ragengine.Stream.Store.Reads.{numbers, segment}
use finiex_ragengine.Stream.Store.Window.{drop, stored}
use finiex_ragengine.Stream.Replay.{floor_of, window_floor, plan, from_cursor, is_stale_epoch}
use finiex_ragengine.Stream.Dispatcher.{StreamDispatcher, live_of, subscribe, advance, or_number}
use finiex_ragengine.Stream.Dispatcher.Room.{served}
use finiex_ragengine.Stream.Dispatcher.Tail.{frames_of, advance-served}
use finiex_ragengine.Stream.Dispatcher.Rejoin.{subscribe-dropped}
use finiex_ragengine.Stream.Session.{
  LiveEvent, received, quiet, frames, position, serve, history_of, retry, control,
}
use finiex_ragengine.Stream.Session.Once.{signals, taken, positions_of}
use finiex_ragengine.Stream.Session.Refused.{Answered, frames-Answered}
use finiex_ragengine.Stream.Session.Connect.{connect_exactly_once, connect_resends}

abbrev at_one : StreamHead
at_one = record { seq = 1; epoch = 1; available_msc = some 100 }

-- Its cursor stands at 1, with one reader.
abbrev watched : StreamDispatcher
watched = record {
  queue_size = 4;
  batch_size = 2;
  subscriptions = ("fx", record { id = 7; queue = []; dropped = false } ∷ []) ∷ [];
  detached = [];
  cursor = ("fx", at_one) ∷ [];
  stopped = false;
}

-- The same, long after its last reader left, with queues of one frame.
abbrev unwatched : StreamDispatcher
unwatched = record watched { queue_size = 1; subscriptions = [] }

advance-served_example :
    let d' = advance 5 watched db "fx" in
    let fresh = drop 1 (stored db "fx") in
    (numbers fresh ≡ segment 2 ((stream_head db "fx").seq - 1))
    × (live_of d' "fx" ≡ served 4 (frames_of fresh) (live_of watched "fx"))
    × ((cursor' : StreamHead) × (Dict.get d'.cursor "fx" ≡ some cursor')
        × (cursor'.seq ≡ (stream_head db "fx").seq))
unfolding Dict.get
advance-served_example =
    advance-served db "fx" 5 watched at_one db-IsGapless refl refl (rw db_head (omega arith))
      (omega arith) refl (rw db_head (omega arith))

subscribe-dropped_example : live_of (advance 5 (subscribe unwatched db "fx" 8) db "fx") "fx" ≡ []
unfolding Dict.get
subscribe-dropped_example =
    subscribe-dropped db "fx" 5 8 unwatched at_one db-IsGapless refl refl (rw db_head (omega arith))
      (omega arith) refl (rw db_head (omega arith)) (omega arith) (rw db_head (omega arith))

abbrev numbered : ℕ → AnalysisEnvelope
numbered n = record (envelope_at "fx" 100 []) { seq = some n; stream_epoch = some 1 }

-- The queue brings 3, which the replay carries too, then a keep-alive and 4.
abbrev events : List LiveEvent
events = received (numbered 3) ∷ quiet at_one 900 ∷ received (numbered 4) ∷ []

events-taken : positions_of (taken events) ≡ segment 3 2
unfolding taken position or_number segment
events-taken = refl

epoch_one : (stream_head db "fx").epoch ≡ 1
unfolding stream_head save call_all mint Dict.get Dict.put
epoch_one = refl

connect_exactly_once_example :
    let start = max (1 + 1) (floor_of cfg (stream_head db "fx") (window_floor db cfg 500 "fx")) in
    positions_of (signals (frames db cfg 500 "fx" none (some 1) (some 1) events))
    ≡ segment start (max (stream_head db "fx").seq 4 + 1 - start)
connect_exactly_once_example =
    connect_exactly_once db cfg 500 "fx" 1 (some 1) events 2 2 db-IsGapless not_stale
      (rw db_head (omega arith)) (omega arith) (rw epoch_one (omega arith))
      (rw db_head (omega arith)) events-taken (rw epoch_one (refl, (refl, tt)))

-- The queue brings 2 and 3 to a consumer that has them.
abbrev late_events : List LiveEvent
late_events = received (numbered 2) ∷ received (numbered 3) ∷ []

late_events-taken : positions_of (taken late_events) ≡ segment 2 2
unfolding taken position or_number segment
late_events-taken = refl

connect_resends_example :
    positions_of
      (signals (frames db cfg 500 "fx" none (some (stream_head db "fx").seq) (some 1) late_events))
    ≡ positions_of (taken late_events)
connect_resends_example =
    connect_resends db cfg 500 "fx" (some 1) late_events 1 2 db-IsGapless not_stale
      (rw epoch_one (omega arith)) late_events-taken (rw epoch_one (refl, (refl, tt)))

-- A cursor beyond the head.
frames-Answered_example :
    Answered
      (stream_head db "fx")
      9
      (some 1)
      (frames db cfg 500 "fx" none (some 9) (some 1) late_events)
frames-Answered_example = frames-Answered db cfg 500 "fx" none 9 (some 1) late_events

-- It gets two frames and no more.
refused_ahead :
    frames db cfg 500 "fx" none (some 9) (some 1) late_events
    ≡ retry ∷ control (cursor_ahead 9 3) 1 ∷ []
unfolding frames serve history_of plan from_cursor is_stale_epoch stream_head save call_all mint
    Dict.get Dict.put
refused_ahead = refl
