-- ===== src/Stream/Dispatcher.antt =====
-- finiexragengine/core/outcome/stream_dispatcher.py: one reader tails the journal and fans out to the
-- subscriptions of each stream. A subscription has the identity of its queue, `id`, and a dispatcher
-- keeps those that it let go in `detached`, since their own connections still read them. A loop that
-- runs until the tail is current runs on fuel. Between its reads the journal is taken as it is.
pub mod Room
pub mod Tail
pub mod Rejoin
use finiex_ragengine.Prelude.{
  ℕ, zero, suc, ◌+◌, String, Bool, true, false, not, ◌&&◌, ◌||◌, Option, none, some, List, [], ◌∷◌,
  ◌++◌, leb, ltb, ◌==◌, if◌then◌else◌, length,
}
use finiex_ragengine.Prelude.Dict
use finiex_ragengine.Prelude.Dict.{Dict}
use finiex_ragengine.Outcome.{AnalysisEnvelope}
use finiex_ragengine.Stream.Types.{StreamHead}
use finiex_ragengine.Stream.Store.{Db, stream_head, envelopes_by_seq}

-- `StreamSubscription` of types/stream_types.py
pub record StreamSubscription : Type 0 where
  pub id : ℕ
  pub queue : List AnalysisEnvelope
  pub dropped : Bool

pub record StreamDispatcher : Type 0 where
  pub queue_size : ℕ
  pub batch_size : ℕ
  pub subscriptions : Dict (List StreamSubscription)
  pub detached : List StreamSubscription
  pub cursor : Dict StreamHead
  pub stopped : Bool

unfoldable pub new_dispatcher : ℕ → ℕ → StreamDispatcher
new_dispatcher queue_size batch_size = record {
  queue_size = queue_size;
  batch_size = batch_size;
  subscriptions = [];
  detached = [];
  cursor = [];
  stopped = false;
}

abbrev pub or_empty {ℓ} : {A : Type ℓ} → Option (List A) → List A
or_empty none = []
or_empty (some l) = l

-- self._subscriptions.get(pipeline_id, ())
unfoldable pub live_of : StreamDispatcher → String → List StreamSubscription
live_of d pid = or_empty (Dict.get d.subscriptions pid)

-- `subscribe`: the cursor of a stream that was never watched starts at its head.
unfoldable pub subscribe : StreamDispatcher → Db → String → ℕ → StreamDispatcher
unfolding live_of
subscribe d db pid id = record d {
  cursor = if Dict.has d.cursor pid then d.cursor else Dict.put d.cursor pid (stream_head db pid);
  subscriptions =
      Dict.put d.subscriptions pid
        (live_of d pid ++ record { id = id; queue = []; dropped = false } ∷ []);
}

-- if not live: del self._subscriptions[pipeline_id]
unfoldable pub store_live :
    Dict (List StreamSubscription)
    → String
    → List StreamSubscription
    → Dict (List StreamSubscription)
store_live table pid [] = Dict.remove table pid
store_live table pid (s ∷ live) = Dict.put table pid (s ∷ live)

-- live.remove(subscription): what stays, and what was taken out
unfoldable pub take_out :
    ℕ → List StreamSubscription → List StreamSubscription × List StreamSubscription
take_out id [] = ([], [])
take_out id (s ∷ live) =
    let (rest, out) = take_out id live in if s.id == id then (live, s ∷ []) else (s ∷ rest, out)

abbrev unsubscribe_from :
    StreamDispatcher → String → ℕ → Option (List StreamSubscription) → StreamDispatcher
unsubscribe_from d pid id none = d
unsubscribe_from d pid id (some live) = record d {
  subscriptions = store_live d.subscriptions pid (take_out id live).0;
  detached = d.detached ++ (take_out id live).1;
}

-- `unsubscribe`: the stream's cursor stays.
unfoldable pub unsubscribe : StreamDispatcher → String → ℕ → StreamDispatcher
unsubscribe d pid id = unsubscribe_from d pid id (Dict.get d.subscriptions pid)

-- `head`
abbrev known_or : StreamHead → Option StreamHead → StreamHead
known_or h none = h
known_or h (some known) = known

unfoldable pub head : StreamDispatcher → Db → String → StreamHead
head d db pid = known_or (stream_head db pid) (Dict.get d.cursor pid)

-- asyncio's `Queue.full`: a `maxsize` of 0 is no bound
unfoldable pub is_full : ℕ → List AnalysisEnvelope → Bool
is_full maxsize queue = ltb 0 maxsize && leb maxsize (length queue)

-- The loop of `_fan_out`: the subscriptions that took the envelope, and those that were dropped.
unfoldable pub hand_out :
    ℕ
    → AnalysisEnvelope
    → List StreamSubscription
    → List StreamSubscription × List StreamSubscription
hand_out maxsize e [] = ([], [])
hand_out maxsize e (s ∷ live) =
    let (kept, gone) = hand_out maxsize e live in
    if is_full maxsize s.queue
    then (kept, record s { dropped = true } ∷ gone)
    else (record s { queue = s.queue ++ e ∷ [] } ∷ kept, gone)

abbrev fan_out_to :
    StreamDispatcher
    → String
    → AnalysisEnvelope
    → Option (List StreamSubscription)
    → StreamDispatcher
fan_out_to d pid e none = d
fan_out_to d pid e (some live) = record d {
  subscriptions = store_live d.subscriptions pid (hand_out d.queue_size e live).0;
  detached = d.detached ++ (hand_out d.queue_size e live).1;
}

-- `_fan_out`
unfoldable pub fan_out : StreamDispatcher → String → AnalysisEnvelope → StreamDispatcher
fan_out d pid e = fan_out_to d pid e (Dict.get d.subscriptions pid)

-- Python's `a or b` on an optional number
unfoldable pub or_number : Option ℕ → ℕ → ℕ
or_number none b = b
or_number (some a) b = if a == 0 then b else a

unfoldable pub moved : StreamHead → AnalysisEnvelope → StreamHead
unfolding or_number
moved cursor e = record {
  seq = or_number e.seq cursor.seq;
  epoch = or_number e.stream_epoch cursor.epoch;
  available_msc = e.available_msc;
}

-- `for envelope in envelopes: …`, from the cursor that the batch was read at
unfoldable pub push :
    StreamDispatcher → String → StreamHead → List (ℕ × AnalysisEnvelope) → StreamDispatcher
push d pid cursor [] = d
push d pid cursor ((_, e) ∷ es) =
    push (fan_out (record d { cursor = Dict.put d.cursor pid (moved cursor e) }) pid e) pid
      (moved cursor e) es

-- One round of the `while` loop of `_advance`, and whether another follows: it ends when it reads
-- nothing, or less than a batch. A stream without a cursor raises `KeyError`, which ends it.
unfoldable pub round : StreamDispatcher → Db → String → Option StreamHead → StreamDispatcher × Bool
round d db pid none = (d, false)
round d db pid (some cursor) =
    let envelopes = envelopes_by_seq db pid cursor.seq d.batch_size in
    let ended = length envelopes == 0 || ltb (length envelopes) d.batch_size in
    if d.stopped then (d, false) else (push d pid cursor envelopes, not ended)

unfoldable pub tail_loop : ℕ → StreamDispatcher → Db → String → StreamDispatcher
tail_loop zero d db pid = d
tail_loop (suc fuel) d db pid =
    let (d', more) = round d db pid (Dict.get d.cursor pid) in
    let rest = tail_loop fuel d' db pid in if more then rest else d'

-- `_advance`
unfoldable pub advance : ℕ → StreamDispatcher → Db → String → StreamDispatcher
advance fuel d db pid = if Dict.has d.subscriptions pid then tail_loop fuel d db pid else d
