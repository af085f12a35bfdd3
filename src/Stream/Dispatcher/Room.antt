-- ===== src/Stream/Dispatcher/Room.antt =====
-- One batch of stream_dispatcher.py, seen by each subscription alone.
use mathlib.Core.List.{append-nil, append_assoc}
use finiex_ragengine.Prelude.{
  ℕ, suc, ◌+◌, String, ◌≡◌, refl, ◌∙◌, sym, ap, Bool, true, false, ◌||◌, some, List, [], ◌∷◌, ◌++◌,
  map, arith, leb, ◌==◌, if◌then◌else◌, length, length-append, Bool-cases, Option-cases, inl, inr,
}
use text.Mathlib.TextPositions.{eq_refl}
use finiex_ragengine.Prelude.Dict
use finiex_ragengine.Prelude.Dict.{get-put, get-remove}
use finiex_ragengine.Outcome.{AnalysisEnvelope}
use finiex_ragengine.Stream.Types.{StreamHead}
use finiex_ragengine.Stream.Dispatcher.{
  StreamSubscription, StreamDispatcher, or_empty, live_of, store_live, is_full, hand_out, fan_out,
  push, moved,
}

-- Room for `n` more frames in a queue.
abbrev pub has_room : ℕ → ℕ → List AnalysisEnvelope → Bool
has_room maxsize n queue = n == 0 || maxsize == 0 || leb (length queue + n) maxsize

-- The independent description: whoever has room for all the frames has them all, in order, behind
-- what waited before; the others are gone.
unfoldable pub served :
    ℕ → List AnalysisEnvelope → List StreamSubscription → List StreamSubscription
served maxsize es [] = []
served maxsize es (s ∷ live) =
    let rest = served maxsize es live in
    if has_room maxsize (length es) s.queue then record s { queue = s.queue ++ es } ∷ rest else rest

pub served-nil : (maxsize : ℕ) (live : List StreamSubscription) → served maxsize [] live ≡ live
unfolding served
served-nil maxsize [] = refl
served-nil maxsize (s ∷ live) = rw (append-nil s.queue, served-nil maxsize live) refl

full_has_no_room :
    (maxsize n : ℕ) (queue : List AnalysisEnvelope)
    → is_full maxsize queue ≡ true
    → has_room maxsize (suc n) queue ≡ false
unfolding is_full
full_has_no_room maxsize n queue h = ground arith

room_for_one :
    (maxsize n : ℕ) (queue : List AnalysisEnvelope) (e : AnalysisEnvelope)
    → is_full maxsize queue ≡ false
    → has_room maxsize n (queue ++ e ∷ []) ≡ has_room maxsize (suc n) queue
unfolding is_full
room_for_one maxsize n queue e h = ground (arith, length-append queue (e ∷ []))

-- Handing out one frame and then the others is handing them all out.
pub served-hand_out :
    (maxsize : ℕ) (e : AnalysisEnvelope) (es : List AnalysisEnvelope)
    (live : List StreamSubscription)
    → served maxsize es (hand_out maxsize e live).0 ≡ served maxsize (e ∷ es) live
unfolding served hand_out
served-hand_out maxsize e es [] = refl
served-hand_out maxsize e es (s ∷ live) = elim (Bool-cases (is_full maxsize s.queue)) [
  | inl h ↦
      rw (h, full_has_no_room maxsize (length es) s.queue h) (served-hand_out maxsize e es live)
  | inr h ↦
      rw
        (
          h,
          room_for_one maxsize (length es) s.queue e h,
          append_assoc s.queue (e ∷ []) es,
          served-hand_out maxsize e es live,
        )
        refl
]

-- What two batches leave is what they leave as one.
pub served-append :
    (maxsize : ℕ) (xs ys : List AnalysisEnvelope) (live : List StreamSubscription)
    → served maxsize ys (served maxsize xs live) ≡ served maxsize (xs ++ ys) live
served-append maxsize [] ys live = ap (served maxsize ys) (served-nil maxsize live)
served-append maxsize (x ∷ xs) ys live =
    ap (served maxsize ys) (sym (served-hand_out maxsize x xs live))
    ∙ served-append maxsize xs ys (hand_out maxsize x live).0
    ∙ served-hand_out maxsize x (xs ++ ys) live

get-store_live :
    (table : Dict.Dict (List StreamSubscription)) (pid : String) (live : List StreamSubscription)
    → or_empty (Dict.get (store_live table pid live) pid) ≡ live
unfolding store_live
get-store_live table pid [] = rw (get-remove table pid pid, eq_refl pid) refl
get-store_live table pid (s ∷ live) = rw (get-put table pid pid (s ∷ live), eq_refl pid) refl

live_of-fan_out :
    (d : StreamDispatcher) (pid : String) (e : AnalysisEnvelope)
    → live_of (fan_out d pid e) pid ≡ (hand_out d.queue_size e (live_of d pid)).0
unfolding live_of fan_out hand_out
live_of-fan_out d pid e = elim (Option-cases (Dict.get d.subscriptions pid)) [
  | inl h ↦ rw (h, h) refl
  | inr h ↦ rw (h.1) (get-store_live d.subscriptions pid (hand_out d.queue_size e h.0).0)
]

fan_out_rest :
    (d : StreamDispatcher) (pid : String) (e : AnalysisEnvelope)
    → let d' = fan_out d pid e in
      (d'.cursor ≡ d.cursor)
      × (d'.queue_size ≡ d.queue_size)
      × (d'.batch_size ≡ d.batch_size)
      × (d'.stopped ≡ d.stopped)
unfolding fan_out
fan_out_rest d pid e = elim (Option-cases (Dict.get d.subscriptions pid)) [
  | inl h ↦ rw h (refl, refl, refl, refl)
  | inr h ↦ rw (h.1) (refl, refl, refl, refl)
]

abbrev pub at_cursor : StreamDispatcher → String → StreamHead → StreamDispatcher
at_cursor d pid cursor = record d { cursor = Dict.put d.cursor pid cursor }

live_of-at_cursor :
    (d : StreamDispatcher) (pid : String) (cursor : StreamHead)
    → live_of (at_cursor d pid cursor) pid ≡ live_of d pid
unfolding live_of
live_of-at_cursor d pid cursor = refl

-- A batch leaves its subscribers as `served` says, and the settings as they were.
pub push-served :
    (d : StreamDispatcher) (pid : String) (cursor : StreamHead) (es : List (ℕ × AnalysisEnvelope))
    → let d' = push d pid cursor es in
      (live_of d' pid ≡ served d.queue_size (map (λ x. x.1) es) (live_of d pid))
      × (d'.queue_size ≡ d.queue_size)
      × (d'.batch_size ≡ d.batch_size)
      × (d'.stopped ≡ d.stopped)
unfolding push served live_of
push-served d pid cursor [] = (sym (served-nil d.queue_size (live_of d pid)), refl, refl, refl)
push-served d pid cursor ((n, e) ∷ es) =
    let d' = fan_out (at_cursor d pid (moved cursor e)) pid e in
    let rest = fan_out_rest (at_cursor d pid (moved cursor e)) pid e in
    let later =
      push-served (fan_out (at_cursor d pid (moved cursor e)) pid e) pid (moved cursor e) es in
    (
      later.0
          ∙ rw
              (
                rest.1,
                live_of-fan_out (at_cursor d pid (moved cursor e)) pid e,
                live_of-at_cursor d pid (moved cursor e),
              )
              (served-hand_out d.queue_size e (map (λ x. x.1) es) (live_of d pid)),
      later.1 ∙ rest.1,
      later.2 ∙ rest.2,
      later.3 ∙ rest.3,
    )

-- The cursor at the end of a batch.
unfoldable pub end_of : StreamHead → List (ℕ × AnalysisEnvelope) → StreamHead
end_of cursor [] = cursor
end_of cursor (x ∷ es) = end_of (moved cursor x.1) es

pub push-cursor :
    (d : StreamDispatcher) (pid : String) (cursor : StreamHead) (es : List (ℕ × AnalysisEnvelope))
    → Dict.get d.cursor pid ≡ some cursor
    → Dict.get (push d pid cursor es).cursor pid ≡ some (end_of cursor es)
unfolding push end_of
push-cursor d pid cursor [] h = h
push-cursor d pid cursor ((n, e) ∷ es) h =
    push-cursor (fan_out (at_cursor d pid (moved cursor e)) pid e) pid (moved cursor e) es (
      rw
        (
          (fan_out_rest (at_cursor d pid (moved cursor e)) pid e).0,
          get-put d.cursor pid pid (moved cursor e),
          eq_refl pid,
        )
        refl)
