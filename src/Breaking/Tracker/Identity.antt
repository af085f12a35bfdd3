-- ===== src/Breaking/Tracker/Identity.antt =====
-- The id that a row carries, in breaking_episode.py.
use Prim.Native.String.append
use Prim.Native.Char.{Char}
use Prim.Native.String
use text.Mathlib.TextPositions.{eq_refl}
use finiex_ragengine.Prelude.{
  ℕ, String, ◌≡◌, refl, sym, ◌∙◌, Bool, true, false, Option, none, some, List, [], ◌∷◌, arith,
  eq_iff, if◌then◌else◌, str_eq, Bool-cases, Option-cases, inl, inr, ◌⊎◌,
}
use finiex_ragengine.Prelude.Int.{ℤ}
use finiex_ragengine.Prelude.Dict
use finiex_ragengine.Prelude.Dict.{get-put, get-remove}
use finiex_ragengine.Outcome.{SentimentResult, AnalysisEnvelope, EpisodeUpsert}
use finiex_ragengine.Breaking.EpisodeId.{episode_id}
use finiex_ragengine.Breaking.EpisodeRule.{BreakingPassDecision, key_for, or_else}
use finiex_ragengine.Breaking.EpisodeRule.{OpenState, is_open}
use finiex_ragengine.Breaking.EpisodeRule.Keys.{Pass, observe_pass, observe-key_step}
use finiex_ragengine.Breaking.EpisodeRule.Hold.{Agrees, observe-Agrees}
use finiex_ragengine.Breaking.Tracker.Agreement.{InStep, opening_needed, edge_rest}
use finiex_ragengine.Breaking.Tracker.{
  reaction_times, BreakingEpisodeTracker, PassState, record_edge, stamp_identity, observe_result,
  observe_rows, observe_envelope, start_pass, running_start, write_row, stamped_id,
}

-- A text with a character in it is not the empty one.
cons-ne-empty : (c : Char) (s : String) → str_eq (String.◌∷◌ c s) "" ≡ false
cons-ne-empty c s = elim (Bool-cases (str_eq (String.◌∷◌ c s) "")) [
  | inr e ↦ e
  | inl e ↦ (let q = (eq_iff (String.◌∷◌ c s) "").0 e in cc)
]

append-ne-empty : (s t : String) → str_eq t "" ≡ false → str_eq (String.◌++◌ s t) "" ≡ false
append-ne-empty String.[] t h = rw append.nil h
append-ne-empty (String.◌∷◌ c s) t h = rw append.cons (cons-ne-empty c (String.◌++◌ s t))

append-ne-empty_left : (s t : String) → str_eq s "" ≡ false → str_eq (String.◌++◌ s t) "" ≡ false
append-ne-empty_left String.[] t h = cc
append-ne-empty_left (String.◌∷◌ c s) t h = rw append.cons (cons-ne-empty c (String.◌++◌ s t))

-- An id is never the empty text, which Python would take for no id.
episode_id-ne-empty :
    (utc_stamp : ℕ → String) (pid key : String) (t : ℕ)
    → str_eq (episode_id utc_stamp pid key t) "" ≡ false
unfolding episode_id
episode_id-ne-empty utc_stamp pid key t = append-ne-empty pid _ (append-ne-empty_left ":" _ refl)

-- Every id that is kept is a text with something in it.
abbrev pub Named : BreakingEpisodeTracker → Type 0
Named t = (k id : String) → Dict.get t.ids k ≡ some id → str_eq id "" ≡ false

or_else-ne-empty :
    (o : Option String) (b : String) → str_eq b "" ≡ false → str_eq (or_else o b) "" ≡ false
unfolding or_else
or_else-ne-empty none b h = h
or_else-ne-empty (some a) b h = ground arith

kept_or_else :
    (o : Option String) (b id : String) → o ≡ some id → str_eq id "" ≡ false → or_else o b ≡ id
unfolding or_else
kept_or_else none b id e h = cc
kept_or_else (some a) b id e h = ground arith

write_row_ids : (row : EpisodeUpsert) (p : PassState) → (write_row row p).tracker ≡ p.tracker
unfolding write_row
write_row_ids row p = ground arith

module _ (utc_stamp : ℕ → String) (envelope : AnalysisEnvelope) (result : SentimentResult)
    (key : String) (d : BreakingPassDecision) (times : Option ℤ × Option ℤ) (s : PassState) where
  -- The id that a row of an episode is to carry: the opener's own or a fresh one, or the kept one.
  abbrev pub due_id : Bool → ℕ → Option String
  due_id opened start =
      if opened
      then some
          (or_else result.breaking_episode_id (episode_id utc_stamp envelope.pipeline_id key start))
      else Dict.get s.tracker.ids key

  due : ℕ → String
  due start =
      or_else result.breaking_episode_id (episode_id utc_stamp envelope.pipeline_id key start)

  stamp_due :
      (start : ℕ)
      → Named s.tracker
      → (d.opened ≡ true) ⊎ (Dict.has s.tracker.ids key ≡ true)
      → let out = stamp_identity utc_stamp envelope result key d times (some start) s in
        (out.1.breaking_episode_id ≡ due_id d.opened start)
        × (out.1.breaking_episode_start ≡ d.opened)
        × (Dict.get out.0.tracker.ids key ≡ due_id d.opened start)
  unfolding stamp_identity stamped_id due
  stamp_due start n k = rw write_row_ids (elim (Bool-cases d.opened) [
    | inl e ↦ rw e (refl, refl, get-put s.tracker.ids key key (due start) ∙ rw (eq_refl key))
    | inr e ↦ elim (Option-cases (Dict.get s.tracker.ids key)) [
      | inl w ↦ absurd (ground (arith))
      | inr w ↦
          rw
            (
              e,
              kept_or_else _ (episode_id utc_stamp envelope.pipeline_id key start) w.0 w.1
                  (n key w.0 w.1),
            )
            (sym w.1, refl, refl)
    ]
  ])

  -- The other keys' ids stay, and every id stays a text with something in it.
  stamp_others :
      (start : Option ℕ) (j : String)
      → str_eq key j ≡ false
      → Dict.get (stamp_identity utc_stamp envelope result key d times start s).0.tracker.ids j
        ≡ Dict.get s.tracker.ids j
  unfolding stamp_identity
  stamp_others none j h = get-remove s.tracker.ids key j ∙ rw h
  stamp_others (some start) j h = rw write_row_ids (elim (Bool-cases d.opened) [
    | inl e ↦ rw e (get-put s.tracker.ids key j _ ∙ rw h)
    | inr e ↦ rw e refl
  ])

abbrev pub pass_of : BreakingEpisodeTracker → AnalysisEnvelope → SentimentResult → Pass
pass_of t envelope result = record {
  key = key_for t.grouping result.symbol result.base_currency;
  ts = envelope.timestamp;
  is_breaking = result.is_breaking;
  urgency = result.urgency;
}

-- What opens a row's episode, or finds it with an id already kept.
opened_or_kept :
    (t : BreakingEpisodeTracker) (p : Pass) (x : OpenState)
    → InStep t
    → Dict.get (observe_pass t.grouping.rule p).0.open_episodes p.key ≡ some x
    → ((observe_pass t.grouping.rule p).1.opened ≡ true) ⊎ (Dict.has t.ids p.key ≡ true)
opened_or_kept t p x h e =
    let r = t.grouping.rule in
    let d = (observe_pass r p).1 in
    let a : Agrees p (some x) d = rw e at (observe-Agrees r p) in
    elim (Bool-cases (Dict.has t.ids p.key)) [
      | inl k ↦ inr k
      | inr k ↦
          let step = observe-key_step r p p.key in
          inl (
            rw step.1 (
              opening_needed r.exit_threshold r.gap p (Dict.get r.open_episodes p.key)
                (unfold is_open in (sym (h p.key).1 ∙ k)) (rw step.1 at a.0)))
    ]

-- In a tracker that is in step with its rule and keeps no empty id, a row that is inside an
-- episode after its pass carries the id that is kept for its key. Where the row opened the
-- episode, that is the id it came with, or else a fresh one of the episode's start; where it did
-- not, the id that was kept before, so every row of an episode carries its opener's id.
pub observe_result-identity :
    (utc_stamp : ℕ → String) (envelope : AnalysisEnvelope) (result : SentimentResult)
    (s : PassState) (x : OpenState)
    → InStep s.tracker
    → Named s.tracker
    → Dict.get
        (observe_pass s.tracker.grouping.rule (pass_of s.tracker envelope result)).0.open_episodes
        (pass_of s.tracker envelope result).key
      ≡ some x
    → let (s', row) = observe_result utc_stamp envelope result s in
      let key = (pass_of s.tracker envelope result).key in
      (row.breaking_episode_id ≡ Dict.get s'.tracker.ids key)
      × (Dict.get s'.tracker.ids key ≡ (
          if row.breaking_episode_start
          then some (
              or_else result.breaking_episode_id
                (episode_id utc_stamp envelope.pipeline_id key x.started_at))
          else Dict.get s.tracker.ids key))
unfolding observe_result record_edge
observe_result-identity utc_stamp envelope result s x h n e =
    let p = pass_of s.tracker envelope result in
    let g = s.tracker.grouping in
    let r' = (observe_pass g.rule p).0 in
    let d = (observe_pass g.rule p).1 in
    let a : Agrees p (some x) d = rw e at (observe-Agrees g.rule p) in
    let times = if d.opened then reaction_times result envelope.timestamp else (none, none) in
    let s' : PassState = record s {
      tracker = record s.tracker { grouping = record g { rule = r' } };
    } in
    let same = (edge_rest envelope.timestamp result p.key d times s').0 in
    let s'' = record_edge envelope.timestamp result p.key d times s' in
    let start : running_start d ≡ some x.started_at = ground arith in
    let due =
      stamp_due utc_stamp envelope result p.key d times s'' x.started_at
        (λ k id q. n k id (rw same at q)) (rw same (opened_or_kept s.tracker p x h e)) in
    rw start (due.0 ∙ sym due.2, rw due.1 ((rw same at due.2)))

Named-put :
    (ids : Dict.Dict String) (key v : String)
    → ((k id : String) → Dict.get ids k ≡ some id → str_eq id "" ≡ false)
    → str_eq v "" ≡ false
    → (k id : String) → Dict.get (Dict.put ids key v) k ≡ some id
    → str_eq id "" ≡ false
Named-put ids key v n h k id e = ground (arith, get-put ids key k v, n k id)

Named-remove :
    (ids : Dict.Dict String) (key : String)
    → ((k id : String) → Dict.get ids k ≡ some id → str_eq id "" ≡ false)
    → (k id : String) → Dict.get (Dict.remove ids key) k ≡ some id
    → str_eq id "" ≡ false
Named-remove ids key n k id e = ground (arith, get-remove ids key k, n k id)

stamp-Named :
    (utc_stamp : ℕ → String) (envelope : AnalysisEnvelope) (result : SentimentResult) (key : String)
    (d : BreakingPassDecision) (times : Option ℤ × Option ℤ) (start : Option ℕ) (s : PassState)
    → Named s.tracker
    → Named (stamp_identity utc_stamp envelope result key d times start s).0.tracker
unfolding stamp_identity stamped_id
stamp-Named utc_stamp envelope result key d times none s n = Named-remove s.tracker.ids key n
stamp-Named utc_stamp envelope result key d times (some start) s n =
    rw write_row_ids (elim (Bool-cases d.opened) [
      | inl e ↦ rw e (
          Named-put s.tracker.ids key _ n (
            or_else-ne-empty result.breaking_episode_id _
              (episode_id-ne-empty utc_stamp envelope.pipeline_id key start)))
      | inr e ↦ rw e n
    ])

observe_rows-Named :
    (utc_stamp : ℕ → String) (envelope : AnalysisEnvelope) (rows : List SentimentResult)
    (s : PassState)
    → Named s.tracker
    → Named (observe_rows utc_stamp envelope rows s).0.tracker
unfolding observe_rows observe_result
observe_rows-Named utc_stamp envelope [] s n = n
observe_rows-Named utc_stamp envelope (r ∷ rs) s n =
    observe_rows-Named utc_stamp envelope rs _
      (stamp-Named utc_stamp envelope r _ _ _ _ _ (rw (edge_rest envelope.timestamp r _ _ _ _).0 n))

-- Observing an envelope keeps every kept id a text with something in it, so that none is taken
-- for a missing one.
pub observe_envelope-Named :
    (utc_stamp : ℕ → String) (t : BreakingEpisodeTracker) (envelope : AnalysisEnvelope)
    → Named t
    → Named (observe_envelope utc_stamp t envelope).0
unfolding observe_envelope
observe_envelope-Named utc_stamp t envelope n =
    observe_rows-Named utc_stamp envelope envelope.result (start_pass t) n
