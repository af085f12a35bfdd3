-- ===== src/Breaking/Tracker/Agreement.antt =====
-- What the tracker of breaking_episode.py shows as running, and what its rule holds open.
use finiex_ragengine.Prelude.{
  ℕ, String, ◌≡◌, refl, true, false, ◌&&◌, Option, none, some, List, [], ◌∷◌, arith, eq_iff,
  if◌then◌else◌, str_eq, is_some, ◌⊎◌, sym, ◌∙◌,
}
use mathlib.Core.Path.{subst}
use finiex_ragengine.Prelude.Int.{ℤ}
use finiex_ragengine.Prelude.Dict
use finiex_ragengine.Prelude.Dict.{get-put, get-remove}
use finiex_ragengine.Outcome.{SentimentResult, AnalysisEnvelope, EpisodeUpsert}
use finiex_ragengine.Breaking.EpisodeRule.{
  BreakingPassDecision, OpenState, new_rule, key_for, is_open,
}
use finiex_ragengine.Breaking.EpisodeRule.Keys.{Pass, observe_pass, key_step, observe-key_step}
use finiex_ragengine.Breaking.EpisodeRule.Hold.{Agrees, observe-Agrees}
use finiex_ragengine.Breaking.Tracker.{
  BreakingEpisodeTracker, OpenEpisode, start_pass, PassState, record_edge, stamp_identity,
  observe_result, observe_rows, observe_envelope, seed, replay, mark_from, new_tracker, touch,
  opened_episode, reaction_times, running_start, write_row, stamped_id, mark_bounded,
}

-- For every key: an `OpenEpisode` is kept exactly while the rule has it open, and so is an id.
abbrev pub InStep : BreakingEpisodeTracker → Type 0
InStep t =
    (k : String)
    → (Dict.has t.open_map k ≡ is_open t.grouping.rule k)
      × (Dict.has t.ids k ≡ is_open t.grouping.rule k)

has-touch :
    (d : Dict.Dict OpenEpisode) (key j : String) (ts : ℕ) (o : Option OpenEpisode)
    → Dict.get d key ≡ o
    → Dict.has (touch d key ts o) j ≡ Dict.has d j
has-touch d key j ts none e = refl
has-touch d key j ts (some a) e =
    ground (arith, get-put d key j (record a { last_seen = ts }), eq_iff key j)

module _ (ts : ℕ) (result : SentimentResult) (key : String) (d : BreakingPassDecision)
    (times : Option ℤ × Option ℤ) (s : PassState) where
  abbrev pub edge : PassState
  edge = record_edge ts result key d times s

  pub edge_rest : (edge.tracker.ids ≡ s.tracker.ids) × (edge.tracker.grouping ≡ s.tracker.grouping)
  unfolding record_edge
  edge_rest = ground arith

  has-edge :
      (j : String)
      → Dict.has edge.tracker.open_map j
        ≡ (if d.opened && str_eq key j then true else Dict.has s.tracker.open_map j)
  unfolding record_edge
  has-edge j = ground (
    arith,
    eq_iff key j,
    has-touch s.tracker.open_map key j ts (Dict.get s.tracker.open_map key) refl,
    get-put s.tracker.open_map key j (record {
      episode = opened_episode result times;
      started = ts;
      last_seen = ts;
      started_bounded = false;
    }),
  )

write_keeps : (row : EpisodeUpsert) (p : PassState) → (write_row row p).tracker ≡ p.tracker
unfolding write_row
write_keeps row p = ground arith

module _ (utc_stamp : ℕ → String) (envelope : AnalysisEnvelope) (result : SentimentResult)
    (key : String) (d : BreakingPassDecision) (times : Option ℤ × Option ℤ) (s : PassState)
    (j : String) where
  abbrev stamped : Option ℕ → PassState
  stamped start = (stamp_identity utc_stamp envelope result key d times start s).0

  stamped-none :
      (Dict.has (stamped none).tracker.open_map j
        ≡ (if str_eq key j then false else Dict.has s.tracker.open_map j))
      × (Dict.has (stamped none).tracker.ids j
          ≡ (if str_eq key j then false else Dict.has s.tracker.ids j))
      × ((stamped none).tracker.grouping ≡ s.tracker.grouping)
  unfolding stamp_identity
  stamped-none = (
    ground (arith, eq_iff key j, get-remove s.tracker.open_map key j),
    ground (arith, eq_iff key j, get-remove s.tracker.ids key j),
    refl,
  )

  stamped-some :
      (start : ℕ)
      → (Dict.has (stamped (some start)).tracker.open_map j ≡ Dict.has s.tracker.open_map j)
        × (Dict.has (stamped (some start)).tracker.ids j
            ≡ (if d.opened && str_eq key j then true else Dict.has s.tracker.ids j))
        × ((stamped (some start)).tracker.grouping ≡ s.tracker.grouping)
  unfolding stamp_identity
  stamped-some start = rw write_keeps (
    refl,
    ground (
      arith,
      eq_iff key j,
      get-put s.tracker.ids key j
          (stamped_id utc_stamp envelope.pipeline_id result key d.opened start s.tracker.ids),
    ),
    refl,
  )

-- The row's own key after the loop body, by what the rule did about it.
fold-InStep :
    (utc_stamp : ℕ → String) (envelope : AnalysisEnvelope) (result : SentimentResult) (key : String)
    (times : Option ℤ × Option ℤ) (s : PassState) (p : Pass) (before after : Option OpenState)
    (d : BreakingPassDecision) (j : String)
    → Agrees p after d
    → (is_some before ≡ false → d.in_episode ≡ true → d.opened ≡ true)
    → Dict.has s.tracker.open_map key ≡ is_some before
    → Dict.has s.tracker.ids key ≡ is_some before
    → let s' =
        (stamp_identity utc_stamp envelope result key d times
          (running_start d)
          (record_edge envelope.timestamp result key d times s)).0 in
      (Dict.has s'.tracker.open_map j
        ≡ (if str_eq key j then is_some after else Dict.has s.tracker.open_map j))
      × (Dict.has s'.tracker.ids j
          ≡ (if str_eq key j then is_some after else Dict.has s.tracker.ids j))
      × (s'.tracker.grouping ≡ s.tracker.grouping)
fold-InStep utc_stamp envelope result key times s p before none d j a b o i =
    let e : running_start d ≡ none = ground arith in
    let s' = record_edge envelope.timestamp result key d times s in
    rw e (
      ground (
        arith,
        stamped-none utc_stamp envelope result key d times s' j,
        edge_rest envelope.timestamp result key d times s,
        has-edge envelope.timestamp result key d times s j,
        eq_iff key j,
      ))
fold-InStep utc_stamp envelope result key times s p before (some x) d j a b o i =
    let e : running_start d ≡ some x.started_at = ground arith in
    let s' = record_edge envelope.timestamp result key d times s in
    let known : (d.opened ≡ true) ⊎ (is_some before ≡ true) = ground arith in
    rw e (
      ground (
        arith,
        stamped-some utc_stamp envelope result key d times s' j x.started_at,
        edge_rest envelope.timestamp result key d times s,
        has-edge envelope.timestamp result key d times s j,
        eq_iff key j,
      ))

-- A key with no episode gets one only by an opening.
pub opening_needed :
    (exit gap : ℕ) (p : Pass) (o : Option OpenState)
    → is_some o ≡ false
    → (key_step exit gap p o).1.in_episode ≡ true
    → (key_step exit gap p o).1.opened ≡ true
opening_needed exit gap p none h i = ground arith
opening_needed exit gap p (some o) h i = cc

observe_result-InStep :
    (utc_stamp : ℕ → String) (envelope : AnalysisEnvelope) (result : SentimentResult)
    (s : PassState)
    → InStep s.tracker
    → InStep (observe_result utc_stamp envelope result s).0.tracker
unfolding observe_result is_open
observe_result-InStep utc_stamp envelope result s h j =
    let g = s.tracker.grouping in
    let key = key_for g result.symbol result.base_currency in
    let p : Pass = record {
      key = key;
      ts = envelope.timestamp;
      is_breaking = result.is_breaking;
      urgency = result.urgency;
    } in
    let r' = (observe_pass g.rule p).0 in
    let d = (observe_pass g.rule p).1 in
    let s' : PassState = record s {
      tracker = record s.tracker { grouping = record g { rule = r' } };
    } in
    let times = if d.opened then reaction_times result envelope.timestamp else (none, none) in
    let before = Dict.get g.rule.open_episodes key in
    let step = observe-key_step g.rule p j in
    let folded =
      fold-InStep utc_stamp envelope result key times s' p before (Dict.get r'.open_episodes key) d
        j (observe-Agrees g.rule p)
        (λ a.
          subst (λ x. x.in_episode ≡ true → x.opened ≡ true) (sym step.1)
            (opening_needed g.rule.exit_threshold g.rule.gap p before a))
        (h key).0 (h key).1 in
    let kept : (if str_eq key j
          then is_some (Dict.get r'.open_episodes key)
          else Dict.has g.rule.open_episodes j)
        ≡ is_some (Dict.get r'.open_episodes j) =
      ground (arith, step.0, eq_iff key j) in
    rw folded.2 (rw ((h j).0) at folded.0 ∙ kept, rw ((h j).1) at folded.1 ∙ kept)

observe_rows-InStep :
    (utc_stamp : ℕ → String) (envelope : AnalysisEnvelope) (rows : List SentimentResult)
    (s : PassState)
    → InStep s.tracker
    → InStep (observe_rows utc_stamp envelope rows s).0.tracker
unfolding observe_rows
observe_rows-InStep utc_stamp envelope [] s h = h
observe_rows-InStep utc_stamp envelope (r ∷ rs) s h =
    observe_rows-InStep utc_stamp envelope rs (observe_result utc_stamp envelope r s).0
      (observe_result-InStep utc_stamp envelope r s h)

-- Observing an envelope, whatever its rows, keeps the tracker in step with its rule: for every key
-- an episode is shown as running, and an id is kept, exactly while the rule has the key open.
pub observe_envelope-InStep :
    (utc_stamp : ℕ → String) (t : BreakingEpisodeTracker) (envelope : AnalysisEnvelope)
    → InStep t
    → InStep (observe_envelope utc_stamp t envelope).0
unfolding observe_envelope
observe_envelope-InStep utc_stamp t envelope h =
    observe_rows-InStep utc_stamp envelope envelope.result (start_pass t) h

replay-InStep :
    (utc_stamp : ℕ → String) (t : BreakingEpisodeTracker) (es : List AnalysisEnvelope)
    → InStep t
    → InStep (replay utc_stamp t es)
unfolding replay
replay-InStep utc_stamp t [] h = h
replay-InStep utc_stamp t (e ∷ es) h =
    replay-InStep utc_stamp (observe_envelope utc_stamp t e).0 es
      (observe_envelope-InStep utc_stamp t e h)

has-mark_bounded :
    (ts : ℕ) (d : Dict.Dict OpenEpisode) (k : String)
    → Dict.has (mark_bounded ts d) k ≡ Dict.has d k
unfolding mark_bounded Dict.get
has-mark_bounded ts [] k = refl
has-mark_bounded ts ((j, o) ∷ d) k = ground (arith, has-mark_bounded ts d k)

mark_from-InStep :
    (es : List AnalysisEnvelope) (t : BreakingEpisodeTracker) → InStep t → InStep (mark_from es t)
mark_from-InStep [] t h k = h k
mark_from-InStep (e ∷ es) t h k = (has-mark_bounded e.timestamp t.open_map k ∙ (h k).0, (h k).1)

-- A restart: a tracker over a fresh rule that is seeded with any stored envelopes is in step with
-- its rule, so what it resumes displaying is what the rule holds open.
pub seed-InStep :
    (utc_stamp : ℕ → String) (exit_threshold gap : ℕ) (query_map : Dict.Dict String)
    (es : List AnalysisEnvelope)
    → InStep
        (seed utc_stamp
          (new_tracker (record { rule = new_rule exit_threshold gap; query_map = query_map }))
          es).0
unfolding seed new_tracker new_rule is_open Dict.get
seed-InStep utc_stamp exit_threshold gap query_map es =
    mark_from-InStep es _ (replay-InStep utc_stamp _ es (λ k. (refl, refl)))
