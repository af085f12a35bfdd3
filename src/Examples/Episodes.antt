-- ===== src/Examples/Episodes.antt =====
-- The episode rule and the tracker on passes of two stories.
use mathlib.Core.Option.{some-injective}
use finiex_ragengine.Breaking.Bus.{BreakingBus, publish, notify_all, notify}
use finiex_ragengine.Prelude.{
  Bool, sym, str_eq, ℕ, String, ◌≡◌, refl, true, false, none, some, List, [], ◌∷◌, arith, All,
  if◌then◌else◌,
}
use finiex_ragengine.Prelude.Dict
use finiex_ragengine.Outcome.{AnalysisEnvelope}
use finiex_ragengine.Examples.{row_for, envelope_at}
use finiex_ragengine.Breaking.EpisodeId.{episode_id}
use finiex_ragengine.Breaking.EpisodeRule.{
  BreakingEpisodeRule, is_open, new_rule, holds, observe, key_for, or_else,
}
use finiex_ragengine.Breaking.EpisodeRule.Keys.{
  Pass, observe_pass, decisions_of, alone, decisions_of-alone,
}
use finiex_ragengine.Breaking.EpisodeRule.Gap.{opens, Spaced, AnchoredBy, opens-Spaced}
use finiex_ragengine.Breaking.EpisodeRule.Hold.{WithinGap, Continues, episode-Continues}
use finiex_ragengine.Breaking.Tracker.{
  BreakingEpisodeTracker, OpenEpisode, start_pass, new_tracker, observe_result, observe_envelope,
  seed,
}
use finiex_ragengine.Breaking.Tracker.Agreement.{InStep, seed-InStep}
use finiex_ragengine.Breaking.Tracker.Rows.{Distinct, observe_envelope-Distinct}
use finiex_ragengine.Breaking.Tracker.Identity.{Named, pass_of, observe_result-identity}

abbrev rule : BreakingEpisodeRule
rule = record { exit_threshold = 50; gap = 30; open_episodes = [] }

abbrev pass_at : String → ℕ → Pass
pass_at key ts = record { key = key; ts = ts; is_breaking = true; urgency = 90 }

abbrev dip_at : String → ℕ → Pass
dip_at key ts = record { key = key; ts = ts; is_breaking = false; urgency = 10 }

abbrev two_stories : List Pass
two_stories = pass_at "USD" 100 ∷ pass_at "BTC" 110 ∷ pass_at "USD" 120 ∷ pass_at "USD" 200 ∷ []

-- The second story of USD starts once the gap has run out.
two_openings : opens "USD" rule two_stories ≡ 100 ∷ 200 ∷ []
unfolding opens observe Dict.get Dict.put Dict.remove
two_openings = refl

decisions_of-alone_example :
    decisions_of "USD" rule two_stories
    ≡ alone 50 30 "USD" (Dict.get rule.open_episodes "USD") two_stories
decisions_of-alone_example = decisions_of-alone "USD" rule two_stories

nothing_open : AnchoredBy rule "USD" 100
unfolding Dict.get
nothing_open o e = cc

opens-Spaced_example : Spaced 30 (opens "USD" rule two_stories)
opens-Spaced_example = opens-Spaced rule "USD" 100 two_stories (ground arith) nothing_open

abbrev running_rule : BreakingEpisodeRule
running_rule = record {
  exit_threshold = 50;
  gap = 30;
  open_episodes = ("USD", record { started_at = 100; last_qualifying = 100 }) ∷ [];
}

abbrev dips : List Pass
dips = dip_at "USD" 110 ∷ pass_at "BTC" 112 ∷ pass_at "USD" 120 ∷ dip_at "USD" 149 ∷ []

dips_within : WithinGap 50 30 "USD" 100 dips
unfolding holds
dips_within = ground arith

episode-Continues_example : All (Continues 100) (decisions_of "USD" running_rule dips)
episode-Continues_example =
    episode-Continues running_rule "USD" 100 100 dips (unfold Dict.get in refl) dips_within

-- Instants are rendered by a constant text in place of `strftime`.
abbrev utc : ℕ → String
utc t = "20260101T000000Z"

abbrev running_episode : OpenEpisode
running_episode = record {
  episode = record {
    symbol = "USD";
    signal = "bullish";
    urgency = 90;
    engine_s = none;
    end_to_end_s = none;
    n_sources = 1;
    reason = "rate cut";
    breaking_reason = "";
  };
  started = 100;
  last_seen = 100;
  started_bounded = false;
}

abbrev tracker : BreakingEpisodeTracker
tracker = record {
  grouping = record { rule = running_rule; query_map = ("EURUSD", "USD") ∷ [] };
  ids = ("USD", "fx:USD:1") ∷ [];
  open_map = ("USD", running_episode) ∷ [];
}

-- Two symbols of one fanned analysis, and a breaking row of another story.
abbrev fanned : AnalysisEnvelope
fanned =
    envelope_at "fx" 115
      (row_for "EURUSD" false 60 ∷ row_for "USD" false 60 ∷ row_for "BTC" true 90 ∷ [])

tracker-InStep : InStep tracker
unfolding is_open Dict.get
tracker-InStep k = ground arith

the_id : (b : Bool) (v id : String) → (if b then some v else none) ≡ some id → id ≡ v
the_id true v id e = sym (some-injective _ _ e)
the_id false v id e = cc

tracker-Named : Named tracker
unfolding Dict.get
tracker-Named k id e = rw (the_id (str_eq "USD" k) "fx:USD:1" id e) refl

observe_envelope-Distinct_example : Distinct (observe_envelope utc tracker fanned).1.episodes
observe_envelope-Distinct_example = observe_envelope-Distinct utc tracker fanned

seed-InStep_example :
    InStep
      (seed utc (new_tracker (record { rule = new_rule 50 30; query_map = [] })) (fanned ∷ [])).0
seed-InStep_example = seed-InStep utc 50 30 [] (fanned ∷ [])

-- A row of the running story carries the id that the story already has.
held_row :
    Dict.get
      (observe_pass running_rule
        (pass_of tracker fanned (row_for "EURUSD" false 60))).0.open_episodes
      "USD"
    ≡ some (record { started_at = 100; last_qualifying = 115 })
unfolding observe key_for Dict.get Dict.put
held_row = refl

observe_result-identity_example :
    let (s', row) = observe_result utc fanned (row_for "EURUSD" false 60) (start_pass tracker) in
    (row.breaking_episode_id ≡ Dict.get s'.tracker.ids "USD")
    × (Dict.get s'.tracker.ids "USD" ≡ (
        if row.breaking_episode_start
        then some (or_else none (episode_id utc "fx" "USD" 100))
        else Dict.get tracker.ids "USD"))
unfolding key_for Dict.get
observe_result-identity_example =
    observe_result-identity utc fanned (row_for "EURUSD" false 60) (start_pass tracker)
      (record { started_at = 100; last_qualifying = 115 }) tracker-InStep tracker-Named held_row

-- An eager pipeline, a conservative one, and one that is woken already.
abbrev bus : BreakingBus
bus =
    (
      "crypto_news",
      record { min_importance = 2; latched = false }
          ∷ record { min_importance = 3; latched = false }
          ∷ record { min_importance = 1; latched = true }
          ∷ [],
    )
    ∷ []

woken_once : (publish bus "crypto_news" 2).1 ≡ 1
unfolding publish notify_all notify Dict.get
woken_once = refl
