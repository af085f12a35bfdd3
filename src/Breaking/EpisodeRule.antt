-- ===== src/Breaking/EpisodeRule.antt =====
-- finiexragengine/core/pipeline/breaking_episode_rule.py: when a story starts, continues and ends.
-- An instant is the number of microseconds since the epoch. `(ts - last) > gap` is written
-- `last + gap < ts`, the same test for a gap that is not negative. Urgency and its threshold lie
-- in [0, 1] and are only compared, so each stands for its place in that order (a number).
pub mod Keys
pub mod Gap
pub mod Hold
use finiex_ragengine.Prelude.{
  ℕ, ◌+◌, ◌*◌, String, Bool, true, false, ◌||◌, Option, none, some, List, [], ◌∷◌, ltb, leb,
  if◌then◌else◌, str_eq,
}
use finiex_ragengine.Prelude.Dict
use finiex_ragengine.Prelude.Dict.{Dict}

-- `_OpenEpisode`
pub record OpenState : Type 0 where
  pub started_at : ℕ
  pub last_qualifying : ℕ

pub record BreakingEpisodeRule : Type 0 where
  pub exit_threshold : ℕ
  pub gap : ℕ
  pub open_episodes : Dict OpenState

pub record BreakingPassDecision : Type 0 where
  pub opened : Bool
  pub held : Bool
  pub in_episode : Bool
  pub started_at : Option ℕ

-- `__init__`
unfoldable pub new_rule : ℕ → ℕ → BreakingEpisodeRule
new_rule exit_threshold gap = record {
  exit_threshold = exit_threshold;
  gap = gap;
  open_episodes = [];
}

-- The first statement of `observe`: an episode whose gap ran out ended before this pass.
unfoldable pub is_expired : ℕ → ℕ → OpenState → Bool
is_expired gap ts o = ltb (o.last_qualifying + gap) ts

unfoldable pub close_expired :
    BreakingEpisodeRule → String → ℕ → Option OpenState → BreakingEpisodeRule
unfolding is_expired
close_expired r key ts none = r
close_expired r key ts (some o) =
    if is_expired r.gap ts o
    then record r { open_episodes = Dict.remove r.open_episodes key }
    else r

-- the two conditions of the Schmitt trigger
unfoldable pub holds : ℕ → Bool → ℕ → Bool
holds exit_threshold is_breaking urgency = is_breaking || leb exit_threshold urgency

abbrev pub not_in_episode : BreakingPassDecision
not_in_episode = record { opened = false; held = false; in_episode = false; started_at = none }

-- The rest of `observe`, on what is open after the close.
unfoldable pub decide :
    BreakingEpisodeRule
    → String
    → ℕ
    → Bool
    → ℕ
    → Option OpenState
    → BreakingEpisodeRule × BreakingPassDecision
unfolding holds
decide r key ts is_breaking urgency none =
    if is_breaking
    then (
      record r {
        open_episodes =
            Dict.put r.open_episodes key (record { started_at = ts; last_qualifying = ts });
      },
      record { opened = true; held = false; in_episode = true; started_at = some ts },
    )
    else (r, not_in_episode)
decide r key ts is_breaking urgency (some o) =
    let h = holds r.exit_threshold is_breaking urgency in
    (
      if h
          then record r {
            open_episodes = Dict.put r.open_episodes key (record o { last_qualifying = ts });
          }
          else r,
      record { opened = false; held = h; in_episode = true; started_at = some o.started_at },
    )

unfoldable pub observe :
    BreakingEpisodeRule → String → ℕ → Bool → ℕ → BreakingEpisodeRule × BreakingPassDecision
unfolding close_expired decide
observe r key ts is_breaking urgency =
    let r' = close_expired r key ts (Dict.get r.open_episodes key) in
    decide r' key ts is_breaking urgency (Dict.get r'.open_episodes key)

unfoldable pub is_open : BreakingEpisodeRule → String → Bool
is_open r key = Dict.has r.open_episodes key

-- `EpisodeGrouping`: the rule and the key that it groups by.
pub record EpisodeGrouping : Type 0 where
  pub rule : BreakingEpisodeRule
  pub query_map : Dict String

-- Python's `a or b` where `a` may be `None` or the empty string.
unfoldable pub or_else : Option String → String → String
or_else none b = b
or_else (some a) b = if str_eq a "" then b else a

unfoldable pub key_for : EpisodeGrouping → String → Option String → String
unfolding or_else
key_for g symbol base_currency =
    or_else (Dict.get g.query_map symbol) (or_else base_currency symbol)
