-- ===== src/Breaking/EpisodeRule/Keys.antt =====
-- The rule of breaking_episode_rule.py seen one key at a time.
use finiex_ragengine.Prelude.{
  ℕ, String, ◌≡◌, refl, Bool, true, false, Option, none, some, List, [], ◌∷◌, arith, eq_iff,
  if◌then◌else◌, str_eq,
}
use finiex_ragengine.Prelude.Dict
use finiex_ragengine.Prelude.Dict.{get-put, get-remove}
use finiex_ragengine.Breaking.EpisodeRule.{
  OpenState, BreakingEpisodeRule, BreakingPassDecision, not_in_episode, is_expired, close_expired,
  holds, decide, observe,
}

-- One pass over one symbol, as the drivers of the rule feed it.
pub record Pass : Type 0 where
  pub key : String
  pub ts : ℕ
  pub is_breaking : Bool
  pub urgency : ℕ

-- The independent description: what one key's episode does, with no dictionary in sight.
abbrev pub still_open : ℕ → ℕ → Option OpenState → Option OpenState
still_open gap ts none = none
still_open gap ts (some o) = if is_expired gap ts o then none else some o

abbrev pub advance : ℕ → Pass → Option OpenState → Option OpenState × BreakingPassDecision
advance exit p none =
    if p.is_breaking
    then (
      some (record { started_at = p.ts; last_qualifying = p.ts }),
      record { opened = true; held = false; in_episode = true; started_at = some p.ts },
    )
    else (none, not_in_episode)
advance exit p (some o) =
    let h = holds exit p.is_breaking p.urgency in
    (
      some (if h then record o { last_qualifying = p.ts } else o),
      record { opened = false; held = h; in_episode = true; started_at = some o.started_at },
    )

abbrev pub key_step : ℕ → ℕ → Pass → Option OpenState → Option OpenState × BreakingPassDecision
key_step exit gap p o = advance exit p (still_open gap p.ts o)

abbrev pub observe_pass : BreakingEpisodeRule → Pass → BreakingEpisodeRule × BreakingPassDecision
observe_pass r p = observe r p.key p.ts p.is_breaking p.urgency

close-lookup :
    (r : BreakingEpisodeRule) (k j : String) (ts : ℕ) (o : Option OpenState)
    → Dict.get r.open_episodes k ≡ o
    → Dict.get (close_expired r k ts o).open_episodes j
      ≡ (if str_eq k j then still_open r.gap ts o else Dict.get r.open_episodes j)
unfolding close_expired
close-lookup r k j ts none e = ground (arith, eq_iff k j)
close-lookup r k j ts (some o) e = ground (arith, eq_iff k j, get-remove r.open_episodes k j)

close-settings :
    (r : BreakingEpisodeRule) (k : String) (ts : ℕ) (o : Option OpenState)
    → ((close_expired r k ts o).gap ≡ r.gap)
      × ((close_expired r k ts o).exit_threshold ≡ r.exit_threshold)
unfolding close_expired
close-settings r k ts none = (refl, refl)
close-settings r k ts (some o) = ground arith

decide-lookup :
    (r : BreakingEpisodeRule) (p : Pass) (j : String) (o : Option OpenState)
    → Dict.get r.open_episodes p.key ≡ o
    → (Dict.get (decide r p.key p.ts p.is_breaking p.urgency o).0.open_episodes j
        ≡ (if str_eq p.key j then (advance r.exit_threshold p o).0 else Dict.get r.open_episodes j))
      × ((decide r p.key p.ts p.is_breaking p.urgency o).1 ≡ (advance r.exit_threshold p o).1)
unfolding decide
decide-lookup r p j none e = ground (
  arith,
  eq_iff p.key j,
  get-put r.open_episodes p.key j (record { started_at = p.ts; last_qualifying = p.ts }),
)
decide-lookup r p j (some o) e =
    ground
      (arith, eq_iff p.key j, get-put r.open_episodes p.key j (record o { last_qualifying = p.ts }))

pub observe-settings :
    (r : BreakingEpisodeRule) (p : Pass)
    → ((observe_pass r p).0.gap ≡ r.gap) × ((observe_pass r p).0.exit_threshold ≡ r.exit_threshold)
unfolding observe
observe-settings r p = ground arith

-- After one pass, its own key's episode is the one that `key_step` describes and every other key's
-- is unchanged; and the decision is that of `key_step`, whatever else is open.
pub observe-key_step :
    (r : BreakingEpisodeRule) (p : Pass) (j : String)
    → let next = key_step r.exit_threshold r.gap p (Dict.get r.open_episodes p.key) in
      (Dict.get (observe_pass r p).0.open_episodes j
        ≡ (if str_eq p.key j then next.0 else Dict.get r.open_episodes j))
      × ((observe_pass r p).1 ≡ next.1)
unfolding observe
observe-key_step r p j =
    let o = Dict.get r.open_episodes p.key in
    let r' = close_expired r p.key p.ts o in
    let o' = Dict.get r'.open_episodes p.key in
    ground (
      arith,
      close-lookup r p.key j p.ts o refl,
      close-lookup r p.key p.key p.ts o refl,
      close-settings r p.key p.ts o,
      decide-lookup r' p j o' refl,
      eq_iff p.key j,
      eq_iff p.key p.key,
    )

-- The decisions that a run over many keys' passes takes about one of them, in order.
abbrev pub cons_if {ℓ} : {A : Type ℓ} → Bool → A → List A → List A
cons_if true a l = a ∷ l
cons_if false a l = l

pub decisions_of : String → BreakingEpisodeRule → List Pass → List BreakingPassDecision
decisions_of k r [] = []
decisions_of k r (p ∷ ps) =
    let rest = decisions_of k (observe_pass r p).0 ps in
    cons_if (str_eq p.key k) (observe_pass r p).1 rest

-- The same key's decisions with every other key left out of the run.
unfoldable pub alone : ℕ → ℕ → String → Option OpenState → List Pass → List BreakingPassDecision
alone exit gap k o [] = []
alone exit gap k o (p ∷ ps) =
    if str_eq p.key k
    then (key_step exit gap p o).1 ∷ alone exit gap k (key_step exit gap p o).0 ps
    else alone exit gap k o ps

-- However the passes of several keys interleave, what the rule decides about one key is what it
-- would decide from that key's episode and that key's passes alone.
pub decisions_of-alone :
    (k : String) (r : BreakingEpisodeRule) (ps : List Pass)
    → decisions_of k r ps ≡ alone r.exit_threshold r.gap k (Dict.get r.open_episodes k) ps
unfolding decisions_of alone
decisions_of-alone k r [] = refl
decisions_of-alone k r (p ∷ ps) = ground (
  arith,
  observe-key_step r p k,
  observe-settings r p,
  eq_iff p.key k,
  decisions_of-alone k (observe_pass r p).0 ps,
)
