-- ===== src/Breaking/EpisodeRule/Hold.antt =====
-- The hysteresis of an open episode, in breaking_episode_rule.py.
use finiex_ragengine.Prelude.{
  ℕ, ◌+◌, ◌≤◌, String, ◌≡◌, refl, true, false, Option, none, some, List, [], ◌∷◌, arith,
  if◌then◌else◌, str_eq, Bool-cases, inl, inr, All, ◌⊎◌,
}
use text.Mathlib.TextPositions.{eq_refl as str_eq_refl}
use finiex_ragengine.Prelude.Dict
use finiex_ragengine.Breaking.EpisodeRule.{
  OpenState, BreakingEpisodeRule, BreakingPassDecision, is_expired, holds, not_in_episode,
}
use finiex_ragengine.Breaking.EpisodeRule.Keys.{
  Pass, still_open, advance, observe_pass, observe-key_step, decisions_of, decisions_of-alone,
  alone,
}

-- A decision that carries on the episode that began at `start`.
abbrev pub Continues : ℕ → BreakingPassDecision → Type 0
Continues start d = (d.opened ≡ false) × (d.in_episode ≡ true) × (d.started_at ≡ some start)

-- Each pass of `k` comes within `gap` of the anchor, and qualifies: the next anchor is its own.
-- A pass that does not qualify leaves the anchor where it was.
abbrev pub WithinGap : ℕ → ℕ → String → ℕ → List Pass → Type 0
WithinGap exit gap k anchor [] = Unit
WithinGap exit gap k anchor (p ∷ ps) =
    if str_eq p.key k
    then (p.ts ≤ anchor + gap)
      × WithinGap exit gap k (if holds exit p.is_breaking p.urgency then p.ts else anchor) ps
    else WithinGap exit gap k anchor ps

not_expired :
    (gap ts start anchor : ℕ)
    → ts ≤ anchor + gap
    → is_expired gap ts (record { started_at = start; last_qualifying = anchor }) ≡ false
unfolding is_expired
not_expired gap ts start anchor h = ground arith

alone-Continues :
    (exit gap : ℕ) (k : String) (start anchor : ℕ) (ps : List Pass)
    → WithinGap exit gap k anchor ps
    → All
        (Continues start)
        (alone exit gap k (some (record { started_at = start; last_qualifying = anchor })) ps)
unfolding alone
alone-Continues exit gap k start anchor [] w = tt
alone-Continues exit gap k start anchor (p ∷ ps) w = elim (Bool-cases (str_eq p.key k)) [
  | inr other ↦ rw other (alone-Continues exit gap k start anchor ps (rw other at w))
  | inl own ↦
      let v = rw own at w in
      rw (own, not_expired gap p.ts start anchor v.0)
        (
          (refl, refl, refl),
          elim (Bool-cases (holds exit p.is_breaking p.urgency)) [
            | inl e ↦ rw e (alone-Continues exit gap k start p.ts ps (rw e at v.1))
            | inr e ↦ rw e (alone-Continues exit gap k start anchor ps (rw e at v.1))
          ],
        )
]

-- While an episode of `k` is open and every pass of `k` comes within the gap of the last one that
-- qualified (a breaking pass, or urgency at or above the exit threshold), every pass of `k`
-- continues it: none opens a second episode, dips below the threshold included, and each reports
-- the episode's own start. Passes of other keys in between change nothing.
pub episode-Continues :
    (r : BreakingEpisodeRule) (k : String) (start anchor : ℕ) (ps : List Pass)
    → Dict.get r.open_episodes k ≡ some (record { started_at = start; last_qualifying = anchor })
    → WithinGap r.exit_threshold r.gap k anchor ps
    → All (Continues start) (decisions_of k r ps)
episode-Continues r k start anchor ps e w =
    rw (decisions_of-alone, e) (alone-Continues r.exit_threshold r.gap k start anchor ps w)

-- What a decision says of the episode that is open after the pass.
abbrev pub Agrees : Pass → Option OpenState → BreakingPassDecision → Type 0
Agrees p none d = d ≡ not_in_episode
Agrees p (some o) d =
    (d.in_episode ≡ true)
    × (d.started_at ≡ some o.started_at)
    × (((d.opened ≡ true)
          × (d.held ≡ false)
          × (p.is_breaking ≡ true)
          × (o.started_at ≡ p.ts)
          × (o.last_qualifying ≡ p.ts))
        ⊎ ((d.opened ≡ false) × (d.held ≡ true) × (o.last_qualifying ≡ p.ts))
        ⊎ ((d.opened ≡ false) × (d.held ≡ false)))

advance-Agrees :
    (exit : ℕ) (p : Pass) (o : Option OpenState)
    → Agrees p (advance exit p o).0 (advance exit p o).1
advance-Agrees exit p none = elim (Bool-cases p.is_breaking) [
  | inl e ↦ rw e (refl, refl, inl (refl, refl, refl, refl, refl))
  | inr e ↦ rw e refl
]
advance-Agrees exit p (some o) = elim (Bool-cases (holds exit p.is_breaking p.urgency)) [
  | inl e ↦ rw e (refl, refl, inr (inl (refl, refl, refl)))
  | inr e ↦ rw e (refl, refl, inr (inr (refl, refl)))
]

-- After any pass the decision agrees with the rule's state: where no episode of the key is open
-- it reports none; where one is, it reports that episode's start, and either the pass was breaking
-- and opened it now, or it held it and became its anchor, or it did neither.
pub observe-Agrees :
    (r : BreakingEpisodeRule) (p : Pass)
    → Agrees p (Dict.get (observe_pass r p).0.open_episodes p.key) (observe_pass r p).1
observe-Agrees r p =
    let (found, decided) = observe-key_step r p p.key in
    rw (found, decided, str_eq_refl p.key)
      (advance-Agrees r.exit_threshold p (still_open r.gap p.ts (Dict.get r.open_episodes p.key)))
