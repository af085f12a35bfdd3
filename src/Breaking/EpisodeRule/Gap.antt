-- ===== src/Breaking/EpisodeRule/Gap.antt =====
-- The distance between two openings of one key, in breaking_episode_rule.py.
use finiex_ragengine.Prelude.{
  ℕ, ◌+◌, ◌<◌, ◌≤◌, String, ◌≡◌, refl, true, false, Option, none, some, List, [], ◌∷◌, arith,
  eq_iff, if◌then◌else◌, str_eq, Bool-cases, inl, inr,
}
use finiex_ragengine.Prelude.Dict
use finiex_ragengine.Breaking.EpisodeRule.{OpenState, BreakingEpisodeRule, is_expired, holds}
use finiex_ragengine.Breaking.EpisodeRule.Keys.{
  Pass, still_open, advance, key_step, observe_pass, observe-key_step, observe-settings, cons_if,
}

-- The timestamps of the passes that opened an episode of `k`.
unfoldable pub opens : String → BreakingEpisodeRule → List Pass → List ℕ
opens k r [] = []
opens k r (p ∷ ps) =
    let rest = opens k (observe_pass r p).0 ps in
    if str_eq p.key k then cons_if (observe_pass r p).1.opened p.ts rest else rest

-- The passes come in timestamp order, none before `t`.
abbrev pub InOrder : ℕ → List Pass → Type 0
InOrder t [] = Unit
InOrder t (p ∷ ps) = (t ≤ p.ts) × InOrder p.ts ps

-- Every entry lies more than `gap` after the one before it, the first after `b`.
abbrev pub SpacedFrom : ℕ → ℕ → List ℕ → Type 0
SpacedFrom gap b [] = Unit
SpacedFrom gap b (t ∷ ts) = (b < t) × SpacedFrom gap (t + gap) ts

abbrev pub Spaced : ℕ → List ℕ → Type 0
Spaced gap [] = Unit
Spaced gap (t ∷ ts) = SpacedFrom gap (t + gap) ts

-- What is known of a key whose last opening lies at least `gap` before `b`: an open episode has
-- not run out at `b`, and where none is open no pass before `b` is still to come.
abbrev Past : ℕ → ℕ → ℕ → Option OpenState → Type 0
Past gap b t none = b < t
Past gap b t (some o) = (b ≤ o.last_qualifying + gap) × (o.last_qualifying ≤ t)

Past-still_open :
    (gap b t ts : ℕ) (o : Option OpenState)
    → t ≤ ts
    → Past gap b t o
    → Past gap b ts (still_open gap ts o)
unfolding is_expired
Past-still_open gap b t ts none h i = omega arith
Past-still_open gap b t ts (some o) h i = elim (Bool-cases (is_expired gap ts o)) [
  | inl e ↦ rw e (ground arith)
  | inr e ↦ rw e (omega arith)
]

Past-advance :
    (exit gap b : ℕ) (p : Pass) (o : Option OpenState)
    → Past gap b p.ts o
    → (advance exit p o).1.opened ≡ false
    → Past gap b p.ts (advance exit p o).0
Past-advance exit gap b p none i h = elim (Bool-cases p.is_breaking) [
  | inl e ↦ absurd (ground arith)
  | inr e ↦ rw e i
]
Past-advance exit gap b p (some o) i h = elim (Bool-cases (holds exit p.is_breaking p.urgency)) [
  | inl e ↦ rw e (omega arith)
  | inr e ↦ rw e i
]

opens_after :
    (exit gap b : ℕ) (p : Pass) (o : Option OpenState)
    → Past gap b p.ts o
    → (advance exit p o).1.opened ≡ true
    → b < p.ts
opens_after exit gap b p none i h = i
opens_after exit gap b p (some o) i h = cc

Past-opened :
    (exit gap : ℕ) (p : Pass) (o : Option OpenState)
    → (advance exit p o).1.opened ≡ true
    → Past gap (p.ts + gap) p.ts (advance exit p o).0
Past-opened exit gap p none h = elim (Bool-cases p.is_breaking) [
  | inl e ↦ rw e (omega arith)
  | inr e ↦ absurd (ground arith)
]
Past-opened exit gap p (some o) h = cc

opens_alone : ℕ → ℕ → String → Option OpenState → List Pass → List ℕ
opens_alone exit gap k o [] = []
opens_alone exit gap k o (p ∷ ps) =
    if str_eq p.key k
    then cons_if (key_step exit gap p o).1.opened p.ts
        (opens_alone exit gap k (key_step exit gap p o).0 ps)
    else opens_alone exit gap k o ps

opens-opens_alone :
    (k : String) (r : BreakingEpisodeRule) (ps : List Pass)
    → opens k r ps ≡ opens_alone r.exit_threshold r.gap k (Dict.get r.open_episodes k) ps
unfolding opens opens_alone
opens-opens_alone k r [] = refl
opens-opens_alone k r (p ∷ ps) = ground (
  arith,
  observe-key_step r p k,
  observe-settings r p,
  eq_iff p.key k,
  opens-opens_alone k (observe_pass r p).0 ps,
)

Past-later : (gap b t u : ℕ) (o : Option OpenState) → t ≤ u → Past gap b t o → Past gap b u o
Past-later gap b t u none h i = omega arith
Past-later gap b t u (some o) h i = omega arith

opens_alone-SpacedFrom :
    (exit gap : ℕ) (k : String) (b t : ℕ) (o : Option OpenState) (ps : List Pass)
    → InOrder t ps
    → Past gap b t o
    → SpacedFrom gap b (opens_alone exit gap k o ps)
unfolding opens_alone
opens_alone-SpacedFrom exit gap k b t o [] s i = tt
opens_alone-SpacedFrom exit gap k b t o (p ∷ ps) s i = elim (Bool-cases (str_eq p.key k)) [
  | inr other ↦
      rw other (opens_alone-SpacedFrom exit gap k b p.ts o ps s.1 (Past-later gap b t p.ts o s.0 i))
  | inl own ↦
      let j = Past-still_open gap b t p.ts o s.0 i in
      let step =
        λ (c : ℕ). opens_alone-SpacedFrom exit gap k c p.ts (key_step exit gap p o).0 ps s.1 in
      rw own (elim (Bool-cases (key_step exit gap p o).1.opened) [
        | inl e ↦ rw e (
          opens_after exit gap b p (still_open gap p.ts o) j e,
          step (p.ts + gap) (Past-opened exit gap p (still_open gap p.ts o) e),
        )
        | inr e ↦ rw e (step b (Past-advance exit gap b p (still_open gap p.ts o) j e))
      ])
]

Spaced-of_SpacedFrom : (gap b : ℕ) (l : List ℕ) → SpacedFrom gap b l → Spaced gap l
Spaced-of_SpacedFrom gap b [] h = tt
Spaced-of_SpacedFrom gap b (t ∷ ts) h = h.1

-- A key's open episode, if any, last qualified no later than `t`.
abbrev pub AnchoredBy : BreakingEpisodeRule → String → ℕ → Type 0
AnchoredBy r k t = (o : OpenState) → Dict.get r.open_episodes k ≡ some o → o.last_qualifying ≤ t

advance-none :
    (exit : ℕ) (p : Pass) → (advance exit p none).1.opened ≡ false → (advance exit p none).0 ≡ none
advance-none exit p h = ground arith

opens_alone-Spaced :
    (exit gap : ℕ) (k : String) (t : ℕ) (o : Option OpenState) (ps : List Pass)
    → InOrder t ps
    → ((a : OpenState) → o ≡ some a → a.last_qualifying ≤ t)
    → Spaced gap (opens_alone exit gap k o ps)
unfolding opens_alone
opens_alone-Spaced exit gap k t (some a) ps s i =
    Spaced-of_SpacedFrom gap 0 _
      (opens_alone-SpacedFrom exit gap k 0 t (some a) ps s (omega arith, i a refl))
opens_alone-Spaced exit gap k t none [] s i = tt
opens_alone-Spaced exit gap k t none (p ∷ ps) s i = elim (Bool-cases (str_eq p.key k)) [
  | inr other ↦ rw other (opens_alone-Spaced exit gap k p.ts none ps s.1 (λ a e. cc))
  | inl own ↦ rw own (elim (Bool-cases (advance exit p none).1.opened) [
    | inl e ↦ rw e (
        opens_alone-SpacedFrom exit gap k (p.ts + gap) p.ts (advance exit p none).0 ps s.1
          (Past-opened exit gap p none e))
    | inr e ↦
        rw (e, advance-none exit p e) (opens_alone-Spaced exit gap k p.ts none ps s.1 (λ a e. cc))
  ])
]

-- When the passes come in timestamp order, and an episode that is open at the start last qualified
-- no later than the first of them, any two openings of one key lie more than the gap apart.
pub opens-Spaced :
    (r : BreakingEpisodeRule) (k : String) (t : ℕ) (ps : List Pass)
    → InOrder t ps
    → AnchoredBy r k t
    → Spaced r.gap (opens k r ps)
opens-Spaced r k t ps s i =
    rw opens-opens_alone
      (opens_alone-Spaced r.exit_threshold r.gap k t (Dict.get r.open_episodes k) ps s i)
