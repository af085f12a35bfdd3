-- ===== src/Guard/Budget/Probes.antt =====
-- The calls that budget_guard.py lets through while the provider refuses.
use finiex_ragengine.Prelude.{
  ℕ, ◌+◌, ◌≤◌, ◌<◌, String, ◌≡◌, refl, Bool, true, false, not, ◌||◌, some, List, [], ◌∷◌, arith,
  ltb, if_true, if_false, Bool-cases, inl, inr, ap, ◌∙◌,
}
use finiex_ragengine.Guard.Budget.{BudgetGuard, cooling_off, should_attempt, on_quota_error}

-- What reaches the guard while no paid call succeeds: a call that asks, or a refusal.
pub data Trial : Type 0 where
  ask : ℕ → Trial
  refused : String → ℕ → Trial

abbrev pub instant : Trial → ℕ
instant (ask now) = now
instant (refused reason now) = now

abbrev pub cons_allowed : Bool → ℕ → List ℕ → List ℕ
cons_allowed true now l = now ∷ l
cons_allowed false now l = l

-- The instants at which a call was let through.
unfoldable pub let_through : BudgetGuard → List Trial → List ℕ
let_through g [] = []
let_through g (ask now ∷ ts) =
    cons_allowed (should_attempt g now).1 now (let_through (should_attempt g now).0 ts)
let_through g (refused reason now ∷ ts) = let_through (on_quota_error g reason now).0 ts

abbrev pub InOrder : ℕ → List Trial → Type 0
InOrder t [] = Unit
InOrder t (x ∷ xs) = (t ≤ instant x) × InOrder (instant x) xs

-- The first instant at or after `b`, every other at least `gap` after the one before it.
abbrev pub OnePer : ℕ → ℕ → List ℕ → Type 0
OnePer gap b [] = Unit
OnePer gap b (t ∷ ts) = (b ≤ t) × OnePer gap (t + gap) ts

module _ (g : BudgetGuard) (now t : ℕ) (e : g.enabled ≡ true) (s : g.suspended ≡ true)
    (r : g.retry_at ≡ some t) where
  cooling : cooling_off g.retry_at now ≡ ltb now t
  cooling = ap (λ o. cooling_off o now) r

  off : (not g.enabled || not g.suspended) ≡ false
  off = ground arith

  held_back : now < t → should_attempt g now ≡ (g, false)
  unfolding should_attempt
  held_back h =
      if_false (not g.enabled || not g.suspended) _ _ off
      ∙ if_true (cooling_off g.retry_at now) _ _ (cooling ∙ ground arith)

  probing : t ≤ now → should_attempt g now ≡ (record g { retry_at = some (now + g.reprobe) }, true)
  unfolding should_attempt
  probing h =
      if_false (not g.enabled || not g.suspended) _ _ off
      ∙ if_false (cooling_off g.retry_at now) _ _ (cooling ∙ ground arith)

-- A guard that is enabled and suspended until `retry_at`, while no paid call succeeds, the trials come
-- one after another, none inside another, at `now` or later, and the clock does not step back. Let `b` be
-- an instant at or before `retry_at` and at most the interval after `now`. Then the first call is let through at `b` or later, and any two calls that are let through lie at least the interval
-- apart, however many ask and however often the provider refuses.
pub let_through-OnePer :
    (g : BudgetGuard) (now b t : ℕ) (ts : List Trial)
    → g.enabled ≡ true
    → g.suspended ≡ true
    → g.retry_at ≡ some t
    → b ≤ t
    → b ≤ now + g.reprobe
    → InOrder now ts
    → OnePer g.reprobe b (let_through g ts)
unfolding let_through on_quota_error
let_through-OnePer g now b t [] e s r le le' o = tt
let_through-OnePer g now b t (refused reason later ∷ ts) e s r le le' o =
    let_through-OnePer (on_quota_error g reason later).0 later b (later + g.reprobe) ts e refl refl
      (omega arith) (omega arith) o.1
let_through-OnePer g now b t (ask later ∷ ts) e s r le le' o = elim (Bool-cases (ltb later t)) [
  | inl h ↦
      rw (held_back g later t e s r (ground arith))
        (let_through-OnePer g later b t ts e s r le (omega arith) o.1)
  | inr h ↦ rw (probing g later t e s r (ground arith)) (
    ground arith,
    let_through-OnePer (record g { retry_at = some (later + g.reprobe) }) later (later + g.reprobe)
        (later + g.reprobe) ts e s refl (omega arith) (omega arith) o.1,
  )
]
