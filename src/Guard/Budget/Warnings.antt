-- ===== src/Guard/Budget/Warnings.antt =====
-- The announcements of the soft daily limit in budget_guard.py.
use finiex_ragengine.Prelude.{
  ℕ, ◌+◌, ◌≤◌, ◌≡◌, Bool, true, false, List, [], ◌∷◌, arith, if◌then◌else◌, Bool-cases, inl, inr,
}
use finiex_ragengine.Guard.Budget.{BudgetGuard, date_of, roll_day, accumulate, resume, record_spend}

-- A paid call that succeeded.
pub record Spend : Type 0 where
  pub usd : ℕ
  pub now : ℕ

abbrev pub cons_day : Bool → ℕ → List ℕ → List ℕ
cons_day true d l = d ∷ l
cons_day false d l = l

-- The days on which the limit was announced, one entry for each announcement.
unfoldable pub warned_days : BudgetGuard → List Spend → List ℕ
warned_days g [] = []
warned_days g (s ∷ ss) =
    let (g', warned) = record_spend g s.usd s.now in
    cons_day warned (date_of s.now) (warned_days g' ss)

abbrev pub InOrder : ℕ → List Spend → Type 0
InOrder t [] = Unit
InOrder t (s ∷ ss) = (t ≤ s.now) × InOrder s.now ss

-- Each entry is at least `b`, and above every one before it.
abbrev pub IncreasingFrom : ℕ → List ℕ → Type 0
IncreasingFrom b [] = Unit
IncreasingFrom b (d ∷ ds) = (b ≤ d) × IncreasingFrom (d + 1) ds

date_of_monotone : (a b : ℕ) → a ≤ b → date_of a ≤ date_of b
unfolding date_of
date_of_monotone a b h = omega arith

-- the first day on which the guard may announce again
abbrev pub next_day : BudgetGuard → ℕ
next_day g = if g.soft_warned then g.day + 1 else g.day

accumulate-next_day :
    (g : BudgetGuard) (usd now : ℕ)
    → g.day ≤ date_of now
    → let (g', warned) = accumulate g usd now in
      (g'.day ≡ date_of now)
      × (next_day g ≤ (if warned then date_of now else next_day g'))
      × ((if warned then date_of now + 1 else next_day g) ≤ next_day g')
unfolding accumulate roll_day
accumulate-next_day g usd now h = ground arith

IncreasingFrom-weaken : (b c : ℕ) (l : List ℕ) → b ≤ c → IncreasingFrom c l → IncreasingFrom b l
IncreasingFrom-weaken b c [] h i = tt
IncreasingFrom-weaken b c (d ∷ ds) h i = (omega arith, i.1)

resume_keeps : (g : BudgetGuard) → (next_day (resume g) ≡ next_day g) × ((resume g).day ≡ g.day)
unfolding resume
resume_keeps g = ground arith

-- Where the guard's day is not in the future and the clock does not step back, the days on which
-- the soft limit is announced are increasing: at most one announcement a day, however many paid
-- calls succeed and whether or not the guard was suspended between them.
pub warned_days-IncreasingFrom :
    (g : BudgetGuard) (t : ℕ) (ss : List Spend)
    → g.day ≤ date_of t
    → InOrder t ss
    → IncreasingFrom (next_day g) (warned_days g ss)
unfolding warned_days record_spend
warned_days-IncreasingFrom g t [] h o = tt
warned_days-IncreasingFrom g t (s ∷ ss) h o =
    let kept = resume_keeps g in
    let today = date_of_monotone t s.now o.0 in
    let step = accumulate-next_day (resume g) s.usd s.now (rw kept.1 (omega arith)) in
    let g' = (accumulate (resume g) s.usd s.now).0 in
    let same_day : (accumulate (resume g) s.usd s.now).0.day ≤ date_of s.now = omega arith in
    let later =
      warned_days-IncreasingFrom (accumulate (resume g) s.usd s.now).0 s.now ss same_day o.1 in
    elim (Bool-cases (accumulate (resume g) s.usd s.now).1) [
      | inl w ↦ rw w (
        ground arith,
        IncreasingFrom-weaken (date_of s.now + 1) (next_day g') _ (ground arith) later,
      )
      | inr w ↦ rw w (IncreasingFrom-weaken (next_day g) (next_day g') _ (ground arith) later)
    ]
