-- ===== src/Timeframe/Boundary.antt =====
-- The bar closes of finiexragengine/utils/timeframe.py.
use finiex_ragengine.Prelude.{
  ℕ, ◌+◌, ◌-◌, ◌*◌, ◌/◌, ◌≤◌, ◌<◌, String, ◌≡◌, refl, true, false, Option, none, some, [], ◌∷◌,
  arith, str_eq, Bool-cases, inl, inr, All, ◌⊎◌,
}
use native.Mathlib.Nat as N
use finiex_ragengine.Prelude.Dict
use finiex_ragengine.Timeframe.{
  Moment, timeframes, timeframe_minutes, require_utc, bar, boundary_after, next_boundary,
  micros_until_next_boundary,
}

-- The first bar close after an instant: a multiple of the bar's length, later than the instant, and
-- no later than any other such multiple.
pub record IsNextClose (now step b : ℕ) : Type 0 where
  pub on_grid : (k : ℕ) × (b ≡ k * step)
  pub after : now < b
  pub near : b ≤ now + step
  pub first : (k : ℕ) → now < k * step → b ≤ k * step

boundary_after-IsNextClose :
    (now step : ℕ) → 0 < step → IsNextClose now step (boundary_after now step)
boundary_after-IsNextClose now step h =
    let q = now / step in
    let e = N.add-mul q 1 step in
    let over = N.lt-div-mul-add {a = now} h in
    record {
      on_grid = (q + 1, refl);
      after = omega (arith, e, over);
      near = omega (arith, e, N.div-mul-le_self now step);
      first = λ k g.
          N.mul-le-mul_right step (omega (arith, (N.div-lt_iff_lt-mul {x = now} {y = k} h).1 g));
    }

-- A supported length is positive and divides the day.
abbrev DividesDay : Option ℕ → Type 0
DividesDay none = Unit
DividesDay (some minutes) = (0 < minutes) × ((k : ℕ) × (k * minutes ≡ 1440))

get-DividesDay :
    (d : Dict.Dict ℕ) (name : String)
    → All (λ e. DividesDay (some e.1)) d
    → DividesDay (Dict.get d name)
unfolding Dict.get
get-DividesDay [] name a = tt
get-DividesDay ((j, minutes) ∷ d) name a = elim (Bool-cases (str_eq j name)) [
  | inl e ↦ rw e a.0
  | inr e ↦ rw e (get-DividesDay d name a.1)
]

timeframe_minutes-DividesDay : (name : String) → DividesDay (timeframe_minutes name)
unfolding timeframe_minutes
timeframe_minutes-DividesDay name =
    let d : All (λ (e : String × ℕ). DividesDay (some e.1)) timeframes = (
      (omega arith, (1440, refl)),
      (
        (omega arith, (288, refl)),
        (
          (omega arith, (144, refl)),
          (
            (omega arith, (96, refl)),
            (
              (omega arith, (48, refl)),
              (
                (omega arith, (24, refl)),
                ((omega arith, (6, refl)), ((omega arith, (1, refl)), tt)),
              ),
            ),
          ),
        ),
      ),
    ) in
    get-DividesDay timeframes name d

-- For a supported timeframe and an instant that knows its time zone there is a next boundary: the
-- least multiple of the bar's length, counted from the epoch, that is later than the instant, and at
-- most one bar later. The wait ends there and is positive. The bar's length divides the day, so the
-- grid is the same on every day.
pub next_boundary-IsNextClose :
    (now minutes : ℕ) (timeframe : String)
    → timeframe_minutes timeframe ≡ some minutes
    → let m : Moment = record { micros = now; aware = true } in
      (b : ℕ) × (next_boundary m timeframe ≡ some b)
      × IsNextClose now (bar minutes) b
      × (micros_until_next_boundary m timeframe ≡ some (b - now))
      × (0 < b - now)
      × ((k : ℕ) × (k * minutes ≡ 1440))
unfolding next_boundary require_utc micros_until_next_boundary
next_boundary-IsNextClose now minutes timeframe h =
    let d : DividesDay (some minutes) = rw h at (timeframe_minutes-DividesDay timeframe) in
    let c = boundary_after-IsNextClose now (bar minutes) (omega (arith, d.0)) in
    (boundary_after now (bar minutes), rw h refl, c, rw h refl, omega (arith, c.after), d.1)

-- A naive instant and an unknown timeframe have none.
pub next_boundary_error :
    (m : Moment) (timeframe : String)
    → (m.aware ≡ false) ⊎ (timeframe_minutes timeframe ≡ none)
    → (next_boundary m timeframe ≡ none) × (micros_until_next_boundary m timeframe ≡ none)
unfolding next_boundary require_utc micros_until_next_boundary
next_boundary_error m timeframe (inl h) = rw h (refl, refl)
next_boundary_error m timeframe (inr h) = elim (Bool-cases m.aware) [
  | inl a ↦ rw (a, h) (refl, refl)
  | inr a ↦ rw a (refl, refl)
]
