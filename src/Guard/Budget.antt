-- ===== src/Guard/Budget.antt =====
-- finiexragengine/core/observability/budget_guard.py. Instants and the interval are in microseconds,
-- the clock's reading is an argument. Amounts of money are counted in one small unit, and their sum
-- is exact. An operation that logs a warning says so in its result. Each operation is one step: that
-- two threads interleave inside `should_attempt`, which takes no lock, is not modelled.
pub mod Probes
pub mod Warnings
use finiex_ragengine.Prelude.{
  ℕ, ◌+◌, ◌*◌, ◌/◌, String, Bool, true, false, not, ◌&&◌, ◌||◌, Option, none, some, max, ltb, leb,
  ◌==◌, if◌then◌else◌,
}

pub record BudgetGuard : Type 0 where
  pub enabled : Bool
  pub reprobe : ℕ
  pub soft_daily : ℕ
  pub suspended : Bool
  pub reason : Option String
  pub retry_at : Option ℕ
  pub day : ℕ
  pub day_spend : ℕ
  pub soft_warned : Bool

abbrev micros_per_second : ℕ
micros_per_second = 1_000_000

-- datetime.now(timezone.utc).date(), as a number of days
unfoldable pub date_of : ℕ → ℕ
date_of now = now / 86_400_000_000

-- `__init__`
unfoldable pub new_guard : Bool → ℕ → ℕ → ℕ → ℕ → BudgetGuard
new_guard enabled reprobe_interval_seconds soft_daily day_spend_start now = record {
  enabled = enabled;
  reprobe = max 1 reprobe_interval_seconds * micros_per_second;
  soft_daily = soft_daily;
  suspended = false;
  reason = none;
  retry_at = none;
  day = date_of now;
  day_spend = day_spend_start;
  soft_warned = false;
}

-- self._retry_at is not None and now < self._retry_at
abbrev pub cooling_off : Option ℕ → ℕ → Bool
cooling_off none now = false
cooling_off (some retry_at) now = ltb now retry_at

unfoldable pub should_attempt : BudgetGuard → ℕ → BudgetGuard × Bool
should_attempt g now =
    if not g.enabled || not g.suspended
    then (g, true)
    else if cooling_off g.retry_at now
    then (g, false)
    else (record g { retry_at = some (now + g.reprobe) }, true)

-- The second part is `newly`.
unfoldable pub on_quota_error : BudgetGuard → String → ℕ → BudgetGuard × Bool
on_quota_error g reason now = (
  record g { suspended = true; reason = some reason; retry_at = some (now + g.reprobe) },
  not g.suspended,
)

-- if today != self._day: …
unfoldable pub roll_day : BudgetGuard → ℕ → BudgetGuard
roll_day g today =
    if not (today == g.day) then record g { day = today; day_spend = 0; soft_warned = false } else g

-- The second part says whether the soft limit was announced.
unfoldable pub accumulate : BudgetGuard → ℕ → ℕ → BudgetGuard × Bool
accumulate g usd now =
    let rolled = roll_day g (date_of now) in
    let spent = record rolled { day_spend = rolled.day_spend + usd } in
    let over = ltb 0 g.soft_daily && not spent.soft_warned && leb g.soft_daily spent.day_spend in
    if over then (record spent { soft_warned = true }, true) else (spent, false)

unfoldable pub resume : BudgetGuard → BudgetGuard
resume g = if g.suspended then record g { suspended = false; reason = none; retry_at = none } else g

unfoldable pub record_spend : BudgetGuard → ℕ → ℕ → BudgetGuard × Bool
record_spend g usd now = accumulate (resume g) usd now
