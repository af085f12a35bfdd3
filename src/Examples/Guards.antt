-- ===== src/Examples/Guards.antt =====
-- The budget guard and the watchdog on short runs.
use finiex_ragengine.Prelude.{
  ◌+◌, inl, inr, ◌≤◌, ◌≡◌, refl, true, false, none, some, List, [], ◌∷◌, arith,
}
use finiex_ragengine.Guard.Budget.{BudgetGuard, should_attempt, on_quota_error, date_of}
use finiex_ragengine.Guard.Budget.Probes.{
  Trial, ask, refused, let_through, OnePer, let_through-OnePer,
}
use finiex_ragengine.Guard.Budget.Warnings.{Spend}
use finiex_ragengine.Guard.Watchdog.{WorkerState, StallWatchdogConfig, new_watchdog, reannounce_max}
use finiex_ragengine.Guard.Watchdog.Look.{announces}
use finiex_ragengine.Guard.Watchdog.Speaks.{
  Looks, look_all, Between, StaysSilent, LooksAfter, check_speaks,
}

abbrev suspended_guard : BudgetGuard
suspended_guard = record {
  enabled = true;
  reprobe = 10;
  soft_daily = 5;
  suspended = true;
  reason = some "insufficient_quota";
  retry_at = some 20;
  day = 0;
  day_spend = 0;
  soft_warned = false;
}

abbrev trials : List Trial
trials = ask 12 ∷ ask 20 ∷ refused "insufficient_quota" 21 ∷ ask 30 ∷ ask 33 ∷ []

two_probes : let_through suspended_guard trials ≡ 20 ∷ 33 ∷ []
unfolding let_through should_attempt on_quota_error
two_probes = refl

let_through-OnePer_example : OnePer 10 20 (let_through suspended_guard trials)
let_through-OnePer_example =
    let_through-OnePer suspended_guard 11 20 20 trials refl refl refl (omega arith) (omega arith)
      (ground arith)

abbrev spends : List Spend
spends =
    record { usd = 6; now = 30 }
    ∷ record { usd = 6; now = 40 }
    ∷ record { usd = 6; now = 86_400_000_001 }
    ∷ []

day_zero : 0 ≤ date_of 20
day_zero = omega arith

abbrev watching : StallWatchdogConfig
watching = record { enabled = true; factor = 3; floor_minutes = 15 }

abbrev worker : WorkerState
worker = record {
  name = "eval:fx";
  interval_seconds = 600;
  last_run_at = some 0;
  stopped_at = none;
  stopped_reason = "";
}

abbrev at_start : Looks
at_start = (2_000_000_000, worker ∷ []) ∷ []

-- A look that comes before the stall is due again, and one that comes after.
abbrev two_looks : Looks
two_looks = (3_000_000_000, worker ∷ []) ∷ (30_000_000_000, worker ∷ []) ∷ []

in_order : Between 0 at_start 2_000_000_000
unfolding Between
in_order = (omega arith, omega arith)

still_silent : StaysSilent watching "eval:fx" two_looks
unfolding StaysSilent
still_silent =
    ((inr (0, refl, omega arith), tt), inl refl, ((inr (0, refl, omega arith), tt), inl refl, tt))

late_enough : LooksAfter (2_000_000_000 + reannounce_max) two_looks
unfolding LooksAfter
late_enough = inr (inl (omega arith))

check_speaks_example :
    announces "eval:fx" (look_all (look_all (new_watchdog watching) at_start).0 two_looks).1 ≡ true
check_speaks_example =
    check_speaks watching "eval:fx" 0 2_000_000_000 at_start two_looks refl in_order still_silent
      late_enough
