-- ===== src/Guard/Watchdog/Due.antt =====
-- When stall_watchdog.py is to announce a standing stall again.
use finiex_ragengine.Prelude.{
  ℕ, ◌+◌, ◌≤◌, String, ◌≡◌, Option, none, some, List, [], ◌∷◌, arith, if_true, if_false, Bool-cases,
  inl, inr, eq_iff,
}
use finiex_ragengine.Prelude.Dict
use finiex_ragengine.Prelude.Dict.{get-put, get-remove}
use finiex_ragengine.Guard.Watchdog.{
  WorkerState, StallWatchdog, reannounce_first, reannounce_max, next_gap, check_stall, check_ran,
  check_worker, check_all, check,
}

-- Every stall that is known at `t` is due again at most the ceiling later.
abbrev pub DueBy : StallWatchdog → ℕ → Type 0
DueBy w t =
    (name : String) (due : ℕ) → Dict.get w.stalled name ≡ some due → due ≤ t + reannounce_max

check_stall-DueBy :
    (w : StallWatchdog) (t now last : ℕ) (state : WorkerState) (o : Option ℕ)
    → t ≤ now
    → DueBy w t
    → DueBy (check_stall w now state last o).0 now
unfolding check_stall next_gap
check_stall-DueBy w t now last state none le i name due e = ground (
  arith,
  eq_iff state.name name,
  get-put w.stalled state.name name (now + reannounce_first),
  i name due,
)
check_stall-DueBy w t now last state (some d) le i name due e = ground (
  arith,
  eq_iff state.name name,
  get-put w.stalled state.name name (now + next_gap w state.name),
  get-remove w.stalled state.name name,
  i name due,
)

check_ran-DueBy :
    (w : StallWatchdog) (t now : ℕ) (state : WorkerState) (o : Option ℕ)
    → t ≤ now
    → DueBy w t
    → DueBy (check_ran w now state o).0 now
check_ran-DueBy w t now state none le i = λ name due e. omega (arith, i name due e)
check_ran-DueBy w t now state (some last) le i =
    check_stall-DueBy w t now last state (Dict.get w.stalled state.name) le i

check_worker-DueBy :
    (w : StallWatchdog) (t now : ℕ) (state : WorkerState)
    → t ≤ now
    → DueBy w t
    → DueBy (check_worker w now state).0 now
unfolding check_worker
check_worker-DueBy w t now state le i = check_ran-DueBy w t now state state.last_run_at le i

check_all-DueBy :
    (w : StallWatchdog) (t now : ℕ) (states : List WorkerState)
    → t ≤ now
    → DueBy w t
    → DueBy (check_all w now states).0 now
unfolding check_all
check_all-DueBy w t now [] le i = λ name due e. omega (arith, i name due e)
check_all-DueBy w t now (state ∷ states) le i =
    check_all-DueBy (check_worker w now state).0 now now states (omega arith)
      (check_worker-DueBy w t now state le i)

pub check-DueBy :
    (w : StallWatchdog) (t now : ℕ) (states : List WorkerState)
    → t ≤ now
    → DueBy w t
    → DueBy (check w now states).0 now
unfolding check
check-DueBy w t now states le i = elim (Bool-cases w.config.enabled) [
  | inl e ↦
      rw (if_true w.config.enabled (check_all w now states) (w, []) e)
        (check_all-DueBy w t now states le i)
  | inr e ↦
      rw (if_false w.config.enabled (check_all w now states) (w, []) e)
        (λ name due q. omega (arith, i name due q))
]
