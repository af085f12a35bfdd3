-- ===== src/Guard/Watchdog/Status.antt =====
-- One look of stall_watchdog.py at one worker.
use finiex_ragengine.Prelude.{
  ℕ, ◌+◌, String, ◌≡◌, refl, ap, Bool, false, not, ◌||◌, Option, none, some, arith, leb,
  if◌then◌else◌, is_some, eq_iff, str_eq,
}
use finiex_ragengine.Prelude.Dict
use finiex_ragengine.Prelude.Dict.{get-put, get-remove}
use finiex_ragengine.Guard.Watchdog.{
  WorkerState, StallWatchdog, reannounce_first, is_stalled, next_gap, check_stall, check_ran,
  check_worker,
}

-- Whether a stall that is known is due to be announced again.
abbrev pub is_due : ℕ → Option ℕ → Bool
is_due now none = false
is_due now (some due) = leb due now

stall_status :
    (w : StallWatchdog) (now last : ℕ) (state : WorkerState) (o : Option ℕ) (j : String)
    → Dict.get w.stalled state.name ≡ o
    → let silent = is_stalled w.config state last now in
      let (w', event) = check_stall w now state last o in
      (Dict.has w'.stalled j ≡ (if str_eq state.name j then silent else Dict.has w.stalled j))
      × (is_some event ≡ (if is_some o then not silent || is_due now o else silent))
unfolding check_stall
stall_status w now last state none j h =
    ground (arith, eq_iff state.name j, get-put w.stalled state.name j (now + reannounce_first))
stall_status w now last state (some due) j h = ground (
  arith,
  eq_iff state.name j,
  get-put w.stalled state.name j (now + next_gap w state.name),
  get-remove w.stalled state.name j,
)

pub check_worker_ran :
    (w : StallWatchdog) (now last : ℕ) (state : WorkerState)
    → state.last_run_at ≡ some last
    → check_worker w now state ≡ check_stall w now state last (Dict.get w.stalled state.name)
unfolding check_worker
check_worker_ran w now last state h = ap (λ o. check_ran w now state o) h

-- After a look at a worker that has run, it is known as stalled exactly when it has been silent for
-- longer than its threshold, and no other worker's standing changed. Something is reported exactly
-- when that is a change, or when the stall stands and its restatement is due.
pub check_worker_status :
    (w : StallWatchdog) (now last : ℕ) (state : WorkerState) (j : String)
    → state.last_run_at ≡ some last
    → let silent = is_stalled w.config state last now in
      let known = Dict.get w.stalled state.name in
      let (w', event) = check_worker w now state in
      (Dict.has w'.stalled j ≡ (if str_eq state.name j then silent else Dict.has w.stalled j))
      × (is_some event ≡ (if is_some known then not silent || is_due now known else silent))
check_worker_status w now last state j h =
    rw (check_worker_ran w now last state h)
      (stall_status w now last state (Dict.get w.stalled state.name) j refl)
