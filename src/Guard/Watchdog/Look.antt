-- ===== src/Guard/Watchdog/Look.antt =====
-- One look of stall_watchdog.py at a worker that stays silent.
use text.Mathlib.TextPositions.{eq_refl}
use finiex_ragengine.Prelude.{
  ℕ, ◌+◌, ◌*◌, ◌<◌, String, ◌≡◌, refl, sym, ◌∙◌, Bool, true, false, ◌&&◌, ◌||◌, ◌⊎◌, Option, none,
  some, List, [], ◌∷◌, ◌++◌, max, arith, leb, Bool-cases, inl, inr, eq_iff, str_eq,
}
use finiex_ragengine.Prelude.Dict
use finiex_ragengine.Prelude.Dict.{get-put, get-remove}
use finiex_ragengine.Guard.Watchdog.{
  WorkerState, StallEvent, StallWatchdogConfig, StallWatchdog, reannounce_first, threshold_of,
  is_stalled, event_of, next_gap, check_stall, check_ran, check_worker, with_event, check_all,
}
use finiex_ragengine.Guard.Watchdog.Status.{check_worker_ran}

-- Whether some event says that a worker is stalled.
unfoldable pub announces : String → List StallEvent → Bool
announces name [] = false
announces name (e ∷ es) = (str_eq e.worker name && e.stalled) || announces name es

pub announces-append :
    (name : String) (xs ys : List StallEvent)
    → announces name (xs ++ ys) ≡ (announces name xs || announces name ys)
unfolding announces
announces-append name [] ys = refl
announces-append name (x ∷ xs) ys = ground (arith, announces-append name xs ys)

-- A worker that has run and has been silent for longer than its threshold.
abbrev pub IsSilent : StallWatchdogConfig → ℕ → WorkerState → Type 0
IsSilent c now state =
    (last : ℕ) × (state.last_run_at ≡ some last)
    × (last + max (c.factor * state.interval_seconds) (c.floor_minutes * 60) * 1_000_000 < now)

-- What a look at a silent worker comes to: it is announced, or known and not yet due.
abbrev pub Waits : String → ℕ → StallWatchdog → StallWatchdog → Type 0
Waits name now w w' =
    (due : ℕ) × (Dict.get w.stalled name ≡ some due)
    × (now < due)
    × (Dict.get w'.stalled name ≡ some due)

Outcome : String → ℕ → StallWatchdog → StallWatchdog × Option StallEvent → Type 0
Outcome name now w (w', event) = (announces name (with_event event []) ≡ true) ⊎ Waits name now w w'

check_stall-Outcome :
    (w : StallWatchdog) (now last : ℕ) (state : WorkerState) (o : Option ℕ)
    → Dict.get w.stalled state.name ≡ o
    → is_stalled w.config state last now ≡ true
    → Outcome state.name now w (check_stall w now state last o)
unfolding check_stall announces event_of Outcome
check_stall-Outcome w now last state none e h = rw h (inl (rw (eq_refl) refl))
check_stall-Outcome w now last state (some due) e h = elim (Bool-cases (leb due now)) [
  | inl d ↦ rw (h, d) (inl (rw (eq_refl) refl))
  | inr d ↦ rw (h, d) (inr (due, e, ground (arith, d), e))
]

worker-Outcome :
    (w : StallWatchdog) (now : ℕ) (state : WorkerState)
    → IsSilent w.config now state
    → Outcome state.name now w (check_worker w now state)
unfolding is_stalled threshold_of
worker-Outcome w now state (last, ran, over) =
    let stalled : is_stalled w.config state last now ≡ true = ground (arith, over) in
    rw (check_worker_ran w now last state ran)
      (check_stall-Outcome w now last state (Dict.get w.stalled state.name) refl stalled)

check_stall-other :
    (w : StallWatchdog) (now last : ℕ) (state : WorkerState) (o : Option ℕ) (name : String)
    → str_eq state.name name ≡ false
    → Dict.get (check_stall w now state last o).0.stalled name ≡ Dict.get w.stalled name
unfolding check_stall
check_stall-other w now last state none name h =
    ground (arith, h, get-put w.stalled state.name name (now + reannounce_first))
check_stall-other w now last state (some due) name h = ground (
  arith,
  h,
  get-put w.stalled state.name name (now + next_gap w state.name),
  get-remove w.stalled state.name name,
)

check_ran-other :
    (w : StallWatchdog) (now : ℕ) (state : WorkerState) (o : Option ℕ) (name : String)
    → str_eq state.name name ≡ false
    → Dict.get (check_ran w now state o).0.stalled name ≡ Dict.get w.stalled name
check_ran-other w now state none name h = refl
check_ran-other w now state (some last) name h =
    check_stall-other w now last state (Dict.get w.stalled state.name) name h

check_stall-config :
    (w : StallWatchdog) (now last : ℕ) (state : WorkerState) (o : Option ℕ)
    → (check_stall w now state last o).0.config ≡ w.config
unfolding check_stall
check_stall-config w now last state none = ground arith
check_stall-config w now last state (some due) = ground arith

check_ran-config :
    (w : StallWatchdog) (now : ℕ) (state : WorkerState) (o : Option ℕ)
    → (check_ran w now state o).0.config ≡ w.config
check_ran-config w now state none = refl
check_ran-config w now state (some last) =
    check_stall-config w now last state (Dict.get w.stalled state.name)

worker-config :
    (w : StallWatchdog) (now : ℕ) (state : WorkerState)
    → (check_worker w now state).0.config ≡ w.config
unfolding check_worker
worker-config w now state = check_ran-config w now state state.last_run_at

pub check_all-config :
    (w : StallWatchdog) (now : ℕ) (states : List WorkerState)
    → (check_all w now states).0.config ≡ w.config
unfolding check_all
check_all-config w now [] = refl
check_all-config w now (state ∷ states) =
    check_all-config (check_worker w now state).0 now states ∙ worker-config w now state

announces-with_event :
    (name : String) (o : Option StallEvent) (es : List StallEvent)
    → announces name (with_event o es) ≡ (announces name (with_event o []) || announces name es)
unfolding announces
announces-with_event name none es = refl
announces-with_event name (some e) es = ground arith

module _ (c : StallWatchdogConfig) (name : String) (now : ℕ) where
  -- Every state of that name is silent.
  abbrev pub SilentAt : List WorkerState → Type 0
  SilentAt [] = Unit
  SilentAt (s ∷ ss) = ((str_eq s.name name ≡ false) ⊎ IsSilent c now s) × SilentAt ss

  -- The worker is among the states.
  abbrev pub HasWorker : List WorkerState → Type 0
  HasWorker [] = ⊥
  HasWorker (s ∷ ss) = (s.name ≡ name) ⊎ HasWorker ss

  -- The worker is announced, or its standing did not change.
  Same : StallWatchdog → StallWatchdog → List StallEvent → Type 0
  Same w w' events =
      (announces name events ≡ true) ⊎ (Dict.get w'.stalled name ≡ Dict.get w.stalled name)

  here-Outcome :
      (w : StallWatchdog) (s : WorkerState)
      → w.config ≡ c
      → s.name ≡ name
      → IsSilent c now s
      → Outcome name now w (check_worker w now s)
  here-Outcome w s e p silent = rw (sym p) (worker-Outcome w now s (rw e silent))

  step-Same :
      (w : StallWatchdog) (s : WorkerState)
      → w.config ≡ c
      → (str_eq s.name name ≡ false) ⊎ IsSilent c now s
      → Same w (check_worker w now s).0 (with_event (check_worker w now s).1 [])
  unfolding check_worker Same Outcome
  step-Same w s e (inl other) = inr (check_ran-other w now s s.last_run_at name other)
  step-Same w s e (inr silent) = elim (Bool-cases (str_eq s.name name)) [
    | inl p ↦ elim (here-Outcome w s e ((eq_iff s.name name).0 p) silent) [
      | inl said ↦ inl said
      | inr (due, known, later, kept) ↦ inr (kept ∙ sym known)
    ]
    | inr other ↦ inr (check_ran-other w now s s.last_run_at name other)
  ]

  all-Same :
      (w : StallWatchdog) (states : List WorkerState)
      → w.config ≡ c
      → SilentAt states
      → Same w (check_all w now states).0 (check_all w now states).1
  unfolding check_all Same
  all-Same w [] e silent = inr refl
  all-Same w (s ∷ ss) e (one, silent) =
      let (w', event) = check_worker w now s in
      let split = announces-with_event name event (check_all w' now ss).1 in
      elim (step-Same w s e one) [
        | inl said ↦ inl (split ∙ rw said refl)
        | inr same ↦ elim (all-Same w' ss (worker-config w now s ∙ e) silent) [
          | inl said ↦ inl (split ∙ ground (arith, said))
          | inr same' ↦ inr (same' ∙ same)
        ]
      ]

  -- A look at the worker announces it, or it is known and not yet due.
  pub all-Outcome :
      (w : StallWatchdog) (states : List WorkerState)
      → w.config ≡ c
      → SilentAt states
      → HasWorker states
      → (announces name (check_all w now states).1 ≡ true)
        ⊎ Waits name now w (check_all w now states).0
  unfolding check_all Same Outcome
  all-Outcome w [] e silent h = absurd h
  all-Outcome w (s ∷ ss) e (inl other, silent) (inl p) = let same = (eq_iff s.name name).1 p in cc
  all-Outcome w (s ∷ ss) e (inr one, silent) (inl p) =
      let (w', event) = check_worker w now s in
      let split = announces-with_event name event (check_all w' now ss).1 in
      elim (here-Outcome w s e p one) [
        | inl said ↦ inl (split ∙ rw said refl)
        | inr (due, known, later, kept) ↦ elim (all-Same w' ss (worker-config w now s ∙ e) silent) [
          | inl said ↦ inl (split ∙ ground (arith, said))
          | inr same ↦ inr (due, known, later, same ∙ kept)
        ]
      ]
  all-Outcome w (s ∷ ss) e (one, silent) (inr later) =
      let (w', event) = check_worker w now s in
      let split = announces-with_event name event (check_all w' now ss).1 in
      elim (step-Same w s e one) [
        | inl said ↦ inl (split ∙ rw said refl)
        | inr same ↦ elim (all-Outcome w' ss (worker-config w now s ∙ e) silent later) [
          | inl said ↦ inl (split ∙ ground (arith, said))
          | inr (due, known, wait, kept) ↦ inr (due, sym same ∙ known, wait, kept)
        ]
      ]
