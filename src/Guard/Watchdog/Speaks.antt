-- ===== src/Guard/Watchdog/Speaks.antt =====
-- How long stall_watchdog.py may leave a standing stall unmentioned.
use finiex_ragengine.Prelude.{
  ℕ, ◌+◌, ◌≤◌, String, ◌≡◌, refl, ap, ◌∙◌, true, ◌⊎◌, Option, some, List, [], ◌∷◌, ◌++◌, arith,
  if_true, inl, inr,
}
use finiex_ragengine.Prelude.Dict
use finiex_ragengine.Guard.Watchdog.{
  WorkerState, StallEvent, StallWatchdogConfig, StallWatchdog, new_watchdog, reannounce_max,
  check_all, check,
}
use finiex_ragengine.Guard.Watchdog.Due.{DueBy, check-DueBy}
use finiex_ragengine.Guard.Watchdog.Look.{
  announces, announces-append, check_all-config, SilentAt, HasWorker, all-Outcome,
}

abbrev pub Looks : Type 0
Looks = List (ℕ × List WorkerState)

-- Looks one after another, each at its instant and at the states that the workers then have.
unfoldable pub look_all : StallWatchdog → Looks → StallWatchdog × List StallEvent
look_all w [] = (w, [])
look_all w ((now, states) ∷ looks) =
    let (w', events) = check w now states in
    let (w'', more) = look_all w' looks in (w'', events ++ more)

-- The looks come in the order of their instants, from one instant to another.
unfoldable pub Between : ℕ → Looks → ℕ → Type 0
Between from [] to = from ≤ to
Between from ((now, states) ∷ looks) to = (from ≤ now) × Between now looks to

-- Every look finds the worker, and finds it silent.
unfoldable pub StaysSilent : StallWatchdogConfig → String → Looks → Type 0
StaysSilent c name [] = Unit
StaysSilent c name ((now, states) ∷ looks) =
    SilentAt c name now states × HasWorker c name now states × StaysSilent c name looks

-- Some look is at an instant or later.
unfoldable pub LooksAfter : ℕ → Looks → Type 0
LooksAfter t [] = ⊥
LooksAfter t ((now, states) ∷ looks) = (t ≤ now) ⊎ LooksAfter t looks

enabled_check :
    (w : StallWatchdog) (c : StallWatchdogConfig) (now : ℕ) (states : List WorkerState)
    → w.config ≡ c
    → c.enabled ≡ true
    → check w now states ≡ check_all w now states
unfolding check
enabled_check w c now states e on =
    if_true w.config.enabled (check_all w now states) (w, []) (ap (λ x. x.enabled) e ∙ on)

look_all-config :
    (w : StallWatchdog) (c : StallWatchdogConfig) (looks : Looks)
    → w.config ≡ c
    → c.enabled ≡ true
    → (look_all w looks).0.config ≡ c
unfolding look_all
look_all-config w c [] e on = e
look_all-config w c ((now, states) ∷ looks) e on =
    let same = enabled_check w c now states e on in
    look_all-config (check w now states).0 c looks
      (ap (λ r. r.0.config) same ∙ check_all-config w now states ∙ e) on

look_all-DueBy :
    (w : StallWatchdog) (from to : ℕ) (looks : Looks)
    → Between from looks to
    → DueBy w from
    → DueBy (look_all w looks).0 to
unfolding look_all Between
look_all-DueBy w from to [] le due = λ name at e. omega (arith, le, due name at e)
look_all-DueBy w from to ((now, states) ∷ looks) (le, rest) due =
    look_all-DueBy (check w now states).0 now to looks rest (check-DueBy w from now states le due)

known_at : (o : Option ℕ) (d due by : ℕ) → o ≡ some d → o ≡ some due → d ≤ by → due ≤ by
known_at o d due by e f h = ground (arith, e, f, h)

-- A worker that stays silent is announced by the time at which its stall is due at the latest.
look_all-announces :
    (w : StallWatchdog) (c : StallWatchdogConfig) (name : String) (by : ℕ) (looks : Looks)
    → w.config ≡ c
    → c.enabled ≡ true
    → ((due : ℕ) → Dict.get w.stalled name ≡ some due → due ≤ by)
    → StaysSilent c name looks
    → LooksAfter by looks
    → announces name (look_all w looks).1 ≡ true
unfolding look_all StaysSilent LooksAfter
look_all-announces w c name by [] e on known silent h = absurd h
look_all-announces w c name by ((now, states) ∷ looks) e on known (silent, there, rest) h =
    let r = check_all w now states in
    let more = look_all r.0 looks in
    let split = announces-append name r.1 more.1 in
    rw (enabled_check w c now states e on) (elim (all-Outcome c name now w states e silent there) [
      | inl said ↦ split ∙ rw said refl
      | inr (due, at, later, kept) ↦ elim h [
        | inl here ↦ absurd (omega (arith, known due at, here, later))
        | inr after ↦
            let again =
              look_all-announces r.0 c name by looks (check_all-config w now states ∙ e) on
                (λ d f. known_at (Dict.get r.0.stalled name) due d by kept f (known due at)) rest
                after in
            split ∙ ground (arith, again)
      ]
    ])

start-DueBy : (c : StallWatchdogConfig) (t : ℕ) → DueBy (new_watchdog c) t
unfolding new_watchdog Dict.get
start-DueBy c t name due e = cc

start-config : (c : StallWatchdogConfig) → (new_watchdog c).config ≡ c
unfolding new_watchdog
start-config c = refl

-- An enabled watchdog from its construction on, over any looks up to `t`, in the order of their
-- instants, and then over further looks, each of which finds a worker that has run and has by then been
-- silent for longer than its threshold. Where one of these is at the ceiling (six hours) after `t` or
-- later, one of them says that the worker is stalled, however often it was announced before and
-- however close the looks lie.
pub check_speaks :
    (c : StallWatchdogConfig) (name : String) (from t : ℕ) (before after : Looks)
    → c.enabled ≡ true
    → Between from before t
    → StaysSilent c name after
    → LooksAfter (t + reannounce_max) after
    → announces name (look_all (look_all (new_watchdog c) before).0 after).1 ≡ true
check_speaks c name from t before after on order silent late =
    let w = (look_all (new_watchdog c) before).0 in
    look_all-announces w c name (t + reannounce_max) after
      (look_all-config (new_watchdog c) c before (start-config c) on) on
      (λ due e. look_all-DueBy (new_watchdog c) from t before order (start-DueBy c from) name due e)
      silent late
