-- ===== src/Timeframe.antt =====
-- finiexragengine/utils/timeframe.py. A moment is its microseconds since the epoch and whether it
-- knows its time zone; a `ValueError` is `none`. Moments before 1970 and the end of Python's calendar are
-- left out, and a timestamp is exact where Python's is a float.
pub mod Boundary
use finiex_ragengine.Prelude.{
  ℕ, ◌+◌, ◌-◌, ◌*◌, ◌/◌, String, Bool, Option, none, some, List, [], ◌∷◌, if◌then◌else◌,
}
use finiex_ragengine.Prelude.Dict
use finiex_ragengine.Prelude.Dict.{Dict}

pub record Moment : Type 0 where
  pub micros : ℕ
  pub aware : Bool

abbrev pub timeframes : Dict ℕ
timeframes =
    ("M1", 1)
    ∷ ("M5", 5)
    ∷ ("M10", 10)
    ∷ ("M15", 15)
    ∷ ("M30", 30)
    ∷ ("H1", 60)
    ∷ ("H4", 240)
    ∷ ("D1", 1440)
    ∷ []

unfoldable pub timeframe_minutes : String → Option ℕ
timeframe_minutes timeframe = Dict.get timeframes timeframe

unfoldable pub supported : Dict ℕ → List String
supported [] = []
supported ((name, _) ∷ d) = name ∷ supported d

unfoldable pub require_utc : Moment → Option ℕ
require_utc moment = if moment.aware then some moment.micros else none

-- The length of a bar in microseconds.
abbrev pub bar : ℕ → ℕ
bar minutes = minutes * 60_000_000

abbrev pub boundary_after : ℕ → ℕ → ℕ
boundary_after now step = (now / step + 1) * step

abbrev pub with_minutes : ℕ → Option ℕ → Option ℕ
with_minutes now none = none
with_minutes now (some minutes) = some (boundary_after now (bar minutes))

abbrev pub with_now : Option ℕ → Option ℕ → Option ℕ
with_now none minutes = none
with_now (some now) minutes = with_minutes now minutes

unfoldable pub next_boundary : Moment → String → Option ℕ
unfolding require_utc timeframe_minutes
next_boundary now timeframe = with_now (require_utc now) (timeframe_minutes timeframe)

abbrev pub wait_from : ℕ → Option ℕ → Option ℕ
wait_from now none = none
wait_from now (some next) = some (next - now)

unfoldable pub micros_until_next_boundary : Moment → String → Option ℕ
unfolding next_boundary
micros_until_next_boundary now timeframe = wait_from now.micros (next_boundary now timeframe)
