-- ===== src/Dates.antt =====
-- JavaScript's `Date` in a time zone with a fixed offset from UTC. A moment is the number of
-- milliseconds of local time since the local 1 January 1970, so `getTime` is that number less
-- the offset, and two moments compare as their times do.
pub mod Civils
pub mod Keys
use aion2_hub.Prelude.{
  ℕ, zero, suc, ◌+◌, ◌-◌, ◌*◌, ◌/◌, ◌%◌, String, Bool, not, ◌&&◌, ◌||◌, ◌==◌, ltb, if◌then◌else◌,
}
use aion2_hub.Text.{◌<+>◌, show, pad2}

abbrev pub day_ms : ℕ
day_ms = 86400000

-- The number of the local day, `getDay` (0 is Sunday; 1 January 1970 was a Thursday), the day's
-- start, `setHours(h, m, 0, 0)`, and `setDate(getDate() - n)`.
abbrev pub day_of : ℕ → ℕ
day_of t = t / day_ms

abbrev pub weekday : ℕ → ℕ
weekday d = (d + 4) % 7

abbrev pub get_day : ℕ → ℕ
get_day t = weekday (day_of t)

abbrev pub at_hours : ℕ → ℕ → ℕ → ℕ
at_hours d hour minute = d * day_ms + hour * 3600000 + minute * 60000

abbrev pub set_hours : ℕ → ℕ → ℕ → ℕ
set_hours t hour minute = at_hours (day_of t) hour minute

abbrev pub days_back : ℕ → ℕ → ℕ
days_back t n = t - n * day_ms

-- A date of the Gregorian calendar, with the month from 1.
pub record Civil : Type 0 where
  pub year : ℕ
  pub month : ℕ
  pub day : ℕ

unfoldable pub is_leap : ℕ → Bool
is_leap y = y % 4 == 0 && (not (y % 100 == 0) || y % 400 == 0)

unfoldable pub month_days : ℕ → ℕ → ℕ
unfolding is_leap
month_days y m =
    if m == 2
    then (if is_leap y then 29 else 28)
    else if m == 4 || m == 6 || m == 9 || m == 11
    then 30
    else 31

unfoldable pub next_civil : Civil → Civil
unfolding month_days
next_civil c =
    if ltb c.day (month_days c.year c.month)
    then record c { day = c.day + 1 }
    else if ltb c.month 12
    then record { year = c.year; month = c.month + 1; day = 1 }
    else record { year = c.year + 1; month = 1; day = 1 }

-- `getFullYear`, `getMonth` + 1 and `getDate` of a local day.
unfoldable pub civil : ℕ → Civil
civil zero = record { year = 1970; month = 1; day = 1 }
civil (suc d) = next_civil (civil d)

-- `d.getDate()`.
unfoldable pub get_date : ℕ → ℕ
get_date t = (civil (day_of t)).day

unfoldable pub format_civil : Civil → String
format_civil c = show c.year <+> "-" <+> pad2 c.month <+> "-" <+> pad2 c.day

-- `formatLocalDateKey`.
unfoldable pub format_local_date_key : ℕ → String
format_local_date_key t = format_civil (civil (day_of t))
