-- ===== src/Period.antt =====
-- apps/desktop/src/main/planner/period.ts: the keys of the daily and the weekly planner period.
-- A moment is a number of local milliseconds (Dates); `days_back` stops at the first day, so
-- the theorems are about moments from the eighth day on.
pub mod Daily
pub mod Weekly
use aion2_hub.Prelude.{
  ℕ, zero, suc, ◌+◌, ◌-◌, ◌*◌, ◌%◌, List, [], ◌∷◌, String, Bool, ◌&&◌, ◌||◌, Option, none, some,
  leb, ltb, ◌==◌, if◌then◌else◌, min, suc, ◌/◌,
}
use aion2_hub.Prelude.Int.{pos, negsuc}
use aion2_hub.Prelude.Number.{Number, finite, not_finite}
use aion2_hub.Text.{◌<+>◌, trim, codes}
use aion2_hub.Dates.{get_day, get_date, set_hours, days_back, format_local_date_key}

pub record Hhmm : Type 0 where
  pub hour : ℕ
  pub minute : ℕ

unfoldable pub is_digit : ℕ → Bool
is_digit c = leb b'0' c && leb c b'9'

-- A number of two digits.
unfoldable pub two_digits : ℕ → ℕ → ℕ
two_digits c d = (c - 48) * 10 + (d - 48)

-- `/^(\d{1,2}):(\d{2})$/` with its two groups as numbers.
unfoldable pub match_hhmm : List ℕ → Option Hhmm
unfolding is_digit two_digits
match_hhmm (a ∷ b ∷ c ∷ d ∷ []) =
    if is_digit a && b == b':' && is_digit c && is_digit d
    then some (record { hour = a - 48; minute = two_digits c d })
    else none
match_hhmm (a ∷ b ∷ c ∷ d ∷ e ∷ []) =
    if is_digit a && is_digit b && c == b':' && is_digit d && is_digit e
    then some (record { hour = two_digits a b; minute = two_digits d e })
    else none
match_hhmm _ = none

abbrev pub default_hhmm : Hhmm
default_hhmm = record { hour = 9; minute = 0 }

unfoldable pub check_hhmm : Option Hhmm → Hhmm
check_hhmm none = default_hhmm
check_hhmm (some m) = if ltb 23 m.hour || ltb 59 m.minute then default_hhmm else m

unfoldable pub parse_hhmm : String → Hhmm
unfolding check_hhmm match_hhmm
parse_hhmm hhmm = check_hhmm (match_hhmm (codes (trim hhmm)))

unfoldable pub daily_start : ℕ → Hhmm → ℕ
daily_start now r =
    let start = set_hours now r.hour r.minute in if ltb now start then days_back start 1 else start

unfoldable pub daily_period_key : ℕ → String → String
unfolding daily_start
daily_period_key now daily_reset_hhmm =
    "D:" <+> format_local_date_key (daily_start now (parse_hhmm daily_reset_hhmm))

-- A reset day, `parts / (per + 1)`, from 0 to 6; a fraction stays one.
pub record ResetDay : Type 0 where
  pub parts : ℕ
  pub per : ℕ

-- `Number.isFinite(x) ? Math.max(0, Math.min(6, x)) : 1`.
unfoldable pub clamp_reset_day : Number → ResetDay
clamp_reset_day not_finite = record { parts = 1; per = 0 }
clamp_reset_day (finite (pos n) d) = record { parts = min (6 * suc d) n; per = d }
clamp_reset_day (finite (negsuc n) d) = record { parts = 0; per = 0 }

-- The days, in the parts of the reset day.
unfoldable pub days_since_reset : ℕ → ResetDay → ℕ
days_since_reset now_day r = ((now_day + 7) * suc r.per - r.parts) % (7 * suc r.per)

-- `d.setDate(d.getDate() - parts / (per + 1))`: the day of the month is cut to a whole number, down
-- if it is positive and up if it is negative.
unfoldable pub set_date_back : ℕ → ℕ → ℕ → ℕ
set_date_back now parts per =
    let whole_days = parts / suc per in
    if parts % suc per == 0
    then days_back now whole_days
    else if ltb (get_date now * suc per) parts
    then days_back now whole_days
    else days_back now (suc whole_days)

unfoldable pub weekly_start : ℕ → Hhmm → ResetDay → ℕ
unfolding days_since_reset set_date_back
weekly_start now r reset_day =
    let day = set_date_back now (days_since_reset (get_day now) reset_day) reset_day.per in
    let start = set_hours day r.hour r.minute in if ltb now start then days_back start 7 else start

unfoldable pub weekly_period_key : ℕ → String → Number → String
unfolding weekly_start clamp_reset_day
weekly_period_key now daily_reset_hhmm weekly_reset_day =
    "W:"
    <+> format_local_date_key
        (weekly_start now (parse_hhmm daily_reset_hhmm) (clamp_reset_day weekly_reset_day))
