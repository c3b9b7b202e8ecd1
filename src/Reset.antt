-- ===== src/Reset.antt =====
-- apps/desktop/src/renderer/src/planner/reset.ts: when the next daily and weekly reset comes,
-- and how the countdown is shown. The keys of the main process (Period) change exactly then.
pub mod Changes
use aion2_hub.Prelude.{
  ℕ, ◌+◌, ◌*◌, ◌/◌, ◌%◌, ◌≤◌, ◌<◌, ◌≡◌, ◌↔◌, List, [], ◌∷◌, String, Bool, true, false, ◌||◌, Option,
  none, some, ltb, if◌then◌else◌, get_elem?, arith,
}
use aion2_hub.Prelude.Number.{Number}
use aion2_hub.Text.{◌<+>◌, show, trim, codes}
use aion2_hub.Dates.{day_ms, day_of, weekday, set_hours, at_hours}
use aion2_hub.Period.{
  Hhmm, default_hhmm, match_hhmm, parse_hhmm, check_hhmm, daily_start, weekly_start,
  daily_period_key, weekly_period_key, clamp_reset_day,
}
use aion2_hub.Period.Daily.{IsTime, parse_hhmm-IsTime, SameDaily, daily_key_iff, daily_start_bounds}
use aion2_hub.Period.Weekly.{SameWeekly, weekly_key_iff, weekly_start_bounds, week_ms}

unfoldable pub day_label : ℕ → String
day_label day =
    elim (get_elem? {A = String} ("Sun" ∷ "Mon" ∷ "Tue" ∷ "Wed" ∷ "Thu" ∷ "Fri" ∷ "Sat" ∷ []) day) [
      | none ↦ show day
      | some s ↦ s
    ]

-- `parseHhmm` of this file also says whether the text was one.
pub record Parsed : Type 0 where
  pub ok : Bool
  pub time : Hhmm

unfoldable pub check_parsed : Option Hhmm → Parsed
check_parsed none = record { ok = false; time = default_hhmm }
check_parsed (some m) =
    if ltb 23 m.hour || ltb 59 m.minute
    then record { ok = false; time = default_hhmm }
    else record { ok = true; time = m }

unfoldable pub parse_hhmm_ok : String → Parsed
unfolding check_parsed
parse_hhmm_ok hhmm = check_parsed (match_hhmm (codes (trim hhmm)))

unfoldable pub next_daily_reset_at : ℕ → String → ℕ
next_daily_reset_at now daily_reset_hhmm =
    let r = (parse_hhmm_ok daily_reset_hhmm).time in
    let reset = set_hours now r.hour r.minute in if ltb now reset then reset else reset + day_ms

-- `weeklyResetStartAt` is the code of the main process once more.
unfoldable pub next_weekly_reset_at : ℕ → String → Number → ℕ
next_weekly_reset_at now daily_reset_hhmm weekly_reset_day =
    let r = (parse_hhmm_ok daily_reset_hhmm).time in
    weekly_start now r (clamp_reset_day weekly_reset_day) + 7 * day_ms

unfoldable pub format_countdown : ℕ → String
format_countdown ms =
    let s = ms / 1000 in
    let m = s / 60 in
    let h = m / 60 in
    let d = h / 24 in
    if ltb 0 d
    then show d <+> "d " <+> show (h % 24) <+> "h"
    else if ltb 0 h
    then show h <+> "h " <+> show (m % 60) <+> "m"
    else show m <+> "m"
