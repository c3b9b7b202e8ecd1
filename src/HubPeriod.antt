-- ===== src/HubPeriod.antt =====
-- packages/modules/planner/lib/period.ts: period keys and next resets of the web planner, which
-- counts a day from a full hour. The hour is at most 23 and the day at most 6, as its settings
-- page offers them.
pub mod Changes
use aion2_hub.Prelude.{ℕ, ◌+◌, ◌-◌, ◌*◌, ◌%◌, String, ◌&&◌, ltb, leb, ◌==◌, if◌then◌else◌}
use aion2_hub.Dates.{day_ms, get_day, set_hours, days_back, format_local_date_key}

-- `setHours(getHours() - resetHour)`.
abbrev pub hours_back : ℕ → ℕ → ℕ
hours_back t n = t - n * 3600000

unfoldable pub get_daily_period_key : ℕ → ℕ → String
get_daily_period_key now reset_hour = format_local_date_key (hours_back now reset_hour)

unfoldable pub weekly_shifted : ℕ → ℕ → ℕ → ℕ
weekly_shifted now reset_day reset_hour =
    let shifted = hours_back now reset_hour in
    let diff = (get_day shifted + 7 - reset_day) % 7 in set_hours (days_back shifted diff) 0 0

unfoldable pub get_weekly_period_key : ℕ → ℕ → ℕ → String
get_weekly_period_key now reset_day reset_hour =
    format_local_date_key (weekly_shifted now reset_day reset_hour)

unfoldable pub get_next_daily_reset_at : ℕ → ℕ → ℕ
get_next_daily_reset_at now reset_hour =
    let next = set_hours now reset_hour 0 in if leb next now then next + day_ms else next

unfoldable pub get_next_weekly_reset_at : ℕ → ℕ → ℕ → ℕ
get_next_weekly_reset_at now reset_day reset_hour =
    let next = set_hours now reset_hour 0 in
    let diff = (reset_day + 7 - get_day next) % 7 in
    next + (if diff == 0 && leb next now then 7 else diff) * day_ms
