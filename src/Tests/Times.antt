-- ===== src/Tests/Times.antt =====
-- The period keys and resets on concrete moments.
use aion2_hub.Prelude.{ℕ, ◌<◌, ◌≡◌, ◌↔◌, arith, some}
use aion2_hub.Prelude.Int.{pos}
use aion2_hub.Period.{daily_period_key, weekly_period_key, parse_hhmm}
use aion2_hub.Period.Daily.{SameDaily, daily_key_iff}
use aion2_hub.Period.Weekly.{number_of, week_day, SameWeekly, weekly_key_iff}
use aion2_hub.Reset.{next_daily_reset_at, next_weekly_reset_at}
use aion2_hub.Reset.Changes.{daily_key_until, weekly_key_until}
use aion2_hub.HubPeriod.{
  get_daily_period_key, get_weekly_period_key, get_next_daily_reset_at, get_next_weekly_reset_at,
}
use aion2_hub.HubPeriod.Changes.{hub_daily_key_until, hub_weekly_key_until}

-- Two moments of January 2026, thirty hours apart.
abbrev early : ℕ
early = 1768000000000

abbrev late : ℕ
late = 1768108000000

daily_key_iff_example :
    (daily_period_key early "09:00" ≡ daily_period_key late "09:00")
    ↔ SameDaily (parse_hhmm "09:00") early late
daily_key_iff_example = daily_key_iff early late "09:00" (omega arith) (omega arith)

weekly_key_iff_example :
    (weekly_period_key early " 6:30 " (number_of (some (pos 3)))
      ≡ weekly_period_key late " 6:30 " (number_of (some (pos 3))))
    ↔ SameWeekly (parse_hhmm " 6:30 ") (week_day (some (pos 3))) early late
weekly_key_iff_example =
    weekly_key_iff early late " 6:30 " (some (pos 3)) (omega arith) (omega arith)

daily_key_until_example :
    (daily_period_key early "25:00" ≡ daily_period_key late "25:00")
    ↔ (late < next_daily_reset_at early "25:00")
daily_key_until_example = daily_key_until early late "25:00" (omega arith) (omega arith)

weekly_key_until_example :
    (weekly_period_key early "09:00" (number_of (some (pos 9)))
      ≡ weekly_period_key late "09:00" (number_of (some (pos 9))))
    ↔ (late < next_weekly_reset_at early "09:00" (number_of (some (pos 9))))
weekly_key_until_example =
    weekly_key_until early late "09:00" (some (pos 9)) (omega arith) (omega arith)

hub_daily_key_until_example :
    (get_daily_period_key early 5 ≡ get_daily_period_key late 5)
    ↔ (late < get_next_daily_reset_at early 5)
hub_daily_key_until_example =
    hub_daily_key_until early late 5 (omega arith) (omega arith) (omega arith)

hub_weekly_key_until_example :
    (get_weekly_period_key early 3 5 ≡ get_weekly_period_key late 3 5)
    ↔ (late < get_next_weekly_reset_at early 3 5)
hub_weekly_key_until_example =
    hub_weekly_key_until early late 3 5 (omega arith) (omega arith) (omega arith) (omega arith)
