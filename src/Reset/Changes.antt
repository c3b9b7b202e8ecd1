-- ===== src/Reset/Changes.antt =====
-- The next reset of the renderer is the moment at which the key of the main process changes.
use aion2_hub.Prelude.{ℕ, ◌+◌, ◌*◌, ◌≤◌, ◌<◌, ◌≡◌, ◌↔◌, String, Option, none, some, arith}
use aion2_hub.Prelude.Int.{ℤ}
use aion2_hub.Text.{trim, codes}
use aion2_hub.Dates.{day_ms}
use aion2_hub.Period.{
  Hhmm, match_hhmm, parse_hhmm, check_hhmm, daily_start, weekly_start, daily_period_key,
  weekly_period_key,
}
use aion2_hub.Period.Daily.{
  parse_hhmm-IsTime, daily_key_iff, daily_start_bounds, SameDaily-starts, starts-SameDaily,
}
use aion2_hub.Period.Weekly.{
  week_ms, weekly_key_iff, weekly_start_bounds, number_of, week_day, week_day-le, whole_day,
  clamp_reset_day-number_of, SameWeekly-starts, starts-SameWeekly,
}
use aion2_hub.Reset.{check_parsed, parse_hhmm_ok, next_daily_reset_at, next_weekly_reset_at}

check-parsed : (o : Option Hhmm) → (check_parsed o).time ≡ check_hhmm o
unfolding check_parsed check_hhmm
check-parsed none = ground arith
check-parsed (some m) = ground arith

-- The renderer and the main process read a reset time alike.
pub parsers_agree : (s : String) → (parse_hhmm_ok s).time ≡ parse_hhmm s
unfolding parse_hhmm_ok parse_hhmm
parsers_agree s = check-parsed (match_hhmm (codes (trim s)))

next_daily_bounds :
    (s : String) (now : ℕ)
    → day_ms ≤ now
    → next_daily_reset_at now s ≡ daily_start now (parse_hhmm s) + day_ms
unfolding next_daily_reset_at daily_start
next_daily_bounds s now h = ground (arith, parsers_agree s, parse_hhmm-IsTime s)

next_weekly_bounds :
    (s : String) (n : Option ℤ) (now : ℕ)
    → next_weekly_reset_at now s (number_of n)
      ≡ weekly_start now (parse_hhmm s) (whole_day (week_day n)) + 7 * day_ms
unfolding next_weekly_reset_at
next_weekly_bounds s n now = rw (parsers_agree s, clamp_reset_day-number_of n)

-- From a moment on, its daily key stays until the next daily reset that the renderer shows, and
-- is another from there on; the moment is a day or more after the start of the count.
pub daily_key_until :
    (now t : ℕ) (daily_reset_hhmm : String)
    → day_ms ≤ now
    → now ≤ t
    → (daily_period_key now daily_reset_hhmm ≡ daily_period_key t daily_reset_hhmm)
      ↔ (t < next_daily_reset_at now daily_reset_hhmm)
daily_key_until now t s h later =
    let r = parse_hhmm s in
    let v = parse_hhmm-IsTime s in
    let at_now = daily_start_bounds r now v h in
    let at_t = daily_start_bounds r t v (omega arith) in
    let keys = daily_key_iff now t s h (omega arith) in
    let next = next_daily_bounds s now h in
    (
      λ e. omega (arith, at_now, at_t, next, SameDaily-starts r now t v h (omega arith) (keys.0 e)),
      λ before. keys.1 (starts-SameDaily r now t v h (omega arith) (omega arith)),
    )

-- The same for the weekly key and the next weekly reset, for every whole number for the reset day,
-- a NaN and the infinities, but not for a fraction; the moment is a week or more after the start of
-- the count.
pub weekly_key_until :
    (now t : ℕ) (daily_reset_hhmm : String) (weekly_reset_day : Option ℤ)
    → week_ms ≤ now
    → now ≤ t
    → (weekly_period_key now daily_reset_hhmm (number_of weekly_reset_day)
        ≡ weekly_period_key t daily_reset_hhmm (number_of weekly_reset_day))
      ↔ (t < next_weekly_reset_at now daily_reset_hhmm (number_of weekly_reset_day))
weekly_key_until now t s n h later =
    let r = parse_hhmm s in
    let w = week_day n in
    let v = parse_hhmm-IsTime s in
    let hw = week_day-le n in
    let at_now = weekly_start_bounds r w now v hw h in
    let at_t = weekly_start_bounds r w t v hw (omega arith) in
    let keys = weekly_key_iff now t s n h (omega arith) in
    let next = next_weekly_bounds s n now in
    (
      λ e.
          omega (
            arith,
            at_now,
            at_t,
            next,
            SameWeekly-starts r w now t v hw h (omega arith) (keys.0 e),
          ),
      λ before. keys.1 (starts-SameWeekly r w now t v hw h (omega arith) (omega arith)),
    )
