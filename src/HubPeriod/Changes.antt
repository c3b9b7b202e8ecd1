-- ===== src/HubPeriod/Changes.antt =====
-- The web planner's keys change exactly at its next resets.
use aion2_hub.Prelude.{ℕ, ◌*◌, ◌≤◌, ◌<◌, ◌≡◌, ap, ◌↔◌, arith}
use aion2_hub.Dates.{day_ms, day_of, civil, format_civil, format_local_date_key}
use aion2_hub.Dates.Keys.{date_key_inj}
use aion2_hub.Period.Weekly.{week_ms}
use aion2_hub.HubPeriod.{
  hours_back, get_daily_period_key, weekly_shifted, get_weekly_period_key, get_next_daily_reset_at,
  get_next_weekly_reset_at,
}

daily_days :
    (now t reset_hour : ℕ)
    → reset_hour ≤ 23
    → day_ms ≤ now
    → now ≤ t
    → (day_of (hours_back now reset_hour) ≡ day_of (hours_back t reset_hour))
      ↔ (t < get_next_daily_reset_at now reset_hour)
unfolding get_next_daily_reset_at
daily_days now t reset_hour hh h later = (λ e. ground arith, λ b. ground arith)

weekly_days :
    (now t reset_day reset_hour : ℕ)
    → reset_day ≤ 6
    → reset_hour ≤ 23
    → 2 * week_ms ≤ now
    → now ≤ t
    → (day_of (weekly_shifted now reset_day reset_hour)
        ≡ day_of (weekly_shifted t reset_day reset_hour))
      ↔ (t < get_next_weekly_reset_at now reset_day reset_hour)
unfolding get_next_weekly_reset_at weekly_shifted
weekly_days now t reset_day reset_hour hd hh h later = (λ e. ground arith, λ b. ground arith)

same_key : (a b : ℕ) → day_of a ≡ day_of b → format_local_date_key a ≡ format_local_date_key b
unfolding format_local_date_key
same_key a b e = ap (λ (d : ℕ). format_civil (civil d)) e

-- From a moment on, the daily key of the web planner stays until its next daily reset, and is
-- another from there on, for each hour of the day; the moment is a day or more after the start
-- of the count.
pub hub_daily_key_until :
    (now t reset_hour : ℕ)
    → reset_hour ≤ 23
    → day_ms ≤ now
    → now ≤ t
    → (get_daily_period_key now reset_hour ≡ get_daily_period_key t reset_hour)
      ↔ (t < get_next_daily_reset_at now reset_hour)
unfolding get_daily_period_key
hub_daily_key_until now t r hh h later =
    let days = daily_days now t r hh h later in
    (λ e. days.0 (date_key_inj _ _ e), λ b. same_key _ _ (days.1 b))

-- The same for the weekly key and the next weekly reset, for each day of the week and hour of
-- the day; the moment is two weeks or more after the start of the count.
pub hub_weekly_key_until :
    (now t reset_day reset_hour : ℕ)
    → reset_day ≤ 6
    → reset_hour ≤ 23
    → 2 * week_ms ≤ now
    → now ≤ t
    → (get_weekly_period_key now reset_day reset_hour
        ≡ get_weekly_period_key t reset_day reset_hour)
      ↔ (t < get_next_weekly_reset_at now reset_day reset_hour)
unfolding get_weekly_period_key
hub_weekly_key_until now t d r hd hh h later =
    let days = weekly_days now t d r hd hh h later in
    (λ e. days.0 (date_key_inj _ _ e), λ b. same_key _ _ (days.1 b))
