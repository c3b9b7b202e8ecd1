-- ===== src/Period/Weekly.antt =====
-- The weekly key tells the planner weeks apart, and nothing else.
use text.Mathlib.TextLemmas.{append_cancel_left}
use aion2_hub.Prelude.{
  ℕ, ◌+◌, ◌≤◌, ◌<◌, ◌≡◌, ap, refl, subst, min, ◌↔◌, String, Option, none, some, arith,
}
use aion2_hub.Prelude.Int.{ℤ, pos, negsuc}
use aion2_hub.Prelude.Number.{Number, finite, not_finite}
use aion2_hub.Text.{◌<+>◌}
use aion2_hub.Dates.{day_of, weekday, at_hours, civil, format_civil, format_local_date_key}
use aion2_hub.Dates.Keys.{date_key_inj}
use aion2_hub.Period.{
  Hhmm, ResetDay, parse_hhmm, days_since_reset, set_date_back, weekly_start, clamp_reset_day,
  weekly_period_key,
}
use aion2_hub.Period.Daily.{IsTime, parse_hhmm-IsTime}

abbrev pub week_ms : ℕ
week_ms = 604800000

-- A whole number, or `none` for a NaN or an infinity.
abbrev pub number_of : Option ℤ → Number
number_of none = not_finite
number_of (some n) = finite n 0

-- The day of the week that such a number stands for: Monday if there is none, and the nearest day
-- for a number that is no day of the week.
abbrev pub week_day : Option ℤ → ℕ
week_day none = 1
week_day (some (pos n)) = min 6 n
week_day (some (negsuc n)) = 0

pub week_day-le : (n : Option ℤ) → week_day n ≤ 6
week_day-le none = omega arith
week_day-le (some (pos n)) = omega arith
week_day-le (some (negsuc n)) = omega arith

abbrev pub whole_day : ℕ → ResetDay
whole_day w = record { parts = w; per = 0 }

pub clamp_reset_day-number_of :
    (n : Option ℤ) → clamp_reset_day (number_of n) ≡ whole_day (week_day n)
unfolding clamp_reset_day
clamp_reset_day-number_of none = refl
clamp_reset_day-number_of (some (pos n)) = refl
clamp_reset_day-number_of (some (negsuc n)) = refl

pub weekly_start_bounds :
    (r : Hhmm) (w t : ℕ)
    → IsTime r
    → w ≤ 6
    → week_ms ≤ t
    → let start = weekly_start t r (whole_day w) in
      (start ≡ at_hours (day_of start) r.hour r.minute)
      × (weekday (day_of start) ≡ w)
      × (start ≤ t)
      × (t < start + week_ms)
unfolding weekly_start set_date_back days_since_reset
weekly_start_bounds r w t v hw h = ground arith

-- No weekly reset, at the reset time of a day `w` of the week, lies between two moments.
abbrev pub SameWeekly : Hhmm → ℕ → ℕ → ℕ → Type 0
SameWeekly r w a b =
    (d : ℕ) → weekday d ≡ w → (at_hours d r.hour r.minute ≤ a) ↔ (at_hours d r.hour r.minute ≤ b)

-- The day on which the planner week of a moment begins.
abbrev pub planner_week : Hhmm → ℕ → ℕ → ℕ
planner_week r w t = day_of (weekly_start t r (whole_day w))

-- A weekly reset is past exactly when it is not after the one that began the moment's week.
module _ (r : Hhmm) (w t d : ℕ) (v : IsTime r) (hw : w ≤ 6) (h : week_ms ≤ t)
    (e : weekday d ≡ w) where
  day-le_of_reset : at_hours d r.hour r.minute ≤ t → d ≤ planner_week r w t
  day-le_of_reset p = omega (arith, weekly_start_bounds r w t v hw h)

  reset-le_of_day : d ≤ planner_week r w t → at_hours d r.hour r.minute ≤ t
  reset-le_of_day p = omega (arith, weekly_start_bounds r w t v hw h)

module _ (r : Hhmm) (w a b : ℕ) (v : IsTime r) (hw : w ≤ 6) (ha : week_ms ≤ a)
    (hb : week_ms ≤ b) where
  pub SameWeekly-starts : SameWeekly r w a b → planner_week r w a ≡ planner_week r w b
  SameWeekly-starts s =
      let da = planner_week r w a in
      let db = planner_week r w b in
      let ea = (weekly_start_bounds r w a v hw ha).1 in
      let eb = (weekly_start_bounds r w b v hw hb).1 in
      let p : da ≤ db =
        day-le_of_reset r w b da v hw hb ea
          ((s da ea).0 (reset-le_of_day r w a da v hw ha ea (omega arith))) in
      let q : db ≤ da =
        day-le_of_reset r w a db v hw ha eb
          ((s db eb).1 (reset-le_of_day r w b db v hw hb eb (omega arith))) in
      omega arith

  pub starts-SameWeekly : planner_week r w a ≡ planner_week r w b → SameWeekly r w a b
  starts-SameWeekly e d k = (
    λ p. reset-le_of_day r w b d v hw hb k (omega (arith, day-le_of_reset r w a d v hw ha k p)),
    λ p. reset-le_of_day r w a d v hw ha k (omega (arith, day-le_of_reset r w b d v hw hb k p)),
  )

module _ (a b : ℕ) (s : String) (n : Option ℤ) where
  weekly_key-starts :
      weekly_period_key a s (number_of n) ≡ weekly_period_key b s (number_of n)
      → planner_week (parse_hhmm s) (week_day n) a ≡ planner_week (parse_hhmm s) (week_day n) b
  unfolding weekly_period_key ◌<+>◌
  weekly_key-starts e =
      subst
        (λ w. day_of (weekly_start a (parse_hhmm s) w) ≡ day_of (weekly_start b (parse_hhmm s) w))
        (clamp_reset_day-number_of n) (date_key_inj _ _ (append_cancel_left "W:" _ _ e))

  starts-weekly_key :
      planner_week (parse_hhmm s) (week_day n) a ≡ planner_week (parse_hhmm s) (week_day n) b
      → weekly_period_key a s (number_of n) ≡ weekly_period_key b s (number_of n)
  unfolding weekly_period_key format_local_date_key
  starts-weekly_key e =
      rw (clamp_reset_day-number_of n) (ap (λ (d : ℕ). "W:" <+> format_civil (civil d)) e)

-- Two moments have the same weekly key exactly when no weekly reset lies between them, for every
-- text of the reset time, and for every whole number for the reset day, also one that is no day of
-- the week, as well as for a NaN and the infinities; not for a fraction, which the code does not
-- round. The moments are a week or more after the start of the count.
pub weekly_key_iff :
    (a b : ℕ) (daily_reset_hhmm : String) (weekly_reset_day : Option ℤ)
    → week_ms ≤ a
    → week_ms ≤ b
    → (weekly_period_key a daily_reset_hhmm (number_of weekly_reset_day)
        ≡ weekly_period_key b daily_reset_hhmm (number_of weekly_reset_day))
      ↔ SameWeekly (parse_hhmm daily_reset_hhmm) (week_day weekly_reset_day) a b
weekly_key_iff a b s n ha hb =
    let v = parse_hhmm-IsTime s in
    let hw = week_day-le n in
    let r = parse_hhmm s in
    let w = week_day n in
    (
      λ e. starts-SameWeekly r w a b v hw ha hb (weekly_key-starts a b s n e),
      λ m. starts-weekly_key a b s n (SameWeekly-starts r w a b v hw ha hb m),
    )
