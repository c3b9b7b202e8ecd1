-- ===== src/Period/Daily.antt =====
-- The daily key tells the planner days apart, and nothing else.
use text.Mathlib.TextLemmas.{append_cancel_left}
use aion2_hub.Prelude.{ℕ, ◌+◌, ◌≤◌, ◌<◌, ◌≡◌, ap, ◌↔◌, String, Option, none, some, arith}
use aion2_hub.Text.{◌<+>◌, trim, codes}
use aion2_hub.Dates.{day_ms, day_of, at_hours, civil, format_civil, format_local_date_key}
use aion2_hub.Dates.Keys.{date_key_inj}
use aion2_hub.Period.{Hhmm, check_hhmm, match_hhmm, parse_hhmm, daily_start, daily_period_key}

pub record IsTime (r : Hhmm) : Type 0 where
  pub hour_le : r.hour ≤ 23
  pub minute_le : r.minute ≤ 59

check_hhmm-IsTime : (o : Option Hhmm) → IsTime (check_hhmm o)
unfolding check_hhmm
check_hhmm-IsTime none = omega arith
check_hhmm-IsTime (some m) = ground arith

-- Whatever the text, the reset time is a time of day.
pub parse_hhmm-IsTime : (s : String) → IsTime (parse_hhmm s)
unfolding parse_hhmm
parse_hhmm-IsTime s = check_hhmm-IsTime (match_hhmm (codes (trim s)))

-- No reset lies between two moments: each reset is at or before both or after both.
abbrev pub SameDaily : Hhmm → ℕ → ℕ → Type 0
SameDaily r a b = (d : ℕ) → (at_hours d r.hour r.minute ≤ a) ↔ (at_hours d r.hour r.minute ≤ b)

pub daily_start_bounds :
    (r : Hhmm) (t : ℕ)
    → IsTime r
    → day_ms ≤ t
    → (daily_start t r ≡ at_hours (day_of (daily_start t r)) r.hour r.minute)
      × (daily_start t r ≤ t)
      × (t < daily_start t r + day_ms)
unfolding daily_start
daily_start_bounds r t v h = ground arith

-- The planner day that a moment belongs to.
abbrev pub planner_day : Hhmm → ℕ → ℕ
planner_day r t = day_of (daily_start t r)

-- A reset is past exactly when it is not after that of the moment's planner day.
module _ (r : Hhmm) (t d : ℕ) (v : IsTime r) (h : day_ms ≤ t) where
  day-le_of_reset : at_hours d r.hour r.minute ≤ t → d ≤ planner_day r t
  day-le_of_reset p = omega (arith, daily_start_bounds r t v h)

  reset-le_of_day : d ≤ planner_day r t → at_hours d r.hour r.minute ≤ t
  reset-le_of_day p = omega (arith, daily_start_bounds r t v h)

module _ (r : Hhmm) (a b : ℕ) (v : IsTime r) (ha : day_ms ≤ a) (hb : day_ms ≤ b) where
  pub SameDaily-starts : SameDaily r a b → planner_day r a ≡ planner_day r b
  SameDaily-starts s =
      let da = planner_day r a in
      let db = planner_day r b in
      let p : da ≤ db =
        day-le_of_reset r b da v hb ((s da).0 (reset-le_of_day r a da v ha (omega arith))) in
      let q : db ≤ da =
        day-le_of_reset r a db v ha ((s db).1 (reset-le_of_day r b db v hb (omega arith))) in
      omega arith

  pub starts-SameDaily : planner_day r a ≡ planner_day r b → SameDaily r a b
  starts-SameDaily e d = (
    λ p. reset-le_of_day r b d v hb (omega (arith, day-le_of_reset r a d v ha p)),
    λ p. reset-le_of_day r a d v ha (omega (arith, day-le_of_reset r b d v hb p)),
  )

daily_key-starts :
    (a b : ℕ) (s : String)
    → daily_period_key a s ≡ daily_period_key b s
    → planner_day (parse_hhmm s) a ≡ planner_day (parse_hhmm s) b
unfolding daily_period_key ◌<+>◌
daily_key-starts a b s e = date_key_inj _ _ (append_cancel_left "D:" _ _ e)

starts-daily_key :
    (a b : ℕ) (s : String)
    → planner_day (parse_hhmm s) a ≡ planner_day (parse_hhmm s) b
    → daily_period_key a s ≡ daily_period_key b s
unfolding daily_period_key format_local_date_key
starts-daily_key a b s e = ap (λ (d : ℕ). "D:" <+> format_civil (civil d)) e

-- Two moments have the same daily key exactly when no daily reset lies between them, for every
-- text of the reset time; the moments are a day or more after the start of the count.
pub daily_key_iff :
    (a b : ℕ) (daily_reset_hhmm : String)
    → day_ms ≤ a
    → day_ms ≤ b
    → (daily_period_key a daily_reset_hhmm ≡ daily_period_key b daily_reset_hhmm)
      ↔ SameDaily (parse_hhmm daily_reset_hhmm) a b
daily_key_iff a b s ha hb =
    let v = parse_hhmm-IsTime s in
    (
      λ e. starts-SameDaily (parse_hhmm s) a b v ha hb (daily_key-starts a b s e),
      λ m. starts-daily_key a b s (SameDaily-starts (parse_hhmm s) a b v ha hb m),
    )
