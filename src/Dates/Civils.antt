-- ===== src/Dates/Civils.antt =====
-- The days of the calendar are all different: each later day has a larger (year, month, day).
use aion2_hub.Prelude.{ℕ, zero, suc, ◌+◌, ◌*◌, ◌≤◌, ◌<◌, ◌≡◌, ap, arith}
use native.Mathlib.Decide.{dec_lt}
use aion2_hub.Dates.{Civil, month_days, next_civil, civil}

abbrev pub rank : Civil → ℕ
rank c = (c.year * 13 + c.month) * 32 + c.day

pub record IsDate (c : Civil) : Type 0 where
  pub month_pos : 0 < c.month
  pub month_le : c.month ≤ 12
  pub day_pos : 0 < c.day
  pub day_le : c.day ≤ 31

month_days_bounds : (y m : ℕ) → (0 < month_days y m) × (month_days y m ≤ 31)
unfolding month_days
month_days_bounds y m = ground arith

next_civil-IsDate : (c : Civil) → IsDate c → IsDate (next_civil c)
unfolding next_civil
next_civil-IsDate c v = ground (arith, month_days_bounds c.year c.month)

pub civil-IsDate : (d : ℕ) → IsDate (civil d)
unfolding civil
civil-IsDate zero = omega arith
civil-IsDate (suc d) = next_civil-IsDate (civil d) (civil-IsDate d)

rank-next_civil : (c : Civil) → IsDate c → rank c < rank (next_civil c)
unfolding next_civil
rank-next_civil c v = ground arith

rank_mono : (e d : ℕ) → d < e → rank (civil d) < rank (civil e)
unfolding civil
rank_mono zero d h = elim h [ ]
rank_mono (suc e) d h = elim (dec_lt d e) [
  | yes below ↦ omega (arith, rank_mono e d below, rank-next_civil (civil e) (civil-IsDate e))
  | no same ↦ let here : d ≡ e = omega arith in rw here (rank-next_civil (civil e) (civil-IsDate e))
]

pub civil_inj : (d e : ℕ) → civil d ≡ civil e → d ≡ e
civil_inj d e h = elim (dec_lt d e) [
  | yes p ↦ absurd (omega (arith, rank_mono e d p, ap rank h))
  | no p ↦ elim (dec_lt e d) [
    | yes q ↦ absurd (omega (arith, rank_mono d e q, ap rank h))
    | no q ↦ omega arith
  ]
]
