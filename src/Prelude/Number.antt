-- ===== src/Prelude/Number.antt =====
-- JavaScript numbers where the program tests them: a finite number is the quotient `n / (d + 1)`,
-- and NaN and the infinities, which `Number.isFinite` rejects, are one value.
use aion2_hub.Prelude.{ℕ, suc, ◌+◌, ◌*◌, ◌/◌, Bool, false, ltb}
use aion2_hub.Prelude.Int.{ℤ, pos, negsuc}

pub data Number : Type 0 where
  finite : ℤ → ℕ → Number
  not_finite : Number

-- A whole number.
abbrev pub whole : ℕ → Number
whole n = finite (pos n) 0

-- `Math.max(0, Math.floor(x))` of a finite number.
abbrev pub floor_at_zero : ℤ → ℕ → ℕ
floor_at_zero (pos n) d = n / suc d
floor_at_zero (negsuc n) d = 0

-- `Math.round(x / m)` of a positive `x` and a positive whole `m`; halves go up.
abbrev pub round_div : ℕ → ℕ → ℕ → ℕ
round_div n d m = (2 * n + m * suc d) / (2 * (m * suc d))

-- `x > 0`.
abbrev pub is_positive : ℤ → Bool
is_positive (pos n) = ltb 0 n
is_positive (negsuc n) = false
