-- ===== src/Prelude/Float.antt =====
-- Go's `float64`, as far as the program uses it: amounts of CPU and memory are compared and passed
-- on, never computed with. Every finite double is a whole multiple of 2^-1074, so `num z` is the
-- value z * 2^-1074, exactly; the two zeros, which no comparison tells apart, are one value.
use mathlib.Core.Bool.{Bool, true, false, not}
use stack_deploy.Prelude.Int.{ℤ, pos, ltb_ℤ}

pub data Float64 : Type 0 where
  nan : Float64
  neg_inf : Float64
  num : ℤ → Float64
  pos_inf : Float64

abbrev pub zero_float : Float64
zero_float = num (pos 0)

-- `a < b`. Every comparison with NaN is false.
abbrev pub lt_float : Float64 → Float64 → Bool
lt_float neg_inf neg_inf = false
lt_float neg_inf (num b) = true
lt_float neg_inf pos_inf = true
lt_float (num a) (num b) = ltb_ℤ a b
lt_float (num a) pos_inf = true
lt_float a b = false

-- `a <= 0.0`
abbrev pub le_zero_float : Float64 → Bool
le_zero_float nan = false
le_zero_float neg_inf = true
le_zero_float (num z) = not (ltb_ℤ (pos 0) z)
le_zero_float pos_inf = false

-- `a != 0.0`. NaN differs from everything.
abbrev pub ne_zero_float : Float64 → Bool
ne_zero_float (num (pos n)) = ltb_ℤ (pos 0) (pos n)
ne_zero_float a = true
