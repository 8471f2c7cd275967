-- ===== src/Common/Signed.antt =====
-- `i64` values: numbers of either sign, compared with a lower bound.
use Prim.Native.Nat.{ℕ, suc, ◌+◌, ◌-◌, ◌/◌}
use mathlib.Core.Bool.{Bool, false}
use ltsearch.Common.Tests.{leb, ltb, ◌==◌, if◌then◌else◌}

-- `negsuc n` is -(n + 1).
pub data ℤ : Type 0 where
  pos : ℕ → ℤ
  negsuc : ℕ → ℤ

-- `value >= bound`
abbrev pub at_least : ℕ → ℤ → Bool
at_least bound (pos n) = leb bound n
at_least bound (negsuc n) = false

-- `==` on `i64`
abbrev pub same_signed : ℤ → ℤ → Bool
same_signed (pos a) (pos b) = a == b
same_signed (negsuc a) (negsuc b) = a == b
same_signed _ _ = false

-- `a - b` of two numbers that are not negative
abbrev pub minus : ℕ → ℕ → ℤ
minus a b = if ltb a b then negsuc (b - a - 1) else pos (a - b)

-- `value + n`
abbrev pub add_to : ℕ → ℤ → ℤ
add_to n (pos m) = pos (m + n)
add_to n (negsuc m) = minus n (suc m)

-- `value.div_euclid(d)` for a positive divisor
abbrev pub div_euclid : ℤ → ℕ → ℤ
div_euclid (pos n) d = pos (n / d)
div_euclid (negsuc n) d = negsuc (n / d)
