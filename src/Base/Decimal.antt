-- ===== src/Base/Decimal.antt =====
-- Python's `Decimal` in fixed point: a finite value is a whole number of units, `unit` of which make
-- one; the non-finite values are kept apart. Arithmetic is exact.
use qapp.Base.{ℕ, ◌%◌, Bool, ◌==◌}
use qapp.Base.Int.{ℤ}

pub data Decimal : Type 0 where
  finite : ℤ → Decimal
  infinity neg_infinity nan : Decimal

-- `n == n.to_integral_value()` for `n` units.
abbrev pub is_whole : ℕ → ℕ → Bool
is_whole unit n = n % unit == 0
