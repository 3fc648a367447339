-- ===== src/Splitter/Fields.antt =====
-- `LimitOrderQuantityRules` and its validation (`from_instrument`).
use native.Mathlib.Nat.{dvd_of_mod-eq-zero}
use Prim.Native.Nat.{◌∣◌}
use qapp.Base.{
  ℕ, suc, ◌%◌, ◌≤◌, ◌<◌, ◌≡◌, Bool, not, ◌||◌, Option, none, some, arith, ltb, ◌==◌, if◌then◌else◌,
  Result, ok, err, ◌>>=◌, >>=-eq-ok,
}
use qapp.Base.Int.{pos}
use qapp.Base.Decimal.{Decimal, finite}

-- The exceptions of the file: `ValueError`, `KeyError`, and the `InvalidOperation` of an ordering
-- against a NaN.
pub data Error : Type 0 where
  value_error key_error invalid_operation : Error

-- The entry `limit_order_quantity_rules` of an instrument's `info`: absent, no `dict`, a `dict` that
-- lacks a field, or the fields, of which `allow_odd_lot_sell` is `none` if it is no `bool`.
pub data RawRules : Type 0 where
  absent not_dict incomplete : RawRules
  fields : Decimal → Decimal → Decimal → Option Bool → RawRules

pub record LimitOrderQuantityRules : Type 0 where
  pub min_quantity : ℕ
  pub max_quantity : ℕ
  pub quantity_increment : ℕ
  pub allow_odd_lot_sell : Bool

-- `value.is_finite() and value > 0`
positive : Decimal → Result Error ℕ
positive (finite (pos (suc n))) = ok (suc n)
positive _ = err value_error

-- The tests that relate the fields.
check : ℕ → ℕ → ℕ → Option Bool → Result Error LimitOrderQuantityRules
check lo hi inc none = err value_error
check lo hi inc (some odd) =
    if ltb hi lo || not (lo % inc == 0) || not (hi % inc == 0)
    then err value_error
    else ok (record {
      min_quantity = lo;
      max_quantity = hi;
      quantity_increment = inc;
      allow_odd_lot_sell = odd;
    })

unfoldable pub from_instrument : RawRules → Result Error LimitOrderQuantityRules
unfolding positive check
from_instrument absent = err key_error
from_instrument not_dict = err value_error
from_instrument incomplete = err key_error
from_instrument (fields lo hi inc odd) = do
  lo' ← positive lo
  hi' ← positive hi
  inc' ← positive inc
  check lo' hi' inc' odd

-- What validation establishes.
pub record IsSound (r : LimitOrderQuantityRules) : Type 0 where
  pub min_pos : 0 < r.min_quantity
  pub increment_pos : 0 < r.quantity_increment
  pub ordered : r.min_quantity ≤ r.max_quantity
  pub min_multiple : r.quantity_increment ∣ r.min_quantity
  pub max_multiple : r.quantity_increment ∣ r.max_quantity

check-IsSound :
    (lo hi inc : ℕ) (odd : Option Bool) {r : LimitOrderQuantityRules}
    → 0 < lo
    → 0 < inc
    → check lo hi inc odd ≡ ok r
    → IsSound r
unfolding check
check-IsSound lo hi inc none pl pi h = cc
check-IsSound lo hi inc (some odd) {r} pl pi h = record {
  min_pos = ground arith;
  increment_pos = ground arith;
  ordered = ground arith;
  min_multiple = dvd_of_mod-eq-zero r.quantity_increment (ground arith);
  max_multiple = dvd_of_mod-eq-zero r.quantity_increment (ground arith);
}

positive_pos : (d : Decimal) {n : ℕ} → positive d ≡ ok n → 0 < n
unfolding positive
positive_pos (finite (pos (suc n))) h = ground arith
positive_pos d h = cc

-- LimitOrderQuantityRules that pass validation are sound: all three quantities are positive, the bounds are in order,
-- and both are multiples of the increment.
pub from_instrument-IsSound :
    (raw : RawRules) {r : LimitOrderQuantityRules} → from_instrument raw ≡ ok r → IsSound r
unfolding from_instrument
from_instrument-IsSound (fields lo hi inc odd) h =
    let (a, ea, h1) = >>=-eq-ok (positive lo) _ h in
    let (b, eb, h2) = >>=-eq-ok (positive hi) _ h1 in
    let (c, ec, h3) = >>=-eq-ok (positive inc) _ h2 in
    check-IsSound a b c odd (positive_pos lo ea) (positive_pos inc ec) h3
from_instrument-IsSound raw h = cc
