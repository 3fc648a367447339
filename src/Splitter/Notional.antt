-- ===== src/Splitter/Notional.antt =====
-- The cap on a slice: `maximum_quantity` against the instrument's limit and the notional.
use native.Mathlib.Nat.{div-mul-le_self, mul-le-mul_right, le_trans}
use qapp.Base.{ℕ, zero, suc, ◌*◌, ◌/◌, ◌≤◌, ◌≡◌, arith, ok}
use qapp.Base.Int.{ℤ, pos, negsuc}
use qapp.Base.Decimal.{Decimal, finite}
use qapp.Splitter.{maximum_quantity}
use qapp.Splitter.Fields.{LimitOrderQuantityRules}

module _ (unit : ℕ) (r : LimitOrderQuantityRules) where
  pub maximum_quantity-le-max :
      (cap : ℤ) (price : Decimal) {limit : ℕ}
      → maximum_quantity unit r cap price ≡ ok limit
      → limit ≤ r.max_quantity
  unfolding maximum_quantity
  maximum_quantity-le-max (negsuc cap) price h = ground arith
  maximum_quantity-le-max (pos zero) price h = ground arith
  maximum_quantity-le-max (pos (suc cap)) (finite (pos (suc p))) h = ground arith
  maximum_quantity-le-max (pos (suc cap)) price h = cc

  -- `v` units at a price of `p` units cost `v * p / unit` units, which the cap bounds.
  pub maximum_quantity-notional :
      (cap p : ℕ) {limit : ℕ}
      → maximum_quantity unit r (pos (suc cap)) (finite (pos (suc p))) ≡ ok limit
      → (v : ℕ) → v ≤ limit
      → v * suc p ≤ suc cap * unit
  unfolding maximum_quantity
  maximum_quantity-notional cap p {limit} h v le =
      let bound : limit ≤ suc cap / suc p * unit = ground arith in
      omega (
        arith,
        mul-le-mul_right (suc p) (le_trans le bound),
        mul-le-mul_right unit (div-mul-le_self (suc cap) (suc p)),
      )
