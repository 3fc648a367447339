-- ===== src/Splitter.antt =====
-- strategies/order_splitter/notional_order_splitter.py: the quantity rules of an instrument, and the
-- split of an order into slices under the rules and the configured notional cap.
pub mod Fields
pub mod Multiples
pub mod TopUp
pub mod Slices
pub mod Cover
pub mod Notional
pub mod Split
pub mod Tests
use qapp.Base.{
  ℕ, zero, suc, ◌-◌, ◌+◌, ◌*◌, ◌/◌, ◌%◌, min, Bool, true, false, not, ◌&&◌, ◌||◌, List, [], ◌∷◌,
  ◌++◌, map, ltb, leb, ◌==◌, if◌then◌else◌, replicate, sum, Result, ok, err, ◌>>=◌,
}
use qapp.Base.Int.{ℤ, pos, negsuc}
use qapp.Base.Decimal.{Decimal, finite, infinity, neg_infinity, nan, is_whole}
use Fields.{
  Error, value_error, key_error, invalid_operation, RawRules, LimitOrderQuantityRules,
  from_instrument,
}

-- `(quantity // increment) * increment`
pub round_down : LimitOrderQuantityRules → ℕ → ℕ
round_down r q = q / r.quantity_increment * r.quantity_increment

-- One round of the loop: the later slices, the remainder and what is still needed, with this slice
-- `v` put in front. At 0 the source leaves the loop, so the slice stays as it is.
pub move_one : LimitOrderQuantityRules → ℕ → List ℕ × ℕ × ℕ → List ℕ × ℕ × ℕ
move_one r v (vs, remaining, needed) =
    let moved = min needed (round_down r (v - r.min_quantity)) in
    if needed == 0
    then (v ∷ vs, remaining, needed)
    else ((v - moved) ∷ vs, remaining + moved, needed - moved)

-- The loop, from the last slice to the first.
pub move_from_end : LimitOrderQuantityRules → List ℕ → ℕ → ℕ → List ℕ × ℕ × ℕ
move_from_end r [] remaining needed = ([], remaining, needed)
move_from_end r (v ∷ vs) remaining needed = move_one r v (move_from_end r vs remaining needed)

-- What lifts the remainder to the minimum: the difference, rounded up to the increment.
pub needed_for : LimitOrderQuantityRules → ℕ → ℕ
needed_for r remaining =
    (r.min_quantity - remaining + r.quantity_increment - 1)
    / r.quantity_increment
    * r.quantity_increment

pub available_in : LimitOrderQuantityRules → List ℕ → ℕ
available_in r slices = sum (map (λ v. round_down r (v - r.min_quantity)) slices)

-- The block under `if remaining < rules.min_quantity`.
pub top_up : LimitOrderQuantityRules → List ℕ → ℕ → List ℕ × ℕ
top_up r slices remaining =
    let needed = needed_for r remaining in
    if ltb remaining r.min_quantity && leb needed (available_in r slices)
    then (let (slices', remaining', _) = move_from_end r slices remaining needed in
        (slices', remaining'))
    else (slices, remaining)

-- `unit` units make one share.
module _ (unit : ℕ) where
  pub is_valid : LimitOrderQuantityRules → Decimal → Bool → Bool
  is_valid r (finite (pos q)) allow_odd_lot =
      if q == 0 || not (is_whole unit q) || ltb r.max_quantity q
      then false
      else if allow_odd_lot && r.allow_odd_lot_sell
      then true
      else leb r.min_quantity q && q % r.quantity_increment == 0
  is_valid r _ allow_odd_lot = false

  -- The remainder is appended if it may be ordered.
  pub append_remainder : LimitOrderQuantityRules → Bool → List ℕ × ℕ → List ℕ
  append_remainder r odd (slices, remaining) =
      if is_valid r (finite (pos remaining)) odd then slices ++ remaining ∷ [] else slices

  -- From `slices = [maximum] * int(quantity // maximum)` to the end.
  pub cut : LimitOrderQuantityRules → ℕ → ℕ → Bool → List ℕ
  cut r maximum quantity odd =
      let slices = replicate (quantity / maximum) maximum in
      let remaining = quantity % maximum in
      if remaining == 0 then slices else append_remainder r odd (top_up r slices remaining)

  -- From `if quantity <= maximum and ...` on, `odd` being settled.
  pub slice : LimitOrderQuantityRules → ℕ → ℕ → Bool → List ℕ
  slice r limit quantity odd =
      if leb quantity limit && is_valid r (finite (pos quantity)) odd
      then quantity ∷ []
      else let maximum = round_down r limit in
        let rounded = (if odd then quantity else round_down r quantity) in
        if ltb maximum r.min_quantity || ltb rounded r.min_quantity
        then []
        else cut r maximum rounded odd

  -- The largest slice under the notional cap; a cap of zero or less is none.
  pub maximum_quantity : LimitOrderQuantityRules → ℤ → Decimal → Result Error ℕ
  maximum_quantity r (negsuc cap) price = ok r.max_quantity
  maximum_quantity r (pos zero) price = ok r.max_quantity
  maximum_quantity r (pos (suc cap)) (finite (pos (suc p))) =
      ok (min r.max_quantity (suc cap / suc p * unit))
  maximum_quantity r (pos (suc cap)) price = err value_error

  -- `NotionalOrderSplitter.split`, `cap` being its `max_order_notional`.
  pub split : ℤ → RawRules → Decimal → Decimal → Bool → Result Error (List ℕ)
  split cap instrument nan price allow_odd_lot = err invalid_operation
  split cap instrument neg_infinity price allow_odd_lot = ok []
  split cap instrument infinity price allow_odd_lot = err value_error
  split cap instrument (finite (negsuc n)) price allow_odd_lot = ok []
  split cap instrument (finite (pos zero)) price allow_odd_lot = ok []
  split cap instrument (finite (pos (suc n))) price allow_odd_lot =
      if not (is_whole unit (suc n)) then err value_error else do
        rules ← from_instrument instrument
        limit ← maximum_quantity rules cap price
        ok (slice rules limit (suc n) (allow_odd_lot && rules.allow_odd_lot_sell))
