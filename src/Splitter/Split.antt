-- ===== src/Splitter/Split.antt =====
-- What `NotionalOrderSplitter.split` promises.
use Prim.Native.Nat.{◌∣◌}
use native.Mathlib.Decide.{dec_le}
use native.Mathlib.Nat.{dvd_trans, dvd_iff_mod-eq-zero, le_trans}
use qapp.Base.{
  ℕ, suc, ◌+◌, ◌*◌, ◌%◌, ◌≤◌, ◌<◌, ◌≡◌, refl, inl, inr, Bool, true, false, ◌&&◌, ◌||◌, List, [],
  arith, All, All-map, sum, Bool-cases, ltb, leb, ◌==◌, ==_iff, if◌then◌else◌, ok, >>=-eq-ok,
}
use qapp.Base.Int.{ℤ, pos}
use qapp.Base.Decimal.{Decimal, finite}
use qapp.Splitter.{round_down, is_valid, cut, slice, maximum_quantity, split}
use qapp.Splitter.Fields.{
  RawRules, LimitOrderQuantityRules, IsSound, from_instrument, from_instrument-IsSound,
}
use qapp.Splitter.Multiples.{Fits, round_down_dvd, round_down_bounds, round_down_ge}
use qapp.Splitter.Slices.{Sendable, cut-Sendable, is_valid_odd}
use qapp.Splitter.Cover.{cut-Covers}
use qapp.Splitter.Notional.{maximum_quantity-le-max, maximum_quantity-notional}

-- The slices never exceed the quantity; a liquidation is covered whole, and any other order up to
-- less than a minimum and an increment.
abbrev pub Accounts : LimitOrderQuantityRules → Bool → ℕ → List ℕ → Type 0
Accounts r odd quantity out =
    (sum out ≤ quantity)
    × (odd ≡ true → sum out ≡ quantity)
    × (quantity < sum out + r.min_quantity + r.quantity_increment)

module _ (unit : ℕ) (r : LimitOrderQuantityRules) (sound : IsSound r)
    (whole : unit ∣ r.quantity_increment) (limit : ℕ) (within : limit ≤ r.max_quantity) where
  -- The slice size that `slice` hands to `cut`.
  size : ℕ
  size = round_down r limit

  size-Fits : r.min_quantity ≤ size → Fits r size size
  unfolding size
  size-Fits le = (le, omega arith, round_down_dvd r sound limit)

  size_le : size ≤ limit
  unfolding size
  size_le = (round_down_bounds r sound limit).0

  pub slice-Sendable :
      (quantity : ℕ) (odd : Bool)
      → All (Sendable unit r limit odd) (slice unit r limit quantity odd)
  unfolding slice size
  slice-Sendable quantity odd =
      elim (Bool-cases (leb quantity limit && is_valid unit r (finite (pos quantity)) odd)) [
        | inl at_once ↦ rw at_once ((ground arith, ground arith), tt)
        | inr sliced ↦
            rw sliced (elim (Bool-cases (ltb size r.min_quantity || ltb rounded r.min_quantity)) [
              | inl none_fits ↦ rw none_fits tt
              | inr fit ↦ rw fit (
                  All-map (Sendable unit r size odd) _ _ (λ v s. (le_trans s.0 size_le, s.1))
                    (cut-Sendable unit r sound whole size rounded odd (size-Fits (ground arith))
                      (le_trans size_le within)))
            ])
      ]
    where
      rounded : ℕ
      rounded = if odd then quantity else round_down r quantity

  pub slice-Accounts :
      (quantity : ℕ) (odd : Bool)
      → unit ∣ quantity
      → 0 < quantity
      → (odd ≡ true → r.allow_odd_lot_sell ≡ true)
      → r.min_quantity ≤ limit
      → Accounts r odd quantity (slice unit r limit quantity odd)
  unfolding slice size
  slice-Accounts quantity odd shares p liquidates le =
      elim (Bool-cases (leb quantity limit && is_valid unit r (finite (pos quantity)) odd)) [
        | inl at_once ↦ rw at_once (omega (arith, sound.min_pos), λ _. omega arith, omega arith)
        | inr sliced ↦ rw sliced (rest odd liquidates sliced)
      ]
    where
      fits : Fits r size size
      fits = size-Fits (round_down_ge r sound limit le)

      size_within : size ≤ r.max_quantity
      size_within = le_trans size_le within

      Rest : Bool → Type 0
      Rest o = Accounts r o quantity (
          let rounded = (if o then quantity else round_down r quantity) in
          if ltb size r.min_quantity || ltb rounded r.min_quantity
          then []
          else cut unit r size rounded o)

      rest :
          (o : Bool)
          → (o ≡ true → r.allow_odd_lot_sell ≡ true)
          → (leb quantity limit && is_valid unit r (finite (pos quantity)) o) ≡ false
          → Rest o
      rest true allowed sliced =
          let valid = is_valid_odd unit r sound whole quantity (omega arith) shares in
          let covers =
            cut-Covers unit r sound whole size quantity true fits size_within shares allowed
              (λ e. cc) in
          let big : limit < quantity = elim (dec_le quantity limit) [
            | yes q ↦ absurd (ground (arith, valid (le_trans q within) (allowed refl)))
            | no q ↦ omega arith
          ] in
          let exact : sum (cut unit r size quantity true) ≡ quantity = ground (arith, covers) in
          ground (arith, exact, big, fits.0, sound.min_pos)
      rest false allowed sliced =
          let bounds = round_down_bounds r sound quantity in
          let covers =
            cut-Covers unit r sound whole size (round_down r quantity) false fits size_within
              (dvd_trans unit whole (round_down_dvd r sound quantity)) (λ e. cc)
              (λ e. round_down_dvd r sound quantity) in
          ground (arith, covers, bounds, fits.0)

and-allowed : (allow odd : Bool) → (allow && odd) ≡ true → odd ≡ true
and-allowed allow odd h = ground arith

module _ (unit : ℕ) (raw : RawRules) {r : LimitOrderQuantityRules}
    (parsed : from_instrument raw ≡ ok r) (whole : unit ∣ r.quantity_increment) where
  split-slice :
      (cap : ℤ) (n : ℕ) (price : Decimal) (allow_odd_lot : Bool) {limit : ℕ}
      → maximum_quantity unit r cap price ≡ ok limit
      → unit ∣ suc n
      → split unit cap raw (finite (pos (suc n))) price allow_odd_lot
        ≡ ok (slice unit r limit (suc n) (allow_odd_lot && r.allow_odd_lot_sell))
  unfolding split
  split-slice cap n price allow_odd_lot max shares =
      let exact = (dvd_iff_mod-eq-zero unit).0 shares in
      rw ((==_iff (suc n % unit) 0).1 exact, parsed, max)

  -- For a positive quantity of whole shares, rules that validate with an increment of whole shares,
  -- and a notional cap that leaves
  -- `limit`, `split` does not raise, and every slice is at most `limit` and passes `is_valid`.
  pub split-Sendable :
      (cap : ℤ) (n : ℕ) (price : Decimal) (allow_odd_lot : Bool) {limit : ℕ}
      → maximum_quantity unit r cap price ≡ ok limit
      → unit ∣ suc n
      → (out : List ℕ) × (split unit cap raw (finite (pos (suc n))) price allow_odd_lot ≡ ok out)
        × All (Sendable unit r limit (allow_odd_lot && r.allow_odd_lot_sell)) out
  split-Sendable cap n price allow_odd_lot {limit} max shares = (
    slice unit r limit (suc n) (allow_odd_lot && r.allow_odd_lot_sell),
    split-slice cap n price allow_odd_lot max shares,
    slice-Sendable unit r (from_instrument-IsSound raw parsed) whole limit
        (maximum_quantity-le-max unit r cap price max) (suc n)
        (allow_odd_lot && r.allow_odd_lot_sell),
  )

  -- For a positive quantity of whole shares, rules that validate with an increment of whole shares,
  -- and a notional cap that leaves at
  -- least the minimum, `split` does not raise, and its slices never exceed the quantity, cover it
  -- whole when an odd lot is allowed, and otherwise leave less than a minimum and an increment.
  pub split_fulfils :
      (cap : ℤ) (n : ℕ) (price : Decimal) (allow_odd_lot : Bool) {limit : ℕ}
      → maximum_quantity unit r cap price ≡ ok limit
      → unit ∣ suc n
      → r.min_quantity ≤ limit
      → (out : List ℕ) × (split unit cap raw (finite (pos (suc n))) price allow_odd_lot ≡ ok out)
        × Accounts r (allow_odd_lot && r.allow_odd_lot_sell) (suc n) out
  split_fulfils cap n price allow_odd_lot {limit} max shares le = (
    slice unit r limit (suc n) (allow_odd_lot && r.allow_odd_lot_sell),
    split-slice cap n price allow_odd_lot max shares,
    slice-Accounts unit r (from_instrument-IsSound raw parsed) whole limit
        (maximum_quantity-le-max unit r cap price max) (suc n)
        (allow_odd_lot && r.allow_odd_lot_sell) shares (omega arith)
        (and-allowed allow_odd_lot r.allow_odd_lot_sell) le,
  )

  -- With a positive notional cap, a positive price and rules that validate with an increment of whole
  -- shares, whatever `split` returns for a positive
  -- quantity costs at most the cap in each slice.
  pub split_notional :
      (cap n p : ℕ) (allow_odd_lot : Bool) {out : List ℕ}
      → split unit (pos (suc cap)) raw (finite (pos (suc n))) (finite (pos (suc p))) allow_odd_lot
        ≡ ok out
      → All (λ v. v * suc p ≤ suc cap * unit) out
  unfolding split
  split_notional cap n p allow_odd_lot {out} h = elim (Bool-cases (suc n % unit == 0)) [
    | inl shares ↦
        let largest = maximum_quantity unit r (pos (suc cap)) (finite (pos (suc p))) in
        let (limit, max, e) = >>=-eq-ok largest _ (rw (shares, parsed) at h) in
        let sound = from_instrument-IsSound raw parsed in
        let within = maximum_quantity-le-max unit r (pos (suc cap)) (finite (pos (suc p))) max in
        let odd = allow_odd_lot && r.allow_odd_lot_sell in
        let sliced : slice unit r limit (suc n) odd ≡ out = cc in
        rw sliced at (
          All-map (Sendable unit r limit odd) (λ v. v * suc p ≤ suc cap * unit) _
            (λ v s. maximum_quantity-notional unit r cap p max v s.0)
            (slice-Sendable unit r sound whole limit within (suc n) odd))
    | inr fraction ↦ cc (rw fraction at h)
  ]
