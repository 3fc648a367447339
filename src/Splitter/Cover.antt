-- ===== src/Splitter/Cover.antt =====
-- How much of the quantity the slices cover.
use Prim.Native.Nat.{◌∣◌}
use native.Mathlib.Decide.{dec_le}
use native.Mathlib.Nat.{dvd_refl, dvd-add, dvd_trans, dvd-mod_iff, mod-lt, div-add-mod'}
use qapp.Base.{
  ℕ, ◌+◌, ◌*◌, ◌/◌, ◌%◌, ◌≤◌, ◌<◌, ◌≡◌, refl, ◌⊎◌, inl, inr, Bool, true, false, List, [], ◌∷◌,
  arith, All-replicate, sum, sum-append, sum-replicate, replicate, Bool-cases, ◌==◌, ==_iff,
}
use qapp.Base.Int.{pos}
use qapp.Base.Decimal.{finite}
use qapp.Splitter.{needed_for, top_up, is_valid, append_remainder, cut}
use qapp.Splitter.Fields.{LimitOrderQuantityRules, IsSound}
use qapp.Splitter.Slices.{is_valid_of_Fits, is_valid_odd}
use qapp.Splitter.TopUp.{ToppedUp, top_up-ToppedUp}
use qapp.Splitter.Multiples.{Fits, needed_dvd}

-- How much of `quantity` the slices cover: all of it, or, outside liquidation, all but less than
-- the minimum.
abbrev pub Covers : LimitOrderQuantityRules → Bool → ℕ → List ℕ → Type 0
Covers r odd quantity out =
    (sum out ≡ quantity)
    ⊎ ((odd ≡ false) × (sum out < quantity) × (quantity < sum out + r.min_quantity))

-- `unit` units make a share, and the increment is a whole number of shares.
module _ (unit : ℕ) (r : LimitOrderQuantityRules) (sound : IsSound r)
    (whole : unit ∣ r.quantity_increment) where
  -- The remainder stays in whole shares, and outside liquidation in whole increments.
  remainder-dvd :
      (d limit remaining : ℕ) (out : ℕ)
      → d ∣ remaining
      → d ∣ r.quantity_increment
      → ((out ≡ remaining) ⊎ ((r.min_quantity ≤ out) × (out ≡ remaining + needed_for r remaining)))
      → d ∣ out
  remainder-dvd d limit remaining out h k (inl e) = rw e h
  remainder-dvd d limit remaining out h k (inr (_, e)) =
      rw e (dvd-add d h (dvd_trans d k (needed_dvd r sound remaining)))

  append_remainder-Covers :
      (odd : Bool) (quantity : ℕ) (out : List ℕ × ℕ)
      → (odd ≡ true → is_valid unit r (finite (pos out.1)) true ≡ true)
      → (r.min_quantity ≤ out.1 → is_valid unit r (finite (pos out.1)) odd ≡ true)
      → 0 < out.1
      → sum out.0 + out.1 ≡ quantity
      → Covers r odd quantity (append_remainder unit r odd out)
  unfolding append_remainder
  append_remainder-Covers true quantity (vs, left) liquidates fits p e =
      rw (liquidates refl) (inl (omega (arith, sum-append vs (left ∷ []))))
  append_remainder-Covers false quantity (vs, left) liquidates fits p e =
      elim (Bool-cases (is_valid unit r (finite (pos left)) false)) [
        | inl valid ↦ rw valid (inl (omega (arith, sum-append vs (left ∷ []))))
        | inr not_valid ↦ rw not_valid (
            inr (
              refl,
              omega arith,
              elim (dec_le r.min_quantity left) [ yes le ↦ cc (fits le) | no lt ↦ omega arith ],
            ))
      ]

  pub cut-Covers :
      (limit quantity : ℕ) (odd : Bool)
      → Fits r limit limit
      → limit ≤ r.max_quantity
      → unit ∣ quantity
      → (odd ≡ true → r.allow_odd_lot_sell ≡ true)
      → (odd ≡ false → r.quantity_increment ∣ quantity)
      → Covers r odd quantity (cut unit r limit quantity odd)
  unfolding cut
  cut-Covers limit quantity odd fit le shares liquidates increments =
      elim (Bool-cases (quantity % limit == 0)) [
        | inl exact ↦ rw exact (inl (omega (arith, full, parts, (==_iff _ 0).0 exact)))
        | inr more ↦ rw more (
            append_remainder-Covers odd quantity out (λ o. liquidated more o) (λ lo. fitted more lo)
              (positive more) (omega (arith, t.conserved, full, parts)))
      ]
    where
      vs : List ℕ
      vs = replicate (quantity / limit) limit

      remaining : ℕ
      remaining = quantity % limit

      parts : quantity / limit * limit + quantity % limit ≡ quantity
      parts = div-add-mod' quantity limit

      full : sum vs ≡ quantity / limit * limit
      full = sum-replicate (quantity / limit) limit

      out : List ℕ × ℕ
      out = top_up r vs remaining

      t : ToppedUp r sound limit vs remaining out
      t =
          top_up-ToppedUp r sound (quantity / limit) limit remaining
            (All-replicate (Fits r limit) (quantity / limit) limit fit)
            (mod-lt quantity (omega (arith, fit.0, sound.min_pos)))

      positive : (remaining == 0) ≡ false → 0 < out.1
      positive more = ground (arith, t.lifted, sound.min_pos)

      divides : (d : ℕ) → d ∣ quantity → d ∣ r.quantity_increment → d ∣ out.1
      divides d h k =
          remainder-dvd d limit remaining out.1 ((dvd-mod_iff d (dvd_trans d k fit.2)).1 h) k
            t.lifted

      liquidated :
          (remaining == 0) ≡ false → odd ≡ true → is_valid unit r (finite (pos out.1)) true ≡ true
      liquidated more o =
          is_valid_odd unit r sound whole out.1 (omega (arith, positive more))
            (divides unit shares whole) (omega (arith, t.bounded, le)) (liquidates o)

      fitted :
          (remaining == 0) ≡ false
          → r.min_quantity ≤ out.1
          → is_valid unit r (finite (pos out.1)) odd ≡ true
      fitted more lo = elim (Bool-cases odd) [
        | inl o ↦ rw o (liquidated more o)
        | inr o ↦ is_valid_of_Fits unit r sound whole out.1 odd (
          lo,
          omega (arith, t.bounded, le),
          divides r.quantity_increment (increments o) (dvd_refl r.quantity_increment),
        )
      ]
