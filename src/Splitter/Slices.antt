-- ===== src/Splitter/Slices.antt =====
-- What `top_up`, `cut` and `slice` produce: which slices, and how much of the quantity they cover.
use Prim.Native.Nat.{◌∣◌}
use native.Mathlib.Nat.{dvd_trans, dvd_iff_mod-eq-zero, mod-lt}
use qapp.Base.{
  ℕ, ◌/◌, ◌%◌, ◌≤◌, ◌≡◌, ◌≢◌, inl, inr, Bool, true, List, [], ◌∷◌, arith, All, All-append, All-map,
  All-replicate, replicate, Bool-cases, ◌==◌,
}
use qapp.Base.Int.{pos}
use qapp.Base.Decimal.{finite}
use qapp.Splitter.{top_up, is_valid, append_remainder, cut}
use qapp.Splitter.Fields.{LimitOrderQuantityRules, IsSound}
use qapp.Splitter.TopUp.{ToppedUp, top_up-ToppedUp}
use qapp.Splitter.Multiples.{Fits}

-- A slice that may be sent as an order: within `limit` and accepted by `is_valid`.
abbrev pub Sendable : ℕ → LimitOrderQuantityRules → ℕ → Bool → ℕ → Type 0
Sendable unit r limit odd v = (v ≤ limit) × (is_valid unit r (finite (pos v)) odd ≡ true)

-- `unit` units make a share, and the increment is a whole number of shares.
module _ (unit : ℕ) (r : LimitOrderQuantityRules) (sound : IsSound r)
    (whole : unit ∣ r.quantity_increment) where
  pub is_valid_of_Fits :
      (v : ℕ) (odd : Bool) → Fits r r.max_quantity v → is_valid unit r (finite (pos v)) odd ≡ true
  unfolding is_valid
  is_valid_of_Fits v odd fit =
      let w = (dvd_iff_mod-eq-zero unit).0 (dvd_trans unit whole fit.2) in
      let d = (dvd_iff_mod-eq-zero r.quantity_increment).0 fit.2 in
      ground (arith, sound.min_pos, w, d)

  pub is_valid_odd :
      (v : ℕ)
      → v ≢ 0
      → unit ∣ v
      → v ≤ r.max_quantity
      → r.allow_odd_lot_sell ≡ true
      → is_valid unit r (finite (pos v)) true ≡ true
  unfolding is_valid
  is_valid_odd v ne d le allowed = let w = (dvd_iff_mod-eq-zero unit).0 d in ground (arith, w)

  Sendable-of_Fits :
      (limit : ℕ) (odd : Bool)
      → limit ≤ r.max_quantity
      → (v : ℕ) → Fits r limit v
      → Sendable unit r limit odd v
  Sendable-of_Fits limit odd le v fit =
      (fit.1, is_valid_of_Fits v odd (fit.0, omega (arith, fit.1), fit.2))

  -- Appending keeps every slice sendable: the remainder is only appended if it is valid.
  append_remainder-Sendable :
      (limit : ℕ) (odd : Bool) (out : List ℕ × ℕ)
      → All (Sendable unit r limit odd) out.0
      → out.1 ≤ limit
      → All (Sendable unit r limit odd) (append_remainder unit r odd out)
  unfolding append_remainder
  append_remainder-Sendable limit odd (vs, left) h le =
      elim (Bool-cases (is_valid unit r (finite (pos left)) odd)) [
        | inl valid ↦
            rw valid (All-append (Sendable unit r limit odd) vs (left ∷ []) h ((le, valid), tt))
        | inr not_valid ↦ rw not_valid h
      ]

  pub cut-Sendable :
      (limit quantity : ℕ) (odd : Bool)
      → Fits r limit limit
      → limit ≤ r.max_quantity
      → All (Sendable unit r limit odd) (cut unit r limit quantity odd)
  unfolding cut
  cut-Sendable limit quantity odd fit le = elim (Bool-cases (quantity % limit == 0)) [
    | inl exact ↦ rw exact full
    | inr more ↦ rw more (
        append_remainder-Sendable limit odd
          (top_up r (replicate (quantity / limit) limit) (quantity % limit))
          (All-map (Fits r limit) (Sendable unit r limit odd) _ (Sendable-of_Fits limit odd le)
            topped.fits)
          topped.bounded)
  ]
    where
      full : All (Sendable unit r limit odd) (replicate (quantity / limit) limit)
      full =
          All-replicate (Sendable unit r limit odd) (quantity / limit) limit
            (Sendable-of_Fits limit odd le limit fit)

      topped :
          ToppedUp r sound limit
            (replicate (quantity / limit) limit)
            (quantity % limit)
            (top_up r (replicate (quantity / limit) limit) (quantity % limit))
      topped =
          top_up-ToppedUp r sound (quantity / limit) limit (quantity % limit)
            (All-replicate (Fits r limit) (quantity / limit) limit fit)
            (mod-lt quantity (omega (arith, fit.0, sound.min_pos)))
