-- ===== src/Splitter/TopUp.antt =====
-- What `top_up` does with the last, too small remainder.
use native.Mathlib.Nat.{le_of_dvd}
use qapp.Base.{
  ℕ, zero, suc, ◌+◌, ◌-◌, ◌≤◌, ◌<◌, ◌≡◌, refl, ◌⊎◌, inl, inr, Bool, true, ◌&&◌, List, arith, All,
  sum, replicate, Bool-cases, ltb, leb,
}
use qapp.Splitter.{round_down, move_from_end, needed_for, available_in, top_up}
use qapp.Splitter.Fields.{LimitOrderQuantityRules, IsSound}
use qapp.Splitter.Multiples.{
  Fits, Moved, move_from_end-Moved, needed_dvd, needed_bounds, round_down_dvd, round_down_bounds,
}

module _ (r : LimitOrderQuantityRules) (sound : IsSound r) where
  available_pos :
      (k limit : ℕ)
      → 0 < available_in r (replicate k limit)
      → 0 < round_down r (limit - r.min_quantity)
  unfolding available_in
  available_pos zero limit h = absurd (omega arith)
  available_pos (suc k) limit h = ground (arith, available_pos k limit)

  -- Slices that can give shares away exceed the minimum by an increment.
  available_room :
      (k limit : ℕ)
      → 0 < available_in r (replicate k limit)
      → r.min_quantity + r.quantity_increment ≤ limit
  available_room k limit h =
      let p = available_pos k limit h in
      let d = le_of_dvd p (round_down_dvd r sound (limit - r.min_quantity)) in
      omega (arith, d, (round_down_bounds r sound (limit - r.min_quantity)).0, sound.increment_pos)

  pub record ToppedUp (limit : ℕ) (vs : List ℕ) (remaining : ℕ) (out : List ℕ × ℕ) : Type 0 where
    pub conserved : sum out.0 + out.1 ≡ sum vs + remaining
    pub fits : All (Fits r limit) out.0
    pub bounded : out.1 ≤ limit
    pub lifted :
        (out.1 ≡ remaining)
        ⊎ ((r.min_quantity ≤ out.1) × (out.1 ≡ remaining + needed_for r remaining))

  pub top_up-ToppedUp :
      (k limit remaining : ℕ)
      → All (Fits r limit) (replicate k limit)
      → remaining < limit
      → ToppedUp limit (replicate k limit) remaining (top_up r (replicate k limit) remaining)
  unfolding top_up
  top_up-ToppedUp k limit remaining fs lt = elim (Bool-cases given) [
    | inl yes_given ↦ rw yes_given (record {
      conserved = omega (arith, m.conserved, spent yes_given);
      fits = m.fits;
      bounded = omega (arith, raised yes_given, room yes_given, bound yes_given);
      lifted = inr (omega (arith, raised yes_given, bound yes_given), raised yes_given);
    })
    | inr not_given ↦
        rw not_given
          (record { conserved = refl; fits = fs; bounded = omega arith; lifted = inl refl })
  ]
    where
      vs : List ℕ
      vs = replicate k limit

      needed : ℕ
      needed = needed_for r remaining

      given : Bool
      given = ltb remaining r.min_quantity && leb needed (available_in r vs)

      m : Moved r sound limit vs remaining needed (move_from_end r vs remaining needed)
      m = move_from_end-Moved r sound limit vs remaining needed fs (needed_dvd r sound remaining)

      below : given ≡ true → (remaining < r.min_quantity) × (needed ≤ available_in r vs)
      below e = ground arith

      spent : given ≡ true → (move_from_end r vs remaining needed).2 ≡ 0
      spent e = omega (arith, m.rest, below e)

      raised : given ≡ true → (move_from_end r vs remaining needed).1 ≡ remaining + needed
      raised e = omega (arith, m.lifted, spent e)

      bound :
          given ≡ true
          → (r.min_quantity ≤ remaining + needed)
            × (remaining + needed < r.min_quantity + r.quantity_increment)
      bound e = needed_bounds r sound remaining (below e).0

      room : given ≡ true → r.min_quantity + r.quantity_increment ≤ limit
      room e = available_room k limit (omega (arith, below e, bound e))
