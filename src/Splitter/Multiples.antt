-- ===== src/Splitter/Multiples.antt =====
-- Arithmetic of `round_down`, `needed_for` and the loop `move_from_end`.
use Prim.Native.Nat.{◌∣◌}
use native.Mathlib.Nat.{le_of_dvd, dvd-mul_left, dvd-sub, div-mul-le_self, lt-div-mul-add}
use native.Mathlib.Decide.{dec_le}
use qapp.Base.{
  ℕ, ◌+◌, ◌-◌, ◌/◌, ◌≤◌, ◌<◌, min, ◌≡◌, refl, inl, inr, List, [], ◌∷◌, arith, All, sum, Bool-cases,
  ◌==◌,
}
use qapp.Splitter.{round_down, move_one, move_from_end, needed_for, available_in}
use qapp.Splitter.Fields.{LimitOrderQuantityRules, IsSound}

-- A slice of at least the minimum, of at most `limit`, in whole increments.
abbrev pub Fits : LimitOrderQuantityRules → ℕ → ℕ → Type 0
Fits r limit v = (r.min_quantity ≤ v) × (v ≤ limit) × (r.quantity_increment ∣ v)

min-dvd : (d a b : ℕ) → d ∣ a → d ∣ b → d ∣ min a b
min-dvd d a b h k = elim (dec_le a b) [
  | yes p ↦ (let e : min a b ≡ a = omega arith in rw e h)
  | no p ↦ (let e : min a b ≡ b = omega arith in rw e k)
]

module _ (r : LimitOrderQuantityRules) (sound : IsSound r) where
  pub round_down_dvd : (q : ℕ) → r.quantity_increment ∣ round_down r q
  unfolding round_down
  round_down_dvd q = dvd-mul_left r.quantity_increment (q / r.quantity_increment)

  pub round_down_bounds :
      (q : ℕ) → (round_down r q ≤ q) × (q < round_down r q + r.quantity_increment)
  unfolding round_down
  round_down_bounds q = (div-mul-le_self q r.quantity_increment, lt-div-mul-add sound.increment_pos)

  pub needed_dvd : (remaining : ℕ) → r.quantity_increment ∣ needed_for r remaining
  unfolding needed_for
  needed_dvd remaining = dvd-mul_left r.quantity_increment _

  pub needed_bounds :
      (remaining : ℕ)
      → remaining < r.min_quantity
      → (r.min_quantity ≤ remaining + needed_for r remaining)
        × (remaining + needed_for r remaining < r.min_quantity + r.quantity_increment)
  unfolding needed_for
  needed_bounds remaining h =
      let x = r.min_quantity - remaining + r.quantity_increment - 1 in
      let low = div-mul-le_self x r.quantity_increment in
      let high = lt-div-mul-add {a = x} sound.increment_pos in
      (omega (arith, low, high, sound.increment_pos), omega (arith, low, high, sound.increment_pos))

  -- What the loop establishes of its slices, remainder and rest, from the ones it starts with.
  pub record Moved (limit : ℕ) (vs : List ℕ) (remaining needed : ℕ) (out : List ℕ × ℕ × ℕ)
      : Type 0 where
    pub conserved : sum out.0 + out.1 ≡ sum vs + remaining
    pub lifted : out.1 + out.2 ≡ remaining + needed
    pub rest : out.2 ≡ needed - available_in r vs
    pub rest_dvd : r.quantity_increment ∣ out.2
    pub fits : All (Fits r limit) out.0

  -- One round, from what the later rounds established.
  move_one-Moved :
      (limit v : ℕ) (vs : List ℕ) (remaining needed : ℕ) (out : List ℕ × ℕ × ℕ)
      → Fits r limit v
      → Moved limit vs remaining needed out
      → Moved limit (v ∷ vs) remaining needed (move_one r v out)
  unfolding move_one available_in
  move_one-Moved limit v vs remaining needed (ws, left, need) fit m =
      elim (Bool-cases (need == 0)) [
        | inl done ↦ rw done (record {
          conserved = omega (arith, m.conserved);
          lifted = m.lifted;
          rest = ground (arith, m.rest);
          rest_dvd = m.rest_dvd;
          fits = (fit, m.fits);
        })
        | inr more ↦ rw more (record {
          conserved = omega (arith, m.conserved, le);
          lifted = omega (arith, m.lifted);
          rest = omega (arith, m.rest);
          rest_dvd = dvd-sub r.quantity_increment m.rest_dvd moved_dvd;
          fits = (
            (
              omega (arith, le, fit.0),
              omega (arith, fit.1),
              dvd-sub r.quantity_increment fit.2 moved_dvd,
            ),
            m.fits,
          );
        })
      ]
    where
      le : round_down r (v - r.min_quantity) ≤ v - r.min_quantity
      le = (round_down_bounds (v - r.min_quantity)).0

      moved_dvd : r.quantity_increment ∣ min need (round_down r (v - r.min_quantity))
      moved_dvd =
          min-dvd r.quantity_increment need (round_down r (v - r.min_quantity)) m.rest_dvd
            (round_down_dvd (v - r.min_quantity))

  pub move_from_end-Moved :
      (limit : ℕ) (vs : List ℕ) (remaining needed : ℕ)
      → All (Fits r limit) vs
      → r.quantity_increment ∣ needed
      → Moved limit vs remaining needed (move_from_end r vs remaining needed)
  unfolding move_from_end available_in
  move_from_end-Moved limit [] remaining needed fs d = record {
    conserved = refl;
    lifted = refl;
    rest = omega arith;
    rest_dvd = d;
    fits = tt;
  }
  move_from_end-Moved limit (v ∷ vs) remaining needed fs d =
      move_one-Moved limit v vs remaining needed (move_from_end r vs remaining needed) fs.0
        (move_from_end-Moved limit vs remaining needed fs.1 d)

  -- Rounding down stays at or above the minimum, which is a multiple itself.
  pub round_down_ge : (q : ℕ) → r.min_quantity ≤ q → r.min_quantity ≤ round_down r q
  round_down_ge q h = elim (dec_le r.min_quantity (round_down r q)) [
    | yes le ↦ le
    | no lt ↦ absurd (
        omega (
          arith,
          (round_down_bounds q).1,
          le_of_dvd {n = r.min_quantity - round_down r q} (omega (arith, lt))
              (dvd-sub r.quantity_increment sound.min_multiple (round_down_dvd q)),
        ))
  ]
