-- ===== src/Strategy/Converge/Decide.antt =====
-- The side and the quantity of an order, and what an achieved target means.
use qapp.Base.{
  ℕ, zero, suc, ◌+◌, ◌≤◌, ◌<◌, ◌≡◌, refl, ap, ◌⊎◌, inl, inr, true, false, Option, none, some, List,
  [], ◌∷◌, arith, lt→ltb, ltb, ==_iff, Dict, lookup, Bool-cases,
}
use qapp.Base.Int.{ℤ, pos, negsuc, pos_part, neg_part, ◌-ℤ◌, -ℤ_parts}
use qapp.Strategy.Types.{Side, buy, sell, Config, Strategy}
use qapp.Strategy.Orders.{open_order_instruments}
use qapp.Strategy.Submit.{is_some}
use qapp.Strategy.Converge.Desired.{
  by_delta, side_and_quantity, is_at, is_empty, all_reached, target_achieved, desired_quantities,
}

not_ltb : (a b : ℕ) → b ≤ a → ltb a b ≡ false
not_ltb a b h = ground arith

-- What the wanted order is to do: nothing where the holding is at the target, or where nothing is
-- wanted and nothing held; a buy brings the holding up to the target, a sell down to it.
abbrev pub Closes : ℤ → ℕ → Option (Side × ℕ) → Type 0
Closes current target none = (current ≡ pos target) ⊎ ((target ≡ 0) × (pos_part current ≡ 0))
Closes current target (some (buy, q)) =
    (0 < q) × (0 < target) × (pos_part current + q ≡ target + neg_part current)
Closes current target (some (sell, q)) = (0 < q) × (current ≡ pos (target + q))

delta-Closes :
    (current d : ℤ) (n : ℕ)
    → pos_part d + pos_part current ≡ neg_part d + suc n + neg_part current
    → Closes current (suc n) (by_delta d)
delta-Closes current (pos zero) n h = inl (ground (arith, h))
delta-Closes current (pos (suc d)) n h = (ground arith, ground arith, omega (arith, h))
delta-Closes current (negsuc d) n h = (ground arith, ground (arith, h))

by_delta-Closes : (current : ℤ) (n : ℕ) → Closes current (suc n) (by_delta (pos (suc n) -ℤ current))
by_delta-Closes current n =
    delta-Closes current (pos (suc n) -ℤ current) n (omega (arith, -ℤ_parts (pos (suc n)) current))

-- The order that is wanted for an instrument has a positive quantity and closes exactly the gap
-- between the holding and the target; none is wanted only where there is no gap, or where the target
-- is 0 and nothing is held long.
pub side_and_quantity-Closes :
    (current : ℤ) (target : ℕ) → Closes current target (side_and_quantity current target)
unfolding side_and_quantity
side_and_quantity-Closes (pos zero) zero = inl refl
side_and_quantity-Closes (pos (suc q)) zero =
    rw (lt→ltb 0 (suc q + 0) (omega arith)) (omega arith, ap pos (omega arith))
side_and_quantity-Closes (negsuc m) zero =
    rw (not_ltb (0 + suc m) 0 (omega arith)) (inr (refl, refl))
side_and_quantity-Closes current (suc n) = by_delta-Closes current n

no_gap-none : (d : ℤ) → pos_part d ≡ neg_part d → by_delta d ≡ none
no_gap-none (pos zero) h = refl
no_gap-none (pos (suc d)) h = ground (arith, h)
no_gap-none (negsuc d) h = ground (arith, h)

-- No order is wanted at the target.
pub at_target-none : (q : ℕ) → side_and_quantity (pos q) q ≡ none
unfolding side_and_quantity
at_target-none zero = refl
at_target-none (suc q) =
    no_gap-none (pos (suc q) -ℤ pos (suc q)) (omega (arith, -ℤ_parts (pos (suc q)) (pos (suc q))))

-- Every desired instrument that is not frozen is held in exactly the desired quantity.
abbrev pub Reached : Strategy → Dict ℕ → Type 0
Reached s [] = Unit
Reached s ((id, q) ∷ d) =
    ((is_some (lookup id s.frozen_instruments) ≡ true) ⊎ (s.world.net_position id ≡ pos q))
    × Reached s d

is_at-eq : (z : ℤ) (q : ℕ) → is_at z q ≡ true → z ≡ pos q
is_at-eq (pos p) q h = ap pos ((==_iff p q).0 h)
is_at-eq (negsuc n) q h = cc h

all_reached-Reached : (s : Strategy) (d : Dict ℕ) → all_reached s d ≡ true → Reached s d
unfolding all_reached
all_reached-Reached s [] h = tt
all_reached-Reached s ((id, q) ∷ d) h =
    elim (Bool-cases (is_some (lookup id s.frozen_instruments))) [
      | inl is_frozen ↦ (inl is_frozen, all_reached-Reached s d (ground (arith, h)))
      | inr free ↦ (
        inr (is_at-eq (s.world.net_position id) q (ground (arith, h, free))),
        all_reached-Reached s d (ground (arith, h)),
      )
    ]

is_empty-eq : {A : Type 0} (l : List A) → is_empty l ≡ true → l ≡ []
is_empty-eq [] h = refl
is_empty-eq (_ ∷ _) h = cc h

-- A target counts as achieved only if no order is open, no buy is deferred or blocked for missing
-- cash, and every desired instrument that is not frozen is held in exactly its quantity.
pub target_achieved-Reached :
    (config : Config) (s : Strategy)
    → target_achieved config s ≡ true
    → (open_order_instruments s.world ≡ [])
      × (s.deferred_buys ≡ [])
      × (s.insufficient_funds ≡ [])
      × Reached s (desired_quantities config s)
unfolding target_achieved
target_achieved-Reached config s h = (
  is_empty-eq (open_order_instruments s.world) (ground (arith, h)),
  is_empty-eq s.deferred_buys (ground (arith, h)),
  is_empty-eq s.insufficient_funds (ground (arith, h)),
  all_reached-Reached s (desired_quantities config s) (ground (arith, h)),
)
