-- ===== src/Strategy/Converge/Desired.antt =====
-- What a convergence wants, strategies/target_quantities.py: the side and quantity of
-- `_target_order_intent`, `_held_instrument_ids`, `_desired_quantities` and `_target_achieved`.
use qapp.Base.{
  ℕ, zero, suc, Bool, true, false, ◌&&◌, ◌||◌, Option, none, some, List, [], ◌∷◌, ◌==◌,
  if◌then◌else◌, Dict, IdSet, lookup, insert, add,
}
use qapp.Base.Int.{ℤ, pos, negsuc, pos_part, ltb_ℤ, ◌-ℤ◌}
use qapp.Strategy.Types.{Side, buy, sell, World, Position, Config, Strategy}
use qapp.Strategy.Orders.{open_order_instruments}
use qapp.Strategy.Submit.{is_some}

-- By the sign of `delta_qty`.
abbrev pub by_delta : ℤ → Option (Side × ℕ)
by_delta (pos zero) = none
by_delta (pos (suc d)) = some (buy, suc d)
by_delta (negsuc d) = some (sell, suc d)

-- The side and the quantity of an intent, if one is wanted.
unfoldable pub side_and_quantity : ℤ → ℕ → Option (Side × ℕ)
side_and_quantity current zero =
    if ltb_ℤ (pos 0) current then some (sell, pos_part current) else none
side_and_quantity current (suc n) = by_delta (pos (suc n) -ℤ current)

-- `_current_quantity(...) > 0`
abbrev pub holds : World → ℕ → Bool
holds w id = ltb_ℤ (pos 0) (w.net_position id)

unfoldable pub held_of_positions : World → List Position → IdSet → IdSet
held_of_positions w [] result = result
held_of_positions w (p ∷ ps) result =
    held_of_positions w ps
      (if p.is_long && holds w p.instrument_id then add p.instrument_id result else result)

unfoldable pub held_of_ids : World → List ℕ → IdSet → IdSet
held_of_ids w [] result = result
held_of_ids w (id ∷ ids) result = held_of_ids w ids (if holds w id then add id result else result)

-- `_held_instrument_ids`
unfoldable pub held_instrument_ids : Strategy → IdSet
held_instrument_ids s =
    held_of_ids s.world s.instrument_ids (held_of_positions s.world s.world.positions_open [])

-- The loop over `desired.setdefault(instrument_id, 0)`.
unfoldable pub set_defaults : IdSet → Dict ℕ → Dict ℕ
set_defaults [] d = d
set_defaults (id ∷ ids) d = set_defaults ids (if is_some (lookup id d) then d else insert id 0 d)

-- `_desired_quantities`
unfoldable pub desired_quantities : Config → Strategy → Dict ℕ
desired_quantities config s =
    if config.exit_non_targets
    then set_defaults (held_instrument_ids s) s.target_quantities
    else s.target_quantities

-- `current_qty == target_qty`
abbrev pub is_at : ℤ → ℕ → Bool
is_at (pos q) target = q == target
is_at (negsuc _) target = false

-- The loop of `_target_achieved`.
unfoldable pub all_reached : Strategy → Dict ℕ → Bool
all_reached s [] = true
all_reached s ((id, q) ∷ d) =
    (is_some (lookup id s.frozen_instruments) || is_at (s.world.net_position id) q)
    && all_reached s d

abbrev pub is_empty : {A : Type 0} → List A → Bool
is_empty [] = true
is_empty (_ ∷ _) = false

-- `_target_achieved`
unfoldable pub target_achieved : Config → Strategy → Bool
target_achieved config s =
    is_empty (open_order_instruments s.world)
    && is_empty s.deferred_buys
    && is_empty s.insufficient_funds
    && all_reached s (desired_quantities config s)
