-- ===== src/Strategy/Converge/Tests.antt =====
-- Runs of the classification, and instances of the theorems about the convergence.
use qapp.Base.{◌≡◌, refl, inl, true, false, if◌then◌else◌, none, some, [], ◌∷◌, ok}
use qapp.Base.Int.{pos, negsuc, ◌-ℤ◌}
use qapp.Strategy.Types.{buy, sell, Strategy}
use qapp.Strategy.Samples.{engine, config, strategy, world, market}
use qapp.Strategy.Orders.{open_order_instruments, active_orders, collect}
use qapp.Strategy.Converge.{
  priced_intent, target_order_intent, by_side, classify_intent, classify, note, classify_all,
  converge_to_target, converge_to_target_locked,
}
use qapp.Strategy.Converge.Desired.{
  side_and_quantity, held_of_positions, held_of_ids, held_instrument_ids, set_defaults,
  desired_quantities, all_reached, target_achieved,
}
use qapp.Strategy.Converge.Decide.{Closes, side_and_quantity-Closes}
use qapp.Strategy.Converge.Buckets.{AllTradable, classify_all-Tradable}
use qapp.Strategy.Converge.Achieved.{achieved_target_wants_nothing}
use qapp.Strategy.Converge.Guards.{convergence_keeps_lock, idle_convergence}
use qapp.Strategy.Submit.{Engine}
use qapp.Strategy.Windows.{within_trading_window}

program : Unit {0}
unfolding ◌-ℤ◌ active_orders collect open_order_instruments side_and_quantity held_of_positions
    held_of_ids held_instrument_ids set_defaults desired_quantities all_reached target_achieved
    priced_intent target_order_intent by_side classify_intent classify note classify_all
program = tt

abbrev reached : Strategy
reached = record strategy { target_quantities = (7, 350) ∷ (8, 0) ∷ [] }

side_runs :
    (side_and_quantity (pos 350) 100 ≡ some (sell, 250))
    × (side_and_quantity (pos 350) 0 ≡ some (sell, 350))
    × (side_and_quantity (negsuc 4) 10 ≡ some (buy, 15))
    × (side_and_quantity (negsuc 4) 0 ≡ none)
unfolding program
side_runs = (refl, refl, refl, refl)

side_and_quantity-Closes_example : Closes (pos 350) 100 (side_and_quantity (pos 350) 100)
side_and_quantity-Closes_example = side_and_quantity-Closes (pos 350) 100

achieved_target_wants_nothing_example :
    let r =
      classify_all engine market 1 config
        (open_order_instruments world)
        5
        (desired_quantities config reached)
        reached in
    (r.0.sell_intents ≡ [])
    × (r.0.buy_intents ≡ [])
    × (r.0.skip_intent_error ≡ [])
    × (r.1 ≡ reached)
unfolding program
achieved_target_wants_nothing_example =
    achieved_target_wants_nothing engine market 1 config 5 reached refl

classify_all-Tradable_example :
    AllTradable engine market 1 config
      (8 ∷ [])
      5
      []
      (classify_all engine market 1 config (8 ∷ []) 5 ((7, 100) ∷ (8, 200) ∷ []) strategy).0
classify_all-Tradable_example =
    classify_all-Tradable engine market 1 config (8 ∷ []) 5 ((7, 100) ∷ (8, 200) ∷ []) strategy

-- In the afternoon another thread holds the lock, and frees it while a forced call waits.
abbrev locked : Strategy
locked = record strategy {
  converge_locked = true;
  world = record world { time_of_day = some 70 };
  last_quote_tick_ts_event = 565;
}

abbrev freeing : Engine
freeing = record engine { wait_for_lock = λ s. record s { converge_locked = false } }

convergence_keeps_lock_example :
    (converge_to_target freeing market 1 config 5 true locked).1.converge_locked
    ≡ (if within_trading_window freeing config locked 0 then false else true)
convergence_keeps_lock_example = convergence_keeps_lock freeing market 1 config 5 true locked

idle_convergence_run :
    converge_to_target_locked engine market 1 config 5 (record strategy { target_version = none })
    ≡ (ok tt, record strategy { target_version = none })
idle_convergence_run =
    idle_convergence engine market 1 config 5 (record strategy { target_version = none }) (inl refl)
