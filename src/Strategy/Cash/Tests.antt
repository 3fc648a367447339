-- ===== src/Strategy/Cash/Tests.antt =====
-- An instance of the theorem about the cash gate.
use qapp.Base.{◌*◌, ◌≤◌, max, ◌≡◌, refl, [], ◌∷◌}
use qapp.Base.Int.{pos, pos_part, ◌*ℤ◌}
use qapp.Strategy.Orders.{open_buy_order_notional}
use qapp.Strategy.Cash.{kept_share, by_target, place, submit_buys_within_cash}
use qapp.Strategy.Cash.Gate.{submit_buys_within_cash_bounded}
use qapp.Strategy.Samples.{engine, engine-IsQuiet, config, strategy, buy_intent}

-- The larger target comes first.
order_run :
    by_target (buy_intent ∷ record buy_intent { target_qty = 300 } ∷ [])
    ≡ record buy_intent { target_qty = 300 } ∷ buy_intent ∷ []
unfolding by_target place
order_run = refl

submit_buys_within_cash_bounded_example :
    open_buy_order_notional
        (submit_buys_within_cash engine 1 config 5 1 (buy_intent ∷ []) strategy).1.world
      * 100
    ≤ max
        (open_buy_order_notional strategy.world * 100)
        (pos_part (pos 5000 *ℤ pos (kept_share config)))
submit_buys_within_cash_bounded_example =
    submit_buys_within_cash_bounded engine engine-IsQuiet 1 config 5 1 (buy_intent ∷ []) strategy
      refl
