-- ===== src/Strategy/Submit/Tests.antt =====
-- Runs of the clamp, and instances of the theorems about sells.
use qapp.Base.{◌≤◌, ◌≡◌, refl, ◌&&◌, some, [], ◌∷◌, ltb, insert, if◌then◌else◌, ok}
use qapp.Base.Int.{pos_part, ◌-ℤ◌}
use qapp.Strategy.Orders.{
  open_sell_quantity, active_orders, collect, sum_by, today_fill_snapshot, scan_orders, scan_fills,
}
use qapp.Strategy.Submit.{
  is_some, nothing_sellable, clamp_stable, clamp_sell_quantity, submit_target_quantity,
}
use qapp.Strategy.Submit.Clamp.{available, third, is_stable, clamp_bounds, clamp_latches}
use qapp.Strategy.Submit.Limit.{Within, base}
use qapp.Strategy.Submit.Oversell.{submit_target_quantity-Within}
use qapp.Strategy.Samples.{engine, engine-IsQuiet, config, strategy, sell_intent}

program : Unit {0}
unfolding ◌-ℤ◌ nothing_sellable clamp_stable clamp_sell_quantity open_sell_quantity active_orders
    collect sum_by today_fill_snapshot scan_orders scan_fills
program = tt

-- 250 of 300 requested shares may be sold, and the instrument is blocked for the day.
clamp_run : clamp_sell_quantity engine 5 sell_intent 300 strategy ≡ (
  ok (record sell_intent { sellable_qty = some 250 }, some 250),
  record strategy { sellable_exhausted = (7, 5) ∷ [] },
)
unfolding program
clamp_run = refl

clamp_bounds_example : (250 ≤ 300) × (250 ≤ pos_part (available engine 5 sell_intent strategy))
unfolding program
clamp_bounds_example =
    clamp_bounds engine 5 sell_intent strategy 300
      {i' = record sell_intent { sellable_qty = some 250 }} refl

clamp_latches_example :
    (clamp_sell_quantity engine 5 sell_intent 300 strategy).1.sellable_exhausted ≡ (
      if is_stable engine 5 sell_intent strategy
        && is_some ((third engine 5 sell_intent strategy).venue_sellable 7)
        && ltb (pos_part (available engine 5 sell_intent strategy)) 300
      then insert 7 5 []
      else [])
clamp_latches_example = clamp_latches engine 5 sell_intent strategy 299

submit_target_quantity-Within_example :
    Within engine 5 7
      (open_sell_quantity strategy.world 7)
      (base engine 5 7 strategy.world)
      (submit_target_quantity engine 1 config 5 1 sell_intent strategy).1.world
submit_target_quantity-Within_example =
    submit_target_quantity-Within engine engine-IsQuiet config 5 1 1 sell_intent strategy refl
