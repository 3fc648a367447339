-- ===== src/Strategy/Unfilled/Tests.antt =====
-- A run of the sweep, and an instance of its theorem.
use qapp.Base.{◌≡◌, refl, ◌⊎◌, some, true}
use qapp.Strategy.Types.{World}
use qapp.Strategy.Orders.{unfilled_timeout_anchor_ts}
use qapp.Strategy.Unfilled.{
  limit_reason, price_limit_reason, note_cancelled, is_due, may_cancel, reconcile_order,
}
use qapp.Strategy.Unfilled.Cancels.{Due, reconcile_order-changes}
use qapp.Strategy.Samples.{engine, config, strategy, world, market, open_order}

-- The order's latest activity is 17 ticks old, more than the 15 of the timeout.
may_cancel_run : may_cancel engine market 1 config 520 open_order strategy ≡ true
unfolding may_cancel is_due price_limit_reason limit_reason unfilled_timeout_anchor_ts
may_cancel_run = refl

reconcile_order-changes_example :
    ((reconcile_order engine market 1 config 5 520 open_order strategy).1 ≡ strategy)
    ⊎ (Due engine market 1 config strategy 520 open_order
        × ((w : World) × (some world ≡ some w)
            × ((reconcile_order engine market 1 config 5 520 open_order strategy).1
                ≡ note_cancelled 5 open_order (record strategy { world = w }))))
reconcile_order-changes_example =
    reconcile_order-changes engine market 1 config 5 520 open_order strategy
