-- ===== src/Strategy/Events/Tests.antt =====
-- Runs of the classification of reason texts, and instances of the theorems about order events.
use qapp.Base.{ℕ, ◌≡◌, refl, true, false, List, [], ◌∷◌}
use qapp.Strategy.Types.{sell, Order, Strategy}
use qapp.Strategy.Orders.{is_historical_event, forget_submitted_order}
use qapp.Strategy.Events.{OrderEvent, find_order}
use qapp.Strategy.Events.Replay.{Delivery, fill, cancel, refusal, replay, Inert, replay-Inert}
use qapp.Strategy.Events.Markers.{
  codes, starts_with, occurs_in, any_occurs, is_insufficient_funds, is_sellable_position_denial,
}
use qapp.Strategy.Samples.{config, strategy, world, open_order}

program : Unit {0}
unfolding is_historical_event forget_submitted_order find_order starts_with occurs_in any_occurs
    is_insufficient_funds is_sellable_position_denial
program = tt

abbrev no_cash : List ℕ
no_cash = codes "denied: insufficient cash"

abbrev no_shares : List ℕ
no_shares = codes "[251005] order refused"

marker_runs :
    (is_insufficient_funds no_cash ≡ true)
    × (is_insufficient_funds no_shares ≡ false)
    × (is_sellable_position_denial no_shares ≡ true)
unfolding program
marker_runs = (refl, refl, refl)

-- An event for the sell order 4 of instrument 7.
abbrev event : OrderEvent
event = record { client_order_id = 4; instrument_id = 7; side = sell; ts_event = 505 }

abbrev sell_order : Order
sell_order = record open_order { instrument_id = 7; side = sell }

abbrev with_order : Strategy
with_order = record strategy { world = record world { orders = sell_order ∷ [] } }

-- A fill, a cancel and a denial from before the start.
abbrev deliveries : List Delivery
deliveries = fill event ∷ cancel event ∷ refusal event no_cash ∷ []

replay-Inert_example :
    ((replay config deliveries strategy).0 ≡ [])
    × Inert strategy (replay config deliveries strategy).1
unfolding program
replay-Inert_example = replay-Inert config deliveries strategy (refl, (refl, (refl, tt)))
