-- ===== src/Strategy/Events.antt =====
-- The order events, strategies/target_quantities.py: `on_order_filled`, `on_order_canceled`,
-- `_handle_order_not_accepted` (`on_order_denied`, `on_order_rejected`) and
-- `_is_transient_sellable_denial`. Every event names an instrument. A handler returns the object and
-- the convergence that it schedules.
pub mod Markers
pub mod Latches
pub mod Replay
pub mod Tests
use qapp.Base.{
  ℕ, zero, suc, ◌-◌, Bool, true, false, not, ◌&&◌, Option, none, some, List, [], ◌∷◌, leb, ltb,
  ◌==◌, if◌then◌else◌, lookup, insert, erase, add, discard, Result, ok, err,
}
use qapp.Strategy.Types.{Side, buy, sell, Order, World, Config, Strategy, Failure, missing_order}
use qapp.Strategy.Orders.{is_historical_event, forget_submitted_order, side_eq}
use Markers.{is_insufficient_funds, is_sellable_position_denial}

pub record OrderEvent : Type 0 where
  pub client_order_id : ℕ
  pub instrument_id : ℕ
  pub side : Side
  pub ts_event : ℕ

-- The trigger of a scheduled `_converge_async`.
pub data Trigger : Type 0 where
  sell_fill cancel : Trigger

-- `self.cache.order(client_order_id)`
pub find_order : ℕ → List Order → Option Order
find_order id [] = none
find_order id (o ∷ os) = if o.client_order_id == id then some o else find_order id os

-- The bookkeeping of a fill that both sides share.
pub note_fill : OrderEvent → Strategy → Strategy
note_fill ev s =
    let s1 = forget_submitted_order ev.client_order_id s in
    record s1 {
      deferred_buys = erase ev.instrument_id s1.deferred_buys;
      insufficient_funds = discard ev.instrument_id s1.insufficient_funds;
    }

pub on_order_filled : OrderEvent → Strategy → Option Trigger × Strategy
on_order_filled ev s =
    let s1 = note_fill ev s in
    elim ev.side [
      | buy ↦ (none, record s1 { cancel_count_buy = erase ev.instrument_id s1.cancel_count_buy })
      | sell ↦ (
        if is_historical_event s ev.ts_event then none else some sell_fill,
        record s1 {
          cancel_count_sell = erase ev.instrument_id s1.cancel_count_sell;
          insufficient_funds = [];
        },
      )
    ]

-- `self._recent_sell_cancel_ts[...] = self.clock.timestamp_ns()` for a sell order in the cache.
pub note_sell_cancel : ℕ → Option Order → Strategy → Strategy
note_sell_cancel id none s = s
note_sell_cancel id (some o) s =
    if side_eq o.side sell
    then record s { recent_sell_cancel_ts = insert id s.world.timestamp_ns s.recent_sell_cancel_ts }
    else s

pub on_order_canceled : OrderEvent → Strategy → Option Trigger × Strategy
on_order_canceled ev s = (
  if is_historical_event s ev.ts_event then none else some cancel,
  note_sell_cancel ev.instrument_id (find_order ev.client_order_id s.world.orders)
      (forget_submitted_order ev.client_order_id s),
)

-- `0 <= elapsed_ns <= window`, for a window that is switched on.
pub is_transient_sellable_denial : Config → ℕ → Strategy → Bool
is_transient_sellable_denial config id s =
    ltb 0 config.sellable_denial_retry_window_ns && elim (lookup id s.recent_sell_cancel_ts) [
      | none ↦ false
      | some ts ↦
          leb ts s.world.timestamp_ns
          && leb (s.world.timestamp_ns - ts) config.sellable_denial_retry_window_ns
    ]

-- The latch for missing cash; without the order in the cache its quantity cannot be read.
pub latch_funds : OrderEvent → Option Order → Strategy → Result Failure (Unit {0}) × Strategy
latch_funds ev none s = (err missing_order, s)
latch_funds ev (some o) s = (
  ok tt,
  record s {
    insufficient_funds = add ev.instrument_id s.insufficient_funds;
    deferred_buys =
        (if ltb 0 o.quantity
          then insert ev.instrument_id o.quantity s.deferred_buys
          else s.deferred_buys);
  },
)

-- `_handle_order_not_accepted`; `reason` is the text in lower case, by its code points.
pub handle_order_not_accepted :
    Config → OrderEvent → List ℕ → Strategy → Result Failure (Unit {0}) × Strategy
handle_order_not_accepted config ev reason s0 =
    let s1 = forget_submitted_order ev.client_order_id s0 in
    let s = record s1 { rejected_order_ids = add ev.client_order_id s1.rejected_order_ids } in
    if is_insufficient_funds reason
    then (if is_historical_event s ev.ts_event
        then (ok tt, s)
        else latch_funds ev (find_order ev.client_order_id s.world.orders) s)
    else if is_sellable_position_denial reason
    then (if is_transient_sellable_denial config ev.instrument_id s then (ok tt, s) else (
      ok tt,
      record s {
        sellable_exhausted = insert ev.instrument_id s.world.clock_date s.sellable_exhausted;
      },
    ))
    else (ok tt, record s { deferred_buys = erase ev.instrument_id s.deferred_buys })
