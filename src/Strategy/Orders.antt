-- ===== src/Strategy/Orders.antt =====
-- The order and fill queries: `_active_orders`, `_open_sell_quantity`, `_open_buy_order_notional`,
-- `_today_fill_snapshot`, `_unfilled_timeout_anchor_ts`, `_is_historical_event`, and the tracking of
-- submitted orders.
pub mod Sums
use qapp.Base.{
  ℕ, zero, suc, ◌+◌, ◌*◌, max, Bool, true, false, not, ◌&&◌, ◌||◌, Option, none, some, List, [],
  ◌∷◌, map, ltb, ◌==◌, if◌then◌else◌, Dict, lookup, insert, erase, IdSet,
}
use qapp.Strategy.Types.{
  Side, buy, sell, Status, working, denied, rejected, canceled, expired, filled, Fill, Order, World,
  Strategy,
}

abbrev pub side_eq : Side → Side → Bool
side_eq buy buy = true
side_eq sell sell = true
side_eq _ _ = false

-- `status not in _TERMINAL_ORDER_STATUSES`
abbrev pub is_active_order : Order → Bool
is_active_order o = elim o.status [
  | working ↦ true
  | denied ↦ false
  | rejected ↦ false
  | canceled ↦ false
  | expired ↦ false
  | filled ↦ false
]

-- One query of the cache: the strategy's own orders (`strategy_id=self.id`), of the instrument and
-- the side that are asked for.
abbrev pub matches : Option ℕ → Option Side → Order → Bool
matches id side o =
    o.is_own
    && elim id [ none ↦ true | some i ↦ o.instrument_id == i ]
    && elim side [ none ↦ true | some d ↦ side_eq o.side d ]

-- The loop over the orders of one query; `orders_by_id[...] = order`.
unfoldable pub collect : Option ℕ → Option Side → List Order → Dict Order → Dict Order
collect id side [] found = found
collect id side (o ∷ os) found =
    collect id side os
      (if matches id side o && is_active_order o then insert o.client_order_id o found else found)

-- The values of a dict.
abbrev pub values : {V : Type 0} → Dict V → List V
values [] = []
values ((k, v) ∷ d) = v ∷ values d

-- `_active_orders`: the three queries in turn, the later ones overwriting.
unfoldable pub active_orders : World → Option ℕ → Option Side → List Order
active_orders w id side = values (
    collect id side w.orders_inflight (collect id side w.orders_open (collect id side w.orders [])))

-- The loop of both sums, over what an order adds.
unfoldable pub sum_by : (Order → ℕ) → List Order → ℕ
sum_by f [] = 0
sum_by f (o ∷ os) = f o + sum_by f os

-- An order with a cancel on the way adds nothing.
abbrev pub open_leaves : Order → ℕ
open_leaves o = if o.is_pending_cancel then 0 else o.leaves_qty

unfoldable pub open_sell_quantity : World → ℕ → ℕ
open_sell_quantity w id = sum_by open_leaves (active_orders w (some id) (some sell))

abbrev pub at_price : ℕ → Option ℕ → ℕ
at_price q none = 0
at_price q (some p) = q * p

abbrev pub open_notional : Order → ℕ
open_notional o = if o.is_pending_cancel then 0 else at_price o.leaves_qty o.price

unfoldable pub open_buy_order_notional : World → ℕ
open_buy_order_notional w = sum_by open_notional (active_orders w none (some buy))

-- `_open_order_instruments`
unfoldable pub open_order_instruments : World → IdSet
open_order_instruments w = map (λ o. o.instrument_id) (active_orders w none none)

-- `TodayFillSnapshot`
pub record FillSnapshot : Type 0 where
  pub buy_qty : ℕ
  pub sell_qty : ℕ
  pub fill_count : ℕ
  pub latest_ts_event : ℕ

abbrev pub no_fills : FillSnapshot
no_fills = record { buy_qty = 0; sell_qty = 0; fill_count = 0; latest_ts_event = 0 }

-- `fills_before == fills_after`
abbrev pub snapshot_eq : FillSnapshot → FillSnapshot → Bool
snapshot_eq a b =
    a.buy_qty == b.buy_qty
    && a.sell_qty == b.sell_qty
    && a.fill_count == b.fill_count
    && a.latest_ts_event == b.latest_ts_event

-- `date_of` is the exchange-local date of a nanosecond timestamp (`_event_trading_date`, by pandas).
module _ (date_of : ℕ → Option ℕ) where
  abbrev pub is_today : ℕ → ℕ → Fill → Bool
  is_today id today f =
      f.instrument_id == id && elim (date_of f.ts_event) [ none ↦ false | some d ↦ d == today ]

  abbrev pub count_fill : Fill → FillSnapshot → FillSnapshot
  count_fill f t = elim f.side [
    | buy ↦ record t {
      buy_qty = t.buy_qty + f.last_qty;
      fill_count = t.fill_count + 1;
      latest_ts_event = max t.latest_ts_event f.ts_event;
    }
    | sell ↦ record t {
      sell_qty = t.sell_qty + f.last_qty;
      fill_count = t.fill_count + 1;
      latest_ts_event = max t.latest_ts_event f.ts_event;
    }
  ]

  -- The loop over the events of one order.
  unfoldable pub scan_fills : ℕ → ℕ → List Fill → FillSnapshot → FillSnapshot
  scan_fills id today [] t = t
  scan_fills id today (f ∷ fs) t =
      scan_fills id today fs (if is_today id today f then count_fill f t else t)

  -- The loop over the orders of the instrument; those of a reconciliation are left out.
  unfoldable pub scan_orders : ℕ → ℕ → List Order → FillSnapshot → FillSnapshot
  scan_orders id today [] t = t
  scan_orders id today (o ∷ os) t =
      scan_orders id today os
        (if o.instrument_id == id && not o.reconciliation then scan_fills id today o.fills t else t)

  -- `_today_fill_snapshot`
  unfoldable pub today_fill_snapshot : World → ℕ → ℕ → FillSnapshot
  today_fill_snapshot w id today = scan_orders id today w.orders no_fills

-- `max(activity_timestamps)`
unfoldable pub unfilled_timeout_anchor_ts : List ℕ → Option ℕ
unfilled_timeout_anchor_ts [] = none
unfilled_timeout_anchor_ts (t ∷ ts) = elim (unfilled_timeout_anchor_ts ts) [
  | none ↦ some t
  | some m ↦ some (max t m)
]

-- `_is_historical_event`, for an event with a `ts_event`.
unfoldable pub is_historical_event : Strategy → ℕ → Bool
is_historical_event s ts_event = elim s.startup_ts_ns [
  | none ↦ false
  | some startup ↦ ltb ts_event startup
]

unfoldable pub track_submitted_order : ℕ → Strategy → Strategy
track_submitted_order id s = record s {
  tracked_orders = insert id (s.target_version, s.target_signal_date) s.tracked_orders;
}

unfoldable pub forget_submitted_order : ℕ → Strategy → Strategy
forget_submitted_order id s = record s { tracked_orders = erase id s.tracked_orders }
