-- ===== src/Strategy/Unfilled.antt =====
-- Orders that stay unfilled, strategies/target_quantities.py: `_reconcile_unfilled_orders`,
-- `_partial_buy_has_untradeable_remainder`, `_price_limit_reason` and `_at_price_limit`.
pub mod Cancels
pub mod Tests
use qapp.Base.{
  ℕ, zero, suc, ◌+◌, ◌-◌, Bool, true, false, not, ◌&&◌, ◌||◌, Option, none, some, List, [], ◌∷◌,
  ltb, leb, ◌==◌, if◌then◌else◌, Dict, lookup, insert, member, Result, ok, err,
}
use qapp.Base.Decimal.{finite}
use qapp.Base.Int.{pos}
use qapp.Splitter.{is_valid}
use qapp.Splitter.Fields.{RawRules}
use qapp.Strategy.Types.{
  Side, buy, sell, Order, World, Config, Strategy, OrderRow, cancelled, unfilled_timeout,
  LimitReason, up_limit, down_limit, Failure, missing_instrument_of_order,
}
use qapp.Strategy.Monad.{Action, pure, ◌>>=◌, continue}
use qapp.Strategy.Orders.{forget_submitted_order, unfilled_timeout_anchor_ts}
use qapp.Strategy.Submit.{Engine, is_some, rules_of}

-- The market's part: the limit price of a pricer, `_at_buy_price_cap`, and the timeout of an order
-- after the trend's multiplier.
pub record Market : Type 0 where
  pub limit_price : World → ℕ → Side → ℕ → Option ℕ
  pub at_buy_price_cap : World → Order → Bool
  pub effective_timeout_ns : World → Order → ℕ → ℕ

abbrev pub at_least : Option ℕ → ℕ → Bool
at_least none price = false
at_least (some limit) price = leb limit price

abbrev pub at_most : Option ℕ → ℕ → Bool
at_most none price = false
at_most (some limit) price = leb price limit

-- The two tests of `_price_limit_reason`, for the up and the down limit.
pub limit_reason : Side → ℕ → Option ℕ × Option ℕ → Option LimitReason
limit_reason buy price (up, down) = if at_least up price then some up_limit else none
limit_reason sell price (up, down) = if at_most down price then some down_limit else none

-- `_price_limit_reason`; without a positive price there is none.
pub price_limit_reason : World → ℕ → Side → Option LimitReason
price_limit_reason w id side = elim (w.market_price id) [
  | none ↦ none
  | some price ↦ if ltb 0 price then limit_reason side price (w.price_limits id) else none
]

abbrev pub bump : ℕ → Dict ℕ → Dict ℕ
bump id d = insert id (elim (lookup id d) [ none ↦ 1 | some n ↦ n + 1 ]) d

-- `self._target_quantities.get(instrument_id_text, Decimal("0"))`
abbrev pub target_of : ℕ → Strategy → ℕ
target_of id s = elim (lookup id s.target_quantities) [ none ↦ 0 | some q ↦ q ]

-- What is noted after a cancel was sent.
pub note_cancelled : ℕ → Order → Strategy → Strategy
note_cancelled today o s0 =
    let s = forget_submitted_order o.client_order_id s0 in
    record s {
      cancel_count_buy = elim o.side [
        | buy ↦ bump o.instrument_id s.cancel_count_buy
        | sell ↦ s.cancel_count_buy
      ];
      cancel_count_sell = elim o.side [
        | buy ↦ s.cancel_count_sell
        | sell ↦ bump o.instrument_id s.cancel_count_sell
      ];
      order_events =
          record {
            trading_date = today;
            instrument_id = o.instrument_id;
            side = o.side;
            quantity = 0;
            target_qty = target_of o.instrument_id s;
            status = cancelled;
            reason = unfilled_timeout;
          }
          ∷ s.order_events;
    }

-- `not rules.is_valid(leaves_qty)`, for the instrument of the order.
pub remainder_is_invalid : ℕ → Option RawRules → ℕ → Result Failure Bool
remainder_is_invalid unit none leaves = err missing_instrument_of_order
remainder_is_invalid unit (some raw) leaves = elim (rules_of raw) [
  | err x ↦ err x
  | ok rules ↦ ok (not (is_valid unit rules (finite (pos leaves)) false))
]

-- `_partial_buy_has_untradeable_remainder`
pub partial_buy_has_untradeable_remainder : ℕ → World → Order → Result Failure Bool
partial_buy_has_untradeable_remainder unit w o = elim o.side [
  | sell ↦ ok false
  | buy ↦
      if ltb 0 o.filled_qty && ltb 0 o.leaves_qty
      then remainder_is_invalid unit (w.instrument o.instrument_id) o.leaves_qty
      else ok false
]

module _ (e : Engine) (market : Market) (unit : ℕ) (config : Config) where
  -- `anchor_ts is not None` and the order is as old as its timeout.
  pub is_due : World → ℕ → Order → Bool
  is_due w now o = elim (unfilled_timeout_anchor_ts o.activity) [
    | none ↦ false
    | some anchor ↦ leb (anchor + market.effective_timeout_ns w o config.unfilled_timeout_ns) now
  ]

  -- The guards before the one on the remainder, all passed.
  pub may_cancel : ℕ → Order → Strategy → Bool
  may_cancel now o s =
      not (member o.client_order_id s.rejected_order_ids)
      && not o.is_pending_cancel
      && is_due s.world now o
      && not (is_some (price_limit_reason s.world o.instrument_id o.side))
      && not (market.at_buy_price_cap s.world o)

  -- The cancel; a cancel that raises is passed over.
  pub cancel_one : ℕ → Order → Strategy → Strategy
  cancel_one today o s = elim (e.cancel o s.world) [
    | none ↦ s
    | some w ↦ note_cancelled today o (record s { world = w })
  ]

  -- What the last guard says.
  pub cancel_unless : ℕ → Order → Result Failure Bool → Action (Unit {0})
  cancel_unless today o (err x) s = (err x, s)
  cancel_unless today o (ok true) s = (ok tt, s)
  cancel_unless today o (ok false) s = (ok tt, cancel_one today o s)

  -- One round of the loop.
  pub reconcile_order : ℕ → ℕ → Order → Action (Unit {0})
  reconcile_order today now o s =
      if may_cancel now o s
      then cancel_unless today o (partial_buy_has_untradeable_remainder unit s.world o) s
      else (ok tt, s)

  pub reconcile_orders : ℕ → ℕ → List Order → Action (Unit {0})
  reconcile_orders today now [] = pure tt
  reconcile_orders today now (o ∷ os) =
      reconcile_order today now o >>= λ _. reconcile_orders today now os

  -- `_reconcile_unfilled_orders`
  pub reconcile_unfilled_orders : ℕ → Action (Unit {0})
  reconcile_unfilled_orders today s =
      if ltb 0 config.unfilled_timeout_ns
      then reconcile_orders today s.world.timestamp_ns s.world.orders_open s
      else (ok tt, s)
