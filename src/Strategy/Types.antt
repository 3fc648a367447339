-- ===== src/Strategy/Types.antt =====
-- The data of strategies/target_quantities.py: orders and fills as the Nautilus cache reports them,
-- the audit rows, order intents, and the fields of `TargetQuantityStrategy` that its decisions read.
-- Identifiers, dates, reasons and timestamps are numbers; quantities and prices are whole numbers of
-- Decimal units; `_startup_ts_ns == -1`, `None` and the empty version are `none`.
use qapp.Base.{ℕ, Bool, Option, List, Dict, IdSet}
use qapp.Base.Int.{ℤ}
use qapp.Splitter.Fields.{RawRules, LimitOrderQuantityRules}
use qapp.Splitter.Fields

pub data Side : Type 0 where
  buy sell : Side

-- `OrderStatus`; `working` stands for the states that are not terminal.
pub data Status : Type 0 where
  working denied rejected canceled expired filled : Status

-- One `OrderFilled` event.
pub record Fill : Type 0 where
  pub instrument_id : ℕ
  pub side : Side
  pub last_qty : ℕ
  pub ts_event : ℕ

-- An order in the Nautilus cache. `activity` holds the `ts_init` of its `OrderAccepted` and
-- `OrderFilled` events; `reconciliation` tells whether it has the tag `RECONCILIATION`.
pub record Order : Type 0 where
  pub client_order_id : ℕ
  pub instrument_id : ℕ
  pub is_own : Bool
  pub side : Side
  pub status : Status
  pub price : Option ℕ
  pub quantity : ℕ
  pub filled_qty : ℕ
  pub leaves_qty : ℕ
  pub is_pending_cancel : Bool
  pub reconciliation : Bool
  pub fills : List Fill
  pub activity : List ℕ

-- One open position of the cache; its quantity is `none` where it cannot be read.
pub record Position : Type 0 where
  pub instrument_id : ℕ
  pub is_long : Bool
  pub quantity : Option ℕ

-- What the strategy reads of the framework and the broker: positions, orders, the broker's sellable
-- map (of the reconciler), free cash, instruments, and the clock; `time_of_day` is `none` where its
-- conversion to the exchange's zone fails. Of the strategy's own `_market_status` it holds the last
-- price, of the instrument's `info` the up and the down limit (`_price_limits`), and of the
-- reconciler whether it is configured and has reconciled.
pub record World : Type 0 where
  pub net_position : ℕ → ℤ
  pub positions_open : List Position
  pub orders : List Order
  pub orders_open : List Order
  pub orders_inflight : List Order
  pub venue_sellable : ℕ → Option ℤ
  pub free_cash : Option ℤ
  pub instrument : ℕ → Option RawRules
  pub clock_date : ℕ
  pub timestamp_ns : ℕ
  pub time_of_day : Option ℕ
  pub market_price : ℕ → Option ℕ
  pub price_limits : ℕ → Option ℕ × Option ℕ
  pub reconciler_configured : Bool
  pub reconciled_once : Bool

-- The text of `target_version` or of `_plan_version` of the model strategy, by its parts, or a
-- version that a caller chose.
pub data Version : Type 0 where
  given : ℕ → Version
  computed : ℕ → ℕ → ℕ → ℕ → Version
  of_model : ℕ → Option ℕ → ℕ → ℕ → Version

pub data LimitReason : Type 0 where
  up_limit down_limit : LimitReason

-- The texts of `status` and `reason` in `_record_order`; `target` carries the caller's reason.
pub data RowStatus : Type 0 where
  submitted deferred skipped refused cancelled : RowStatus

pub data RowReason : Type 0 where
  missing_free_cash insufficient_cash no_legal_order_quantity invalid_order_quantity : RowReason
  sellable_snapshot_unstable sellable_exhausted sellable_pending_broker_data : RowReason
  missing_instrument unfilled_timeout : RowReason
  target : ℕ → RowReason

-- `TargetQuantityOrderEvent`
pub record OrderRow : Type 0 where
  pub trading_date : ℕ
  pub instrument_id : ℕ
  pub side : Side
  pub quantity : ℕ
  pub target_qty : ℕ
  pub status : RowStatus
  pub reason : RowReason

-- `TargetOrderIntent`, with the parts of its context that decisions read; `sellable_qty` is the
-- entry of that name in `details`.
pub record Intent : Type 0 where
  pub instrument_id : ℕ
  pub instrument : RawRules
  pub side : Side
  pub quantity : ℕ
  pub price : ℕ
  pub target_qty : ℕ
  pub current_qty : ℤ
  pub sellable_qty : Option ℕ

pub record Config : Type 0 where
  -- `order_slice_notional`
  pub order_slice_notional : ℤ
  -- `cash_buffer_percent` in parts of `percent_scale`
  pub cash_buffer : ℤ
  pub percent_scale : ℕ
  pub exit_non_targets : Bool
  -- `limit_stop_mode == "freeze_symbol"`
  pub freeze_symbol : Bool
  -- seconds, in nanoseconds
  pub sellable_denial_retry_window_ns : ℕ
  pub unfilled_timeout_ns : ℕ
  -- the sessions of a comma-separated text; `none` is one that does not parse
  pub trading_windows : List (Option (ℕ × ℕ))
  pub exchange_trading_windows : List (Option (ℕ × ℕ))
  pub stop_time : Option ℕ

-- The fields of the strategy object.
pub record Strategy : Type 0 where
  pub world : World
  pub instrument_ids : List ℕ
  pub target_quantities : Dict ℕ
  pub target_date : Option ℕ
  pub target_reason : ℕ
  pub target_version : Option Version
  pub target_signal_date : Option ℕ
  pub achieved_versions : List Version
  pub frozen_instruments : Dict LimitReason
  pub deferred_buys : Dict ℕ
  pub converge_locked : Bool
  pub rejected_order_ids : IdSet
  pub insufficient_funds : IdSet
  pub startup_ts_ns : Option ℕ
  pub tracked_orders : Dict (Option Version × Option ℕ)
  pub authoritative_open : IdSet
  pub depth_converged_today : Bool
  pub cancel_count_buy : Dict ℕ
  pub cancel_count_sell : Dict ℕ
  pub recent_sell_cancel_ts : Dict ℕ
  pub sellable_exhausted : Dict ℕ
  pub trading_day : Option ℕ
  pub last_quote_tick_ts_event : ℕ
  pub convergence_suspended : Bool
  pub trading_paused : Bool
  pub target_updates_paused : Bool
  pub order_events : List OrderRow
  pub target_events : List (ℕ × ℕ)

-- The exceptions that leave a handler: those of the quantity rules, a missing key of a context, a
-- missing attribute, the `ValueError` for an open order without instrument, and what the framework's `submit_order` raises.
pub data Failure : Type 0 where
  quantity_rules : Fields.Error → Failure
  missing_detail missing_order missing_instrument_of_order submit_failed : Failure
