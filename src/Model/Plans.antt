-- ===== src/Model/Plans.antt =====
-- The data of strategies/model_target_planners/base.py. Instruments, stock codes, dates, texts and
-- market states are numbers, with 0 for the empty text; `W` are the floats. Target quantities are
-- whole numbers from 0, as the planner and the local plans make them.
use qapp.Base.{ℕ, Bool, Option, List, Dict, IdSet}
use qapp.Base.Int.{ℤ}
use qapp.Strategy.Types.{Version, Strategy}

pub data PriceSource : Type 0 where
  open_price prev_close : PriceSource

pub record TargetContext (W : Type 0) : Type 0 where
  pub price : Option W
  pub price_source : Option PriceSource
  pub score : Option W
  pub expected_return : Option W
  pub current_qty : Option ℤ
  pub recent_target_date : Option ℕ
  pub recent_holding_days : Option ℕ
  pub market_status : Option ℕ

pub record TargetInfo (W : Type 0) : Type 0 where
  pub stock_code : ℕ
  pub weight : Option W
  pub quantity : Option ℕ
  pub target_context : TargetContext W
  pub target_version : Option Version
  pub instrument_id : ℕ
  pub is_locked : Option Bool

-- The texts of `degraded_reason`.
pub data Degraded : Type 0 where
  missing_signal_data risk_manager_failure : Degraded

pub record ModelTargetPlan (W : Type 0) : Type 0 where
  pub trading_date : ℕ
  pub signal_date : Option ℕ
  pub targets : List (TargetInfo W)
  pub reason : ℕ
  pub request_id : Option ℕ
  pub total_asset : Option W
  pub investable_asset : Option W
  pub persistable : Bool
  pub degraded_reason : Option Degraded

pub record ModelTargetCandidate (W : Type 0) : Type 0 where
  pub instrument_id : ℕ
  pub stock_code : ℕ
  pub score : W
  pub open_price : Option W
  pub expected_return : Option W
  pub rank : Option ℕ

pub record CurrentHolding (W : Type 0) : Type 0 where
  pub instrument_id : ℕ
  pub stock_code : ℕ
  pub quantity : ℕ
  pub price : W
  pub recent_target_date : Option ℕ
  pub recent_holding_days : ℕ
  pub can_buy : Bool
  pub can_sell : Bool
  pub rank : Option ℕ

pub record ModelTargetPlanningRequest (W : Type 0) : Type 0 where
  pub trading_date : ℕ
  pub signal_date : Option ℕ
  pub active_instrument_ids : List ℕ
  pub candidates : List (ModelTargetCandidate W)
  pub current_holdings : List (CurrentHolding W)
  pub target_cash_buffer_percent : W
  pub max_position_percent : W
  pub total_asset : Option W
  pub investable_asset : Option W
  pub open_prices : Dict W

-- Python's `str.strip` and `str.upper`.
pub record Texts : Type 0 where
  pub strip : ℕ → ℕ
  pub upper : ℕ → ℕ

-- `normalize_stock_code`; a missing value is 0.
unfoldable pub normalize_stock_code : Texts → ℕ → ℕ
normalize_stock_code texts value = texts.upper (texts.strip value)

-- The reasons of a forced exit.
pub data ExitReason : Type 0 where
  suspended st stop_triggered trailing_take_profit_triggered : ExitReason

-- The fields of `TargetModelPredictionsStrategy` that its plans read, besides those of the strategy
-- below it; `market_status` is that of the latest full tick.
pub record ModelState (W : Type 0) : Type 0 where
  pub base : Strategy
  pub stock_by_instrument : Dict ℕ
  pub instrument_by_stock : Dict ℕ
  pub today_open : Dict W
  pub last_close : Dict W
  pub market_status : Dict ℕ
  pub processed_dates : IdSet

-- Python's floats, as far as they are compared and computed with.
pub record Floats (W : Type 0) : Type 0 where
  pub nought : W
  pub one : W
  pub le : W → W → Bool
  pub lt : W → W → Bool
  pub plus : W → W → W
  pub minus : W → W → W
  pub times : W → W → W

-- What the plans read of the framework and of texts: the symbol of an instrument, the market status
-- of a suspension, the floats, and the text of a local plan's reason.
pub record Framework (W : Type 0) : Type 0 where
  pub texts : Texts
  pub symbol : ℕ → ℕ
  pub suspend : ℕ
  pub floats : Floats W
  pub local_exit : Degraded → ℕ

-- `price > 0`
abbrev pub is_positive : {W : Type 0} → Framework W → W → Bool
is_positive f price = f.floats.lt f.floats.nought price
