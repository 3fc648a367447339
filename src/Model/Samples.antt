-- ===== src/Model/Samples.antt =====
-- A request of two candidates and one holding for the runs; the floats are numbers.
use qapp.Base.{ℕ, ◌+◌, ◌-◌, ◌*◌, leb, Bool, true, none, some, [], ◌∷◌, ltb}
use qapp.Model.Plans.{
  Texts, ModelTargetCandidate, CurrentHolding, ModelTargetPlanningRequest, Framework, Floats,
  ModelState, missing_signal_data, risk_manager_failure,
}
use qapp.Strategy.Samples.{strategy}

-- Texts that are normalized already.
abbrev pub texts : Texts
texts = record { strip = λ t. t; upper = λ t. t }

abbrev pub is_positive : ℕ → Bool
is_positive = ltb 0

abbrev pub candidate : ℕ → ModelTargetCandidate ℕ
candidate id = record {
  instrument_id = id;
  stock_code = 100 + id;
  score = 5;
  open_price = some 10;
  expected_return = some 1;
  rank = some 1;
}

abbrev pub holding : ℕ → CurrentHolding ℕ
holding id = record {
  instrument_id = id;
  stock_code = 100 + id;
  quantity = 300;
  price = 10;
  recent_target_date = none;
  recent_holding_days = 0;
  can_buy = true;
  can_sell = true;
  rank = none;
}

abbrev pub request : ModelTargetPlanningRequest ℕ
request = record {
  trading_date = 7;
  signal_date = some 6;
  active_instrument_ids = 7 ∷ 8 ∷ 9 ∷ [];
  candidates = candidate 8 ∷ candidate 9 ∷ [];
  current_holdings = holding 7 ∷ [];
  target_cash_buffer_percent = 0;
  max_position_percent = 1;
  total_asset = some 100000;
  investable_asset = some 90000;
  open_prices = [];
}

abbrev pub floats : Floats ℕ
floats = record {
  nought = 0;
  one = 1;
  le = leb;
  lt = ltb;
  plus = λ a b. a + b;
  minus = λ a b. a - b;
  times = λ a b. a * b;
}

-- Every instrument's symbol is its number after 100.
abbrev pub framework : Framework ℕ
framework = record {
  texts = texts;
  symbol = λ id. 100 + id;
  suspend = 9;
  floats = floats;
  local_exit = λ reason. elim reason [ missing_signal_data ↦ 11 | risk_manager_failure ↦ 12 ];
}

-- The strategy of the small market before its day, with the holding of its world.
abbrev pub state : ModelState ℕ
state = record {
  base = record strategy { instrument_ids = 7 ∷ [] };
  stock_by_instrument = [];
  instrument_by_stock = [];
  today_open = [];
  last_close = (7, 10) ∷ [];
  market_status = [];
  processed_dates = [];
}
