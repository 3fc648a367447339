-- ===== src/Model/Holdings.antt =====
-- The holdings of a planning request, strategies/model_prediction_targets.py:
-- `_build_current_holdings`.
pub mod Forced
pub mod Frame
pub mod Rule
pub mod Due
pub mod Tests
use qapp.Base.{
  ℕ, zero, suc, ◌+◌, ◌-◌, ◌≡◌, Bool, true, false, not, ◌&&◌, ◌||◌, Option, none, some, List, [],
  ◌∷◌, ◌++◌, leb, ltb, ◌==◌, if◌then◌else◌, Dict, IdSet, lookup, insert, set_default, sort_ids,
}
use qapp.Base.Int.{ℤ, pos_part}
use qapp.Strategy.Converge.Desired.{holds, held_instrument_ids}
use qapp.Model.Calendar.{previous_trading_date}
use qapp.Model.Plans.{
  CurrentHolding, ExitReason, suspended, st, stop_triggered, trailing_take_profit_triggered,
  PriceSource, ModelState, Framework, is_positive,
}
use qapp.Model.Local.{
  above_nought, positive_price, prefer, is_suspended_status, stock_code_for_instrument,
  open_price_with_source,
}
use qapp.Model.Candidates.{DailyStockData, Reference, on_date}
use qapp.Model.Exclusion.{
  ExitConfig, ActivePosition, raise_high_price_to_span_peak, holding_exclusion,
}

-- What is known of the holdings on a day: the results of `_recent_target_dates` and
-- `_position_span_start_dates`, the ranks of the signal date, and `_recent_holding_days`.
pub record HoldingData : Type 0 where
  pub recent_target_dates : Dict ℕ
  pub span_start_dates : Dict ℕ
  pub rank_by_stock : Dict ℕ
  pub recent_holding_days : Option ℕ → ℕ

-- What the loop of `_build_current_holdings` builds.
pub record Gathering (W : Type 0) : Type 0 where
  pub model : ModelState W
  pub active_positions : Dict (ActivePosition W)
  pub holdings : List (CurrentHolding W)
  pub forced_exits : Dict ExitReason
  pub open_prices : Dict W

module _ {W : Type 0} (f : Framework W) (config : ExitConfig W) where
  abbrev pub is_suspended : Reference W → ModelState W → ℕ → ℕ → ℕ → Bool
  is_suspended reference m trading_date id stock_code =
      is_suspended_status f m id
      || on_date stock_code (lookup trading_date reference.suspended_by_date)

  abbrev pub add_holding : CurrentHolding W → Gathering W → Gathering W
  add_holding h g = record g {
    holdings = g.holdings ++ (h ∷ []);
    open_prices = set_default h.instrument_id h.price g.open_prices;
  }

  -- A suspended holding, frozen at its last close; without one it is left out.
  pub add_suspended : HoldingData → ℕ → ℕ → ℕ → Option W → Gathering W → Gathering W
  add_suspended known id stock_code quantity none g = g
  add_suspended known id stock_code quantity (some price) g =
      add_holding
        (record {
          instrument_id = id;
          stock_code = stock_code;
          quantity = quantity;
          price = price;
          recent_target_date = lookup id known.recent_target_dates;
          recent_holding_days = 0;
          can_buy = false;
          can_sell = false;
          rank = lookup stock_code known.rank_by_stock;
        })
        g

  -- A holding that no rule excludes; without a price it is left out.
  pub add_kept : HoldingData → ℕ → ℕ → ℕ → Option W → Gathering W → Gathering W
  add_kept known id stock_code quantity none g = g
  add_kept known id stock_code quantity (some price) g =
      add_holding
        (record {
          instrument_id = id;
          stock_code = stock_code;
          quantity = quantity;
          price = price;
          recent_target_date = lookup id known.recent_target_dates;
          recent_holding_days = known.recent_holding_days (lookup id known.recent_target_dates);
          can_buy = true;
          can_sell = true;
          rank = lookup stock_code known.rank_by_stock;
        })
        g

  -- After `_holding_exclusion`.
  pub after_exclusion : HoldingData → ℕ → ℕ → ℕ → Option ExitReason → Gathering W → Gathering W
  after_exclusion known id stock_code quantity (some reason) g = record g {
    forced_exits = insert id reason g.forced_exits;
  }
  after_exclusion known id stock_code quantity none g =
      add_kept known id stock_code quantity (open_price_with_source f g.model id).0 g

  -- `_exit_price_with_source`
  pub exit_price : ModelState W → ℕ → Option W
  exit_price m id =
      (prefer (above_nought f (lookup id m.today_open))
        (positive_price f (lookup id m.last_close))).0

  abbrev pub with_active : Dict (ActivePosition W) → Gathering W → Gathering W
  with_active active g = record g { active_positions = active }

  abbrev pub date_before : (List ℕ → ℕ → ℕ) → Reference W → Option ℕ → Option ℕ
  date_before searchsorted reference none = none
  date_before searchsorted reference (some d) =
      previous_trading_date searchsorted reference.trading_dates d

  -- A holding that is traded today: its high-water mark, the exit rules, and what follows.
  pub gather_traded :
      (List ℕ → ℕ → ℕ) → Reference W → HoldingData → ℕ → ℕ → ℕ → ℕ → Gathering W → Gathering W
  gather_traded searchsorted reference known trading_date id stock_code quantity g =
      let start = lookup id known.span_start_dates in
      let end =
        date_before searchsorted reference
          (previous_trading_date searchsorted reference.trading_dates trading_date) in
      let (reason, active) =
        holding_exclusion f config searchsorted reference trading_date id stock_code
          (exit_price g.model id) start
          (raise_high_price_to_span_peak f config reference id stock_code start end
            g.active_positions) in
      after_exclusion known id stock_code quantity reason (with_active active g)

  -- The body of the loop from the stock code on.
  pub gather_coded :
      (List ℕ → ℕ → ℕ) → Reference W → HoldingData → ℕ → ℕ → ℕ → Gathering W → Gathering W
  gather_coded searchsorted reference known trading_date id stock_code g =
      let quantity = pos_part (g.model.base.world.net_position id) in
      if stock_code == 0
      then g
      else if not (holds g.model.base.world id)
      then g
      else if is_suspended reference g.model trading_date id stock_code
      then add_suspended known id stock_code quantity
          (above_nought f (lookup id g.model.last_close)) g
      else gather_traded searchsorted reference known trading_date id stock_code quantity g

  -- The body of the loop.
  pub gather_one : (List ℕ → ℕ → ℕ) → Reference W → HoldingData → ℕ → ℕ → Gathering W → Gathering W
  gather_one searchsorted reference known trading_date id g =
      let (stock_code, m) = stock_code_for_instrument f id g.model in
      gather_coded searchsorted reference known trading_date id stock_code (record g { model = m })

  pub gather : (List ℕ → ℕ → ℕ) → Reference W → HoldingData → ℕ → List ℕ → Gathering W → Gathering W
  gather searchsorted reference known trading_date [] g = g
  gather searchsorted reference known trading_date (id ∷ ids) g =
      gather searchsorted reference known trading_date ids
        (gather_one searchsorted reference known trading_date id g)

  -- `_build_current_holdings`, with the open prices so far.
  pub build_current_holdings :
      (List ℕ → ℕ → ℕ)
      → Reference W
      → HoldingData
      → ℕ
      → Dict W
      → ModelState W
      → Dict (ActivePosition W)
      → Gathering W
  build_current_holdings searchsorted reference known trading_date open_prices m active =
      gather searchsorted reference known trading_date (sort_ids (held_instrument_ids m.base))
        (record {
          model = m;
          active_positions = active;
          holdings = [];
          forced_exits = [];
          open_prices = open_prices;
        })
