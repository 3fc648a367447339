-- ===== src/Model/Exclusion.antt =====
-- The exit rules of a holding, strategies/model_prediction_targets.py: `_holding_exclusion`,
-- `_update_trailing_state` and the adjusted prices. The signal of an exclusion and the shadow of the
-- stop loss, which no decision reads, are left out.
use qapp.Base.{
  ℕ, Bool, false, ◌&&◌, ◌||◌, Option, none, some, List, [], ◌∷◌, leb, ◌==◌, if◌then◌else◌, Dict,
  lookup, insert,
}
use qapp.Model.Calendar.{previous_trading_date}
use qapp.Model.Plans.{
  ExitReason, suspended, st, stop_triggered, trailing_take_profit_triggered, Framework, is_positive,
}
use qapp.Model.Local.{above_nought, positive_price}
use qapp.Model.Candidates.{DailyStockData, Reference, on_date}

-- The fields of an entry of `_active_positions` that the exit rules read.
pub record ActivePosition (W : Type 0) : Type 0 where
  pub entry_date : Option ℕ
  pub entry_price : Option W
  pub high_price : Option W
  pub trailing_stop_price : Option W

pub record ExitConfig (W : Type 0) : Type 0 where
  pub stop_loss : W
  pub trailing_take_profit : W
  pub trailing_take_profit_start : W

-- `[value for value in dates if start <= value <= end]`
unfoldable pub dates_between : ℕ → ℕ → List ℕ → List ℕ
dates_between start end [] = []
dates_between start end (d ∷ ds) =
    let rest = dates_between start end ds in if leb start d && leb d end then d ∷ rest else rest

module _ {W : Type 0} (f : Framework W) (config : ExitConfig W) where
  -- `float(a) * float(b)` where neither is missing.
  abbrev pub product : Option W → Option W → Option W
  product (some a) (some b) = some (f.floats.times a b)
  product _ _ = none

  abbrev pub adjusted_row : Option (DailyStockData W) → Option W
  adjusted_row none = none
  adjusted_row (some row) = product (above_nought f row.close) (above_nought f row.adj_factor)

  -- `_adjusted_close`
  unfoldable pub adjusted_close : Reference W → ℕ → ℕ → Option W
  adjusted_close reference stock_code d = adjusted_row (reference.daily_stock_data stock_code d)

  -- `if previous is None or value > previous`
  abbrev pub raise_value : W → Option W → Option W
  raise_value value none = some value
  raise_value value (some previous) =
      if f.floats.lt previous value then some value else some previous

  abbrev pub raised_by : Option W → Option W → Option W
  raised_by none previous = previous
  raised_by (some value) previous = raise_value value previous

  -- The loop of `_highest_close_over_span`.
  unfoldable pub highest : Reference W → ℕ → List ℕ → Option W → Option W
  highest reference stock_code [] found = found
  highest reference stock_code (d ∷ ds) found =
      highest reference stock_code ds (raised_by (adjusted_close reference stock_code d) found)

  -- `_highest_close_over_span`
  unfoldable pub highest_close_over_span : Reference W → ℕ → Option ℕ → Option ℕ → Option W
  highest_close_over_span reference stock_code (some start) (some end) =
      if stock_code == 0
      then none
      else highest reference stock_code (dates_between start end reference.trading_dates) none
  highest_close_over_span reference stock_code _ _ = none

  abbrev pub raise_high : Option W → ActivePosition W → ActivePosition W
  raise_high peak p = record p { high_price = raised_by (above_nought f peak) p.high_price }

  abbrev pub raise_entry :
      ℕ → Option W → Option (ActivePosition W) → Dict (ActivePosition W) → Dict (ActivePosition W)
  raise_entry id peak none active = active
  raise_entry id peak (some p) active = insert id (raise_high peak p) active

  -- `_raise_high_price_to_span_peak`
  unfoldable pub raise_high_price_to_span_peak :
      Reference W → ℕ → ℕ → Option ℕ → Option ℕ → Dict (ActivePosition W) → Dict (ActivePosition W)
  raise_high_price_to_span_peak reference id stock_code start end active =
      raise_entry id (highest_close_over_span reference stock_code start end) (lookup id active)
        active

  abbrev pub close_on : Reference W → ℕ → Option ℕ → Option W
  close_on reference stock_code none = none
  close_on reference stock_code (some d) = adjusted_close reference stock_code d

  -- `_prev_trading_close`
  unfoldable pub prev_trading_close : (List ℕ → ℕ → ℕ) → Reference W → ℕ → ℕ → Option W
  prev_trading_close searchsorted reference stock_code trading_date =
      if stock_code == 0
      then none
      else close_on reference stock_code
          (previous_trading_date searchsorted reference.trading_dates trading_date)

  abbrev pub factor_of : Option (DailyStockData W) → Option W
  factor_of none = none
  factor_of (some row) = positive_price f row.adj_factor

  abbrev pub cost_by : W → Option W → Option W
  cost_by cost none = none
  cost_by cost (some factor) = some (f.floats.times cost factor)

  -- `_adjusted_entry_cost`
  unfoldable pub adjusted_entry_cost : Reference W → Option ℕ → ℕ → ℕ → W → Option W
  adjusted_entry_cost reference none stock_code trading_date cost = none
  adjusted_entry_cost reference (some entry_date) stock_code trading_date cost =
      if f.floats.le cost f.floats.nought || stock_code == 0
      then none
      else if leb trading_date entry_date
      then some cost
      else cost_by cost (factor_of (reference.daily_stock_data stock_code entry_date))

  -- `max(0.0, start)`
  abbrev pub activation : W
  activation =
      if f.floats.lt f.floats.nought config.trailing_take_profit_start
      then config.trailing_take_profit_start
      else f.floats.nought

  abbrev pub set_stop : Option W → ActivePosition W → ActivePosition W
  set_stop stop p = record p { trailing_stop_price = stop }

  -- `_update_trailing_state` with a high-water mark, a close and a cost: whether it triggers.
  unfoldable pub trail : W → W → W → ActivePosition W → Bool × ActivePosition W
  trail high close cost p =
      let stop = f.floats.times high (f.floats.minus f.floats.one config.trailing_take_profit) in
      if f.floats.lt high (f.floats.times cost (f.floats.plus f.floats.one activation))
      then (false, set_stop none p)
      else (f.floats.le close stop, set_stop (some stop) p)

  unfoldable pub trail_from : W → W → Option W → ActivePosition W → Bool × ActivePosition W
  trail_from high close none p = (false, set_stop none p)
  trail_from high close (some cost) p =
      if f.floats.le config.trailing_take_profit f.floats.nought
      then (false, set_stop none p)
      else trail high close cost p

  abbrev pub trail_parts :
      Option W → Option W → Option W → ActivePosition W → Bool × ActivePosition W
  trail_parts (some high) (some close) cost p = trail_from high close cost p
  trail_parts _ _ cost p = (false, p)

  -- `_update_trailing_state`
  unfoldable pub update_trailing_state :
      Option W → Option W → ActivePosition W → Bool × ActivePosition W
  update_trailing_state close cost p =
      trail_parts (above_nought f p.high_price) (above_nought f close) (above_nought f cost) p

  -- `_untradable_reason`
  unfoldable pub untradable_reason : Reference W → ℕ → ℕ → Option ExitReason
  untradable_reason reference stock_code trading_date =
      if on_date stock_code (lookup trading_date reference.suspended_by_date)
      then some suspended
      else if on_date stock_code (lookup trading_date reference.st_by_date)
      then some st
      else none

  -- `a or b or 0.0`
  abbrev pub is_zero : W → Bool
  is_zero x = f.floats.le x f.floats.nought && f.floats.le f.floats.nought x

  abbrev pub or_nought : Option W → W
  or_nought none = f.floats.nought
  or_nought (some x) = x

  abbrev pub cost_price : Option W → Option W → W
  cost_price none exit_price = or_nought exit_price
  cost_price (some entry) exit_price = if is_zero entry then or_nought exit_price else entry

  abbrev pub stops_loss : Option W → W → Bool
  stops_loss none cost = false
  stops_loss (some exit_price) cost =
      is_positive f cost
      && f.floats.le exit_price (f.floats.times cost (f.floats.minus f.floats.one config.stop_loss))

  -- The name of the signal, in the order of the rules.
  abbrev pub exclusion_reason : Option ExitReason → Bool → Bool → Option ExitReason
  exclusion_reason (some untradable) stops trails = some untradable
  exclusion_reason none stops trails =
      if stops
      then some stop_triggered
      else if trails
      then some trailing_take_profit_triggered
      else none

  abbrev pub no_state : ActivePosition W
  no_state = record {
    entry_date = none;
    entry_price = none;
    high_price = none;
    trailing_stop_price = none;
  }

  abbrev pub or_no_state : Option (ActivePosition W) → ActivePosition W
  or_no_state none = no_state
  or_no_state (some p) = p

  -- The state is the entry itself, or a dict of its own that is dropped.
  abbrev pub keep_state :
      ℕ
      → Option (ActivePosition W)
      → ActivePosition W
      → Dict (ActivePosition W)
      → Dict (ActivePosition W)
  keep_state id none p active = active
  keep_state id (some _) p active = insert id p active

  -- `_holding_exclusion`, with the stock code and the exit price of the instrument.
  unfoldable pub holding_exclusion :
      (List ℕ → ℕ → ℕ)
      → Reference W
      → ℕ
      → ℕ
      → ℕ
      → Option W
      → Option ℕ
      → Dict (ActivePosition W)
      → Option ExitReason × Dict (ActivePosition W)
  holding_exclusion searchsorted reference trading_date id stock_code exit_price start active =
      let state = or_no_state (lookup id active) in
      let cost = cost_price state.entry_price exit_price in
      let (trails, state') =
        update_trailing_state (prev_trading_close searchsorted reference stock_code trading_date)
          (adjusted_entry_cost reference start stock_code trading_date cost) state in
      (
        exclusion_reason (untradable_reason reference stock_code trading_date)
            (stops_loss exit_price cost) trails,
        keep_state id (lookup id active) state' active,
      )
