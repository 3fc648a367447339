-- ===== src/Model/Holdings/Tests.antt =====
-- Runs of the exit rules, and an instance of their theorem.
use qapp.Base.{
  arith, inr, ℕ, ◌≡◌, refl, Bool, true, false, none, some, [], ◌∷◌, Dict, lookup, err, map,
}
use qapp.Strategy.Converge.Desired.{held_instrument_ids, held_of_positions, held_of_ids}
use qapp.Model.Calendar.{nth, before_index, previous_trading_date}
use qapp.Model.Calendar.Tests.{count}
use qapp.Model.Plans.{normalize_stock_code, stop_triggered, CurrentHolding}
use qapp.Model.Planner.{gave_up}
use qapp.Model.Local.{
  positive_price, above_nought, is_suspended_status, stock_code_for_instrument,
  open_price_with_source, target_plan, target_quantities_from_plan,
}
use qapp.Model.Candidates.{Reference}
use qapp.Model.Samples.{framework, request, state}
use qapp.Model.Exclusion.{
  ActivePosition, ExitConfig, dates_between, adjusted_close, highest, highest_close_over_span,
  raise_high_price_to_span_peak, prev_trading_close, adjusted_entry_cost, trail, trail_from,
  update_trailing_state, untradable_reason, holding_exclusion,
}
use qapp.Model.Holdings.{
  HoldingData, Gathering, add_suspended, add_kept, after_exclusion, exit_price, gather_traded,
  gather_coded, gather_one, gather, build_current_holdings,
}
use qapp.Model.Holdings.Rule.{IsDue}
use qapp.Model.Holdings.Due.{due_exit_is_sold}

program : Unit {0}
unfolding held_instrument_ids held_of_positions held_of_ids normalize_stock_code nth before_index
    previous_trading_date positive_price above_nought is_suspended_status stock_code_for_instrument
    open_price_with_source dates_between adjusted_close highest highest_close_over_span
    raise_high_price_to_span_peak prev_trading_close adjusted_entry_cost trail trail_from
    update_trailing_state untradable_reason holding_exclusion add_suspended add_kept after_exclusion
    exit_price gather_traded gather_coded gather_one gather build_current_holdings
program = tt

-- No loss is allowed, and the profit is taken at once when the price is below its peak.
abbrev config : ExitConfig ℕ
config = record { stop_loss = 0; trailing_take_profit = 1; trailing_take_profit_start = 0 }

abbrev known : HoldingData
known = record {
  recent_target_dates = [];
  span_start_dates = (7, 3) ∷ [];
  rank_by_stock = (107, 4) ∷ [];
  recent_holding_days = λ _. 2;
}

abbrev reference : Reference ℕ
reference = record {
  signals_by_date = [];
  trading_dates = 3 ∷ 4 ∷ 5 ∷ 6 ∷ 7 ∷ [];
  listed_dates = [];
  st_by_date = [];
  suspended_by_date = (8, 107 ∷ []) ∷ [];
  daily_stock_data =
      λ code d. some (record { close = some d; up_limit = none; adj_factor = some 1 });
}

abbrev entered : ℕ → Dict (ActivePosition ℕ)
entered price =
    (
      7,
      record {
        entry_date = some 3;
        entry_price = some price;
        high_price = none;
        trailing_stop_price = none;
      },
    )
    ∷ []

abbrev gathered : ℕ → ℕ → Gathering ℕ
gathered trading_date price =
    build_current_holdings framework config count reference known trading_date [] state
      (entered price)

-- Bought at 20 and at 10 now: the stop loss is due, and the peak of the span, up to T-2, is kept.
stop_run :
    ((gathered 7 20).forced_exits ≡ (7, stop_triggered) ∷ [])
    × (map (λ (e : ℕ × ActivePosition ℕ). e.1.high_price) (gathered 7 20).active_positions
        ≡ some 5 ∷ [])
unfolding program
stop_run = (refl, refl)

-- A holding that is suspended on the day is frozen, not forced out.
suspended_run :
    ((gathered 8 20).forced_exits ≡ [])
    × (map {B = ℕ × Bool}
          (λ (h : CurrentHolding ℕ). (h.quantity, h.can_sell))
          (gathered 8 20).holdings
        ≡ (350, false) ∷ [])
unfolding program
suspended_run = (refl, refl)

-- Instrument 7 is held, traded, and below its cost of 20.
due : IsDue framework config count reference known 7 state (entered 20) 7 107
unfolding program
due = record {
  held = refl;
  coded = ground arith;
  traded = refl;
  rule = inr (10, 20, refl, refl, ground arith, ground arith);
}

due_exit_is_sold_example :
    lookup 7 (
      target_quantities_from_plan
        (target_plan framework
          (λ _. err gave_up)
          true
          request
          (gathered 7 20).forced_exits
          none
          (gathered 7 20).model).0)
    ≡ some 0
unfolding program
due_exit_is_sold_example =
    due_exit_is_sold framework config count reference known 7 (λ _. err gave_up) request none []
      state (entered 20) 7 refl due
