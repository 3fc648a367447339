-- ===== src/Model/Seeding/Tests.antt =====
-- Runs of the seeding and of the dates of the holdings.
use qapp.Base.{ℕ, ◌≡◌, refl, true, none, some, [], ◌∷◌, Dict}
use qapp.Strategy.Types.{Position}
use qapp.Model.Calendar.{earlier, nth}
use qapp.Model.Plans.{normalize_stock_code}
use qapp.Model.Local.{above_nought, positive_price, stock_code_for_instrument}
use qapp.Model.Candidates.{Reference}
use qapp.Model.Exclusion.{ActivePosition, ExitConfig}
use qapp.Model.Recency.{recent_target_cutoff_date}
use qapp.Model.Samples.{framework, state}
use qapp.Model.Seeding.{
  Loader, seed_one, seed_active_positions_from_portfolio, stock_codes_of, normalized_codes,
  dates_by_stock, entry_dates, dates_of_holdings,
}

program : Unit {0}
unfolding normalize_stock_code nth earlier above_nought positive_price stock_code_for_instrument
    recent_target_cutoff_date seed_one seed_active_positions_from_portfolio stock_codes_of
    normalized_codes dates_by_stock entry_dates dates_of_holdings
program = tt

abbrev config : ExitConfig ℕ
config = record { stop_loss = 0; trailing_take_profit = 1; trailing_take_profit_start = 0 }

abbrev reference : Reference ℕ
reference = record {
  signals_by_date = [];
  trading_dates = 3 ∷ 4 ∷ 5 ∷ 6 ∷ 7 ∷ [];
  listed_dates = [];
  st_by_date = [];
  suspended_by_date = [];
  daily_stock_data =
      λ code d. some (record { close = some d; up_limit = none; adj_factor = some 2 });
}

abbrev position : Position
position = record { instrument_id = 7; is_long = true; quantity = none }

abbrev seeded : Dict (ActivePosition ℕ)
seeded =
    (seed_active_positions_from_portfolio framework config reference 7 (λ _. 20) (position ∷ [])
      (state, [])).1

-- The mark of a new entry is on the adjusted basis.
seeding_run :
    seeded
    ≡ (
      7,
      record {
        entry_date = some 7;
        entry_price = some 20;
        high_price = some 40;
        trailing_stop_price = none;
      },
    )
      ∷ []
unfolding program
seeding_run = refl

abbrev loader : Loader
loader trading_date cutoff stock_codes = some ((107, cutoff) ∷ [])

-- From the store where there is one, else from the entry.
dates_run :
    ((dates_of_holdings framework config (some loader) reference 7 (7 ∷ []) seeded state).0
      ≡ (7, 3) ∷ [])
    × ((dates_of_holdings framework config none reference 7 (7 ∷ []) seeded state).0 ≡ (7, 7) ∷ [])
unfolding program
dates_run = (refl, refl)
