-- ===== src/Model/Seeding.antt =====
-- What is known of the positions before a request, strategies/model_prediction_targets.py:
-- `_seed_active_positions_from_portfolio`, `_recent_target_dates`, `_position_span_start_dates`, and
-- what `_build_current_holdings` does with them. The score and the date of the last signal, which no
-- exit rule reads, are left out.
pub mod Entries
pub mod Tests
use qapp.Base.{
  ℕ, ◌≡◌, Bool, true, false, not, ◌||◌, Option, none, some, List, [], ◌∷◌, ◌==◌, if◌then◌else◌,
  Dict, lookup, insert, sort_ids,
}
use qapp.Strategy.Types.{Position}
use qapp.Strategy.Converge.Desired.{holds, held_instrument_ids}
use qapp.Model.Plans.{ModelState, Framework, is_positive, normalize_stock_code}
use qapp.Model.Local.{above_nought, is_in, stock_code_for_instrument}
use qapp.Model.Candidates.{Reference}
use qapp.Model.Exclusion.{ActivePosition, ExitConfig, factor_of}
use qapp.Model.Holdings.{HoldingData, Gathering, build_current_holdings}
use qapp.Model.Recency.{recent_holding_days, recent_target_cutoff_date}

-- A loader of dates by stock code, from the trading date, the cutoff and the stock codes; `none` for
-- one that raises.
abbrev pub Loader : Type 0
Loader = ℕ → ℕ → List ℕ → Option (Dict ℕ)

module _ {W : Type 0} (f : Framework W) (config : ExitConfig W) where
  -- `avg_px_open if avg_px_open > 0 else close_price`, where it is positive.
  abbrev pub entry_price_of : W → Option W → Option W
  entry_price_of average close =
      if is_positive f average then above_nought f (some average) else above_nought f close

  abbrev pub floor_by : W → Option W → W
  floor_by entry none = entry
  floor_by entry (some factor) = f.floats.times entry factor

  abbrev pub seed_entry :
      Reference W
      → ℕ
      → ℕ
      → Option W
      → ModelState W × Dict (ActivePosition W)
      → ModelState W × Dict (ActivePosition W)
  seed_entry reference trading_date id none (m, active) = (m, active)
  seed_entry reference trading_date id (some entry) (m, active) =
      let (stock_code, m') = stock_code_for_instrument f id m in
      (
        m',
        insert id
            (record {
              entry_date = some trading_date;
              entry_price = some entry;
              high_price = some (
                  floor_by entry
                    (factor_of f config (reference.daily_stock_data stock_code trading_date)));
              trailing_stop_price = none;
            })
            active,
      )

  -- The body of the loop, with the average price of the position, 0 where it has none.
  pub seed_one :
      Reference W
      → ℕ
      → Position
      → W
      → ModelState W × Dict (ActivePosition W)
      → ModelState W × Dict (ActivePosition W)
  seed_one reference trading_date p average (m, active) =
      if not p.is_long
      then (m, active)
      else if is_in p.instrument_id active || not (holds m.base.world p.instrument_id)
      then (m, active)
      else seed_entry reference trading_date p.instrument_id
          (entry_price_of average (lookup p.instrument_id m.last_close)) (m, active)

  -- `_seed_active_positions_from_portfolio`
  pub seed_active_positions_from_portfolio :
      Reference W
      → ℕ
      → (Position → W)
      → List Position
      → ModelState W × Dict (ActivePosition W)
      → ModelState W × Dict (ActivePosition W)
  seed_active_positions_from_portfolio reference trading_date average_of [] seeded = seeded
  seed_active_positions_from_portfolio reference trading_date average_of (p ∷ ps) seeded =
      seed_active_positions_from_portfolio reference trading_date average_of ps
        (seed_one reference trading_date p (average_of p) seeded)

  -- The codes of the instruments that have one.
  pub stock_codes_of : List ℕ → ModelState W → List ℕ × ModelState W
  stock_codes_of [] m = ([], m)
  stock_codes_of (id ∷ ids) m =
      let (stock_code, m') = stock_code_for_instrument f id m in
      let (stock_codes, m'') = stock_codes_of ids m' in
      (if stock_code == 0 then stock_codes else stock_code ∷ stock_codes, m'')

  pub normalized_codes : Dict ℕ → Dict ℕ → Dict ℕ
  normalized_codes [] by_stock = by_stock
  normalized_codes ((code, value) ∷ raw) by_stock =
      normalized_codes raw (insert (normalize_stock_code f.texts code) value by_stock)

  abbrev pub note_date : ℕ → Option ℕ → Dict ℕ → Dict ℕ
  note_date id none result = result
  note_date id (some d) result = insert id d result

  pub dates_by_stock : Dict ℕ → List ℕ → Dict ℕ → ModelState W → Dict ℕ × ModelState W
  dates_by_stock by_stock [] result m = (result, m)
  dates_by_stock by_stock (id ∷ ids) result m =
      let (stock_code, m') = stock_code_for_instrument f id m in
      dates_by_stock by_stock ids (note_date id (lookup stock_code by_stock) result) m'

  abbrev pub entry_date_of : Option (ActivePosition W) → Option ℕ
  entry_date_of none = none
  entry_date_of (some p) = p.entry_date

  pub entry_dates : Dict (ActivePosition W) → List ℕ → Dict ℕ → Dict ℕ
  entry_dates active [] result = result
  entry_dates active (id ∷ ids) result =
      entry_dates active ids (note_date id (entry_date_of (lookup id active)) result)

  abbrev pub or_no_dates : Option (Dict ℕ) → Dict ℕ
  or_no_dates none = []
  or_no_dates (some raw) = raw

  -- `_recent_target_dates` and `_position_span_start_dates`, each with its loader.
  pub dates_of_holdings :
      Option Loader
      → Reference W
      → ℕ
      → List ℕ
      → Dict (ActivePosition W)
      → ModelState W
      → Dict ℕ × ModelState W
  dates_of_holdings none reference trading_date ids active m = (entry_dates active ids [], m)
  dates_of_holdings (some loader) reference trading_date ids active m =
      let (stock_codes, m') = stock_codes_of ids m in
      let cutoff = recent_target_cutoff_date reference.trading_dates trading_date in
      dates_by_stock (normalized_codes (or_no_dates (loader trading_date cutoff stock_codes)) [])
        ids [] m'

  abbrev pub ranks_on : Dict (Dict ℕ) → Option ℕ → Dict ℕ
  ranks_on ranks none = []
  ranks_on ranks (some signal_date) = or_no_dates (lookup signal_date ranks)

  -- `_build_current_holdings` from its first line on, after the seeding.
  pub current_holdings :
      (List ℕ → ℕ → ℕ)
      → Option Loader
      → Option Loader
      → Dict (Dict ℕ)
      → Reference W
      → ℕ
      → Option ℕ
      → Dict W
      → ModelState W
      → Dict (ActivePosition W)
      → Gathering W
  current_holdings searchsorted recent spans ranks reference trading_date signal_date open_prices m
        active =
      let ids = sort_ids (held_instrument_ids m.base) in
      let (targets, m') = dates_of_holdings recent reference trading_date ids active m in
      let (starts, m'') = dates_of_holdings spans reference trading_date ids active m' in
      build_current_holdings f config searchsorted reference
        (record {
          recent_target_dates = targets;
          span_start_dates = starts;
          rank_by_stock = ranks_on ranks signal_date;
          recent_holding_days = recent_holding_days reference.trading_dates trading_date;
        })
        trading_date open_prices m'' active
