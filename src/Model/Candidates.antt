-- ===== src/Model/Candidates.antt =====
-- The candidates of a planning request, strategies/model_prediction_targets.py: `_build_candidates`
-- and the reasons to skip an entry. `_warn_incomplete_limit_history` and the other log lines are left
-- out; dates are day numbers.
pub mod Eligible
pub mod Tests
use qapp.Base.{
  ℕ, zero, suc, ◌+◌, ◌-◌, ◌≡◌, Bool, true, false, not, ◌&&◌, ◌||◌, Option, none, some, List, [],
  ◌∷◌, ◌++◌, leb, ltb, ◌==◌, if◌then◌else◌, length, Dict, IdSet, lookup, insert, member, add,
  place_id, sort_ids, to_set, Result, ok, err, ◌>>=◌,
}
use qapp.Base.Int.{ℤ, pos, ltb_ℤ, ◌-ℤ◌}
use qapp.Strategy.Submit.{is_some}
use qapp.Model.Calendar.{earlier}
use qapp.Model.Plans.{
  ModelTargetCandidate, normalize_stock_code, ModelState, Framework, Floats, is_positive,
}
use qapp.Model.Local.{above_nought, is_suspended_status}

-- A signal, as `normalize_signals` gives it.
pub record Signal (W : Type 0) : Type 0 where
  pub date : ℕ
  pub stock_code : ℕ
  pub score : W
  pub rank : ℕ
  pub pred_return_live : Option W

-- The fields of `DailyStockData` that the entry filter and the exit rules read.
pub record DailyStockData (W : Type 0) : Type 0 where
  pub close : Option W
  pub up_limit : Option W
  pub adj_factor : Option W

-- The reference data of the strategy.
pub record Reference (W : Type 0) : Type 0 where
  pub signals_by_date : Dict (List (Signal W))
  pub trading_dates : List ℕ
  pub listed_dates : Dict ℕ
  pub st_by_date : Dict (List ℕ)
  pub suspended_by_date : Dict (List ℕ)
  pub daily_stock_data : ℕ → ℕ → Option (DailyStockData W)

-- The configuration of the entry filter, and `_PRICE_COMPARISON_TOLERANCE`.
pub record EntryConfig (W : Type 0) : Type 0 where
  pub min_listed_days : ℕ
  pub max_open_gap_up : W
  pub consecutive_up_limit_days : ℕ
  pub excluded_name_prefixes : List ℕ
  pub price_comparison_tolerance : W

-- Names: that of an instrument in the cache, stripped, and tests on texts.
pub record Names : Type 0 where
  pub instrument_name : ℕ → ℕ
  pub text_length : ℕ → ℕ
  pub starts_with : ℕ → ℕ → Bool
  pub ends_with_st : ℕ → Bool

pub data EntrySkipReason : Type 0 where
  st_name delisting suspended st new_stock open_gap_up consecutive_up_limit : EntrySkipReason
  local_exit missing_open_price : EntrySkipReason

-- A recorded signal event: `entry_filtered` with its reason, or `model_prediction_score`.
pub record SignalEvent : Type 0 where
  pub signal_date : ℕ
  pub instrument_id : ℕ
  pub stock_code : ℕ
  pub rank : ℕ
  pub skip_reason : Option EntrySkipReason

-- What the loop of `_build_candidates` builds.
pub record Screening (W : Type 0) : Type 0 where
  pub candidates : List (ModelTargetCandidate W)
  pub seen : IdSet
  pub entry_rank : ℕ
  pub open_prices : Dict W
  pub signal_events : List SignalEvent

-- `float(None)`
pub data CandidateError : Type 0 where
  missing_pred_return : CandidateError

-- `sorted(prefixes, key=len, reverse=True)`
pub place_prefix : (ℕ → ℕ) → ℕ → List ℕ → List ℕ
place_prefix text_length p [] = p ∷ []
place_prefix text_length p (q ∷ qs) =
    if leb (text_length q) (text_length p) then p ∷ q ∷ qs else q ∷ place_prefix text_length p qs

pub longest_first : (ℕ → ℕ) → List ℕ → List ℕ
longest_first text_length [] = []
longest_first text_length (p ∷ ps) = place_prefix text_length p (longest_first text_length ps)

-- The reason of a prefix that a name has.
abbrev pub prefix_reason : Names → ℕ → EntrySkipReason
prefix_reason names prefix = if names.ends_with_st prefix then st_name else delisting

-- The loop of `_name_skip_reason`; an empty prefix is passed over.
pub first_prefix : Names → ℕ → List ℕ → Option EntrySkipReason
first_prefix names name [] = none
first_prefix names name (prefix ∷ prefixes) =
    let rest = first_prefix names name prefixes in
    if not (prefix == 0) && names.starts_with name prefix
    then some (prefix_reason names prefix)
    else rest

-- `xs[-n:]`
pub last_n : ℕ → List ℕ → List ℕ
last_n n [] = []
last_n n (d ∷ ds) = let rest = last_n n ds in if leb (length (d ∷ ds)) n then d ∷ ds else rest

-- A membership in the set of a date.
abbrev pub on_date : ℕ → Option (List ℕ) → Bool
on_date stock_code none = false
on_date stock_code (some codes) = member stock_code codes

module _ {W : Type 0} (f : Framework W) (names : Names) (config : EntryConfig W) where
  -- `_name_skip_reason`
  pub name_skip_reason : ModelState W → ℕ → Option EntrySkipReason
  name_skip_reason m stock_code = elim (lookup stock_code m.instrument_by_stock) [
    | none ↦ none
    | some id ↦
        if names.instrument_name id == 0
        then none
        else first_prefix names (names.instrument_name id)
            (longest_first names.text_length config.excluded_name_prefixes)
  ]

  -- `_today_open_price`
  pub today_open_price : ModelState W → ℕ → Option W
  today_open_price m id = above_nought f (lookup id m.today_open)

  -- The comparison of `_has_excessive_open_gap`, with the prices that are there.
  pub gap_exceeds : Option W → Option W → Bool
  gap_exceeds none last_close = false
  gap_exceeds (some today_open) none = false
  gap_exceeds (some today_open) (some last_close) =
      f.floats.le
        (f.floats.minus
          (f.floats.times last_close (f.floats.plus f.floats.one config.max_open_gap_up))
          config.price_comparison_tolerance)
        today_open

  -- `_has_excessive_open_gap`
  pub has_excessive_open_gap : ModelState W → ℕ → Bool
  has_excessive_open_gap m stock_code =
      if f.floats.le config.max_open_gap_up f.floats.nought
      then false
      else elim (lookup stock_code m.instrument_by_stock) [
        | none ↦ false
        | some id ↦ gap_exceeds (today_open_price m id) (above_nought f (lookup id m.last_close))
      ]

  -- The close and the up limit of a row, where neither is missing.
  abbrev pub both_prices : Option W → Option W → Option (W × W)
  both_prices (some close) (some up_limit) = some (close, up_limit)
  both_prices _ _ = none

  pub limit_row : Option (DailyStockData W) → Option (W × W)
  limit_row none = none
  limit_row (some row) = both_prices (above_nought f row.close) (above_nought f row.up_limit)

  -- The rows of the required dates; `none` where one is incomplete.
  pub limit_rows : Reference W → ℕ → List ℕ → Option (List (W × W))
  limit_rows reference stock_code [] = some []
  limit_rows reference stock_code (d ∷ ds) =
      let rest = limit_rows reference stock_code ds in
      elim (limit_row (reference.daily_stock_data stock_code d)) [
        | none ↦ none
        | some row ↦ elim rest [ none ↦ none | some rows ↦ some (row ∷ rows) ]
      ]

  abbrev pub at_limit : W × W → Bool
  at_limit (close, up_limit) =
      f.floats.le (f.floats.minus up_limit config.price_comparison_tolerance) close

  pub all_at_limit : List (W × W) → Bool
  all_at_limit [] = true
  all_at_limit (row ∷ rows) = at_limit row && all_at_limit rows

  -- `required_dates`
  pub required_dates : Reference W → ℕ → List ℕ
  required_dates reference trading_date =
      last_n config.consecutive_up_limit_days
        (sort_ids (earlier trading_date (to_set reference.trading_dates)))

  -- `_has_consecutive_up_limits`
  pub has_consecutive_up_limits : Reference W → ℕ → ℕ → Bool
  has_consecutive_up_limits reference stock_code trading_date =
      let dates = required_dates reference trading_date in
      if config.consecutive_up_limit_days == 0
      then false
      else if not (length dates == config.consecutive_up_limit_days)
      then false
      else elim (limit_rows reference stock_code dates) [
        | none ↦ false
        | some rows ↦ all_at_limit rows
      ]

  -- `listed_days < min_listed_days`
  abbrev pub is_new : ℕ → Option ℕ → Bool
  is_new trading_date none = false
  is_new trading_date (some listed_date) =
      ltb_ℤ (pos trading_date -ℤ pos listed_date) (pos config.min_listed_days)

  abbrev pub is_suspended_stock : ModelState W → Option ℕ → Bool
  is_suspended_stock m none = false
  is_suspended_stock m (some id) = is_suspended_status f m id

  -- `_entry_skip_reason` after the name.
  pub market_skip_reason : Reference W → ModelState W → ℕ → ℕ → Option EntrySkipReason
  market_skip_reason reference m stock_code trading_date =
      if is_suspended_stock m (lookup stock_code m.instrument_by_stock)
      then some suspended
      else if on_date stock_code (lookup trading_date reference.suspended_by_date)
      then some suspended
      else if on_date stock_code (lookup trading_date reference.st_by_date)
      then some st
      else if ltb 0 config.min_listed_days
          && is_new trading_date (lookup stock_code reference.listed_dates)
      then some new_stock
      else if has_excessive_open_gap m stock_code
      then some open_gap_up
      else if has_consecutive_up_limits reference stock_code trading_date
      then some consecutive_up_limit
      else none

  -- `_entry_skip_reason`
  pub entry_skip_reason : Reference W → ModelState W → ℕ → ℕ → Option EntrySkipReason
  entry_skip_reason reference m stock_code trading_date = elim (name_skip_reason m stock_code) [
    | some reason ↦ some reason
    | none ↦ market_skip_reason reference m stock_code trading_date
  ]

  -- The reason to skip a signal, before its price is looked at.
  pub skip_reason_of : Reference W → ModelState W → ℕ → IdSet → ℕ → ℕ → Option EntrySkipReason
  skip_reason_of reference m trading_date excluded id stock_code =
      if member id excluded
      then some local_exit
      else entry_skip_reason reference m stock_code trading_date

  -- `_record_signal`
  abbrev pub record_signal : ℕ → ℕ → Signal W → Option EntrySkipReason → Screening W → Screening W
  record_signal id rank signal reason s = record s {
    signal_events =
        s.signal_events
        ++ (record {
          signal_date = signal.date;
          instrument_id = id;
          stock_code = signal.stock_code;
          rank = rank;
          skip_reason = reason;
        }
            ∷ []);
  }

  abbrev pub candidate_from : ℕ → Signal W → W → W → ModelTargetCandidate W
  candidate_from id signal price expected_return = record {
    instrument_id = id;
    stock_code = normalize_stock_code f.texts signal.stock_code;
    score = signal.score;
    open_price = some price;
    expected_return = some expected_return;
    rank = some signal.rank;
  }

  -- A signal that is not skipped.
  pub admit : ℕ → Signal W → W → Option W → Screening W → Result CandidateError (Screening W)
  admit id signal price none s = err missing_pred_return
  admit id signal price (some expected_return) s = ok (
      record_signal id (suc s.entry_rank) signal none (record s {
        candidates = s.candidates ++ (candidate_from id signal price expected_return ∷ []);
        entry_rank = suc s.entry_rank;
        open_prices = insert id price s.open_prices;
      }))

  -- The end of the body of the loop, from the skip reason and the price on.
  pub decide :
      ℕ
      → Signal W
      → Option EntrySkipReason
      → Option W
      → Screening W
      → Result CandidateError (Screening W)
  decide id signal (some reason) price s = ok (record_signal id signal.rank signal (some reason) s)
  decide id signal none none s =
      ok (record_signal id signal.rank signal (some missing_open_price) s)
  decide id signal none (some price) s = admit id signal price signal.pred_return_live s

  -- The body of the loop, for a signal with its instrument.
  pub screen_signal :
      Reference W
      → ModelState W
      → ℕ
      → IdSet
      → Signal W
      → Option ℕ
      → Screening W
      → Result CandidateError (Screening W)
  screen_signal reference m trading_date excluded signal none s = ok s
  screen_signal reference m trading_date excluded signal (some id) s =
      if member id s.seen
      then ok s
      else decide id signal (skip_reason_of reference m trading_date excluded id signal.stock_code)
          (today_open_price m id) (record s { seen = add id s.seen })

  pub screen :
      Reference W
      → ModelState W
      → ℕ
      → IdSet
      → List (Signal W)
      → Screening W
      → Result CandidateError (Screening W)
  screen reference m trading_date excluded [] s = ok s
  screen reference m trading_date excluded (signal ∷ signals) s =
      screen_signal reference m trading_date excluded signal
        (lookup signal.stock_code m.instrument_by_stock) s
      >>= screen reference m trading_date excluded signals

  abbrev pub or_no_signals : Option (List (Signal W)) → List (Signal W)
  or_no_signals none = []
  or_no_signals (some signals) = signals

  abbrev pub signals_on : Reference W → Option ℕ → List (Signal W)
  signals_on reference none = []
  signals_on reference (some signal_date) =
      or_no_signals (lookup signal_date reference.signals_by_date)

  -- `_build_candidates`, with the open prices so far.
  pub build_candidates :
      Reference W
      → ModelState W
      → ℕ
      → Option ℕ
      → Dict W
      → IdSet
      → Result CandidateError (Screening W)
  build_candidates reference m trading_date signal_date open_prices excluded =
      screen reference m trading_date excluded (signals_on reference signal_date) (record {
        candidates = [];
        seen = [];
        entry_rank = 0;
        open_prices = open_prices;
        signal_events = [];
      })
