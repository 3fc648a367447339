-- ===== src/Model/Calendar.antt =====
-- The trading calendar: strategies/model_common.py, `previous_trading_date`,
-- `first_trading_date_on_or_after` and `is_rebalance_day`; `_prev_trading_date` of
-- lives/snapshot_recorder.py. Dates are numbers.
pub mod Order
pub mod Tests
use qapp.Base.{
  ℕ, zero, suc, ◌-◌, ◌%◌, ◌≤◌, ◌<◌, ◌≡◌, Bool, true, false, Option, none, some, List, [], ◌∷◌, ◌++◌,
  max, ltb, leb, ◌==◌, if◌then◌else◌, length, All,
}

abbrev pub IsAscending : List ℕ → Type 0
IsAscending [] = Unit
IsAscending (d ∷ ds) = All (λ e. d ≤ e) ds × IsAscending ds

-- pandas' `searchsorted(..., side="left")` on an ascending index: the dates before the position that
-- it returns are earlier than the given one, those from there on are not.
pub record IsSearch (searchsorted : List ℕ → ℕ → ℕ) : Type 0 where
  pub splits :
      (dates : List ℕ) (current : ℕ)
      → IsAscending dates
      → (before after : List ℕ) × (dates ≡ before ++ after)
        × (searchsorted dates current ≡ length before)
        × All (λ d. d < current) before
        × All (λ d. current ≤ d) after

-- `dates[index]`
unfoldable pub nth : List ℕ → ℕ → Option ℕ
nth [] index = none
nth (d ∷ ds) zero = some d
nth (d ∷ ds) (suc index) = nth ds index

-- `None` for the index -1.
unfoldable pub before_index : List ℕ → ℕ → Option ℕ
before_index dates zero = none
before_index dates (suc index) = nth dates index

module _ (searchsorted : List ℕ → ℕ → ℕ) where
  unfoldable pub previous_trading_date : List ℕ → ℕ → Option ℕ
  previous_trading_date dates current = before_index dates (searchsorted dates current)

  pub first_trading_date_on_or_after : List ℕ → Option ℕ → Option ℕ
  first_trading_date_on_or_after dates none = none
  first_trading_date_on_or_after dates (some start) =
      let index = searchsorted dates start in
      if leb (length dates) index then none else nth dates index

  pub is_rebalance_day : List ℕ → Option ℕ → ℕ → ℕ → Bool
  is_rebalance_day dates none current holding_days = false
  is_rebalance_day dates (some start) current holding_days =
      if leb holding_days 1
      then true
      else if ltb current start
      then false
      else (searchsorted dates current - searchsorted dates start) % holding_days == 0

-- `[value for value in dates if value < trading_date]`
unfoldable pub earlier : ℕ → List ℕ → List ℕ
earlier current [] = []
earlier current (d ∷ ds) = let rest = earlier current ds in if ltb d current then d ∷ rest else rest

abbrev pub larger : ℕ → Option ℕ → ℕ
larger d none = d
larger d (some e) = max d e

-- `max(prev) if prev else None`
pub maximum : List ℕ → Option ℕ
maximum [] = none
maximum (d ∷ ds) = some (larger d (maximum ds))

-- `_prev_trading_date`
pub prev_trading_date : List ℕ → ℕ → Option ℕ
prev_trading_date dates current = maximum (earlier current dates)
