-- ===== src/Model/Recency.antt =====
-- The recency of a holding, strategies/model_prediction_targets.py: `_recent_holding_days` and
-- `_recent_target_cutoff_date`. Dates are numbers of days.
pub mod Count
pub mod Tests
use qapp.Base.{
  ℕ, zero, suc, ◌-◌, Bool, Option, none, some, List, [], ◌∷◌, max, leb, ◌==◌, if◌then◌else◌, length,
  sort_ids,
}
use qapp.Model.Calendar.{nth, earlier}

abbrev pub next : Option ℕ → Option ℕ
next none = none
next (some index) = some (suc index)

-- `dates.index(value)`
pub index_of : ℕ → List ℕ → Option ℕ
index_of value [] = none
index_of value (d ∷ ds) = let rest = index_of value ds in if d == value then some 0 else next rest

-- The index of the first date that is not before the value.
pub first_from : ℕ → List ℕ → Option ℕ
first_from value [] = none
first_from value (d ∷ ds) =
    let rest = first_from value ds in if leb value d then some 0 else next rest

abbrev pub days_between : ℕ → ℕ → Option ℕ → Option ℕ → ℕ
days_between today recent none first = max 1 (today - recent)
days_between today recent (some today_index) none = 1
days_between today recent (some today_index) (some recent_index) =
    max 1 (today_index - recent_index)

-- `_recent_holding_days`
pub recent_holding_days : List ℕ → ℕ → Option ℕ → ℕ
recent_holding_days dates today none = 0
recent_holding_days dates today (some recent) =
    let ordered = sort_ids dates in
    days_between today recent (index_of today ordered) (first_from recent ordered)

abbrev pub window : ℕ
window = 90

abbrev pub or_today : ℕ → Option ℕ → ℕ
or_today today none = today
or_today today (some d) = d

-- `_recent_target_cutoff_date`
unfoldable pub recent_target_cutoff_date : List ℕ → ℕ → ℕ
recent_target_cutoff_date dates today =
    let prior = sort_ids (earlier today dates) in
    or_today today
      (if leb (length prior) window then nth prior 0 else nth prior (length prior - window))
