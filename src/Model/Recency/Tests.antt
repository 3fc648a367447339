-- ===== src/Model/Recency/Tests.antt =====
-- Runs of the recency of a holding, and an instance of its theorem.
use qapp.Base.{ℕ, ◌≡◌, refl, none, some, List, [], ◌∷◌, max, arith}
use qapp.Model.Calendar.{nth, earlier}
use qapp.Model.Recency.{index_of, first_from, recent_holding_days, recent_target_cutoff_date}
use qapp.Model.Recency.Count.{between, recent_holding_days_counts}

program : Unit {0}
unfolding nth earlier index_of first_from recent_holding_days recent_target_cutoff_date
program = tt

abbrev dates : List ℕ
dates = 9 ∷ 3 ∷ 4 ∷ 7 ∷ 8 ∷ []

-- Two trading days back, the same day, a day that is not traded, and no date.
recency_run :
    (recent_holding_days dates 8 (some 4) ≡ 2)
    × (recent_holding_days dates 8 (some 8) ≡ 1)
    × (recent_holding_days dates 6 (some 3) ≡ 3)
    × (recent_holding_days dates 8 none ≡ 0)
    × (recent_target_cutoff_date dates 8 ≡ 3)
unfolding program
recency_run = (refl, refl, refl, refl, refl)

recent_holding_days_counts_example :
    recent_holding_days dates 8 (some 4) ≡ max 1 (between 4 8 dates)
recent_holding_days_counts_example = recent_holding_days_counts dates 8 4 refl (omega arith)
