-- ===== src/Model/Calendar/Tests.antt =====
-- A search by counting meets the documented law; instances of the calendar's theorems.
use qapp.Base.{
  ℕ, suc, ◌≡◌, refl, ap, ◌≤◌, ◌<◌, some, List, [], ◌∷◌, ◌++◌, arith, ltb, ltb→lt, All, All-map,
  if◌then◌else◌, length, Bool-cases, inl, inr, true, false,
}
use qapp.Model.Calendar.{
  IsAscending, IsSearch, nth, before_index, previous_trading_date, first_trading_date_on_or_after,
  is_rebalance_day, earlier, maximum, prev_trading_date,
}
use qapp.Model.Calendar.Order.{previous_date_agrees, scan_from, first_date_agrees}

program : Unit {0}
unfolding nth before_index previous_trading_date first_trading_date_on_or_after is_rebalance_day
    earlier maximum prev_trading_date
program = tt

-- The leading dates that are earlier.
abbrev pub count : List ℕ → ℕ → ℕ
count [] current = 0
count (d ∷ ds) current = let rest = count ds current in if ltb d current then suc rest else 0

count-splits :
    (dates : List ℕ) (current : ℕ)
    → IsAscending dates
    → (before after : List ℕ) × (dates ≡ before ++ after)
      × (count dates current ≡ length before)
      × All (λ d. d < current) before
      × All (λ d. current ≤ d) after
count-splits [] current h = ([], [], refl, refl, tt, tt)
count-splits (d ∷ ds) current h =
    let (before, after, whole, found, early, late) = count-splits ds current h.1 in
    elim (Bool-cases (ltb d current)) [
      | inl e ↦ (
        d ∷ before,
        after,
        ap (λ l. d ∷ l) whole,
        rw e (ap suc found),
        (ltb→lt d current e, early),
        late,
      )
      | inr e ↦ (
        [],
        d ∷ ds,
        refl,
        rw e refl,
        tt,
        (
          ground (arith, e),
          All-map (λ x. d ≤ x) (λ x. current ≤ x) ds (λ x k. ground (arith, e, k)) h.0,
        ),
      )
    ]

pub count-IsSearch : IsSearch count
count-IsSearch = record { splits = count-splits }

abbrev pub dates : List ℕ
dates = 3 ∷ 4 ∷ 7 ∷ 8 ∷ []

abbrev dates-IsAscending : IsAscending dates
dates-IsAscending = omega arith

rebalance_run :
    (is_rebalance_day count dates (some 3) 7 2 ≡ true)
    × (is_rebalance_day count dates (some 3) 8 2 ≡ false)
unfolding program
rebalance_run = (refl, refl)

previous_date_agrees_example : previous_trading_date count dates 7 ≡ prev_trading_date dates 7
previous_date_agrees_example = previous_date_agrees count count-IsSearch dates 7 dates-IsAscending

first_date_run : first_trading_date_on_or_after count dates (some 5) ≡ scan_from 5 dates
first_date_run = first_date_agrees count count-IsSearch dates 5 dates-IsAscending
