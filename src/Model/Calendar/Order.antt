-- ===== src/Model/Calendar/Order.antt =====
-- The search in the calendar against a scan of it, strategies/model_common.py.
use mathlib.Core.Path.{subst}
use qapp.Base.{
  ℕ, ◌≤◌, ◌<◌, ◌≡◌, refl, sym, ap, ◌∙◌, Option, none, some, List, [], ◌∷◌, ◌++◌, arith, length, All,
  if◌then◌else◌, lt→ltb, leb,
}
use qapp.Model.Calendar.{
  IsAscending, IsSearch, nth, before_index, previous_trading_date, first_trading_date_on_or_after,
  earlier, larger, maximum, prev_trading_date,
}

-- The last of some ascending dates is their maximum.
before_index-maximum :
    (before after : List ℕ)
    → IsAscending (before ++ after)
    → before_index (before ++ after) (length before) ≡ maximum before
unfolding before_index nth maximum
before_index-maximum [] after h = refl
before_index-maximum (d ∷ []) after h = refl
before_index-maximum (d ∷ e ∷ ds) after h =
    before_index-maximum (e ∷ ds) after h.1
    ∙ ap some (omega (arith, h.0.0, larger_le e (maximum ds)))
  where
    larger_le : (e : ℕ) (m : Option ℕ) → e ≤ larger e m
    larger_le e none = omega arith
    larger_le e (some f) = omega arith

earlier-after :
    (current : ℕ) (after : List ℕ) → All (λ d. current ≤ d) after → earlier current after ≡ []
unfolding earlier
earlier-after current [] h = refl
earlier-after current (d ∷ ds) h = ground (arith, h.0, earlier-after current ds h.1)

earlier-split :
    (current : ℕ) (before after : List ℕ)
    → All (λ d. d < current) before
    → All (λ d. current ≤ d) after
    → earlier current (before ++ after) ≡ before
unfolding earlier
earlier-split current [] after h h' = earlier-after current after h'
earlier-split current (d ∷ ds) after h h' =
    rw (lt→ltb d current h.0) (ap (λ l. d ∷ l) (earlier-split current ds after h.1 h'))

-- The first date of a list from `start` on.
abbrev pub scan_from : ℕ → List ℕ → Option ℕ
scan_from start [] = none
scan_from start (d ∷ ds) = let rest = scan_from start ds in if leb start d then some d else rest

nth-length :
    (start : ℕ) (before after : List ℕ)
    → All (λ d. d < start) before
    → All (λ d. start ≤ d) after
    → (if leb (length (before ++ after)) (length before)
        then none
        else nth (before ++ after) (length before))
      ≡ scan_from start (before ++ after)
unfolding nth
nth-length start [] [] h h' = refl
nth-length start [] (d ∷ ds) h h' = ground (arith, h'.0)
nth-length start (d ∷ ds) after h h' = ground (arith, h.0, nth-length start ds after h.1 h')

module _ (searchsorted : List ℕ → ℕ → ℕ) (search : IsSearch searchsorted) where
  -- On an ascending calendar the binary search of the strategy and the scan of the snapshot recorder
  -- name the same previous trading date.
  pub previous_date_agrees :
      (dates : List ℕ) (current : ℕ)
      → IsAscending dates
      → previous_trading_date searchsorted dates current ≡ prev_trading_date dates current
  unfolding previous_trading_date prev_trading_date
  previous_date_agrees dates current h =
      let (before, after, whole, found, early, late) = search.splits dates current h in
      rw found (
        rw whole (
          before_index-maximum before after (subst IsAscending whole h)
          ∙ ap maximum (sym (earlier-split current before after early late))))

  -- On an ascending calendar the first trading date from a date on is the first that a scan meets.
  pub first_date_agrees :
      (dates : List ℕ) (start : ℕ)
      → IsAscending dates
      → first_trading_date_on_or_after searchsorted dates (some start) ≡ scan_from start dates
  unfolding first_trading_date_on_or_after
  first_date_agrees dates start h =
      let (before, after, whole, found, early, late) = search.splits dates start h in
      rw found (rw whole (nth-length start before after early late))
