-- ===== src/Splitter/Tests.antt =====
-- Runs of the splitter on small inputs, and instances of its theorems.
use native.Mathlib.Nat.{dvd_of_mod-eq-zero}
use qapp.Base.{ℕ, ◌*◌, ◌≤◌, ◌≡◌, refl, true, false, List, [], ◌∷◌, some, arith, All, ok, err}
use qapp.Base.Int.{pos, negsuc}
use qapp.Base.Decimal.{finite, nan}
use qapp.Splitter.{
  round_down, move_one, move_from_end, needed_for, available_in, top_up, is_valid, append_remainder,
  cut, slice, maximum_quantity, split,
}
use qapp.Splitter.Fields.{
  value_error, invalid_operation, RawRules, fields, LimitOrderQuantityRules, from_instrument,
  IsSound, from_instrument-IsSound,
}
use qapp.Splitter.Slices.{Sendable}
use qapp.Splitter.Split.{Accounts, split-Sendable, split_fulfils, split_notional}

program : Unit {0}
unfolding round_down move_one move_from_end needed_for available_in top_up is_valid append_remainder
    cut slice maximum_quantity split from_instrument
program = tt

-- Two units make a share; lots of 100 shares, at most 1000, odd lots may be sold.
abbrev lots : RawRules
lots = fields (finite (pos 200)) (finite (pos 2000)) (finite (pos 200)) (some true)

abbrev lot_rules : LimitOrderQuantityRules
lot_rules = record {
  min_quantity = 200;
  max_quantity = 2000;
  quantity_increment = 200;
  allow_odd_lot_sell = true;
}

-- 2050 shares are liquidated whole; without the odd lot the last 50 stay pending.
split_runs :
    (split 2 (pos 0) lots (finite (pos 4100)) (finite (pos 20)) true ≡ ok (2000 ∷ 1800 ∷ 300 ∷ []))
    × (split 2 (pos 0) lots (finite (pos 4100)) (finite (pos 20)) false ≡ ok (2000 ∷ 2000 ∷ []))
    × (split 2 (pos 9000) lots (finite (pos 1000)) (finite (pos 20)) false ≡ ok (800 ∷ 200 ∷ []))
    × (split 2 (pos 0) lots (finite (pos 4101)) (finite (pos 20)) true ≡ err value_error)
    × (split 2 (pos 0) lots nan (finite (pos 20)) true ≡ err invalid_operation)
    × (split 2 (pos 0) lots (finite (negsuc 3)) nan true ≡ ok [])
unfolding program
split_runs = (refl, refl, refl, refl, refl, refl)

-- A remainder below the minimum is topped up from the last slice.
top_up_runs :
    top_up (record lot_rules { min_quantity = 600 }) (2000 ∷ 2000 ∷ []) 200
    ≡ (2000 ∷ 1600 ∷ [], 600)
unfolding program
top_up_runs = refl

lots-parsed : from_instrument lots ≡ ok lot_rules
unfolding program
lots-parsed = refl

from_instrument-IsSound_run : IsSound lot_rules
from_instrument-IsSound_run = from_instrument-IsSound lots lots-parsed

split-Sendable_example :
    (out : List ℕ) × (split 2 (pos 0) lots (finite (pos 4100)) (finite (pos 20)) true ≡ ok out)
    × All (Sendable 2 lot_rules 2000 true) out
unfolding program
split-Sendable_example =
    split-Sendable 2 lots lots-parsed (dvd_of_mod-eq-zero 2 refl) (pos 0) 4099 (finite (pos 20))
      true refl (dvd_of_mod-eq-zero 2 refl)

split_fulfils_example :
    (out : List ℕ) × (split 2 (pos 0) lots (finite (pos 4100)) (finite (pos 20)) true ≡ ok out)
    × Accounts lot_rules true 4100 out
unfolding program
split_fulfils_example =
    split_fulfils 2 lots lots-parsed (dvd_of_mod-eq-zero 2 refl) (pos 0) 4099 (finite (pos 20)) true
      refl (dvd_of_mod-eq-zero 2 refl) (omega arith)

split_notional_example : All (λ v. v * 20 ≤ 9000 * 2) (800 ∷ 200 ∷ [])
unfolding program
split_notional_example =
    split_notional 2 lots lots-parsed (dvd_of_mod-eq-zero 2 refl) 8999 999 19 false refl
