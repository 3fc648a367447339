-- ===== src/Strategy/Targets/Manual.antt =====
-- The manual sell, strategies/trading_control.py: `TradingController.sell`, with
-- `control_apply_targets` of strategies/target_quantities.py. A lock that another thread holds is
-- held until the timeout here.
pub mod Loop
pub mod Outcomes
pub mod Tests
use qapp.Base.{
  ℕ, Bool, true, false, Option, none, some, List, [], ◌∷◌, ◌++◌, ◌==◌, if◌then◌else◌, Dict, lookup,
  insert, to_set,
}
use qapp.Base.Int.{ℤ, pos, pos_part, ◌-ℤ◌}
use qapp.Strategy.Types.{Strategy, Position}
use qapp.Strategy.Targets.{open_long_quantities, target_version, update_target_quantities, by_key}

pub data SkipReason : Type 0 where
  sellable_unknown not_held : SkipReason

-- What the loop builds: the new targets, the instruments affected and those skipped.
pub record Plan : Type 0 where
  pub new_targets : Dict ℕ
  pub affected : List ℕ
  pub skipped : List (ℕ × SkipReason)

-- One instrument with its holding: its target is what cannot be sold, at least 0.
pub sell_one : ℕ → ℕ → Option ℤ → Plan → Plan
sell_one id held none p = record p { skipped = p.skipped ++ ((id, sellable_unknown) ∷ []) }
sell_one id held (some sellable) p = record p {
  new_targets = insert id (pos_part (pos held -ℤ sellable)) p.new_targets;
  affected = p.affected ++ (id ∷ []);
}

-- The loop over `affected_ids`, each with its holding.
pub sell_loop : (ℕ → Option ℤ) → Dict ℕ → Plan → Plan
sell_loop sellable [] p = p
sell_loop sellable ((id, held) ∷ rest) p =
    sell_loop sellable rest (sell_one id held (sellable id) p)

-- `[iid for iid in requested if iid in held]`, with the holdings.
pub requested_holdings : List ℕ → Dict ℕ → Dict ℕ
requested_holdings [] held = []
requested_holdings (id ∷ ids) held =
    let rest = requested_holdings ids held in
    elim (lookup id held) [ none ↦ rest | some q ↦ (id, q) ∷ rest ]

-- `requested.difference(held)`, as the entries that the loop over `missing` adds.
pub not_held_entries : List ℕ → Dict ℕ → List (ℕ × SkipReason)
not_held_entries [] held = []
not_held_entries (id ∷ ids) held =
    let rest = not_held_entries ids held in
    elim (lookup id held) [ none ↦ (id, not_held) ∷ rest | some q ↦ rest ]

-- The mutation of the targets under the lock; the requested identifiers, a set, come in the order of
-- their first insertion, and `none` is a sale of everything.
pub plan_sell : (ℕ → Option ℤ) → Dict ℕ → Dict ℕ → Option (List ℕ) → Plan
plan_sell sellable held targets none =
    sell_loop sellable (by_key held) (record { new_targets = []; affected = []; skipped = [] })
plan_sell sellable held targets (some instrument_ids) =
    let requested = to_set instrument_ids in
    let p =
      sell_loop sellable (requested_holdings requested held)
        (record { new_targets = targets; affected = []; skipped = [] }) in
    record p { skipped = p.skipped ++ not_held_entries requested held }

abbrev pub as_quantities : Dict ℕ → Dict (Option ℤ)
as_quantities [] = []
as_quantities ((id, q) ∷ d) = (id, some (pos q)) ∷ as_quantities d

-- `control_apply_targets`
pub apply_targets : Dict ℕ → ℕ → ℕ → Strategy → Bool × Strategy
apply_targets targets target_date reason s =
    update_target_quantities (as_quantities targets) target_date reason
      (some (target_version target_date targets reason)) true none s

-- What a sale does after the lock is released, from `if affected:` on: whether a convergence is
-- forced, and the object.
pub apply_affected : List ℕ → Dict ℕ → ℕ → Strategy → Bool × Strategy
apply_affected [] targets reason s = (false, s)
apply_affected (_ ∷ _) targets reason s =
    (true, (apply_targets targets s.world.clock_date reason s).1)

-- `sell`, from the object that the wait for the lock finds: where the lock is still held, the wait
-- timed out, and `none` is the `TimeoutError`.
pub sell_manually : Option (List ℕ) → ℕ → Strategy → Option (Plan × (Bool × Strategy))
sell_manually instrument_ids reason s =
    let p =
      plan_sell s.world.venue_sellable (open_long_quantities s.world.positions_open [])
        s.target_quantities instrument_ids in
    if s.converge_locked then none else some (p, apply_affected p.affected p.new_targets reason s)
