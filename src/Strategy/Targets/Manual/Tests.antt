-- ===== src/Strategy/Targets/Manual/Tests.antt =====
-- Instances of the theorems about the manual sale.
use qapp.Base.{ℕ, ◌≡◌, refl, Option, none, some, List, [], ◌∷◌, lookup}
use qapp.Base.Int.{pos, ◌-ℤ◌}
use qapp.Strategy.Types.{Strategy, computed}
use qapp.Strategy.Targets.{
  normalize, total, target_version, includes, place_key, by_key, discard_version, accept, install,
  update_target_quantities, open_long_quantities,
}
use qapp.Strategy.Targets.Manual.{
  Plan, sell_one, sell_loop, requested_holdings, not_held_entries, plan_sell, apply_targets,
  apply_affected, sell_manually,
}
use qapp.Strategy.Targets.Manual.Loop.{remainder}
use qapp.Strategy.Targets.Manual.Outcomes.{sell_all_targets, sell_named_targets}
use qapp.Strategy.Samples.{strategy, world}

program : Unit {0}
unfolding ◌-ℤ◌ normalize total target_version includes place_key by_key discard_version accept
    install update_target_quantities open_long_quantities sell_one sell_loop requested_holdings
    not_held_entries plan_sell apply_targets apply_affected sell_manually
program = tt

abbrev after_sale : Option (List ℕ) → Strategy
after_sale ids = record strategy {
  target_quantities = elim ids [ none ↦ (7, 100) ∷ [] | some _ ↦ (7, 100) ∷ (8, 200) ∷ [] ];
  target_reason = 2;
  target_version = elim ids [
    | none ↦ some (computed 5 2 1 100)
    | some _ ↦ some (computed 5 2 2 300)
  ];
}

abbrev sale : Option (List ℕ) → Plan
sale ids = record {
  new_targets = elim ids [ none ↦ (7, 100) ∷ [] | some _ ↦ (7, 100) ∷ (8, 200) ∷ [] ];
  affected = 7 ∷ [];
  skipped = [];
}

sell_all_targets_example :
    lookup 7 (after_sale none).target_quantities
    ≡ remainder (lookup 7 (open_long_quantities world.positions_open [])) (some (pos 250)) none
unfolding program
sell_all_targets_example = sell_all_targets 2 strategy 7 {p = sale none} {t = after_sale none} refl

sell_named_targets_example : lookup 8 (after_sale (some (7 ∷ []))).target_quantities ≡ some 200
unfolding program
sell_named_targets_example =
    sell_named_targets (7 ∷ []) 2 strategy 8 {p = sale (some (7 ∷ []))}
      {t = after_sale (some (7 ∷ []))} (refl, (refl, tt)) refl
