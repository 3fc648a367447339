-- ===== src/Strategy/Targets/Tests.antt =====
-- A run of an update, and instances of the theorems about updates and trading days.
use qapp.Base.{◌≡◌, refl, true, false, Option, none, some, [], ◌∷◌, Dict, lookup}
use qapp.Base.Int.{ℤ, pos, negsuc, ◌-ℤ◌}
use qapp.Strategy.Types.{Strategy}
use qapp.Strategy.Targets.{
  normalize, total, target_version, includes, place_key, by_key, discard_version, accept, install,
  update_target_quantities, roll_trading_day,
}
use qapp.Strategy.Windows.{within_trading_window}
use qapp.Strategy.Targets.Days.{roll_trading_day_twice, stale_quote_closes_gate}
use qapp.Strategy.Targets.Updates.{
  IsReset, update_sets_targets, paused_update_is_inert, converging_update_resets,
}
use qapp.Strategy.Samples.{engine, config, strategy}

program : Unit {0}
unfolding ◌-ℤ◌ normalize total target_version includes place_key by_key discard_version accept
    install update_target_quantities
program = tt

abbrev quantities : Dict (Option ℤ)
quantities = (9, some (pos 300)) ∷ (8, some (negsuc 0)) ∷ (7, some (pos 0)) ∷ (6, none) ∷ []

-- Negative and unreadable quantities are dropped, 0 is kept, and the map is sorted.
update_run :
    (update_target_quantities quantities 6 2 none false none strategy).1.target_quantities
    ≡ (7, 0) ∷ (9, 300) ∷ []
unfolding program
update_run = refl

abbrev updated : Strategy
updated = (update_target_quantities quantities 6 2 none false none strategy).1

update_sets_targets_example :
    lookup 9 (update_target_quantities quantities 6 2 none false none strategy).1.target_quantities
    ≡ some 300
unfolding program
update_sets_targets_example = update_sets_targets quantities 6 2 none false none strategy 9 refl

paused_update_is_inert_run :
    update_target_quantities quantities 6 2 none false none
      (record strategy { target_updates_paused = true })
    ≡ (false, record strategy { target_updates_paused = true })
paused_update_is_inert_run =
    paused_update_is_inert quantities 6 2 none none
      (record strategy { target_updates_paused = true }) refl

converging_update_resets_example : IsReset updated
unfolding program
converging_update_resets_example =
    converging_update_resets quantities 6 2 none false none strategy {t = updated} refl

roll_trading_day_twice_run :
    roll_trading_day engine 6 (roll_trading_day engine 6 strategy)
    ≡ roll_trading_day engine 6 strategy
roll_trading_day_twice_run = roll_trading_day_twice engine 6 strategy

stale_quote_closes_gate_example :
    within_trading_window engine config (roll_trading_day engine 6 strategy) 0 ≡ false
stale_quote_closes_gate_example = stale_quote_closes_gate engine 6 config strategy refl refl
