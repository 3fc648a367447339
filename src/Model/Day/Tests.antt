-- ===== src/Model/Day/Tests.antt =====
-- A day with a store in memory, and instances of the theorems about days.
use qapp.Base.{ℕ, ◌≡◌, refl, arith, true, false, none, some, [], ok, err, lookup}
use qapp.Model.Local.{target_quantities_from_plan, quantities_from}
use qapp.Model.Samples.{texts, state}
use qapp.Model.Store.{
  note_row, read_row, read_rows, target_quantities_from_live_target_rows, plan_version,
  target_record, target_records, load_target_portfolios, load_target, write_records,
  persist_target_plan, persist_strategy_target_plan,
}
use qapp.Model.Store.Tests.{Memory, memory, memory-IsDatabase, plan}
use qapp.Model.Day.{
  Day, Planning, Wiring, plan_failed, live_target_portfolio_target, apply_loaded, apply_plan,
  apply_persisted, apply_computed, after_compute, after_load, process_trading_day, mark_processed,
  process_trading_day_once, discard_processed, refresh_processed,
}
use qapp.Model.Day.Gates.{day_is_processed_once, unstored_plan_is_not_applied}
use qapp.Model.Day.Restart.{targets_after, restart_keeps_targets}

program : Unit {0}
unfolding quantities_from target_quantities_from_plan note_row read_row read_rows
    target_quantities_from_live_target_rows plan_version target_record target_records
    load_target_portfolios load_target write_records persist_target_plan
    persist_strategy_target_plan live_target_portfolio_target apply_loaded apply_plan
    apply_persisted apply_computed after_compute after_load process_trading_day mark_processed
    process_trading_day_once
program = tt

-- The plan of the store's runs, whatever the day.
abbrev planning : Planning ℕ
planning = record { compute = λ d m. (ok plan, m); resolve_signal_date = λ d. some 6 }

abbrev wiring : Wiring Memory
wiring = record { database = memory; has_loader = true; has_persister = true; loaded_target = 5 }

-- A database that refuses every write.
abbrev read_only : Wiring Memory
read_only = record wiring { database = record memory { upsert = λ key rows t. none } }

abbrev nothing : Memory
nothing _ = []

abbrev day : Day ℕ Memory
day = record { model = state; store = nothing; converges = false }

abbrev stored : Memory
stored = (persist_strategy_target_plan memory plan nothing).1

restart_keeps_targets_example :
    (lookup 9 (targets_after texts planning wiring 7 day)
      ≡ lookup 9 (target_quantities_from_plan plan))
    × (lookup 9 (
          targets_after texts planning wiring 7
            (record { model = state; store = stored; converges = false }))
        ≡ lookup 9 (target_quantities_from_plan plan))
unfolding program
restart_keeps_targets_example =
    restart_keeps_targets texts planning wiring day plan state state stored 9 200 memory-IsDatabase
      refl refl refl refl (ground arith) (ground arith) (omega arith) refl refl (refl, refl) refl
      refl refl 9

abbrev once : Day ℕ Memory
once = (process_trading_day_once texts planning wiring 7 day).1

day_is_processed_once_example :
    (process_trading_day_once texts planning wiring 7 once ≡ (ok false, once))
    × (refresh_processed texts planning wiring (λ s. true) (some 7) once
        ≡ mark_processed texts planning wiring 7 (
            process_trading_day texts planning wiring 7
              (discard_processed texts planning wiring 7 once)))
unfolding program
day_is_processed_once_example =
    day_is_processed_once texts planning wiring 7 day true (λ s. true) refl refl

unstored_run : process_trading_day texts planning read_only 7 day ≡ (ok tt, day)
unfolding program
unstored_run =
    unstored_plan_is_not_applied texts planning read_only 7 day plan state nothing refl refl refl
      refl

-- A day whose plan raises is not marked, and is tried again.
failure_run :
    process_trading_day_once texts
      (record planning { compute = λ d m. (err plan_failed, m) })
      wiring
      7
      day
    ≡ (err plan_failed, day)
unfolding program
failure_run = refl
