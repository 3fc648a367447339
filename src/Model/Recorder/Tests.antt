-- ===== src/Model/Recorder/Tests.antt =====
-- Runs of the recorder, and instances of its theorems.
use qapp.Base.{ℕ, ◌≡◌, refl, none, some, [], ◌∷◌, ok, err}
use qapp.Base.Int.{pos}
use qapp.Strategy.Targets.Manual.{as_quantities}
use qapp.Model.Local.{target_quantities_from_plan, quantities_from}
use qapp.Model.Samples.{texts, state}
use qapp.Model.Store.{
  before_trading, continuous_trading, note_row, read_row, read_rows, LoadedTarget, TargetRow,
  target_quantities_from_live_target_rows, plan_version, target_record, target_records,
  load_target_portfolios, load_target, write_records, persist_target_plan,
}
use qapp.Model.Store.Tests.{Memory, memory, plan}
use qapp.Model.Day.{Planning, plan_failed}
use qapp.Model.Recorder.{
  Recorder, Completion, skipped, failed, success, read_loaded, apply_target, apply_loaded_target,
  persist_and_apply, generated, generate_and_persist_target, ensure_daily_target,
}
use qapp.Model.Recorder.Readers.{readers_agree}
use qapp.Model.Recorder.Once.{target_is_ensured_once}

program : Unit {0}
unfolding quantities_from target_quantities_from_plan note_row read_row read_rows
    target_quantities_from_live_target_rows plan_version target_record target_records
    load_target_portfolios load_target write_records persist_target_plan read_loaded apply_target
    apply_loaded_target persist_and_apply generated generate_and_persist_target ensure_daily_target
program = tt

abbrev planning : Planning ℕ
planning = record { compute = λ d m. (ok plan, m); resolve_signal_date = λ d. some 6 }

abbrev recorder : Recorder ℕ Memory
recorder = record { model = state; store = λ key. []; applied_target_dates = [] }

abbrev ensured : Completion × Recorder ℕ Memory
ensured = ensure_daily_target planning memory 5 7 before_trading recorder

ensure_run : ensured.0 ≡ success
unfolding program
ensure_run = refl

-- A day whose plan raises counts as ensured.
failure_run :
    ensure_daily_target
      (record planning { compute = λ d m. (err plan_failed, m) })
      memory
      5
      7
      before_trading
      recorder
    ≡ (failed, record recorder { applied_target_dates = 7 ∷ [] })
unfolding program
failure_run = refl

abbrev row : ℕ → ℕ → TargetRow
row id quantity = record {
  instrument_id = id;
  stock_code = 100;
  request_id = none;
  target_qty = some (pos quantity);
  current_qty = none;
  target_version = none;
  is_locked = none;
  reason = 0;
}

abbrev loaded : LoadedTarget
loaded = record { quantities = (9, 200) ∷ (7, 0) ∷ []; reason = 5; version = none }

readers_agree_example :
    (read_loaded
      (row 9 200 ∷ row 7 0 ∷ [])
      (record { target_qty = []; version = none; reason = 5 })).target_qty
    ≡ as_quantities loaded.quantities
unfolding program
readers_agree_example =
    readers_agree texts 5 (row 9 200 ∷ row 7 0 ∷ []) loaded (refl, (refl, tt)) refl

target_is_ensured_once_example :
    ensure_daily_target planning memory 5 7 continuous_trading ensured.1 ≡ (skipped, ensured.1)
target_is_ensured_once_example =
    target_is_ensured_once planning memory 5 7 before_trading continuous_trading recorder
