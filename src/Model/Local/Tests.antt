-- ===== src/Model/Local/Tests.antt =====
-- Runs of the local plans, and instances of their theorems.
use qapp.Base.{ℕ, ◌≡◌, ◌≢◌, refl, true, false, none, some, [], ◌∷◌, ok, err, lookup, Dict}
use qapp.Base.Int.{pos}
use qapp.Strategy.Types.{buy}
use qapp.Strategy.Converge.Desired.{
  held_instrument_ids, held_of_positions, held_of_ids, side_and_quantity,
}
use qapp.Model.Plans.{
  ModelTargetPlan, TargetInfo, ExitReason, stop_triggered, risk_manager_failure,
  normalize_stock_code,
}
use qapp.Model.Planner.{no_context, gave_up}
use qapp.Model.Samples.{framework, request, state}
use qapp.Model.Local.{
  held_loop, held_quantities, quantities_from, target_quantities_from_plan, targets_by_instrument,
  positive_price, open_price_with_source, is_suspended_status, stock_code_for_instrument,
  local_target_info, local_targets, local_safety_plan, override_targets,
  apply_forced_exit_overrides, annotate_target, annotate_plan, planned, target_plan,
}
use qapp.Model.Local.Quantities.{safe_target, safety_plan_never_buys}
use qapp.Model.Local.Exits.{forced_exit_is_final}

program : Unit {0}
unfolding held_instrument_ids held_of_positions held_of_ids side_and_quantity normalize_stock_code
    held_loop held_quantities quantities_from target_quantities_from_plan targets_by_instrument
    positive_price open_price_with_source is_suspended_status stock_code_for_instrument
    local_target_info local_targets local_safety_plan override_targets apply_forced_exit_overrides
    annotate_target annotate_plan planned target_plan
program = tt

abbrev exits : Dict ExitReason
exits = (7, stop_triggered) ∷ []

-- A plan that would keep the holding and buy another instrument.
abbrev target : ℕ → ℕ → TargetInfo ℕ
target id quantity = record {
  stock_code = 100;
  weight = none;
  quantity = some quantity;
  target_context = no_context;
  target_version = none;
  instrument_id = id;
  is_locked = none;
}

abbrev wanted : ModelTargetPlan ℕ
wanted = record {
  trading_date = 7;
  signal_date = some 6;
  targets = target 9 200 ∷ target 7 300 ∷ [];
  reason = 1;
  request_id = some 2;
  total_asset = none;
  investable_asset = none;
  persistable = true;
  degraded_reason = none;
}

held_run : held_quantities state.base ≡ (7, 350) ∷ []
unfolding program
held_run = refl

override_run :
    target_quantities_from_plan
      (target_plan framework (λ _. ok wanted) true request exits none state).0
    ≡ (7, 0) ∷ (9, 200) ∷ []
unfolding program
override_run = refl

failure_run :
    target_quantities_from_plan
      (target_plan framework (λ _. err gave_up) true request [] none state).0
    ≡ (7, 350) ∷ []
unfolding program
failure_run = refl

abbrev safe : ModelTargetPlan ℕ
safe = (local_safety_plan framework request exits risk_manager_failure state).0

safety_plan_never_buys_example :
    (safe.persistable ≡ false)
    × (lookup 7 (target_quantities_from_plan safe)
        ≡ safe_target exits 7 (lookup 7 (held_quantities state.base)) none)
    × ((target q : ℕ)
        → lookup 7 (target_quantities_from_plan safe) ≡ some target
        → side_and_quantity (pos 350) target ≢ some (buy, q))
unfolding program
safety_plan_never_buys_example =
    safety_plan_never_buys framework request exits risk_manager_failure state 7

forced_exit_run :
    lookup 7 (
      target_quantities_from_plan
        (target_plan framework (λ _. ok wanted) true request exits none state).0)
    ≡ some 0
unfolding program
forced_exit_run =
    forced_exit_is_final framework (λ _. ok wanted) request exits none state 7 350 refl refl
