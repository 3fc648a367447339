-- ===== src/Model/Planner/Tests.antt =====
-- Runs of the client, and an instance of the theorem on its targets.
use qapp.Base.{
  zero, suc, List, Option, ℕ, ◌≤◌, ◌≡◌, ◌+◌, refl, arith, true, false, none, some, [], ◌∷◌, All,
  map, ok, err, Result,
}
use qapp.Base.Int.{pos}
use qapp.Model.Plans.{normalize_stock_code, ModelTargetPlan, TargetInfo}
use qapp.Model.Samples.{texts, is_positive, request}
use qapp.Model.Planner.{
  Reply, object, bad_reply, rows, Response, rounded, gave_up, positive_weight, target_quantity,
  is_locked, after_reply, post_from, post_json, target_rows, map_candidates, map_holdings,
  stock_to_instrument, target_of_row, targets_of, place_target, sort_targets, read_response, plan,
  PlannerError,
}
use qapp.Model.Planner.Retry.{Ends, pauses, verdict, posted, post-Ends}
use qapp.Model.Planner.Targets.{IsOrdered, planned_targets_are_known}

program : Unit {0}
unfolding normalize_stock_code positive_weight target_quantity is_locked after_reply post_from
    post_json target_rows map_candidates map_holdings stock_to_instrument target_of_row targets_of
    place_target sort_targets read_response plan
program = tt

-- A target for a candidate, a liquidation of the holding, and an unknown stock.
abbrev response : Response ℕ
response = record {
  success = true;
  target_weights = rows (
      some (record {
        stock_code = 109;
        target_weight = some 0;
        target_quantity = some (rounded (pos 200));
        is_locked = none;
      })
      ∷ none
      ∷ some (record {
        stock_code = 555;
        target_weight = none;
        target_quantity = none;
        is_locked = none;
      })
      ∷ some (record {
        stock_code = 107;
        target_weight = none;
        target_quantity = some (rounded (pos 0));
        is_locked = none;
      })
      ∷ []);
}

-- The first two attempts fail.
abbrev service : ℕ → Reply ℕ
service zero = bad_reply
service (suc zero) = bad_reply
service (suc (suc zero)) = bad_reply
service (suc (suc (suc _))) = object response

retry_run : (post_json service).slept ≡ 3
unfolding program
retry_run = refl

abbrev quantities :
    Result PlannerError (ModelTargetPlan ℕ) → Result PlannerError (List (ℕ × Option ℕ))
quantities (ok p) = ok (map (λ (t : TargetInfo ℕ). (t.instrument_id, t.quantity)) p.targets)
quantities (err e) = err e

plan_run :
    quantities (plan texts is_positive 1 2 service request) ≡ ok ((7, some 0) ∷ (9, some 200) ∷ [])
unfolding program
plan_run = refl

down_run : quantities (plan texts is_positive 1 2 (λ _. bad_reply) request) ≡ err gave_up
unfolding program
down_run = refl

abbrev planned : ModelTargetPlan ℕ
unfolding program
planned = elim (plan texts is_positive 1 2 service request) as (λ _. ModelTargetPlan ℕ) [
  | ok p ↦ p
  | err _ ↦ record {
    trading_date = 0;
    signal_date = none;
    targets = [];
    reason = 0;
    request_id = none;
    total_asset = none;
    investable_asset = none;
    persistable = false;
    degraded_reason = none;
  }
]

planned_targets_are_known_example :
    All (λ (t : TargetInfo ℕ). t.instrument_id ≤ 9) planned.targets × IsOrdered planned.targets
unfolding program
planned_targets_are_known_example =
    planned_targets_are_known texts (λ id. id ≤ 9) is_positive 1 2 service request planned
      (omega arith) (omega arith) refl

post-Ends_example :
    (k : ℕ) × Ends service 1 k
    × (post_json service ≡ posted (suc k) (pauses 1 k) (verdict (service (1 + k))))
    × (pauses 1 k ≤ 15)
post-Ends_example = post-Ends service
