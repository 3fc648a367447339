-- ===== src/Model/Planner.antt =====
-- The risk-manager client, strategies/model_target_planners/risk_manager.py: `plan` and `_post_json`
-- of `RiskManagerModelTargetPlanner`. The service is what each attempt meets; the payload and the
-- request id, which it only reads, are left out.
pub mod Retry
pub mod Targets
pub mod Tests
use qapp.Base.{
  ℕ, zero, suc, ◌+◌, Bool, true, false, not, ◌&&◌, Option, none, some, List, [], ◌∷◌, leb, ◌==◌,
  if◌then◌else◌, Dict, lookup, insert, set_default, Result, ok, err, ◌>>=◌, is_nil,
}
use qapp.Base.Int.{ℤ, pos, negsuc}
use qapp.Model.Plans.{
  TargetInfo, TargetContext, ModelTargetPlan, ModelTargetPlanningRequest, ModelTargetCandidate,
  CurrentHolding, Texts, normalize_stock_code,
}

-- What `float(value)` and `int(round(float(value)))` read: no number, an infinite one, which the
-- conversion to `int` rejects with an error of its own, or a number.
pub data Rounded : Type 0 where
  unreadable infinite : Rounded
  rounded : ℤ → Rounded

-- A value of `is_locked` that is present.
pub data Flag : Type 0 where
  flag : Bool → Flag
  not_a_flag : Flag

-- A row of the response, by the fields that are read; `none` where a field is missing or `null`.
-- The weight is what `_coerce_float` reads under `target_weight`, or `weight` where that is missing.
pub record ResponseRow (W : Type 0) : Type 0 where
  pub stock_code : ℕ
  pub target_weight : Option W
  pub target_quantity : Option Rounded
  pub is_locked : Option Flag

-- `target_weights`, with `none` for a row that is no object.
pub data ResponseRows (W : Type 0) : Type 0 where
  rows : List (Option (ResponseRow W)) → ResponseRows W
  not_a_list : ResponseRows W

-- A response that is an object.
pub record Response (W : Type 0) : Type 0 where
  pub success : Bool
  pub target_weights : ResponseRows W

-- What one attempt meets: an object, one of the failures that are tried again (HTTP and URL errors,
-- invalid JSON, a payload that is no object), or another exception.
pub data Reply (W : Type 0) : Type 0 where
  object : Response W → Reply W
  bad_reply : Reply W
  other_error : Reply W

pub data PlannerError : Type 0 where
  gave_up propagated optimize_failed rows_not_a_list bad_flag overflow : PlannerError

-- The attempts made, the seconds slept between them, and the result.
pub record Posted (W : Type 0) : Type 0 where
  pub attempts : ℕ
  pub slept : ℕ
  pub result : Result PlannerError (Response W)

abbrev pub max_retries : ℕ
max_retries = 5

abbrev pub max_attempts : ℕ
max_attempts = max_retries + 1

-- `weight if weight is not None and weight > 0 else None`
pub positive_weight : {W : Type 0} → (W → Bool) → Option W → Option W
positive_weight is_positive none = none
positive_weight is_positive (some weight) = if is_positive weight then some weight else none

-- `_target_quantity`
pub target_quantity : Option Rounded → Result PlannerError (Option ℕ)
target_quantity none = ok none
target_quantity (some unreadable) = ok none
target_quantity (some infinite) = err overflow
target_quantity (some (rounded (pos quantity))) = ok (some quantity)
target_quantity (some (rounded (negsuc _))) = ok none

-- `_is_locked`
pub is_locked : Option Flag → Result PlannerError (Option Bool)
is_locked none = ok none
is_locked (some (flag value)) = ok (some value)
is_locked (some not_a_flag) = err bad_flag

-- `TargetContext()`
abbrev pub no_context : {W : Type 0} → TargetContext W
no_context = record {
  price = none;
  price_source = none;
  score = none;
  expected_return = none;
  current_qty = none;
  recent_target_date = none;
  recent_holding_days = none;
  market_status = none;
}

module _ {W : Type 0} where
  -- An attempt with its reply, and what comes after a retry.
  pub after_reply : ℕ → Posted W → Reply W → Posted W
  after_reply attempt rest (object response) = record {
    attempts = 1;
    slept = 0;
    result = ok response;
  }
  after_reply attempt rest other_error = record { attempts = 1; slept = 0; result = err propagated }
  after_reply attempt rest bad_reply =
      if leb max_attempts attempt
      then record { attempts = 1; slept = 0; result = err gave_up }
      else record {
        attempts = suc rest.attempts;
        slept = attempt + rest.slept;
        result = rest.result;
      }

  -- The loop of `_post_json` from an attempt on, with that many attempts left.
  pub post_from : (ℕ → Reply W) → ℕ → ℕ → Posted W
  post_from service zero attempt = record { attempts = 0; slept = 0; result = err gave_up }
  post_from service (suc left) attempt =
      after_reply attempt (post_from service left (suc attempt)) (service attempt)

  -- `_post_json`
  pub post_json : (ℕ → Reply W) → Posted W
  post_json service = post_from service max_attempts 1

  -- `_target_rows`
  pub target_rows : ResponseRows W → Result PlannerError (List (Option (ResponseRow W)))
  target_rows (rows found) = ok found
  target_rows not_a_list = err rows_not_a_list

  module _ (texts : Texts) where
    pub map_candidates : List (ModelTargetCandidate W) → Dict ℕ → Dict ℕ
    map_candidates [] mapping = mapping
    map_candidates (c ∷ cs) mapping =
        map_candidates cs (insert (normalize_stock_code texts c.stock_code) c.instrument_id mapping)

    pub map_holdings : List (CurrentHolding W) → Dict ℕ → Dict ℕ
    map_holdings [] mapping = mapping
    map_holdings (h ∷ hs) mapping =
        map_holdings hs
          (set_default (normalize_stock_code texts h.stock_code) h.instrument_id mapping)

    -- `_stock_to_instrument`
    pub stock_to_instrument : ModelTargetPlanningRequest W → Dict ℕ
    stock_to_instrument request =
        map_holdings request.current_holdings (map_candidates request.candidates [])

    module _ (is_positive : W → Bool) where
      -- The target of a row, whose instrument is known.
      pub target_of_row : ℕ → ℕ → ResponseRow W → Result PlannerError (TargetInfo W)
      target_of_row stock_code instrument_id row =
          target_quantity row.target_quantity >>= λ quantity. is_locked row.is_locked >>= λ locked.
          ok (record {
            stock_code = stock_code;
            weight = positive_weight is_positive row.target_weight;
            quantity = quantity;
            target_context = no_context;
            target_version = none;
            instrument_id = instrument_id;
            is_locked = locked;
          })

      -- The loop of `_targets`: rows that are no objects or name no known stock are passed over.
      pub targets_of :
          Dict ℕ → List (Option (ResponseRow W)) → Result PlannerError (List (TargetInfo W))
      targets_of mapping [] = ok []
      targets_of mapping (none ∷ found) = targets_of mapping found
      targets_of mapping (some row ∷ found) =
          let rest = targets_of mapping found in
          let stock_code = normalize_stock_code texts row.stock_code in
          elim (lookup stock_code mapping) [
            | none ↦ rest
            | some instrument_id ↦ target_of_row stock_code instrument_id row >>= λ target.
                rest >>= λ targets. ok (target ∷ targets)
          ]

  -- `sorted(targets, key=lambda target: target.instrument_id)`
  pub place_target : TargetInfo W → List (TargetInfo W) → List (TargetInfo W)
  place_target t [] = t ∷ []
  place_target t (u ∷ us) =
      if leb t.instrument_id u.instrument_id then t ∷ u ∷ us else u ∷ place_target t us

  pub sort_targets : List (TargetInfo W) → List (TargetInfo W)
  sort_targets [] = []
  sort_targets (t ∷ ts) = place_target t (sort_targets ts)

  -- The plan of `plan` with its targets.
  abbrev pub optimized :
      ℕ → ModelTargetPlanningRequest W → Option ℕ → List (TargetInfo W) → ModelTargetPlan W
  optimized reason request request_id targets = record {
    trading_date = request.trading_date;
    signal_date = request.signal_date;
    targets = targets;
    reason = reason;
    request_id = request_id;
    total_asset = none;
    investable_asset = none;
    persistable = true;
    degraded_reason = none;
  }

  -- A response as a plan.
  pub read_response :
      Texts
      → (W → Bool)
      → ℕ
      → ℕ
      → ModelTargetPlanningRequest W
      → Response W
      → Result PlannerError (ModelTargetPlan W)
  read_response texts is_positive reason request_id request response =
      if not response.success
      then err optimize_failed
      else (target_rows response.target_weights >>= λ found.
          targets_of texts is_positive (stock_to_instrument texts request) found >>= λ targets.
          ok (optimized reason request (some request_id) (sort_targets targets)))

  -- `plan`, with `risk_manager_optimize` as the reason.
  pub plan :
      Texts
      → (W → Bool)
      → ℕ
      → ℕ
      → (ℕ → Reply W)
      → ModelTargetPlanningRequest W
      → Result PlannerError (ModelTargetPlan W)
  plan texts is_positive reason request_id service request =
      if is_nil request.candidates && is_nil request.current_holdings
      then ok (optimized reason request none [])
      else (post_json service).result >>= read_response texts is_positive reason request_id request
