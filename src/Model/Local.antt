-- ===== src/Model/Local.antt =====
-- The plans that the model strategy makes or corrects itself, strategies/model_prediction_targets.py:
-- `_target_plan`, `_local_safety_plan`, `_apply_forced_exit_overrides`, `_annotate_plan` and what they
-- read. An exit price has its source; the audit fields of a target are kept.
pub mod Quantities
pub mod Exits
pub mod Tests
use mathlib.Core.Option
use qapp.Base.{
  ℕ, zero, suc, Bool, true, false, not, ◌&&◌, Option, none, some, List, [], ◌∷◌, ◌==◌,
  if◌then◌else◌, Dict, IdSet, lookup, insert, map, sort_ids, sort_entries, Result, ok, err,
}
use qapp.Base.Int.{ℤ, pos, pos_part}
use qapp.Strategy.Types.{Strategy, World}
use qapp.Strategy.Submit.{is_some}
use qapp.Strategy.Converge.Desired.{holds, held_instrument_ids}
use qapp.Model.Plans.{
  TargetContext, TargetInfo, Degraded, risk_manager_failure, ModelTargetPlan, ModelTargetCandidate,
  CurrentHolding, ModelTargetPlanningRequest, PriceSource, open_price, prev_close,
  normalize_stock_code, ExitReason, ModelState, Framework, is_positive,
}
use qapp.Model.Planner.{PlannerError}

-- The loop of `_held_quantities`.
pub held_loop : World → List ℕ → Dict ℕ → Dict ℕ
held_loop w [] quantities = quantities
held_loop w (id ∷ ids) quantities =
    held_loop w ids
      (if holds w id then insert id (pos_part (w.net_position id)) quantities else quantities)

-- `_held_quantities`
pub held_quantities : Strategy → Dict ℕ
held_quantities s = held_loop s.world (sort_ids (held_instrument_ids s)) []

-- A missing stock code is the empty text.
abbrev pub or_empty : Option ℕ → ℕ
or_empty none = 0
or_empty (some text) = text

-- The first of two prices that is there.
abbrev pub prefer : {W : Type 0} → Option W → Option W → Option W × Option PriceSource
prefer (some price) close = (some price, some open_price)
prefer none (some price) = (some price, some prev_close)
prefer none none = (none, none)

abbrev pub is_in : {A : Type 0} → ℕ → Dict A → Bool
is_in id d = is_some (lookup id d)

-- `0 if instrument_id in forced_exits else quantity`
abbrev pub unless_forced : Dict ExitReason → ℕ → ℕ → ℕ
unless_forced forced_exits id quantity = if is_in id forced_exits then 0 else quantity

abbrev pub note_quantity : ℕ → Option ℕ → Dict ℕ → Dict ℕ
note_quantity id none quantities = quantities
note_quantity id (some quantity) quantities = insert id quantity quantities

module _ {W : Type 0} where
  unfoldable pub quantities_from : List (TargetInfo W) → Dict ℕ → Dict ℕ
  quantities_from [] quantities = quantities
  quantities_from (t ∷ ts) quantities =
      quantities_from ts (note_quantity t.instrument_id t.quantity quantities)

  -- `_target_quantities_from_plan`
  unfoldable pub target_quantities_from_plan : ModelTargetPlan W → Dict ℕ
  target_quantities_from_plan plan = quantities_from plan.targets []

  -- `{target.instrument_id: target for target in plan.targets}`
  pub targets_by_instrument : List (TargetInfo W) → Dict (TargetInfo W) → Dict (TargetInfo W)
  targets_by_instrument [] found = found
  targets_by_instrument (t ∷ ts) found = targets_by_instrument ts (insert t.instrument_id t found)

  abbrev pub values : Dict (TargetInfo W) → List (TargetInfo W)
  values [] = []
  values ((k, t) ∷ d) = t ∷ values d

  module _ (f : Framework W) where
    -- A price that is there and positive.
    unfoldable pub positive_price : Option W → Option W
    positive_price none = none
    positive_price (some price) = if is_positive f price then some price else none

    -- A price that is there and is not `<= 0`.
    unfoldable pub above_nought : Option W → Option W
    above_nought none = none
    above_nought (some price) = if f.floats.le price f.floats.nought then none else some price

    -- `_open_price_with_source`
    unfoldable pub open_price_with_source : ModelState W → ℕ → Option W × Option PriceSource
    open_price_with_source m id =
        prefer (positive_price (lookup id m.today_open)) (positive_price (lookup id m.last_close))

    abbrev pub is_suspend : Option ℕ → Bool
    is_suspend none = false
    is_suspend (some status) = status == f.suspend

    -- `_is_suspended_status`
    unfoldable pub is_suspended_status : ModelState W → ℕ → Bool
    is_suspended_status m id = is_suspend (lookup id m.market_status)

    -- `_stock_code_for_instrument`: a code that is read off the symbol is remembered.
    unfoldable pub stock_code_for_instrument : ℕ → ModelState W → ℕ × ModelState W
    stock_code_for_instrument id m =
        let known = normalize_stock_code f.texts (or_empty (lookup id m.stock_by_instrument)) in
        let stock_code = normalize_stock_code f.texts (f.symbol id) in
        if not (known == 0)
        then (known, m)
        else if not (stock_code == 0)
        then (
          stock_code,
          record m {
            stock_by_instrument = insert id stock_code m.stock_by_instrument;
            instrument_by_stock = insert stock_code id m.instrument_by_stock;
          },
        )
        else (stock_code, m)

    -- `_local_target_info`
    pub local_target_info : ℕ → ℕ → ModelState W → TargetInfo W × ModelState W
    local_target_info id quantity m =
        let (price, price_source) = open_price_with_source m id in
        let (stock_code, m') = stock_code_for_instrument id m in
        (
          record {
            stock_code = stock_code;
            weight = none;
            quantity = some quantity;
            target_context = record {
              price = price;
              price_source = price_source;
              score = none;
              expected_return = none;
              current_qty = some (m.base.world.net_position id);
              recent_target_date = none;
              recent_holding_days = none;
              market_status = lookup id m.market_status;
            };
            target_version = none;
            instrument_id = id;
            is_locked = some (is_suspended_status m id);
          },
          m',
        )

    -- The list of `_local_safety_plan`.
    pub local_targets : Dict ExitReason → Dict ℕ → ModelState W → List (TargetInfo W) × ModelState W
    local_targets forced_exits [] m = ([], m)
    local_targets forced_exits ((id, quantity) ∷ held) m =
        let (t, m1) = local_target_info id (unless_forced forced_exits id quantity) m in
        let (ts, m2) = local_targets forced_exits held m1 in (t ∷ ts, m2)

    -- `_local_safety_plan`
    pub local_safety_plan :
        ModelTargetPlanningRequest W
        → Dict ExitReason
        → Degraded
        → ModelState W
        → ModelTargetPlan W × ModelState W
    local_safety_plan request forced_exits degraded_reason m =
        let (targets, m') = local_targets forced_exits (held_quantities m.base) m in
        (
          record {
            trading_date = request.trading_date;
            signal_date = request.signal_date;
            targets = targets;
            reason = f.local_exit degraded_reason;
            request_id = none;
            total_asset = request.total_asset;
            investable_asset = request.investable_asset;
            persistable = false;
            degraded_reason = some degraded_reason;
          },
          m',
        )

    -- The loop of `_apply_forced_exit_overrides`.
    pub override_targets :
        Dict ExitReason → Dict (TargetInfo W) → ModelState W → Dict (TargetInfo W) × ModelState W
    override_targets [] targets m = (targets, m)
    override_targets ((id, reason) ∷ exits) targets m =
        let (t, m1) = local_target_info id 0 m in override_targets exits (insert id t targets) m1

    -- `_apply_forced_exit_overrides`
    pub apply_forced_exit_overrides :
        ModelTargetPlan W → Dict ExitReason → ModelState W → ModelTargetPlan W × ModelState W
    apply_forced_exit_overrides plan [] m = (plan, m)
    apply_forced_exit_overrides plan (exit ∷ exits) m =
        let (targets, m') =
          override_targets (exit ∷ exits) (targets_by_instrument plan.targets []) m in
        (record plan { targets = values (sort_entries targets) }, m')

    abbrev pub candidate_of :
        ℕ
        → List (ModelTargetCandidate W)
        → Option (ModelTargetCandidate W)
        → Option (ModelTargetCandidate W)
    candidate_of id [] found = found
    candidate_of id (c ∷ cs) found =
        candidate_of id cs (if id == c.instrument_id then some c else found)

    abbrev pub holding_of :
        ℕ → List (CurrentHolding W) → Option (CurrentHolding W) → Option (CurrentHolding W)
    holding_of id [] found = found
    holding_of id (h ∷ hs) found =
        holding_of id hs (if id == h.instrument_id then some h else found)

    -- One target of `_annotate_plan`.
    pub annotate_target : ModelTargetPlanningRequest W → ModelState W → TargetInfo W → TargetInfo W
    annotate_target request m t =
        let candidate = candidate_of t.instrument_id request.candidates none in
        let holding = holding_of t.instrument_id request.current_holdings none in
        record t {
          target_context = record {
            price = lookup t.instrument_id request.open_prices;
            price_source = (open_price_with_source m t.instrument_id).1;
            score = Option.map (λ (c : ModelTargetCandidate W). c.score) candidate;
            expected_return = elim candidate [ none ↦ none | some c ↦ c.expected_return ];
            current_qty = Option.map (λ (h : CurrentHolding W). pos h.quantity) holding;
            recent_target_date = elim holding [ none ↦ none | some h ↦ h.recent_target_date ];
            recent_holding_days =
                Option.map (λ (h : CurrentHolding W). h.recent_holding_days) holding;
            market_status = lookup t.instrument_id m.market_status;
          };
        }

    -- `_annotate_plan`
    pub annotate_plan :
        ModelTargetPlan W → ModelTargetPlanningRequest W → ModelState W → ModelTargetPlan W
    annotate_plan plan request m = record plan {
      targets = map (annotate_target request m) plan.targets;
      total_asset = request.total_asset;
      investable_asset = request.investable_asset;
    }

    -- A plan of the risk manager, or what stands for it.
    pub planned :
        Bool
        → ModelTargetPlanningRequest W
        → Dict ExitReason
        → ModelState W
        → Result PlannerError (ModelTargetPlan W)
        → ModelTargetPlan W × ModelState W
    planned local_exit_authoritative request forced_exits m (err raised) =
        local_safety_plan request forced_exits risk_manager_failure m
    planned local_exit_authoritative request forced_exits m (ok plan) =
        let annotated = annotate_plan plan request m in
        if not local_exit_authoritative
        then (annotated, m)
        else apply_forced_exit_overrides annotated forced_exits m

    -- `_target_plan` from the request and the forced exits of `_target_planning_request` on.
    pub target_plan :
        (ModelTargetPlanningRequest W → Result PlannerError (ModelTargetPlan W))
        → Bool
        → ModelTargetPlanningRequest W
        → Dict ExitReason
        → Option Degraded
        → ModelState W
        → ModelTargetPlan W × ModelState W
    target_plan planner local_exit_authoritative request forced_exits (some degraded_reason) m =
        local_safety_plan request forced_exits degraded_reason m
    target_plan planner local_exit_authoritative request forced_exits none m =
        planned local_exit_authoritative request forced_exits m (planner request)
