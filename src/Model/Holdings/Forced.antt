-- ===== src/Model/Holdings/Forced.antt =====
-- The forced exits of a planning request, strategies/model_prediction_targets.py.
use mathlib.Core.Path.{subst}
use qapp.Base.{
  ℕ, ◌≡◌, refl, sym, ap, ◌∙◌, inl, inr, Bool, true, false, not, ◌&&◌, Option, none, some, List, [],
  ◌∷◌, arith, ◌==◌, ==_iff, Bool-cases, if◌then◌else◌, if_both, if_cases, All, Dict, lookup, insert,
  lookup-insert, member, sort_ids, member-sort_ids, Result,
}
use qapp.Base.Int.{pos_part}
use qapp.Strategy.Types.{Strategy}
use qapp.Strategy.Submit.{is_some}
use qapp.Strategy.Converge.Desired.{holds, held_instrument_ids}
use qapp.Model.Plans.{
  ModelTargetPlan, ModelTargetPlanningRequest, Degraded, ExitReason, ModelState, Framework,
  normalize_stock_code,
}
use qapp.Model.Planner.{PlannerError}
use qapp.Model.Local.{
  is_in, stock_code_for_instrument, target_quantities_from_plan, target_plan,
  open_price_with_source, held_quantities, or_empty,
}
use qapp.Model.Local.Quantities.{lookup-held_quantities}
use qapp.Model.Local.Exits.{forced_exit_is_final}
use qapp.Model.Candidates.{Reference}
use qapp.Model.Exclusion.{ActivePosition, ExitConfig}
use qapp.Model.Holdings.{
  HoldingData, Gathering, add_suspended, add_kept, after_exclusion, with_active, gather_traded,
  gather_coded, gather_one, gather, build_current_holdings, is_suspended,
}

-- The members of a list are members of what holds them.
members :
    (xs ys : List ℕ)
    → ((i : ℕ) → member i xs ≡ true → member i ys ≡ true)
    → All (λ i. member i ys ≡ true) xs
members [] ys sub = tt
members (x ∷ xs) ys sub = (sub x (ground arith), members xs ys (λ i h. sub i (ground (arith, h))))

-- An instrument that the strategy holds.
abbrev IsHeld : Strategy → ℕ → Type 0
IsHeld b i = (member i (held_instrument_ids b) && holds b.world i) ≡ true

module _ {W : Type 0} (f : Framework W) (config : ExitConfig W) where
  -- While the holdings are gone through, only instruments that are held are forced out.
  record IsGathered (b : Strategy) (g : Gathering W) : Type 0 where
    same_base : g.model.base ≡ b
    forced : (i : ℕ) → is_in i g.forced_exits ≡ true → IsHeld b i

  stock_code-keeps_base :
      (id : ℕ) (m : ModelState W) → (stock_code_for_instrument f id m).1.base ≡ m.base
  unfolding stock_code_for_instrument
  stock_code-keeps_base id m =
      if_both (λ (r : ℕ × ModelState W). r.1.base ≡ m.base)
        (not (normalize_stock_code f.texts (or_empty (lookup id m.stock_by_instrument)) == 0))
        {x = (normalize_stock_code f.texts (or_empty (lookup id m.stock_by_instrument)), m)} refl
        (if_both (λ (r : ℕ × ModelState W). r.1.base ≡ m.base)
          (not (normalize_stock_code f.texts (f.symbol id) == 0))
          {x = (
            normalize_stock_code f.texts (f.symbol id),
            record m {
              stock_by_instrument =
                  insert id (normalize_stock_code f.texts (f.symbol id)) m.stock_by_instrument;
              instrument_by_stock =
                  insert (normalize_stock_code f.texts (f.symbol id)) id m.instrument_by_stock;
            },
          )}
          {y = (normalize_stock_code f.texts (f.symbol id), m)} refl refl)

  add_suspended-IsGathered :
      (b : Strategy) (known : HoldingData) (id code q : ℕ) (price : Option W) (g : Gathering W)
      → IsGathered b g
      → IsGathered b (add_suspended f config known id code q price g)
  unfolding add_suspended
  add_suspended-IsGathered b known id code q none g h = h
  add_suspended-IsGathered b known id code q (some price) g h = record {
    same_base = h.same_base;
    forced = h.forced;
  }

  add_kept-IsGathered :
      (b : Strategy) (known : HoldingData) (id code q : ℕ) (price : Option W) (g : Gathering W)
      → IsGathered b g
      → IsGathered b (add_kept f config known id code q price g)
  unfolding add_kept
  add_kept-IsGathered b known id code q none g h = h
  add_kept-IsGathered b known id code q (some price) g h = record {
    same_base = h.same_base;
    forced = h.forced;
  }

  after_exclusion-IsGathered :
      (b : Strategy) (known : HoldingData) (id code q : ℕ) (reason : Option ExitReason)
      (g : Gathering W)
      → IsHeld b id
      → IsGathered b g
      → IsGathered b (after_exclusion f config known id code q reason g)
  unfolding after_exclusion
  after_exclusion-IsGathered b known id code q none g held h =
      add_kept-IsGathered b known id code q (open_price_with_source f g.model id).0 g h
  after_exclusion-IsGathered b known id code q (some reason) g held h = record {
    same_base = h.same_base;
    forced = λ i e. elim (Bool-cases (i == id)) [
      | inl same ↦ subst (IsHeld b) (sym ((==_iff i id).0 same)) held
      | inr other ↦ h.forced i (
          sym (
            ap is_some (
              lookup-insert i id reason g.forced_exits
              ∙ ap (λ c. if c then some reason else lookup i g.forced_exits) other))
          ∙ e)
    ];
  }

  module _ (searchsorted : List ℕ → ℕ → ℕ) (reference : Reference W) (known : HoldingData)
      (trading_date : ℕ) where
    gather_coded-IsGathered :
        (b : Strategy) (id code : ℕ) (g : Gathering W)
        → member id (held_instrument_ids b) ≡ true
        → IsGathered b g
        → IsGathered b (gather_coded f config searchsorted reference known trading_date id code g)
    unfolding gather_coded gather_traded
    gather_coded-IsGathered b id code g listed h = if_both (IsGathered b) (code == 0) h (
        if_cases (IsGathered b) (not (holds g.model.base.world id)) (λ _. h)
          (λ e.
            if_both (IsGathered b) (is_suspended f config reference g.model trading_date id code)
              (add_suspended-IsGathered b known id code _ _ g h)
              (after_exclusion-IsGathered b known id code _ _ (with_active f config _ g)
                (both (holds g.model.base.world id) (ap (λ s. holds s.world id) h.same_base) e)
                (record { same_base = h.same_base; forced = h.forced }))))
      where
        both : (x : Bool) → x ≡ holds b.world id → not x ≡ false → IsHeld b id
        both true same e = rw (listed, sym same) refl
        both false same e = cc e

    gather-IsGathered :
        (b : Strategy) (ids : List ℕ) (g : Gathering W)
        → All (λ i. member i (held_instrument_ids b) ≡ true) ids
        → IsGathered b g
        → IsGathered b (gather f config searchsorted reference known trading_date ids g)
    unfolding gather gather_one
    gather-IsGathered b [] g listed h = h
    gather-IsGathered b (id ∷ ids) g listed h = gather-IsGathered b ids _ listed.1 (
        gather_coded-IsGathered b id _ _ listed.0 (record {
          same_base = stock_code-keeps_base id g.model ∙ h.same_base;
          forced = h.forced;
        }))

    -- Where local exits are authoritative, each forced exit has the target 0 in the plan of the day,
    -- whatever the risk manager answers, and also where it fails or is not asked.
    pub forced_exit_is_sold :
        (planner : ModelTargetPlanningRequest W → Result PlannerError (ModelTargetPlan W))
        (request : ModelTargetPlanningRequest W) (degraded : Option Degraded) (open_prices : Dict W)
        (m : ModelState W) (active : Dict (ActivePosition W)) (id : ℕ)
        → let g =
            build_current_holdings f config searchsorted reference known trading_date open_prices m
              active in
          is_in id g.forced_exits ≡ true
          → lookup id (
              target_quantities_from_plan
                (target_plan f planner true request g.forced_exits degraded g.model).0)
            ≡ some 0
    unfolding build_current_holdings
    forced_exit_is_sold planner request degraded open_prices m active id e =
        let g =
          build_current_holdings f config searchsorted reference known trading_date open_prices m
            active in
        let h =
          gather-IsGathered m.base (sort_ids (held_instrument_ids m.base)) _
            (members (sort_ids (held_instrument_ids m.base)) (held_instrument_ids m.base)
              (λ i k. sym (member-sort_ids i (held_instrument_ids m.base)) ∙ k))
            (record { same_base = refl; forced = λ i k. cc k }) in
        forced_exit_is_final f planner request g.forced_exits degraded g.model id _ e (
          ap (λ s. lookup id (held_quantities s)) h.same_base
          ∙ (lookup-held_quantities m.base id
              ∙ ap (λ c. if c then some (pos_part (m.base.world.net_position id)) else none)
                  (h.forced id e)))
