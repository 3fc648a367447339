-- ===== src/Model/Holdings/Due.antt =====
-- From the exit rules that are due, strategies/model_prediction_targets.py, to the targets of the
-- plan.
use mathlib.Core.Path.{subst}
use qapp.Base.{
  ℕ, ◌≡◌, refl, sym, ap, ◌∙◌, inl, inr, true, not, Option, some, List, [], ◌∷◌, arith, ◌==◌, ==_iff,
  Bool-cases, if_both, Dict, lookup, member, sort_ids, member-sort_ids, Result,
}
use qapp.Strategy.Converge.Desired.{holds, held_instrument_ids}
use qapp.Model.Plans.{
  ModelTargetPlan, ModelTargetPlanningRequest, Degraded, ModelState, Framework,
  normalize_stock_code,
}
use qapp.Model.Planner.{PlannerError}
use qapp.Model.Local.{
  is_in, stock_code_for_instrument, target_quantities_from_plan, target_plan, or_empty,
}
use qapp.Model.Candidates.{Reference}
use qapp.Model.Exclusion.{ActivePosition, ExitConfig}
use qapp.Model.Holdings.{
  HoldingData, Gathering, with_active, gather_traded, gather_coded, gather_one, gather,
  build_current_holdings, is_suspended,
}
use qapp.Model.Holdings.Forced.{forced_exit_is_sold}
use qapp.Model.Holdings.Frame.{
  add_suspended-keeps_forced, after_exclusion-keeps_forced, code_by, code-code_by, gather_one-Keeps,
}
use qapp.Model.Holdings.Rule.{IsDue, IsDue-moved, coded-forced}

module _ {W : Type 0} (f : Framework W) (config : ExitConfig W) where
  module _ (searchsorted : List ℕ → ℕ → ℕ) (reference : Reference W) (known : HoldingData)
      (trading_date : ℕ) where
    coded-keeps_forced :
        (j id code : ℕ) (g : Gathering W)
        → is_in j g.forced_exits ≡ true
        → is_in j
            (gather_coded f config searchsorted reference known trading_date id code g).forced_exits
          ≡ true
    unfolding gather_coded gather_traded
    coded-keeps_forced j id code g h =
        let forced : Gathering W → Type 0 = λ h. is_in j h.forced_exits ≡ true in
        if_both forced (code == 0) h (
          if_both forced (not (holds g.model.base.world id)) h (
            if_both forced (is_suspended f config reference g.model trading_date id code)
              (add_suspended-keeps_forced f config known j id code _ _ g h)
              (after_exclusion-keeps_forced f config known j id code _ _ (with_active f config _ g)
                h)))

    -- The stock code of an instrument leaves alone what the rules read.
    code-Keeps_rules :
        (id : ℕ) (m : ModelState W)
        → let m' = (stock_code_for_instrument f id m).1 in
          (m'.base ≡ m.base)
          × (m'.today_open ≡ m.today_open)
          × (m'.last_close ≡ m.last_close)
          × (m'.market_status ≡ m.market_status)
    unfolding stock_code_for_instrument
    code-Keeps_rules id m =
        let same : ℕ × ModelState W → Type 0 = λ r.
          (r.1.base ≡ m.base)
          × (r.1.today_open ≡ m.today_open)
          × (r.1.last_close ≡ m.last_close)
          × (r.1.market_status ≡ m.market_status) in
        if_both same
          (not (normalize_stock_code f.texts (or_empty (lookup id m.stock_by_instrument)) == 0))
          (refl, refl, refl, refl)
          (if_both same (not (normalize_stock_code f.texts (f.symbol id) == 0))
            (refl, refl, refl, refl) (refl, refl, refl, refl))

    abbrev code_in : ℕ → Gathering W → ℕ
    code_in id g = (stock_code_for_instrument f id g.model).0

    turn-forced :
        (id : ℕ) (g : Gathering W)
        → IsDue f config searchsorted reference known trading_date g.model g.active_positions id
            (code_in id g)
        → is_in id (gather_one f config searchsorted reference known trading_date id g).forced_exits
          ≡ true
    unfolding gather_one
    turn-forced id g due =
        let m' = (stock_code_for_instrument f id g.model).1 in
        let (base, open_price, close, status) = code-Keeps_rules id g.model in
        coded-forced f config searchsorted reference known trading_date id (code_in id g)
          (record g { model = m' })
          (IsDue-moved f config searchsorted reference known trading_date g.model m'
            g.active_positions g.active_positions id (code_in id g) base open_price close status
            refl due)

    gather-keeps_forced :
        (j : ℕ) (ids : List ℕ) (g : Gathering W)
        → is_in j g.forced_exits ≡ true
        → is_in j (gather f config searchsorted reference known trading_date ids g).forced_exits
          ≡ true
    unfolding gather gather_one
    gather-keeps_forced j [] g h = h
    gather-keeps_forced j (id ∷ ids) g h = gather-keeps_forced j ids _ (
        coded-keeps_forced j id (code_in id g)
          (record g { model = (stock_code_for_instrument f id g.model).1 }) h)

    gather-forces :
        (j : ℕ) (ids : List ℕ) (g : Gathering W)
        → member j ids ≡ true
        → IsDue f config searchsorted reference known trading_date g.model g.active_positions j
            (code_in j g)
        → is_in j (gather f config searchsorted reference known trading_date ids g).forced_exits
          ≡ true
    unfolding gather
    gather-forces j [] g h due = cc h
    gather-forces j (id ∷ ids) g h due = elim (Bool-cases (j == id)) [
      | inl same ↦ gather-keeps_forced j ids _ (
          subst
            (λ i.
              is_in j
                (gather_one f config searchsorted reference known trading_date i g).forced_exits
              ≡ true)
            ((==_iff j id).0 same) (turn-forced j g due))
      | inr other ↦
          (let h' = gather_one f config searchsorted reference known trading_date id g in
            let k =
              gather_one-Keeps f config searchsorted reference known trading_date j id g other in
            let same_code : code_in j h' ≡ code_in j g =
              code-code_by f config j h'.model
              ∙ (ap (code_by f config j) k.same_code ∙ sym (code-code_by f config j g.model)) in
            gather-forces j ids h' (ground (arith, h, other)) (
              subst
                (λ c.
                  IsDue f config searchsorted reference known trading_date h'.model
                    h'.active_positions j c)
                (sym same_code)
                (IsDue-moved f config searchsorted reference known trading_date g.model h'.model
                  g.active_positions h'.active_positions j (code_in j g) k.same_base k.same_open
                  k.same_close k.same_status k.same_position due)))
    ]

    -- Where local exits are authoritative, a holding with a stock code that is not suspended today,
    -- by its market status or in the calendar, and that is ST today, or whose exit price has fallen
    -- to its positive cost less the stop loss, has the target 0 in the plan of the day, whatever the
    -- risk manager answers, and also where it fails or is not asked.
    pub due_exit_is_sold :
        (planner : ModelTargetPlanningRequest W → Result PlannerError (ModelTargetPlan W))
        (request : ModelTargetPlanningRequest W) (degraded : Option Degraded) (open_prices : Dict W)
        (m : ModelState W) (active : Dict (ActivePosition W)) (id : ℕ)
        → member id (held_instrument_ids m.base) ≡ true
        → IsDue f config searchsorted reference known trading_date m active id
            (stock_code_for_instrument f id m).0
        → let g =
            build_current_holdings f config searchsorted reference known trading_date open_prices m
              active in
          lookup id (
            target_quantities_from_plan
              (target_plan f planner true request g.forced_exits degraded g.model).0)
          ≡ some 0
    unfolding build_current_holdings
    due_exit_is_sold planner request degraded open_prices m active id listed due =
        forced_exit_is_sold f config searchsorted reference known trading_date planner request
          degraded open_prices m active id
          (gather-forces id (sort_ids (held_instrument_ids m.base)) _
            (member-sort_ids id (held_instrument_ids m.base) ∙ listed) due)
