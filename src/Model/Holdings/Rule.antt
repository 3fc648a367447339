-- ===== src/Model/Holdings/Rule.antt =====
-- When an exit rule of strategies/model_prediction_targets.py is due, and that its holding is then
-- forced out in its round.
use qapp.Base.{
  ℕ, ◌≡◌, refl, ap, ◌∙◌, ◌⊎◌, inl, inr, Bool, true, false, not, ◌||◌, Option, none, some, List,
  arith, ◌==◌, if_both, if_cases, Dict, lookup, insert, lookup-insert,
}
use qapp.Strategy.Submit.{is_some}
use qapp.Strategy.Converge.Desired.{holds}
use qapp.Model.Plans.{ExitReason, ModelState, Framework}
use qapp.Model.Local.{is_in, is_suspended_status}
use qapp.Model.Candidates.{Reference, on_date}
use qapp.Model.Exclusion.{
  ActivePosition, ExitConfig, raise_entry, raise_high, raise_high_price_to_span_peak,
  highest_close_over_span, untradable_reason, cost_price, stops_loss, exclusion_reason, or_no_state,
  holding_exclusion,
}
use qapp.Model.Holdings.{
  HoldingData, Gathering, after_exclusion, exit_price, gather_traded, gather_coded, is_suspended,
}

or_right : (a b : Bool) → b ≡ true → (a || b) ≡ true
or_right true b h = refl
or_right false b h = h

module _ {W : Type 0} (f : Framework W) (config : ExitConfig W) where
  exclusion-is_some :
      (u : Option ExitReason) (stops trails : Bool)
      → (is_some u || stops) ≡ true
      → is_some (exclusion_reason f config u stops trails) ≡ true
  exclusion-is_some (some reason) stops trails h = refl
  exclusion-is_some none true trails h = refl
  exclusion-is_some none false trails h = cc h

  after_exclusion-forces :
      (known : HoldingData) (id code q : ℕ) (reason : Option ExitReason) (g : Gathering W)
      → is_some reason ≡ true
      → is_in id (after_exclusion f config known id code q reason g).forced_exits ≡ true
  unfolding after_exclusion
  after_exclusion-forces known id code q none g h = cc h
  after_exclusion-forces known id code q (some reason) g h =
      ground (arith, lookup-insert id id reason g.forced_exits)

  -- The entry price survives a raise of the high-water mark.
  raise-entry_price :
      (id : ℕ) (peak : Option W) (active : Dict (ActivePosition W)) (o : Option (ActivePosition W))
      → lookup id active ≡ o
      → (or_no_state f config (lookup id (raise_entry f config id peak o active))).entry_price
        ≡ (or_no_state f config o).entry_price
  raise-entry_price id peak active none h = ap (λ o. (or_no_state f config o).entry_price) h
  raise-entry_price id peak active (some p) h =
      let found : lookup id (insert id (raise_high f config peak p) active)
          ≡ some (raise_high f config peak p) =
        ground (arith, lookup-insert id id (raise_high f config peak p) active) in
      ap (λ o. (or_no_state f config o).entry_price) found

  module _ (searchsorted : List ℕ → ℕ → ℕ) (reference : Reference W) (known : HoldingData)
      (trading_date : ℕ) where
    -- A rule is due: the instrument is held, has a stock code and is traded on the day, and it is ST,
    -- or its exit price has fallen to the cost less the stop loss.
    pub record IsDue (m : ModelState W) (active : Dict (ActivePosition W)) (id code : ℕ)
        : Type 0 where
      pub held : holds m.base.world id ≡ true
      pub coded : (code == 0) ≡ false
      pub traded : is_suspended f config reference m trading_date id code ≡ false
      pub rule :
          (on_date code (lookup trading_date reference.st_by_date) ≡ true)
          ⊎ ((price cost : W) × (exit_price f config m id ≡ some price)
              × (cost_price f config
                    (or_no_state f config (lookup id active)).entry_price
                    (some price)
                  ≡ cost)
              × (f.floats.lt f.floats.nought cost ≡ true)
              × (f.floats.le price
                    (f.floats.times cost (f.floats.minus f.floats.one config.stop_loss))
                  ≡ true))

    pub IsDue-moved :
        (m m' : ModelState W) (active active' : Dict (ActivePosition W)) (id code : ℕ)
        → m'.base ≡ m.base
        → m'.today_open ≡ m.today_open
        → m'.last_close ≡ m.last_close
        → m'.market_status ≡ m.market_status
        → lookup id active' ≡ lookup id active
        → IsDue m active id code
        → IsDue m' active' id code
    unfolding exit_price is_suspended_status
    IsDue-moved m m' active active' id code same_base same_open same_close same_status same due =
        record {
          held = ap (λ b. holds b.world id) same_base ∙ due.held;
          coded = due.coded;
          traded = rw same_status due.traded;
          rule = elim due.rule [
            | inl is_st ↦ inl is_st
            | inr (price, cost, at, costs, positive, below) ↦
                inr (price, cost, rw (same_open, same_close) at, rw same costs, positive, below)
          ];
        }

    untradable-is_some :
        (code : ℕ)
        → on_date code (lookup trading_date reference.st_by_date) ≡ true
        → is_some (untradable_reason f config reference code trading_date) ≡ true
    unfolding untradable_reason
    untradable-is_some code is_st =
        if_both (λ (o : Option ExitReason). is_some o ≡ true)
          (on_date code (lookup trading_date reference.suspended_by_date)) refl (rw is_st refl)

    stops :
        (id code : ℕ) (exit : Option W) (entry : Option W) {price cost : W}
        → exit ≡ some price
        → cost_price f config entry (some price) ≡ cost
        → f.floats.lt f.floats.nought cost ≡ true
        → f.floats.le price (f.floats.times cost (f.floats.minus f.floats.one config.stop_loss))
          ≡ true
        → stops_loss f config exit (cost_price f config entry exit) ≡ true
    stops id code exit entry at costs positive below = rw at (rw costs (rw positive below))

    exclusion-due :
        (m : ModelState W) (active : Dict (ActivePosition W)) (id code : ℕ) (start end : Option ℕ)
        → IsDue m active id code
        → is_some
            (holding_exclusion f config searchsorted reference trading_date id code
              (exit_price f config m id)
              start
              (raise_high_price_to_span_peak f config reference id code start end active)).0
          ≡ true
    unfolding holding_exclusion raise_high_price_to_span_peak
    exclusion-due m active id code start end due = exclusion-is_some _ _ _ (elim due.rule [
      | inl is_st ↦ rw (untradable-is_some code is_st) refl
      | inr (price, cost, at, costs, positive, below) ↦
          (let same =
              raise-entry_price id (highest_close_over_span f config reference code start end)
                active (lookup id active) refl in
            or_right _ _ (
              stops id code (exit_price f config m id) _ at
                (ap (λ e. cost_price f config e (some price)) same ∙ costs) positive below))
    ])

    pub coded-forced :
        (id code : ℕ) (g : Gathering W)
        → IsDue g.model g.active_positions id code
        → is_in id
            (gather_coded f config searchsorted reference known trading_date id code g).forced_exits
          ≡ true
    unfolding gather_coded gather_traded
    coded-forced id code g due =
        let forced : Gathering W → Type 0 = λ h. is_in id h.forced_exits ≡ true in
        if_cases forced (code == 0) (λ t. cc (t, due.coded))
          (λ _.
            if_cases forced (not (holds g.model.base.world id)) (λ t. cc (t, due.held))
              (λ _.
                if_cases forced (is_suspended f config reference g.model trading_date id code)
                  (λ t. cc (t, due.traded))
                  (λ _.
                    after_exclusion-forces known id code _ _ _
                      (exclusion-due g.model g.active_positions id code _ _ due))))
