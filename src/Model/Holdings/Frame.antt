-- ===== src/Model/Holdings/Frame.antt =====
-- What one round of the loop over the holdings, strategies/model_prediction_targets.py, leaves alone
-- of another instrument, and that it keeps the forced exits.
use qapp.Base.{
  ℕ, ◌≡◌, refl, ap, ◌∙◌, true, false, not, Option, none, some, List, arith, ◌==◌, if◌then◌else◌,
  if_both, if_cases, Dict, lookup, lookup-insert,
}
use qapp.Strategy.Submit.{is_some}
use qapp.Strategy.Converge.Desired.{holds}
use qapp.Model.Calendar.{previous_trading_date}
use qapp.Model.Plans.{ExitReason, ModelState, Framework, normalize_stock_code}
use qapp.Model.Local.{is_in, stock_code_for_instrument, open_price_with_source, or_empty}
use qapp.Model.Candidates.{Reference}
use qapp.Model.Exclusion.{
  ActivePosition, ExitConfig, raise_entry, raise_high, raise_high_price_to_span_peak,
  highest_close_over_span, prev_trading_close, adjusted_entry_cost, update_trailing_state,
  cost_price, or_no_state, keep_state, holding_exclusion,
}
use qapp.Model.Holdings.{
  HoldingData, Gathering, add_suspended, add_kept, after_exclusion, exit_price, with_active,
  date_before, gather_traded, gather_coded, gather_one, is_suspended,
}

module _ {W : Type 0} (f : Framework W) (config : ExitConfig W) where
  -- What a round does not undo, and what it leaves alone of another instrument.
  pub record Keeps (j : ℕ) (g h : Gathering W) : Type 0 where
    pub same_base : h.model.base ≡ g.model.base
    pub same_open : h.model.today_open ≡ g.model.today_open
    pub same_close : h.model.last_close ≡ g.model.last_close
    pub same_status : h.model.market_status ≡ g.model.market_status
    pub same_code : lookup j h.model.stock_by_instrument ≡ lookup j g.model.stock_by_instrument
    pub same_position : lookup j h.active_positions ≡ lookup j g.active_positions

  add_suspended-Keeps :
      (known : HoldingData) (j id code q : ℕ) (price : Option W) (g h : Gathering W)
      → Keeps j g h
      → Keeps j g (add_suspended f config known id code q price h)
  unfolding add_suspended
  add_suspended-Keeps known j id code q none g h k = k
  add_suspended-Keeps known j id code q (some price) g h k = record {
    same_base = k.same_base;
    same_open = k.same_open;
    same_close = k.same_close;
    same_status = k.same_status;
    same_code = k.same_code;
    same_position = k.same_position;
  }

  after_exclusion-Keeps :
      (known : HoldingData) (j id code q : ℕ) (reason : Option ExitReason) (g h : Gathering W)
      → Keeps j g h
      → Keeps j g (after_exclusion f config known id code q reason h)
  unfolding after_exclusion add_kept
  after_exclusion-Keeps known j id code q (some reason) g h k = record {
    same_base = k.same_base;
    same_open = k.same_open;
    same_close = k.same_close;
    same_status = k.same_status;
    same_code = k.same_code;
    same_position = k.same_position;
  }
  after_exclusion-Keeps known j id code q none g h k = kept (open_price_with_source f h.model id).0
    where
      kept : (price : Option W) → Keeps j g (add_kept f config known id code q price h)
      kept none = k
      kept (some price) = record {
        same_base = k.same_base;
        same_open = k.same_open;
        same_close = k.same_close;
        same_status = k.same_status;
        same_code = k.same_code;
        same_position = k.same_position;
      }

  pub add_suspended-keeps_forced :
      (known : HoldingData) (j id code q : ℕ) (price : Option W) (g : Gathering W)
      → is_in j g.forced_exits ≡ true
      → is_in j (add_suspended f config known id code q price g).forced_exits ≡ true
  unfolding add_suspended
  add_suspended-keeps_forced known j id code q none g h = h
  add_suspended-keeps_forced known j id code q (some price) g h = h

  pub after_exclusion-keeps_forced :
      (known : HoldingData) (j id code q : ℕ) (reason : Option ExitReason) (g : Gathering W)
      → is_in j g.forced_exits ≡ true
      → is_in j (after_exclusion f config known id code q reason g).forced_exits ≡ true
  unfolding after_exclusion add_kept
  after_exclusion-keeps_forced known j id code q (some reason) g h =
      ap is_some (lookup-insert j id reason g.forced_exits)
      ∙ if_both (λ (o : Option ExitReason). is_some o ≡ true) (j == id) refl h
  after_exclusion-keeps_forced known j id code q none g h =
      kept (open_price_with_source f g.model id).0
    where
      kept :
          (price : Option W)
          → is_in j (add_kept f config known id code q price g).forced_exits ≡ true
      kept none = h
      kept (some price) = h

  raise_entry-other :
      (j id : ℕ) (peak : Option W) (p : Option (ActivePosition W))
      (active : Dict (ActivePosition W))
      → (j == id) ≡ false
      → lookup j (raise_entry f config id peak p active) ≡ lookup j active
  raise_entry-other j id peak none active h = refl
  raise_entry-other j id peak (some p) active h =
      lookup-insert j id (raise_high f config peak p) active ∙ ground (arith, h)

  keep_state-other :
      (j id : ℕ) (o : Option (ActivePosition W)) (p : ActivePosition W)
      (active : Dict (ActivePosition W))
      → (j == id) ≡ false
      → lookup j (keep_state f config id o p active) ≡ lookup j active
  keep_state-other j id none p active h = refl
  keep_state-other j id (some _) p active h = lookup-insert j id p active ∙ ground (arith, h)

  -- The stock code depends only on what is known of the instrument.
  abbrev pub code_by : ℕ → Option ℕ → ℕ
  code_by id known =
      if not (normalize_stock_code f.texts (or_empty known) == 0)
      then normalize_stock_code f.texts (or_empty known)
      else normalize_stock_code f.texts (f.symbol id)

  pub code-code_by :
      (id : ℕ) (m : ModelState W)
      → (stock_code_for_instrument f id m).0 ≡ code_by id (lookup id m.stock_by_instrument)
  unfolding stock_code_for_instrument
  code-code_by id m =
      if_cases (λ (r : ℕ × ModelState W). r.0 ≡ code_by id (lookup id m.stock_by_instrument))
        (not (normalize_stock_code f.texts (or_empty (lookup id m.stock_by_instrument)) == 0))
        (λ known. rw known refl)
        (λ new.
          if_both (λ (r : ℕ × ModelState W). r.0 ≡ code_by id (lookup id m.stock_by_instrument))
            (not (normalize_stock_code f.texts (f.symbol id) == 0)) (rw new refl) (rw new refl))

  coded-Keeps :
      (j id : ℕ) (g : Gathering W)
      → (j == id) ≡ false
      → Keeps j g (record g { model = (stock_code_for_instrument f id g.model).1 })
  unfolding stock_code_for_instrument
  coded-Keeps j id g h =
      if_both (λ (r : ℕ × ModelState W). Keeps j g (record g { model = r.1 }))
        (not (normalize_stock_code f.texts (or_empty (lookup id g.model.stock_by_instrument)) == 0))
        same
        (if_both (λ (r : ℕ × ModelState W). Keeps j g (record g { model = r.1 }))
          (not (normalize_stock_code f.texts (f.symbol id) == 0))
          (record {
            same_base = refl;
            same_open = refl;
            same_close = refl;
            same_status = refl;
            same_code =
                lookup-insert j id (normalize_stock_code f.texts (f.symbol id))
                  g.model.stock_by_instrument
                ∙ ground (arith, h);
            same_position = refl;
          })
          same)
    where
      same : Keeps j g g
      same = record {
        same_base = refl;
        same_open = refl;
        same_close = refl;
        same_status = refl;
        same_code = refl;
        same_position = refl;
      }

  module _ (searchsorted : List ℕ → ℕ → ℕ) (reference : Reference W) (known : HoldingData)
      (trading_date : ℕ) where
    raise-other :
        (j id code : ℕ) (start end : Option ℕ) (active : Dict (ActivePosition W))
        → (j == id) ≡ false
        → lookup j (raise_high_price_to_span_peak f config reference id code start end active)
          ≡ lookup j active
    unfolding raise_high_price_to_span_peak
    raise-other j id code start end active h =
        raise_entry-other j id (highest_close_over_span f config reference code start end)
          (lookup id active) active h

    exclusion-other :
        (j id code : ℕ) (exit : Option W) (start : Option ℕ) (active : Dict (ActivePosition W))
        → (j == id) ≡ false
        → lookup j
            (holding_exclusion f config searchsorted reference trading_date id code exit start
              active).1
          ≡ lookup j active
    unfolding holding_exclusion
    exclusion-other j id code exit start active h =
        let state = or_no_state f config (lookup id active) in
        keep_state-other j id (lookup id active)
          (update_trailing_state f config
            (prev_trading_close f config searchsorted reference code trading_date)
            (adjusted_entry_cost f config reference start code trading_date
              (cost_price f config state.entry_price exit))
            state).1
          active h

    gather_coded-Keeps :
        (j id code : ℕ) (g h : Gathering W)
        → (j == id) ≡ false
        → Keeps j g h
        → Keeps j g (gather_coded f config searchsorted reference known trading_date id code h)
    unfolding gather_coded gather_traded
    gather_coded-Keeps j id code g h other k = if_both (Keeps j g) (code == 0) k (
        if_both (Keeps j g) (not (holds h.model.base.world id)) k (
          if_both (Keeps j g) (is_suspended f config reference h.model trading_date id code)
            (add_suspended-Keeps known j id code _ _ g h k)
            (after_exclusion-Keeps known j id code _ _ g (with_active f config _ h) (record {
              same_base = k.same_base;
              same_open = k.same_open;
              same_close = k.same_close;
              same_status = k.same_status;
              same_code = k.same_code;
              same_position =
                  exclusion-other j id code (exit_price f config h.model id)
                    (lookup id known.span_start_dates) (raised code id h) other
                  ∙ (raise-other j id code (lookup id known.span_start_dates) span_end
                        h.active_positions other
                      ∙ k.same_position);
            }))))
      where
        span_end : Option ℕ
        span_end =
            date_before f config searchsorted reference
              (previous_trading_date searchsorted reference.trading_dates trading_date)

        raised : ℕ → ℕ → Gathering W → Dict (ActivePosition W)
        raised code id h =
            raise_high_price_to_span_peak f config reference id code
              (lookup id known.span_start_dates) span_end h.active_positions

    pub gather_one-Keeps :
        (j id : ℕ) (g : Gathering W)
        → (j == id) ≡ false
        → Keeps j g (gather_one f config searchsorted reference known trading_date id g)
    unfolding gather_one
    gather_one-Keeps j id g other =
        gather_coded-Keeps j id (stock_code_for_instrument f id g.model).0 g
          (record g { model = (stock_code_for_instrument f id g.model).1 }) other
          (coded-Keeps j id g other)
