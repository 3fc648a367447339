-- ===== src/Model/Day/Gates.antt =====
-- A trading day is processed once, strategies/model_prediction_targets.py.
use qapp.Base.{
  ℕ, ◌≡◌, refl, ap, ◌∙◌, Bool, true, false, ◌&&◌, none, some, arith, if◌then◌else◌, member,
  member-add, discard, member-discard, Result, ok, err,
}
use qapp.Strategy.Types.{Strategy}
use qapp.Model.Plans.{ModelTargetPlan, Texts, ModelState}
use qapp.Model.Store.{persist_strategy_target_plan}
use qapp.Model.Day.{
  DayError, Day, Planning, Wiring, live_target_portfolio_target, apply_persisted, apply_computed,
  after_compute, after_load, process_trading_day, mark_processed, process_trading_day_once,
  discard_processed, refresh_processed,
}

-- A branch that is taken.
pub taken : {A : Type 0} (b : Bool) (x y : A) → b ≡ true → (if b then x else y) ≡ x
taken true x y h = refl
taken false x y h = cc h

not_taken : {A : Type 0} (b : Bool) (x y : A) → b ≡ false → (if b then x else y) ≡ y
not_taken true x y h = cc h
not_taken false x y h = refl

module _ {W T : Type 0} (texts : Texts) (planning : Planning W) (wiring : Wiring T) where
  marked :
      (d : ℕ) (r : Result DayError (Unit {0}) × Day W T) (b : Bool)
      → (mark_processed texts planning wiring d r).0 ≡ ok b
      → member d (mark_processed texts planning wiring d r).1.model.processed_dates ≡ true
  unfolding mark_processed
  marked d (err raised, day) b h = cc h
  marked d (ok _, day) b h = ground (arith, member-add d d day.model.processed_dates)

  second_trigger :
      (trading_date : ℕ) (day : Day W T) (done : Bool)
      → (process_trading_day_once texts planning wiring trading_date day).0 ≡ ok done
      → let after = (process_trading_day_once texts planning wiring trading_date day).1 in
        process_trading_day_once texts planning wiring trading_date after ≡ (ok false, after)
  unfolding process_trading_day_once
  second_trigger trading_date day done h =
      taken (member trading_date after.model.processed_dates) (ok false, after) _
        (by_member (member trading_date day.model.processed_dates) refl h)
    where
      ran : Result DayError Bool × Day W T
      ran =
          mark_processed texts planning wiring trading_date
            (process_trading_day texts planning wiring trading_date day)

      before : Result DayError Bool × Day W T
      before = (ok false, day)

      after : Day W T
      after = (if member trading_date day.model.processed_dates then before else ran).1

      by_member :
          (b : Bool)
          → member trading_date day.model.processed_dates ≡ b
          → (if b then before else ran).0 ≡ ok done
          → member trading_date (if b then before else ran).1.model.processed_dates ≡ true
      by_member true e h = e
      by_member false e h =
          marked trading_date (process_trading_day texts planning wiring trading_date day) done h

  refreshed :
      (within : Strategy → Bool) (today : ℕ) (day : Day W T)
      → within day.model.base ≡ true
      → refresh_processed texts planning wiring within (some today) day
        ≡ mark_processed texts planning wiring today (
            process_trading_day texts planning wiring today
              (discard_processed texts planning wiring today day))
  unfolding refresh_processed process_trading_day_once discard_processed
  refreshed within today day opened =
      taken (within day.model.base) _ _ opened
      ∙ not_taken (member today (discard today day.model.processed_dates)) _ _
          (ground (arith, member-discard today today day.model.processed_dates))

  -- After a trading day was processed, or had been, without an exception, another bar or timer of
  -- that date changes nothing; a refresh on that date within the trading window takes the date off
  -- and processes the day once more.
  pub day_is_processed_once :
      (trading_date : ℕ) (day : Day W T) (done : Bool) (within : Strategy → Bool)
      → (process_trading_day_once texts planning wiring trading_date day).0 ≡ ok done
      → within (process_trading_day_once texts planning wiring trading_date day).1.model.base ≡ true
      → let after = (process_trading_day_once texts planning wiring trading_date day).1 in
        (process_trading_day_once texts planning wiring trading_date after ≡ (ok false, after))
        × (refresh_processed texts planning wiring within (some trading_date) after
            ≡ mark_processed texts planning wiring trading_date (
                process_trading_day texts planning wiring trading_date
                  (discard_processed texts planning wiring trading_date after)))
  day_is_processed_once trading_date day done within h opened =
      (second_trigger trading_date day done h, refreshed within trading_date _ opened)

  -- A plan that should be stored and is not leaves the targets alone: the strategy is as the
  -- computation of the plan left it, and nothing converges.
  pub unstored_plan_is_not_applied :
      (trading_date : ℕ) (day : Day W T) (plan : ModelTargetPlan W) (m : ModelState W) (store : T)
      → live_target_portfolio_target texts planning wiring trading_date day.store ≡ ok none
      → planning.compute trading_date day.model ≡ (ok plan, m)
      → (plan.persistable && wiring.has_persister) ≡ true
      → persist_strategy_target_plan wiring.database plan day.store ≡ (false, store)
      → process_trading_day texts planning wiring trading_date day
        ≡ (ok tt, record day { model = m; store = store })
  unfolding process_trading_day after_load after_compute apply_computed apply_persisted
  unstored_plan_is_not_applied trading_date day plan m store unloaded computed persists failed =
      ap (λ l. after_load texts planning wiring trading_date l day) unloaded
      ∙ (ap (λ c. after_compute texts planning wiring trading_date c day) computed
          ∙ ap (λ r. (ok tt, r))
              (taken (plan.persistable && wiring.has_persister) _ _ persists
                ∙ ap
                    (λ p.
                      apply_persisted texts planning wiring trading_date plan p
                        (record day { model = m }))
                    failed))
