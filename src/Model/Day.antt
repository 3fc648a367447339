-- ===== src/Model/Day.antt =====
-- The trading day of the model strategy, strategies/model_prediction_targets.py:
-- `_process_trading_day_once`, `_process_trading_day`, `_live_target_portfolio_target` and the end of
-- `refresh_reference_data`, with the
-- live wiring of lives/live_qmt_target_model_predictions.py, which gives the strategy the recorder's
-- store. A raise leaves what was changed before it.
pub mod Gates
pub mod Restart
pub mod Tests
use qapp.Base.{
  ℕ, Bool, true, false, not, ◌&&◌, Option, none, some, List, [], ◌∷◌, if◌then◌else◌, Dict, IdSet,
  member, add, discard, Result, ok, err,
}
use qapp.Strategy.Types.{Strategy}
use qapp.Strategy.Targets.{update_target_quantities}
use qapp.Strategy.Targets.Manual.{as_quantities}
use qapp.Model.Plans.{ModelTargetPlan, Texts, ModelState}
use qapp.Model.Local.{target_quantities_from_plan}
use qapp.Model.Store.{
  TargetRow, Database, LoadedTarget, RowError, target_quantities_from_live_target_rows,
  plan_version, load_target_portfolios, persist_strategy_target_plan,
}

pub data DayError : Type 0 where
  load_failed plan_failed : DayError
  bad_row : RowError → DayError

-- The model strategy with the store; whether a call starts a convergence.
pub record Day (W T : Type 0) : Type 0 where
  pub model : ModelState W
  pub store : T
  pub converges : Bool

-- Who computes the plan of a day: `compute_daily_target_plan`, which may raise, with what it changes
-- in the strategy; and the calendar's `_resolve_signal_date`.
pub record Planning (W : Type 0) : Type 0 where
  pub compute : ℕ → ModelState W → Result DayError (ModelTargetPlan W) × ModelState W
  pub resolve_signal_date : ℕ → Option ℕ

-- The loader and the persister, where they are configured.
pub record Wiring (T : Type 0) : Type 0 where
  pub database : Database T
  pub has_loader : Bool
  pub has_persister : Bool
  pub loaded_target : ℕ

module _ {W T : Type 0} (texts : Texts) (planning : Planning W) (wiring : Wiring T) where
  -- The call of `update_target_quantities`.
  abbrev pub updated : Bool × Strategy → Day W T → Day W T
  updated (converges, s) day = record day {
    model = record day.model { base = s };
    converges = converges;
  }

  abbrev pub rows_or_none : List TargetRow → Result DayError (Option LoadedTarget)
  rows_or_none [] = ok none
  rows_or_none (row ∷ rows) =
      elim (target_quantities_from_live_target_rows texts wiring.loaded_target (row ∷ rows)) [
        | err raised ↦ err (bad_row raised)
        | ok loaded ↦ ok (some loaded)
      ]

  -- `_live_target_portfolio_target`
  pub live_target_portfolio_target : ℕ → T → Result DayError (Option LoadedTarget)
  live_target_portfolio_target trading_date store =
      if not wiring.has_loader
      then ok none
      else elim (load_target_portfolios wiring.database trading_date
          (planning.resolve_signal_date trading_date) store) [
            | none ↦ err load_failed
            | some rows ↦ rows_or_none rows
          ]

  -- The update with a target that is stored.
  pub apply_loaded : ℕ → LoadedTarget → Day W T → Day W T
  apply_loaded trading_date loaded day =
      updated
        (update_target_quantities (as_quantities loaded.quantities) trading_date loaded.reason
          loaded.version false (planning.resolve_signal_date trading_date) day.model.base)
        day

  -- The update with a plan.
  pub apply_plan : ℕ → ModelTargetPlan W → Day W T → Day W T
  apply_plan trading_date plan day =
      updated
        (update_target_quantities (as_quantities (target_quantities_from_plan plan)) trading_date
          plan.reason (some (plan_version plan)) false plan.signal_date day.model.base)
        day

  -- After the call of the persister.
  pub apply_persisted : ℕ → ModelTargetPlan W → Bool × T → Day W T → Day W T
  apply_persisted trading_date plan (persisted, store) day =
      if persisted
      then apply_plan trading_date plan (record day { store = store })
      else record day { store = store }

  -- From the plan of the day on.
  pub apply_computed : ℕ → ModelTargetPlan W → Day W T → Day W T
  apply_computed trading_date plan day =
      if plan.persistable && wiring.has_persister
      then apply_persisted trading_date plan
          (persist_strategy_target_plan wiring.database plan day.store) day
      else apply_plan trading_date plan day

  -- The call of `compute_daily_target_plan` and the rest.
  pub after_compute :
      ℕ
      → Result DayError (ModelTargetPlan W) × ModelState W
      → Day W T
      → Result DayError (Unit {0}) × Day W T
  after_compute trading_date (err raised, model) day = (err raised, record day { model = model })
  after_compute trading_date (ok plan, model) day =
      (ok tt, apply_computed trading_date plan (record day { model = model }))

  -- From what is loaded on.
  pub after_load :
      ℕ → Result DayError (Option LoadedTarget) → Day W T → Result DayError (Unit {0}) × Day W T
  after_load trading_date (err raised) day = (err raised, day)
  after_load trading_date (ok (some loaded)) day = (ok tt, apply_loaded trading_date loaded day)
  after_load trading_date (ok none) day =
      after_compute trading_date (planning.compute trading_date day.model) day

  -- `_process_trading_day`
  pub process_trading_day : ℕ → Day W T → Result DayError (Unit {0}) × Day W T
  process_trading_day trading_date day =
      after_load trading_date (live_target_portfolio_target trading_date day.store) day

  -- `self._processed_dates.add(trading_date)`, unless the day raised.
  pub mark_processed : ℕ → Result DayError (Unit {0}) × Day W T → Result DayError Bool × Day W T
  mark_processed trading_date (err raised, day) = (err raised, day)
  mark_processed trading_date (ok _, day) = (
    ok true,
    record day {
      model = record day.model { processed_dates = add trading_date day.model.processed_dates };
    },
  )

  -- `_process_trading_day_once`
  pub process_trading_day_once : ℕ → Day W T → Result DayError Bool × Day W T
  process_trading_day_once trading_date day =
      if member trading_date day.model.processed_dates
      then (ok false, day)
      else mark_processed trading_date (process_trading_day trading_date day)

  -- `self._processed_dates.discard(today)`
  pub discard_processed : ℕ → Day W T → Day W T
  discard_processed today day = record day {
    model = record day.model { processed_dates = discard today day.model.processed_dates };
  }

  -- `refresh_reference_data` after the data are refreshed: without a local date nothing follows;
  -- `within` is `_within_trading_window`.
  pub refresh_processed : (Strategy → Bool) → Option ℕ → Day W T → Result DayError Bool × Day W T
  refresh_processed within none day = (ok false, day)
  refresh_processed within (some today) day =
      let discarded = discard_processed today day in
      if within discarded.model.base
      then process_trading_day_once today discarded
      else (ok false, discarded)
