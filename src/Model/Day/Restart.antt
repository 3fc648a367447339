-- ===== src/Model/Day/Restart.antt =====
-- A restart in the middle of a trading day, strategies/model_prediction_targets.py.
use qapp.Base.{
  ℕ, ◌≡◌, ◌≢◌, ap, ◌∙◌, true, false, not, ◌&&◌, Option, none, some, List, [], ◌∷◌, All, Dict,
  IsDict, lookup, Result, ok, err, if_false,
}
use qapp.Strategy.Targets.Known.{known_update}
use qapp.Model.Plans.{ModelTargetPlan, Texts, ModelState}
use qapp.Model.Local.{target_quantities_from_plan}
use qapp.Model.Local.Quantities.{quantities_from-IsDict}
use qapp.Model.Store.{
  TargetRow, IsDatabase, LoadedTarget, RowError, no_target_qty, load_target_portfolios,
  target_quantities_from_live_target_rows, persist_strategy_target_plan, read_rows,
}
use qapp.Model.Store.Roundtrip.{
  IsPlain, AreDistinct, IsUnstored, load-next, persisted_plan_is_reloaded,
}
use qapp.Model.Day.{
  load_failed, bad_row, Day, Planning, Wiring, rows_or_none, live_target_portfolio_target,
  apply_loaded, apply_plan, apply_persisted, apply_computed, after_compute, after_load,
  process_trading_day,
}
use qapp.Model.Day.Gates.{taken}

no_value :
    (raised : RowError) (loaded : LoadedTarget) {G : Type 0}
    → ◌≡◌ {A = Result RowError LoadedTarget} (err raised) (ok loaded)
    → G
no_value raised loaded e = cc e

module _ {W T : Type 0} (texts : Texts) (planning : Planning W) (wiring : Wiring T) where
  -- The loader's rows, as the strategy reads them.
  loads :
      (d : ℕ) (store : T) (signal : Option ℕ) (found : List TargetRow)
      → wiring.has_loader ≡ true
      → planning.resolve_signal_date d ≡ signal
      → load_target_portfolios wiring.database d signal store ≡ some found
      → live_target_portfolio_target texts planning wiring d store
        ≡ rows_or_none texts planning wiring found
  unfolding live_target_portfolio_target
  loads d store signal found has resolved e =
      if_false (not wiring.has_loader) (ok none) _ (ap not has)
      ∙ (ap
            (λ s. elim (load_target_portfolios wiring.database d s store) [
              | none ↦ err load_failed
              | some rows ↦ rows_or_none texts planning wiring rows
            ])
            resolved
          ∙ ap
              (λ o. elim o [
                | none ↦ err load_failed
                | some rows ↦ rows_or_none texts planning wiring rows
              ])
              e)

  rows-loaded :
      (found : List TargetRow) (loaded : LoadedTarget)
      → target_quantities_from_live_target_rows texts wiring.loaded_target found ≡ ok loaded
      → rows_or_none texts planning wiring found ≡ ok (some loaded)
  unfolding target_quantities_from_live_target_rows read_rows
  rows-loaded [] loaded e = no_value no_target_qty loaded e
  rows-loaded (r ∷ rs) loaded e =
      ap (λ a. elim a [ err raised ↦ err (bad_row raised) | ok l ↦ ok (some l) ]) e

  -- The targets after a trading day.
  abbrev pub targets_after : ℕ → Day W T → Dict ℕ
  targets_after d day =
      (process_trading_day texts planning wiring d day).1.model.base.target_quantities

  first_day :
      (day : Day W T) (plan : ModelTargetPlan W) (m : ModelState W) (store : T)
      → live_target_portfolio_target texts planning wiring plan.trading_date day.store ≡ ok none
      → planning.compute plan.trading_date day.model ≡ (ok plan, m)
      → (plan.persistable && wiring.has_persister) ≡ true
      → persist_strategy_target_plan wiring.database plan day.store ≡ (true, store)
      → process_trading_day texts planning wiring plan.trading_date day ≡ (
        ok tt,
        apply_plan texts planning wiring plan.trading_date plan
            (record day { model = m; store = store }),
      )
  unfolding process_trading_day after_load after_compute apply_computed apply_persisted
  first_day day plan m store unloaded computed persists done =
      ap (λ l. after_load texts planning wiring plan.trading_date l day) unloaded
      ∙ (ap (λ c. after_compute texts planning wiring plan.trading_date c day) computed
          ∙ ap (λ r. (ok tt, r))
              (taken (plan.persistable && wiring.has_persister) _ _ persists
                ∙ ap
                    (λ p.
                      apply_persisted texts planning wiring plan.trading_date plan p
                        (record day { model = m }))
                    done))

  applied-plan :
      (day : Day W T) (plan : ModelTargetPlan W) (id : ℕ)
      → day.model.base.target_updates_paused ≡ false
      → lookup id
          (apply_plan texts planning wiring plan.trading_date plan day).model.base.target_quantities
        ≡ lookup id (target_quantities_from_plan plan)
  unfolding apply_plan target_quantities_from_plan
  applied-plan day plan id running =
      known_update (target_quantities_from_plan plan) plan.trading_date plan.reason _
        plan.signal_date day.model.base id (quantities_from-IsDict plan.targets [] tt) running

  applied-loaded :
      (d : ℕ) (day : Day W T) (loaded : LoadedTarget) (id : ℕ)
      → IsDict loaded.quantities
      → day.model.base.target_updates_paused ≡ false
      → lookup id (apply_loaded texts planning wiring d loaded day).model.base.target_quantities
        ≡ lookup id loaded.quantities
  unfolding apply_loaded
  applied-loaded d day loaded id unique running =
      known_update loaded.quantities d loaded.reason loaded.version (planning.resolve_signal_date d)
        day.model.base id unique running

  -- A plan that the strategy computes, stores and applies is what a strategy that is started again on
  -- the same day takes up from the store, without computing another plan: both have the same target
  -- for every instrument, that of the plan. The plan is for its own day and signal date, has a
  -- quantity, a reason, distinct instruments, and no versions of its own; nothing was stored before,
  -- and target updates are not paused.
  pub restart_keeps_targets :
      (day : Day W T) (plan : ModelTargetPlan W) (m restarted : ModelState W) (store : T) (id q : ℕ)
      (law : IsDatabase wiring.database)
      → wiring.has_loader ≡ true
      → wiring.has_persister ≡ true
      → planning.resolve_signal_date plan.trading_date ≡ plan.signal_date
      → planning.compute plan.trading_date day.model ≡ (ok plan, m)
      → All (IsPlain texts) plan.targets
      → AreDistinct plan.targets
      → plan.reason ≢ 0
      → lookup id (target_quantities_from_plan plan) ≡ some q
      → plan.persistable ≡ true
      → IsUnstored wiring.database plan day.store
      → persist_strategy_target_plan wiring.database plan day.store ≡ (true, store)
      → m.base.target_updates_paused ≡ false
      → restarted.base.target_updates_paused ≡ false
      → (i : ℕ)
      → (lookup i (targets_after plan.trading_date day)
          ≡ lookup i (target_quantities_from_plan plan))
        × (lookup i (
              targets_after plan.trading_date
                (record { model = restarted; store = store; converges = false }))
            ≡ lookup i (target_quantities_from_plan plan))
  unfolding process_trading_day after_load
  restart_keeps_targets day plan m restarted store id q law loader persister resolved computed plain
        distinct told some_there persistable unstored done running running' i =
      let (found, loaded, at, read, _, _, unique, agrees) =
        persisted_plan_is_reloaded wiring.database law plan texts wiring.loaded_target day.store
          store id q plain distinct told some_there persistable unstored done in
      let unloaded =
        loads plan.trading_date day.store plan.signal_date [] loader resolved
          (load-next wiring.database law plan day.store [] unstored.0 unstored.1) in
      let again =
        loads plan.trading_date store plan.signal_date found loader resolved at
        ∙ rows-loaded found loaded read in
      (
        ap (λ r. lookup i r.1.model.base.target_quantities)
              (first_day day plan m store unloaded computed
                (ap (λ b. b && wiring.has_persister) persistable ∙ persister) done)
            ∙ applied-plan (record day { model = m; store = store }) plan i running,
        ap
              (λ l.
                lookup i
                  (after_load texts planning wiring plan.trading_date l (record {
                    model = restarted;
                    store = store;
                    converges = false;
                  })).1.model.base.target_quantities)
              again
            ∙ (applied-loaded plan.trading_date
                  (record { model = restarted; store = store; converges = false }) loaded i unique
                  running'
                ∙ agrees i),
      )
