-- ===== src/Model/Recorder.antt =====
-- The daily target of the recorder, lives/snapshot_recorder.py: `_ensure_daily_target`,
-- `_generate_and_persist_target`, `_apply_loaded_target` and `_apply_target`. The audit rows of the
-- callback `on_complete` are left out but for its status, and exceptions of the update, which it
-- does not raise.
pub mod Readers
pub mod Once
pub mod Tests
use qapp.Base.{
  ℕ, Bool, true, false, not, Option, none, some, List, [], ◌∷◌, ◌==◌, if◌then◌else◌, Dict, IdSet,
  insert, member, add, is_nil, Result, ok, err,
}
use qapp.Base.Int.{ℤ}
use qapp.Strategy.Types.{Strategy, Version}
use qapp.Strategy.Targets.{update_target_quantities}
use qapp.Strategy.Targets.Manual.{as_quantities}
use qapp.Model.Plans.{ModelTargetPlan, ModelState}
use qapp.Model.Local.{target_quantities_from_plan}
use qapp.Model.Store.{
  SnapshotType, TargetRow, Database, first_version, last_reason, plan_version, or_date, load_target,
  persist_target_plan,
}
use qapp.Model.Day.{DayError, Planning}

-- The strategy, the store, and `_applied_target_dates`.
pub record Recorder (W T : Type 0) : Type 0 where
  pub model : ModelState W
  pub store : T
  pub applied_target_dates : IdSet

-- What `on_complete` is told.
pub data Completion : Type 0 where
  skipped failed success : Completion

-- What the rows of a day say to the recorder; a quantity may be negative.
pub record RowsRead : Type 0 where
  pub target_qty : Dict (Option ℤ)
  pub version : Option Version
  pub reason : ℕ

abbrev pub note_qty : ℕ → Option ℤ → Dict (Option ℤ) → Dict (Option ℤ)
note_qty id none target_qty = target_qty
note_qty id (some qty) target_qty = insert id (some qty) target_qty

-- The loop of `_apply_loaded_target`.
pub read_loaded : List TargetRow → RowsRead → RowsRead
read_loaded [] read = read
read_loaded (row ∷ rows) read = read_loaded rows (record {
  target_qty = note_qty row.instrument_id row.target_qty read.target_qty;
  version = first_version read.version row.target_version;
  reason = last_reason read.reason row.reason;
})

module _ {W T : Type 0} (planning : Planning W) (db : Database T) (loaded_target : ℕ) where
  abbrev pub with_strategy : Bool × Strategy → Recorder W T → Recorder W T
  with_strategy (converges, s) r = record r { model = record r.model { base = s } }

  -- `_apply_target`
  pub apply_target :
      ℕ → Dict (Option ℤ) → ℕ → Option Version → Option ℕ → Recorder W T → Recorder W T
  apply_target trading_date target_qty reason version signal_date r =
      with_strategy
        (update_target_quantities target_qty trading_date reason version false signal_date
          r.model.base)
        r

  abbrev pub apply_read : ℕ → Option ℕ → RowsRead → Recorder W T → Recorder W T
  apply_read trading_date signal_date read r =
      if is_nil read.target_qty
      then r
      else apply_target trading_date read.target_qty read.reason read.version signal_date r

  -- `_apply_loaded_target`
  pub apply_loaded_target : ℕ → List TargetRow → Option ℕ → Recorder W T → Recorder W T
  apply_loaded_target trading_date rows signal_date r =
      apply_read trading_date signal_date
        (read_loaded rows (record { target_qty = []; version = none; reason = loaded_target })) r

  -- The application of a plan, with the signal date it goes by.
  abbrev pub apply_plan_target : ModelTargetPlan W → Option ℕ → Recorder W T → Recorder W T
  apply_plan_target plan signal_date r =
      apply_target plan.trading_date (as_quantities (target_quantities_from_plan plan)) plan.reason
        (some (plan_version plan)) signal_date r

  abbrev pub persisted_completion : Bool → Completion
  persisted_completion true = success
  persisted_completion false = failed

  -- `_persist_target_plan` with `apply_target`: the target is applied whether the write succeeds or not.
  pub persist_and_apply :
      ModelTargetPlan W → SnapshotType → Option ℕ → Recorder W T → Completion × Recorder W T
  persist_and_apply plan snapshot_type signal_date r =
      let (persisted, store) = persist_target_plan db plan snapshot_type signal_date r.store in
      (
        persisted_completion persisted,
        apply_plan_target plan (or_date plan.signal_date signal_date) (record r { store = store }),
      )

  -- `_generate_and_persist_target` from the plan on.
  pub generated :
      ℕ
      → SnapshotType
      → Option ℕ
      → Result DayError (ModelTargetPlan W) × ModelState W
      → Recorder W T
      → Completion × Recorder W T
  generated trading_date snapshot_type signal_date (err raised, m) r =
      (failed, record r { model = m })
  generated trading_date snapshot_type signal_date (ok plan, m) r =
      if not plan.persistable
      then (
        failed,
        apply_target trading_date (as_quantities (target_quantities_from_plan plan)) plan.reason
            (some (plan_version plan)) plan.signal_date (record r { model = m }),
      )
      else persist_and_apply plan snapshot_type signal_date (record r { model = m })

  -- `_generate_and_persist_target`
  pub generate_and_persist_target :
      ℕ → SnapshotType → Option ℕ → Recorder W T → Completion × Recorder W T
  generate_and_persist_target trading_date snapshot_type signal_date r =
      generated trading_date snapshot_type signal_date (planning.compute trading_date r.model) r

  -- `self._applied_target_dates.add(trading_date)`
  abbrev pub mark_applied : ℕ → Completion × Recorder W T → Completion × Recorder W T
  mark_applied trading_date (completion, r) =
      (completion, record r { applied_target_dates = add trading_date r.applied_target_dates })

  abbrev pub from_rows :
      ℕ → SnapshotType → Option ℕ → List TargetRow → Recorder W T → Completion × Recorder W T
  from_rows trading_date snapshot_type signal_date [] r =
      generate_and_persist_target trading_date snapshot_type signal_date r
  from_rows trading_date snapshot_type signal_date (row ∷ rows) r =
      (skipped, apply_loaded_target trading_date (row ∷ rows) signal_date r)

  -- `_ensure_daily_target`
  pub ensure_daily_target : ℕ → SnapshotType → Recorder W T → Completion × Recorder W T
  ensure_daily_target trading_date snapshot_type r =
      let signal_date = planning.resolve_signal_date trading_date in
      if member trading_date r.applied_target_dates
      then (skipped, r)
      else mark_applied trading_date (
          from_rows trading_date snapshot_type signal_date
            (load_target db trading_date signal_date r.store) r)
