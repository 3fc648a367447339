-- ===== src/Model/Recorder/Once.antt =====
-- The recorder ensures the target of a day once, lives/snapshot_recorder.py.
use qapp.Base.{ℕ, ◌≡◌, true, arith, if◌then◌else◌, member, member-add, if_cases}
use qapp.Model.Store.{SnapshotType, Database, load_target}
use qapp.Model.Day.{Planning}
use qapp.Model.Day.Gates.{taken}
use qapp.Model.Recorder.{
  Recorder, Completion, skipped, mark_applied, from_rows, ensure_daily_target,
}

module _ {W T : Type 0} (planning : Planning W) (db : Database T) (loaded_target : ℕ) where
  -- Whatever came of it, a plan that was computed, loaded, refused or failed, the target of a day is
  -- ensured once: a second call on the same date changes nothing and reports that it is skipped.
  pub target_is_ensured_once :
      (trading_date : ℕ) (snapshot_type again : SnapshotType) (r : Recorder W T)
      → let after =
          (ensure_daily_target planning db loaded_target trading_date snapshot_type r).1 in
        ensure_daily_target planning db loaded_target trading_date again after ≡ (skipped, after)
  unfolding ensure_daily_target
  target_is_ensured_once trading_date snapshot_type again r =
      taken (member trading_date after.applied_target_dates) (skipped, after) _ marked
    where
      ensured : Completion × Recorder W T
      ensured = mark_applied planning db loaded_target trading_date (
          from_rows planning db loaded_target trading_date snapshot_type
            (planning.resolve_signal_date trading_date)
            (load_target db trading_date (planning.resolve_signal_date trading_date) r.store) r)

      left_alone : Completion × Recorder W T
      left_alone = (skipped, r)

      after : Recorder W T
      after = (if member trading_date r.applied_target_dates then left_alone else ensured).1

      marked : member trading_date after.applied_target_dates ≡ true
      marked =
          if_cases
            (λ (x : Completion × Recorder W T). member trading_date x.1.applied_target_dates ≡ true)
            (member trading_date r.applied_target_dates) (λ e. e)
            (λ _. ground (
              arith,
              member-add trading_date trading_date
                  (from_rows planning db loaded_target trading_date snapshot_type
                    (planning.resolve_signal_date trading_date)
                    (load_target db trading_date (planning.resolve_signal_date trading_date)
                      r.store)
                    r).1.applied_target_dates,
            ))
