-- ===== src/Reconciler.antt =====
-- The reconciliation of the execution state, strategies/execution_reconciliation.py:
-- `ExecutionStateReconciler`, after `bind_runtime`. Its future and the callbacks on it are kept by
-- the number of the task; the event reporter is what it has been sent. Times are local, in ns.
pub mod Gate
pub mod Reports
pub mod Daily
pub mod Tests
use qapp.Base.{
  ℕ, ◌+◌, ◌-◌, ◌*◌, ◌%◌, Bool, true, false, not, ◌&&◌, Option, none, some, List, [], ◌∷◌, leb, ◌==◌,
  if◌then◌else◌, Dict, lookup, insert, Result, ok, err,
}
use qapp.Base.Int.{ℤ}

-- `status` of a report to the event reporter.
pub data EventStatus : Type 0 where
  skipped failed success : EventStatus

-- What a call of `_reconcile` does: it raises, gives an awaitable, scheduled as the task of that
-- number, or answers at once.
pub data Reply : Type 0 where
  raises : Reply
  awaitable : ℕ → Reply
  answers : Bool → Reply

pub data ReconcilerError : Type 0 where
  not_configured time_required : ReconcilerError

-- One callback that was added to a task, with its `report_scheduled_event`.
pub record Callback : Type 0 where
  pub task : ℕ
  pub report_scheduled_event : Bool

pub record Reconciler : Type 0 where
  pub configured : Bool
  pub reconcile_time : Option (ℕ × ℕ)
  pub task : Option ℕ
  pub venue_sellable : Dict ℤ
  pub reconciled_once : Bool
  pub has_reporter : Bool
  pub callbacks : List Callback
  pub reports : List EventStatus

-- `__init__`
abbrev pub initial : Reconciler
initial = record {
  configured = false;
  reconcile_time = none;
  task = none;
  venue_sellable = [];
  reconciled_once = false;
  has_reporter = false;
  callbacks = [];
  reports = [];
}

-- `configure`, with the time as `_parse_hh_mm` reads it.
pub configure : Option (ℕ × ℕ) → Bool → Reconciler → Result ReconcilerError Reconciler
configure none event_reporter s = err time_required
configure (some parsed_time) event_reporter s = ok (record s {
  configured = true;
  reconcile_time = some parsed_time;
  has_reporter = event_reporter;
})

-- `is_configured`
pub is_configured : Reconciler → Bool
is_configured s = s.configured && elim s.reconcile_time [ none ↦ false | some _ ↦ true ]

-- `_report_event`: an exception of the reporter is logged and dropped.
pub report_event : Bool → EventStatus → Reconciler → Reconciler
report_event enabled status s =
    if enabled && s.has_reporter then record s { reports = status ∷ s.reports } else s

-- `_log_result`
pub log_result : Bool → Reconciler → Reconciler
log_result true s = record s { reconciled_once = true }
log_result false s = s

-- The end of a reconciliation that answered, in `run` and in `_on_done`.
pub settle : Bool → Bool → Reconciler → Reconciler
settle enabled succeeded s =
    report_event enabled (if succeeded then success else failed) (log_result succeeded s)

-- `run` from the call of `_reconcile` on.
pub start : Bool → Reply → Reconciler → Reconciler
start enabled raises s = report_event enabled failed s
start enabled (awaitable task) s = record s {
  task = some task;
  callbacks = record { task = task; report_scheduled_event = enabled } ∷ s.callbacks;
}
start enabled (answers succeeded) s = settle enabled succeeded s

-- `self._task is not None and not self._task.done()`
pub is_running : (ℕ → Bool) → Option ℕ → Bool
is_running done none = false
is_running done (some task) = not (done task)

-- `run`: `done` tells which tasks are done; the error is raised where `_reconcile` is not set.
pub run : (ℕ → Bool) → Reply → Bool → Reconciler → Option ReconcilerError × Reconciler
run done reply enabled s =
    if is_running done s.task
    then (none, report_event enabled skipped s)
    else if not s.configured
    then (some not_configured, report_event enabled failed s)
    else (none, start enabled reply s)

-- `_on_done`, called with its callback taken off the task; `none` is a task that raised an
-- `Exception`. asyncio's `CancelledError`, which is none and passes through, is left out.
pub on_done : Bool → Option Bool → Reconciler → Reconciler
on_done enabled none s = report_event enabled failed (record s { task = none })
on_done enabled (some succeeded) s = settle enabled succeeded (record s { task = none })

-- One position report: `instrument_id`, and `can_use_volume`, where `some none` is no number.
pub record Report : Type 0 where
  pub instrument_id : Option ℕ
  pub can_use_volume : Option (Option ℤ)

-- The body of the loop of `update_from_mass_status`.
pub read_fields : Option ℕ → Option (Option ℤ) → Dict ℤ → Dict ℤ
read_fields none can_use sellable = sellable
read_fields (some id) none sellable = sellable
read_fields (some id) (some none) sellable = sellable
read_fields (some id) (some (some can_use)) sellable = insert id can_use sellable

abbrev pub read_report : Report → Dict ℤ → Dict ℤ
read_report report = read_fields report.instrument_id report.can_use_volume

pub read_reports : List Report → Dict ℤ → Dict ℤ
read_reports [] sellable = sellable
read_reports (report ∷ reports) sellable = read_reports reports (read_report report sellable)

-- `update_from_mass_status`, with the reports of all entries of `position_reports`; no entry is
-- `none`.
pub update_from_mass_status : Option (List Report) → Reconciler → Reconciler
update_from_mass_status none s = s
update_from_mass_status (some reports) s = record s {
  venue_sellable = read_reports reports [];
  reconciled_once = true;
}

-- `venue_sellable_quantity`
pub venue_sellable_quantity : Reconciler → ℕ → Option ℤ
venue_sellable_quantity s instrument_id = lookup instrument_id s.venue_sellable

abbrev pub minute_ns : ℕ
minute_ns = 60 * 1000000000

abbrev pub day_ns : ℕ
day_ns = 1440 * minute_ns

-- The wanted time of the day of `now`, and the day after where it has passed.
pub daily_time : ℕ → ℕ × ℕ → ℕ
daily_time now (hh, mm) =
    let target = now - now % day_ns + (hh * 60 + mm) * minute_ns in
    if leb target now then target + day_ns else target

-- `_next_daily_time`, in a zone without changes of its offset.
pub next_daily_time : ℕ → Reconciler → Result ReconcilerError ℕ
next_daily_time now s = elim s.reconcile_time [
  | none ↦ err not_configured
  | some reconcile_time ↦ ok (daily_time now reconcile_time)
]
