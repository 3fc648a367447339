-- ===== src/Reconciler/Reports.antt =====
-- The reports of the scheduled runs, strategies/execution_reconciliation.py.
use qapp.Base.{
  ℕ, ◌+◌, ◌≡◌, refl, ap, Bool, true, false, not, Option, none, some, List, [], ◌∷◌, ◌++◌, arith,
  length, if_both,
}
use qapp.Reconciler.{
  EventStatus, Reply, raises, awaitable, answers, ReconcilerError, Callback, Reconciler,
  report_event, log_result, settle, start, is_running, run, on_done, update_from_mass_status,
  skipped, failed, success,
}
use qapp.Reconciler.Gate.{Step, reconciles, ends, hears, Reach, begun, further}

-- 1 where the flag is set.
abbrev one_if : Bool → ℕ
one_if true = 1
one_if false = 0

-- The callbacks that will report.
abbrev pub awaited : List Callback → ℕ
awaited [] = 0
awaited (c ∷ cs) = one_if c.report_scheduled_event + awaited cs

-- The scheduled runs among the calls.
abbrev pub scheduled : {s t : Reconciler} → Step s t → ℕ
scheduled (reconciles done reply enabled e) = one_if enabled
scheduled (ends before after c answer q e) = 0
scheduled (hears reports e) = 0

abbrev pub scheduled_runs : {s t : Reconciler} → Reach s t → ℕ
scheduled_runs begun = 0
scheduled_runs (further r step) = scheduled_runs r + scheduled step

-- What is reported or awaited.
abbrev pub accounted : Reconciler → ℕ
accounted s = length s.reports + awaited s.callbacks

-- An object after some calls, of which `n` more are accounted for.
IsAccounted : Reconciler → ℕ → Reconciler → Type 0
IsAccounted s n t = (t.has_reporter ≡ true) × (accounted t ≡ accounted s + n)

awaited-append :
    (before after : List Callback) (c : Callback)
    → awaited (before ++ (c ∷ after)) ≡ one_if c.report_scheduled_event + awaited (before ++ after)
awaited-append [] after c = refl
awaited-append (b ∷ before) after c = omega (arith, awaited-append before after c)

report_event-IsAccounted :
    (enabled : Bool) (status : EventStatus) (s : Reconciler)
    → s.has_reporter ≡ true
    → IsAccounted s (one_if enabled) (report_event enabled status s)
unfolding report_event IsAccounted
report_event-IsAccounted true status s h = rw h (refl, omega arith)
report_event-IsAccounted false status s h = (h, omega arith)

settle-IsAccounted :
    (enabled succeeded : Bool) (s : Reconciler)
    → s.has_reporter ≡ true
    → IsAccounted s (one_if enabled) (settle enabled succeeded s)
unfolding settle log_result IsAccounted
settle-IsAccounted enabled true s h =
    report_event-IsAccounted enabled success (record s { reconciled_once = true }) h
settle-IsAccounted enabled false s h = report_event-IsAccounted enabled failed s h

start-IsAccounted :
    (enabled : Bool) (reply : Reply) (s : Reconciler)
    → s.has_reporter ≡ true
    → IsAccounted s (one_if enabled) (start enabled reply s)
unfolding start IsAccounted
start-IsAccounted enabled raises s h = report_event-IsAccounted enabled failed s h
start-IsAccounted enabled (awaitable task) s h = (h, omega arith)
start-IsAccounted enabled (answers succeeded) s h = settle-IsAccounted enabled succeeded s h

run-IsAccounted :
    (done : ℕ → Bool) (reply : Reply) (enabled : Bool) (s : Reconciler)
    → s.has_reporter ≡ true
    → IsAccounted s (one_if enabled) (run done reply enabled s).1
unfolding run
run-IsAccounted done reply enabled s h =
    if_both (λ (r : Option ReconcilerError × Reconciler). IsAccounted s (one_if enabled) r.1)
      (is_running done s.task) (report_event-IsAccounted enabled skipped s h)
      (if_both (λ (r : Option ReconcilerError × Reconciler). IsAccounted s (one_if enabled) r.1)
        (not s.configured) (report_event-IsAccounted enabled failed s h)
        (start-IsAccounted enabled reply s h))

on_done-IsAccounted :
    (enabled : Bool) (answer : Option Bool) (s : Reconciler)
    → s.has_reporter ≡ true
    → IsAccounted s (one_if enabled) (on_done enabled answer s)
unfolding on_done IsAccounted
on_done-IsAccounted enabled none s h =
    report_event-IsAccounted enabled failed (record s { task = none }) h
on_done-IsAccounted enabled (some succeeded) s h =
    settle-IsAccounted enabled succeeded (record s { task = none }) h

Step-IsAccounted :
    {s t : Reconciler} (step : Step s t) → s.has_reporter ≡ true → IsAccounted s (scheduled step) t
unfolding IsAccounted update_from_mass_status
Step-IsAccounted {s} (reconciles done reply enabled e) h =
    rw e (run-IsAccounted done reply enabled s h)
Step-IsAccounted {s} (ends before after c answer q e) h =
    let after_it =
      on_done-IsAccounted c.report_scheduled_event answer (record s { callbacks = before ++ after })
        h in
    rw e (after_it.0, omega (arith, after_it.1, ap awaited q, awaited-append before after c))
Step-IsAccounted (hears none e) h = rw e (h, omega arith)
Step-IsAccounted (hears (some reports) e) h = rw e (h, omega arith)

Reach-IsAccounted :
    {s t : Reconciler} (r : Reach s t) → s.has_reporter ≡ true → IsAccounted s (scheduled_runs r) t
unfolding IsAccounted
Reach-IsAccounted begun h = (h, omega arith)
Reach-IsAccounted (further r step) h =
    let before = Reach-IsAccounted r h in
    let afterwards = Step-IsAccounted step before.0 in
    (afterwards.0, omega (arith, before.1, afterwards.1))

-- With an event reporter, and as long as no task ends in asyncio's `CancelledError`, every scheduled
-- run is reported exactly once: at any time the reports sent and the callbacks that will still send
-- one have grown by the number of scheduled runs, those skipped, not configured or failed to start
-- included.
pub every_run_is_reported :
    (s t : Reconciler) (r : Reach s t)
    → s.has_reporter ≡ true
    → length t.reports + awaited t.callbacks
      ≡ length s.reports + awaited s.callbacks + scheduled_runs r
unfolding IsAccounted
every_run_is_reported s t r h = (Reach-IsAccounted r h).1
