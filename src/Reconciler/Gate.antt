-- ===== src/Reconciler/Gate.antt =====
-- The gate that the reconciler opens for the convergence, strategies/execution_reconciliation.py
-- and `_awaiting_pre_open_reconcile` of strategies/target_quantities.py.
use qapp.Base.{
  ℕ, ◌≡◌, refl, ◌∙◌, Bool, true, false, not, ◌&&◌, Option, none, some, List, ◌∷◌, ◌++◌, arith, ap,
  if_both, else_else,
}
use qapp.Strategy.Types.{Config, World}
use qapp.Strategy.Submit.{Engine}
use qapp.Strategy.Unfilled.{Market}
use qapp.Strategy.Converge.{is_awaiting}
use qapp.Reconciler.{
  EventStatus, Reply, raises, awaitable, answers, ReconcilerError, Callback, Reconciler, Report,
  is_configured, report_event, log_result, settle, start, is_running, run, on_done,
  update_from_mass_status, venue_sellable_quantity, skipped, failed, success,
}

-- One call of the object after `configure`. The end of a task takes one of the callbacks that wait.
pub data Step (s t : Reconciler) : Type 0 where
  reconciles :
      (done : ℕ → Bool) (reply : Reply) (enabled : Bool)
      → t ≡ (run done reply enabled s).1
      → Step s t
  ends :
      (before after : List Callback) (c : Callback) (answer : Option Bool)
      → s.callbacks ≡ before ++ (c ∷ after)
      → t ≡ on_done c.report_scheduled_event answer (record s { callbacks = before ++ after })
      → Step s t
  hears : (reports : Option (List Report)) → t ≡ update_from_mass_status reports s → Step s t

pub data Reach (s : Reconciler) : Reconciler → Type 0 where
  begun : Reach s s
  further : {m t : Reconciler} → Reach s m → Step m t → Reach s t

-- A call that succeeds: a reconciliation that answers true, at once or when its task ends, or a
-- report of the venue.
pub data Succeeds (s t : Reconciler) : Type 0 where
  at_once :
      (done : ℕ → Bool) (enabled : Bool)
      → is_running done s.task ≡ false
      → s.configured ≡ true
      → t ≡ (run done (answers true) enabled s).1
      → Succeeds s t
  later : (enabled : Bool) → t ≡ on_done enabled (some true) s → Succeeds s t
  told : (reports : List Report) → t ≡ update_from_mass_status (some reports) s → Succeeds s t

-- What a strategy reads of its reconciler.
abbrev pub seen_by : World → Reconciler → World
seen_by w s = record w {
  venue_sellable = venue_sellable_quantity s;
  reconciler_configured = is_configured s;
  reconciled_once = s.reconciled_once;
}

report_event-gate :
    (enabled : Bool) (status : EventStatus) (s : Reconciler)
    → (report_event enabled status s).reconciled_once ≡ s.reconciled_once
unfolding report_event
report_event-gate enabled status s =
    if_both (λ (r : Reconciler). r.reconciled_once ≡ s.reconciled_once) (enabled && s.has_reporter)
      refl refl

settle-opens : (enabled : Bool) (s : Reconciler) → (settle enabled true s).reconciled_once ≡ true
unfolding settle log_result
settle-opens enabled s = report_event-gate enabled success (log_result true s)

settle-keeps :
    (enabled succeeded : Bool) (s : Reconciler)
    → s.reconciled_once ≡ true
    → (settle enabled succeeded s).reconciled_once ≡ true
unfolding settle log_result
settle-keeps enabled true s h = settle-opens enabled s
settle-keeps enabled false s h = report_event-gate enabled failed s ∙ h

start-keeps :
    (enabled : Bool) (reply : Reply) (s : Reconciler)
    → s.reconciled_once ≡ true
    → (start enabled reply s).reconciled_once ≡ true
unfolding start
start-keeps enabled raises s h = report_event-gate enabled failed s ∙ h
start-keeps enabled (awaitable task) s h = h
start-keeps enabled (answers succeeded) s h = settle-keeps enabled succeeded s h

run-keeps :
    (done : ℕ → Bool) (reply : Reply) (enabled : Bool) (s : Reconciler)
    → s.reconciled_once ≡ true
    → (run done reply enabled s).1.reconciled_once ≡ true
unfolding run
run-keeps done reply enabled s h =
    if_both IsOpen (is_running done s.task) (report_event-gate enabled skipped s ∙ h) (
      if_both IsOpen (not s.configured) (report_event-gate enabled failed s ∙ h)
        (start-keeps enabled reply s h))
  where
    IsOpen : Option ReconcilerError × Reconciler → Type 0
    IsOpen r = r.1.reconciled_once ≡ true

on_done-keeps :
    (enabled : Bool) (answer : Option Bool) (s : Reconciler)
    → s.reconciled_once ≡ true
    → (on_done enabled answer s).reconciled_once ≡ true
unfolding on_done
on_done-keeps enabled none s h = report_event-gate enabled failed (record s { task = none }) ∙ h
on_done-keeps enabled (some succeeded) s h =
    settle-keeps enabled succeeded (record s { task = none }) h

Step-keeps : {s t : Reconciler} → Step s t → s.reconciled_once ≡ true → t.reconciled_once ≡ true
unfolding update_from_mass_status
Step-keeps {s} (reconciles done reply enabled e) h = rw e (run-keeps done reply enabled s h)
Step-keeps {s} (ends before after c answer q e) h =
    rw e
      (on_done-keeps c.report_scheduled_event answer (record s { callbacks = before ++ after }) h)
Step-keeps (hears none e) h = rw e h
Step-keeps (hears (some reports) e) h = rw e refl

Reach-keeps : {s t : Reconciler} → Reach s t → s.reconciled_once ≡ true → t.reconciled_once ≡ true
Reach-keeps begun h = h
Reach-keeps (further r step) h = Step-keeps step (Reach-keeps r h)

run-at_once :
    (done : ℕ → Bool) (reply : Reply) (enabled : Bool) (s : Reconciler)
    → is_running done s.task ≡ false
    → s.configured ≡ true
    → run done reply enabled s ≡ (none, start enabled reply s)
unfolding run
run-at_once done reply enabled s idle configured =
    else_else (is_running done s.task) (not s.configured) _ _ _ idle (ap not configured)

Succeeds-opens : {s t : Reconciler} → Succeeds s t → t.reconciled_once ≡ true
unfolding start on_done update_from_mass_status
Succeeds-opens {s} (at_once done enabled idle configured e) =
    rw (e, run-at_once done (answers true) enabled s idle configured) (settle-opens enabled s)
Succeeds-opens {s} (later enabled e) = rw e (settle-opens enabled (record s { task = none }))
Succeeds-opens (told reports e) = rw e refl

module _ (e : Engine) (market : Market) (unit : ℕ) (config : Config) where
  -- After a reconciliation that succeeds, at once or when its task ends, or a report of the venue,
  -- the convergence does not wait for the reconciler in any state that is reached from there.
  pub success_opens_gate :
      (w : World) (s t u : Reconciler)
      → Succeeds s t
      → Reach t u
      → is_awaiting e market unit config (seen_by w u) ≡ false
  success_opens_gate w s t u won reached =
      shut (is_configured u) u.reconciled_once (Reach-keeps reached (Succeeds-opens won))
    where
      shut : (b o : Bool) → o ≡ true → (b && not o) ≡ false
      shut b o h = ground (arith, h)
