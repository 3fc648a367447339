-- ===== src/Reconciler/Tests.antt =====
-- A day of the reconciler, and instances of its theorems.
use qapp.Base.{
  ℕ, ◌≡◌, ◌≤◌, ◌<◌, ◌%◌, arith, ◌+◌, refl, Bool, true, false, none, some, [], ◌∷◌, ok, length,
}
use qapp.Base.Int.{pos}
use qapp.Strategy.Converge.{is_awaiting}
use qapp.Strategy.Samples.{engine, world, config, market}
use qapp.Reconciler.{
  awaitable, raises, skipped, success, not_configured, Reconciler, initial, configure,
  is_configured, report_event, log_result, settle, start, is_running, run, on_done, read_fields,
  read_reports, update_from_mass_status, venue_sellable_quantity, daily_time, next_daily_time,
}
use qapp.Reconciler.Gate.{
  seen_by, Reach, begun, further, reconciles, ends, later, success_opens_gate,
}
use qapp.Reconciler.Reports.{awaited, every_run_is_reported}
use qapp.Reconciler.Daily.{next_run_is_ahead, mass_status_replaces_sellable}

program : Unit {0}
unfolding configure is_configured report_event log_result settle start is_running run on_done
    read_fields read_reports update_from_mass_status venue_sellable_quantity daily_time
    next_daily_time
program = tt

abbrev ready : Reconciler
ready = record initial { configured = true; reconcile_time = some (9, 10); has_reporter = true }

configure_run : configure (some (9, 10)) true initial ≡ ok ready
unfolding program
configure_run = refl

abbrev nothing_done : ℕ → Bool
nothing_done _ = false

-- A scheduled run starts a task, a second one is skipped, and the task succeeds.
abbrev running : Reconciler
running = (run nothing_done (awaitable 4) true ready).1

abbrev overlapped : Reconciler
overlapped = (run nothing_done (awaitable 5) true running).1

abbrev finished : Reconciler
finished = on_done true (some true) (record overlapped { callbacks = [] })

finished_run : (finished.reports ≡ success ∷ skipped ∷ []) × (finished.reconciled_once ≡ true)
unfolding program
finished_run = (refl, refl)

unconfigured_run : (run nothing_done raises true initial).0 ≡ some not_configured
unfolding program
unconfigured_run = refl

abbrev reach_finished : Reach ready finished
unfolding program
reach_finished =
    further
      (further (further begun (reconciles nothing_done (awaitable 4) true refl))
        (reconciles nothing_done (awaitable 5) true refl))
      (ends [] [] (record { task = 4; report_scheduled_event = true }) (some true) refl refl)

every_run_is_reported_example : length finished.reports + awaited finished.callbacks ≡ 0 + 0 + 2
unfolding program
every_run_is_reported_example = every_run_is_reported ready finished reach_finished refl

success_opens_gate_example : is_awaiting engine market 100 config (seen_by world finished) ≡ false
unfolding program
success_opens_gate_example =
    success_opens_gate engine market 100 config world (record overlapped { callbacks = [] })
      finished finished (later true refl) begun

-- At 9:20 of the second day the next run is on the third.
next_run_is_ahead_example :
    (120000000000000 < 205800000000000)
    × (205800000000000 ≤ 206400000000000)
    × (205800000000000 % 86400000000000 ≡ 33000000000000)
unfolding program
next_run_is_ahead_example =
    next_run_is_ahead 120000000000000 9 10 205800000000000 ready refl (omega arith) refl

-- An unreadable figure is passed over, and the last readable one of an instrument counts.
mass_status_run :
    venue_sellable_quantity
      (update_from_mass_status
        (some (
          record { instrument_id = some 7; can_use_volume = some (some (pos 300)) }
          ∷ record { instrument_id = some 8; can_use_volume = some none }
          ∷ record { instrument_id = some 7; can_use_volume = some (some (pos 100)) }
          ∷ []))
        ready)
      7
    ≡ some (pos 100)
unfolding program
mass_status_run = refl

empty_report_run : venue_sellable_quantity (update_from_mass_status (some []) ready) 7 ≡ none
empty_report_run = mass_status_replaces_sellable [] ready 7
