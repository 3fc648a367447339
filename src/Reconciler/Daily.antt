-- ===== src/Reconciler/Daily.antt =====
-- The time of the next run and the sellable figures, strategies/execution_reconciliation.py.
use qapp.Base.{
  ℕ, ◌+◌, ◌-◌, ◌*◌, ◌%◌, ◌≤◌, ◌<◌, ◌≡◌, refl, ap, ◌∙◌, Bool, true, false, Option, none, some, List,
  [], ◌∷◌, arith, leb, leb→le, ◌==◌, if◌then◌else◌, Dict, lookup, lookup-insert, ok, err,
}
use qapp.Base.Int.{ℤ}
use qapp.Reconciler.{
  Reconciler, Report, not_configured, minute_ns, day_ns, daily_time, next_daily_time, read_fields,
  read_reports, update_from_mass_status, venue_sellable_quantity,
}

-- The start of the day, the wanted time of day `w` after it, and the day after.
daily-bounds :
    (now w : ℕ)
    → w < day_ns
    → (b : Bool) → leb (now - now % day_ns + w) now ≡ b
    → let target = (if b then now - now % day_ns + w + day_ns else now - now % day_ns + w) in
      (now < target) × (target ≤ now + day_ns) × (target % day_ns ≡ w)
daily-bounds now w h true e = (
  omega (arith, leb→le (now - now % day_ns + w) now e),
  omega (arith, leb→le (now - now % day_ns + w) now e),
  omega arith,
)
daily-bounds now w h false e = (ground (arith, e), ground (arith, e), omega arith)

-- The next run is after the present, at most a day from it, and at the configured time of day, which
-- is within the day.
pub next_run_is_ahead :
    (now hh mm at : ℕ) (s : Reconciler)
    → s.reconcile_time ≡ some (hh, mm)
    → hh * 60 + mm < 1440
    → next_daily_time now s ≡ ok at
    → (now < at) × (at ≤ now + day_ns) × (at % day_ns ≡ (hh * 60 + mm) * minute_ns)
unfolding next_daily_time daily_time
next_run_is_ahead now hh mm at s set h e =
    rw (at_time s.reconcile_time set e)
      (daily-bounds now ((hh * 60 + mm) * minute_ns) (omega (arith, h)) _ refl)
  where
    at_time :
        (o : Option (ℕ × ℕ))
        → o ≡ some (hh, mm)
        → (elim o [ none ↦ err not_configured | some time ↦ ok (daily_time now time) ]) ≡ ok at
        → at ≡ daily_time now (hh, mm)
    at_time none set e = cc set
    at_time (some time) set e = cc (set, e)

-- The last reading of an instrument among the reports, else what was found before.
abbrev reading : Option ℕ → Option (Option ℤ) → ℕ → Option ℤ → Option ℤ
reading (some j) (some (some can_use)) id found = if id == j then some can_use else found
reading _ _ id found = found

abbrev pub last_reading : List Report → ℕ → Option ℤ → Option ℤ
last_reading [] id found = found
last_reading (report ∷ reports) id found =
    last_reading reports id (reading report.instrument_id report.can_use_volume id found)

lookup-read_fields :
    (o : Option ℕ) (v : Option (Option ℤ)) (id : ℕ) (d : Dict ℤ)
    → lookup id (read_fields o v d) ≡ reading o v id (lookup id d)
unfolding read_fields
lookup-read_fields none v id d = refl
lookup-read_fields (some j) none id d = refl
lookup-read_fields (some j) (some none) id d = refl
lookup-read_fields (some j) (some (some q)) id d = lookup-insert id j q d

lookup-read_reports :
    (reports : List Report) (id : ℕ) (d : Dict ℤ)
    → lookup id (read_reports reports d) ≡ last_reading reports id (lookup id d)
unfolding read_reports
lookup-read_reports [] id d = refl
lookup-read_reports (report ∷ reports) id d =
    lookup-read_reports reports id (read_fields report.instrument_id report.can_use_volume d)
    ∙ ap (last_reading reports id)
        (lookup-read_fields report.instrument_id report.can_use_volume id d)

-- A report of the venue replaces the sellable figures: each instrument has the last figure that is
-- readable in it, and one that the report leaves out has none.
pub mass_status_replaces_sellable :
    (reports : List Report) (s : Reconciler) (id : ℕ)
    → venue_sellable_quantity (update_from_mass_status (some reports) s) id
      ≡ last_reading reports id none
unfolding venue_sellable_quantity update_from_mass_status
mass_status_replaces_sellable reports s id = lookup-read_reports reports id []
