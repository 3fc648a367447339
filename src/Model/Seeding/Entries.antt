-- ===== src/Model/Seeding/Entries.antt =====
-- The entries that `_seed_active_positions_from_portfolio` leaves.
use qapp.Base.{
  ℕ, ◌≡◌, refl, ap, ◌∙◌, true, false, not, ◌||◌, Option, none, some, List, [], ◌∷◌, ◌==◌, if_cases,
  Dict, lookup, lookup-insert, arith,
}
use qapp.Strategy.Types.{Position}
use qapp.Strategy.Submit.{is_some}
use qapp.Strategy.Converge.Desired.{holds}
use qapp.Model.Plans.{ModelState, Framework}
use qapp.Model.Local.{is_in, stock_code_for_instrument}
use qapp.Model.Candidates.{Reference}
use qapp.Model.Exclusion.{ActivePosition, ExitConfig, factor_of}
use qapp.Model.Seeding.{
  entry_price_of, floor_by, seed_entry, seed_one, seed_active_positions_from_portfolio,
}

module _ {W : Type 0} (f : Framework W) (config : ExitConfig W) (reference : Reference W)
    (trading_date : ℕ) where
  seed_entry_keeps :
      (j id : ℕ) (price : Option W) (m : ModelState W) (active : Dict (ActivePosition W))
      → (j == id) ≡ false
      → lookup j (seed_entry f config reference trading_date id price (m, active)).1
        ≡ lookup j active
  seed_entry_keeps j id none m active h = refl
  seed_entry_keeps j id (some entry) m active h =
      let code = (stock_code_for_instrument f id m).0 in
      lookup-insert j id
        (record {
          entry_date = some trading_date;
          entry_price = some entry;
          high_price = some (
              floor_by f config entry
                (factor_of f config (reference.daily_stock_data code trading_date)));
          trailing_stop_price = none;
        })
        active
      ∙ ground (arith, h)

  seed_one_keeps :
      (j : ℕ) (p : Position) (average : W) (seeded : ModelState W × Dict (ActivePosition W))
      → is_in j seeded.1 ≡ true
      → lookup j (seed_one f config reference trading_date p average seeded).1 ≡ lookup j seeded.1
  unfolding seed_one
  seed_one_keeps j p average (m, active) h =
      let same : ModelState W × Dict (ActivePosition W) → Type 0 =
        λ r. lookup j r.1 ≡ lookup j active in
      if_cases same (not p.is_long) (λ _. refl)
        (λ _.
          if_cases same (is_in p.instrument_id active || not (holds m.base.world p.instrument_id))
            (λ _. refl)
            (λ out.
              seed_entry_keeps j p.instrument_id
                (entry_price_of f config average (lookup p.instrument_id m.last_close)) m active
                (ground (arith, h, out))))

  -- The seeding keeps every entry that there is: what a position was bought at and its high-water
  -- mark survive it.
  pub seeding_keeps_entries :
      (average_of : Position → W) (ps : List Position) (j : ℕ)
      (seeded : ModelState W × Dict (ActivePosition W))
      → is_in j seeded.1 ≡ true
      → lookup j
          (seed_active_positions_from_portfolio f config reference trading_date average_of ps
            seeded).1
        ≡ lookup j seeded.1
  unfolding seed_active_positions_from_portfolio
  seeding_keeps_entries average_of [] j seeded h = refl
  seeding_keeps_entries average_of (p ∷ ps) j seeded h =
      let one = seed_one_keeps j p (average_of p) seeded h in
      seeding_keeps_entries average_of ps j
        (seed_one f config reference trading_date p (average_of p) seeded) (ap is_some one ∙ h)
      ∙ one
