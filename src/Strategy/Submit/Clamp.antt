-- ===== src/Strategy/Submit/Clamp.antt =====
-- `_clamp_sell_quantity`: the clamp, and when it blocks an instrument for the day.
use qapp.Base.{
  ℕ, zero, suc, ◌≤◌, Bool, ◌&&◌, Option, none, some, arith, ltb, if◌then◌else◌, insert, ok, ◌≡◌,
  refl, Bool-cases, inl, inr,
}
use qapp.Base.Int.{ℤ, pos, negsuc, pos_part, ◌-ℤ◌}
use qapp.Strategy.Types.{Intent, Strategy, World}
use qapp.Strategy.Orders.{snapshot_eq, today_fill_snapshot, open_sell_quantity}
use qapp.Strategy.Submit.{
  Engine, sellable_base, is_some, nothing_sellable, clamp_stable, clamp_sell_quantity,
}

clamp_stable-latch :
    (today : ℕ) (i : Intent) (n : ℕ) (venue : Option ℤ) (a : ℤ) (s : Strategy)
    → (clamp_stable today i (suc n) venue a s).1.sellable_exhausted ≡ (
        if is_some venue && ltb (pos_part a) (suc n)
        then insert i.instrument_id today s.sellable_exhausted
        else s.sellable_exhausted)
unfolding clamp_stable nothing_sellable
clamp_stable-latch today i n none (pos zero) s = refl
clamp_stable-latch today i n none (pos (suc a)) s = ground arith
clamp_stable-latch today i n none (negsuc a) s = refl
clamp_stable-latch today i n (some v) (pos zero) s = ground arith
clamp_stable-latch today i n (some v) (pos (suc a)) s = ground arith
clamp_stable-latch today i n (some v) (negsuc a) s = ground arith

module _ (e : Engine) (today : ℕ) (i : Intent) (s : Strategy) where
  -- What the reads of one clamp see: the cache after one, two and three rounds of other threads.
  abbrev pub second : World
  second = e.others (e.others s.world)

  abbrev pub third : World
  third = e.others second

  abbrev pub is_stable : Bool
  is_stable =
      snapshot_eq (today_fill_snapshot e.date_of s.world i.instrument_id today)
        (today_fill_snapshot e.date_of third i.instrument_id today)

  -- What may be sold: the broker's figure or the estimate, less the open sell orders.
  abbrev pub available : ℤ
  available =
      sellable_base (third.venue_sellable i.instrument_id)
        ((e.others s.world).net_position i.instrument_id)
        (today_fill_snapshot e.date_of third i.instrument_id today)
      -ℤ pos (open_sell_quantity second i.instrument_id)

  -- A quantity that the clamp returns is no more than was requested and no more than may be sold,
  -- whatever other threads do meanwhile.
  pub clamp_bounds :
      (requested : ℕ) {i' : Intent} {c : ℕ}
      → (clamp_sell_quantity e today i requested s).0 ≡ ok (i', some c)
      → (c ≤ requested) × (c ≤ pos_part available)
  unfolding clamp_sell_quantity clamp_stable
  clamp_bounds zero h = ground arith
  clamp_bounds (suc n) h = elim (Bool-cases is_stable) [
    | inl stable ↦ (let h' = rw stable at h in ground arith)
    | inr unstable ↦ cc (rw unstable at h)
  ]

  -- A clamp of a positive request blocks the instrument for the day exactly when the snapshot is stable, the figure is the
  -- broker's and less may be sold than was requested.
  pub clamp_latches :
      (n : ℕ)
      → (clamp_sell_quantity e today i (suc n) s).1.sellable_exhausted ≡ (
          if is_stable
            && is_some (third.venue_sellable i.instrument_id)
            && ltb (pos_part available) (suc n)
          then insert i.instrument_id today s.sellable_exhausted
          else s.sellable_exhausted)
  unfolding clamp_sell_quantity
  clamp_latches n = elim (Bool-cases is_stable) [
    | inl stable ↦ rw stable (
        clamp_stable-latch today i n (third.venue_sellable i.instrument_id) available
          (record s { world = third }))
    | inr unstable ↦ rw unstable
  ]
