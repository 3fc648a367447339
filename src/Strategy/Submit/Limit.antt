-- ===== src/Strategy/Submit/Limit.antt =====
-- No oversell: what one `_submit_target_quantity` leaves open to sell stays within what may be sold.
use qapp.Base.{
  same_branches, ℕ, zero, suc, ◌+◌, ◌≤◌, max, true, not, ◌&&◌, Option, some, [], ◌∷◌, arith, ◌==◌,
  Result, ok, ◌≡◌, refl, ap, Bool-cases, inl, inr, Option-cases,
}
use qapp.Base.Int.{ℤ, pos, pos_part, ◌-ℤ◌}
use qapp.Base.Decimal.{finite}
use qapp.Splitter.{is_valid}
use qapp.Strategy.Types.{Intent, Strategy, World, Order, sell, Failure}
use qapp.Strategy.Orders.{
  no_fills, forget_submitted_order, track_submitted_order, is_active_order, matches,
  today_fill_snapshot, scan_orders, scan_fills, open_sell_quantity, open_leaves,
}
use qapp.Strategy.Orders.Sums.{Fresh, active_orders-cons}
use qapp.Strategy.Submit.{
  Engine, sellable_base, nothing_sellable, clamp_stable, clamp_sell_quantity, submit_order,
  may_be_odd, send_quantity, rules_of, new_order,
}
use qapp.Strategy.Submit.Clamp.{clamp_bounds, available, third, is_stable}
use qapp.Strategy.Monad.{lift, bind_keeps}

-- What is relied on of the framework: `submit_order` refuses an identifier that is in use, and else
-- adds the order to the cache; and no other thread changes the cache in the meantime.
pub record IsQuiet (e : Engine) : Type 0 where
  pub alone : (w : World) → e.others w ≡ w
  pub fresh :
      (o : Order) (w : World) {w' : World}
      → e.submit o w ≡ some w'
      → Fresh o.client_order_id w.orders
        × Fresh o.client_order_id w.orders_open
        × Fresh o.client_order_id w.orders_inflight
  pub adds :
      (o : Order) (w : World) {w' : World}
      → e.submit o w ≡ some w'
      → w' ≡ record w { orders = o ∷ w.orders }

-- What is sent out of what may be sold leaves the sum within the bound.
room_left :
    (b limit : ℤ) (n q open_before : ℕ)
    → b ≡ limit
    → q ≤ pos_part (b -ℤ pos open_before)
    → open_before ≤ max n (pos_part limit)
    → open_before + q ≤ max n (pos_part limit)
unfolding ◌-ℤ◌
room_left b limit n q open_before same le h = rw same at le_then_bound
  where
    le_then_bound : open_before + q ≤ max n (pos_part b)
    le_then_bound = let h' = rw (← same) at h in ground arith

module _ (e : Engine) (today : ℕ) (id : ℕ) where
  -- What may be sold of the instrument before open orders are taken off.
  abbrev pub base : World → ℤ
  base w =
      sellable_base (w.venue_sellable id) (w.net_position id)
        (today_fill_snapshot e.date_of w id today)

  -- The open sell orders stay below what was open, or what may be sold.
  pub record Within (open_before : ℕ) (limit : ℤ) (w : World) : Type 0 where
    pub same_base : base w ≡ limit
    pub bounded : open_sell_quantity w id ≤ max open_before (pos_part limit)

module _ (e : Engine) (quiet : IsQuiet e) (today : ℕ) (id : ℕ) where
  -- An order without fills adds none.
  snapshot-cons :
      (w : World) (o : Order)
      → o.fills ≡ []
      → today_fill_snapshot e.date_of (record w { orders = o ∷ w.orders }) id today
        ≡ today_fill_snapshot e.date_of w id today
  unfolding today_fill_snapshot scan_orders scan_fills
  snapshot-cons w o h =
      ap (scan_orders e.date_of id today w.orders)
        (rw h (same_branches (o.instrument_id == id && not o.reconciliation) no_fills))

  -- A sent order keeps the bound if its quantity was clamped.
  submit_order-Within :
      (n : ℕ) (limit : ℤ) (reason : ℕ) (i : Intent) (quantity : ℕ) (s : Strategy)
      → i.instrument_id ≡ id
      → i.side ≡ sell
      → quantity ≤ pos_part (base e today id s.world -ℤ pos (open_sell_quantity s.world id))
      → Within e today id n limit s.world
      → Within e today id n limit (submit_order e today reason i quantity s).1.world
  unfolding submit_order forget_submitted_order track_submitted_order
  submit_order-Within n limit reason i quantity s same sells le w =
      elim (Option-cases (e.submit (new_order e s.world i quantity) s.world)) [
        | inl raised ↦ rw (raised, submit_order) w
        | inr (w', sent) ↦ rw (sent, submit_order) (sent_within w' sent)
      ]
    where
      o : Order
      o = new_order e s.world i quantity

      sent_within : (w' : World) → e.submit o s.world ≡ some w' → Within e today id n limit w'
      sent_within w' sent =
          let (f1, f2, f3) = quiet.fresh o s.world sent in
          let found : (matches (some id) (some sell) o && is_active_order o) ≡ true =
            ground arith in
          let grown =
            active_orders-cons open_leaves s.world o (some id) (some sell) f1 f2 f3 found in
          rw (quiet.adds o s.world sent) (record {
            same_base = rw (snapshot-cons s.world o refl) w.same_base;
            bounded =
                unfold open_sell_quantity in
                rw grown (
                  room_left (base e today id s.world) limit n quantity
                    (open_sell_quantity s.world id) w.same_base le w.bounded);
          })

  pub send_quantity-Within :
      (unit n : ℕ) (limit : ℤ) (reason : ℕ) (i : Intent) (quantity : ℕ) (s : Strategy)
      → i.instrument_id ≡ id
      → i.side ≡ sell
      → quantity ≤ pos_part (base e today id s.world -ℤ pos (open_sell_quantity s.world id))
      → Within e today id n limit s.world
      → Within e today id n limit (send_quantity e unit today reason i quantity s).1.world
  unfolding send_quantity
  send_quantity-Within unit n limit reason i quantity s same sells le w =
      bind_keeps P (lift (rules_of i.instrument)) _ s w (λ rules _.
        bind_keeps P (lift (may_be_odd i quantity)) _ s w (λ odd _.
          elim (Bool-cases (is_valid unit rules (finite (pos quantity)) odd)) [
            | inl valid ↦ rw valid (submit_order-Within n limit reason i quantity s same sells le w)
            | inr not_valid ↦ rw not_valid w
          ]))
    where
      P : Strategy → Type 0
      P t = Within e today id n limit t.world

  -- What one clamp leaves: the cache as it was, an intent for the same instrument and side, and a
  -- quantity within what may be sold.
  pub record Clamped (i : Intent) (s : Strategy) (r : Result Failure (Intent × Option ℕ) × Strategy)
      : Type 0 where
    pub world_same : r.1.world ≡ s.world
    pub clamped :
        {i' : Intent} {c : ℕ}
        → r.0 ≡ ok (i', some c)
        → (i'.instrument_id ≡ i.instrument_id)
          × (i'.side ≡ i.side)
          × (c ≤ pos_part (base e today id s.world -ℤ pos (open_sell_quantity s.world id)))

  clamp_stable-Clamped :
      (i : Intent) (requested : ℕ) (venue : Option ℤ) (a : ℤ) (s : Strategy) {i' : Intent}
      {c : Option ℕ}
      → (clamp_stable today i requested venue a s).0 ≡ ok (i', c)
      → (i'.instrument_id ≡ i.instrument_id) × (i'.side ≡ i.side)
  unfolding clamp_stable
  clamp_stable-Clamped i requested venue a s h = ground arith

  clamp_stable-world :
      (i : Intent) (requested : ℕ) (venue : Option ℤ) (a : ℤ) (s : Strategy)
      → (clamp_stable today i requested venue a s).1.world ≡ s.world
  unfolding clamp_stable nothing_sellable
  clamp_stable-world i requested venue a s = ground arith

  pub clamp-Clamped :
      (i : Intent) (requested : ℕ) (s : Strategy)
      → i.instrument_id ≡ id
      → Clamped i s (clamp_sell_quantity e today i requested s)
  unfolding clamp_sell_quantity
  clamp-Clamped i zero s same = record {
    world_same = refl;
    clamped = λ {i'} {c} h. (ground arith, ground arith, ground arith);
  }
  clamp-Clamped i (suc n) s same = elim (Bool-cases (is_stable e today i s)) [
    | inl stable ↦ record {
      world_same = rw stable (simp (clamp_stable-world, quiet.alone));
      clamped = λ {i'} {c} h.
          let kept =
            clamp_stable-Clamped i (suc n) ((third e today i s).venue_sellable i.instrument_id)
              (available e today i s) (record s { world = third e today i s }) (rw stable at h) in
          let bound = (clamp_bounds e today i s (suc n) h).1 in
          (kept.0, kept.1, simp quiet.alone at (rw same at bound));
    }
    | inr unstable ↦ record {
      world_same = rw unstable (simp quiet.alone);
      clamped = λ {i'} {c} h. let h' = rw unstable at h in (cc, cc, absurd (cc));
    }
  ]
