-- ===== src/Strategy/Unfilled/Cancels.antt =====
-- What the sweep of unfilled orders does.
use qapp.Base.{
  ℕ, ◌+◌, ◌≤◌, ◌≡◌, refl, ◌⊎◌, inl, inr, Bool, true, false, Option, none, some, arith, leb→le,
  member, Result, ok, err, Bool-cases, Option-cases,
}
use qapp.Strategy.Types.{Order, World, Config, Strategy, Failure}
use qapp.Strategy.Orders.{unfilled_timeout_anchor_ts}
use qapp.Strategy.Submit.{Engine, is_some}
use qapp.Strategy.Unfilled.{
  Market, price_limit_reason, note_cancelled, partial_buy_has_untradeable_remainder, is_due,
  may_cancel, cancel_one, cancel_unless, reconcile_order,
}

module _ (e : Engine) (market : Market) (unit : ℕ) (config : Config) where
  -- Why an order may be cancelled: it was neither rejected nor is a cancel on its way, its latest
  -- activity is older than its timeout, and no price limit or cap holds it.
  pub record Due (s : Strategy) (now : ℕ) (o : Order) : Type 0 where
    pub not_rejected : member o.client_order_id s.rejected_order_ids ≡ false
    pub not_pending : o.is_pending_cancel ≡ false
    pub anchor : ℕ
    pub anchored : unfilled_timeout_anchor_ts o.activity ≡ some anchor
    pub overdue : anchor + market.effective_timeout_ns s.world o config.unfilled_timeout_ns ≤ now
    pub no_limit : is_some (price_limit_reason s.world o.instrument_id o.side) ≡ false
    pub below_cap : market.at_buy_price_cap s.world o ≡ false
    pub tradeable : partial_buy_has_untradeable_remainder unit s.world o ≡ ok false

  due-anchor :
      (w : World) (now : ℕ) (o : Order)
      → is_due e market unit config w now o ≡ true
      → (a : ℕ) × (unfilled_timeout_anchor_ts o.activity ≡ some a)
        × (a + market.effective_timeout_ns w o config.unfilled_timeout_ns ≤ now)
  unfolding is_due
  due-anchor w now o h = elim (Option-cases (unfilled_timeout_anchor_ts o.activity)) [
    | inl no_anchor ↦ cc (rw (no_anchor, is_due) at h)
    | inr (a, at) ↦ (a, at, leb→le _ now (rw (at, is_due) at h))
  ]

  may_cancel-Due :
      (s : Strategy) (now : ℕ) (o : Order)
      → may_cancel e market unit config now o s ≡ true
      → partial_buy_has_untradeable_remainder unit s.world o ≡ ok false
      → Due s now o
  unfolding may_cancel
  may_cancel-Due s now o h t =
      let (a, at, old) = due-anchor s.world now o (ground (arith, h)) in
      record {
        not_rejected = ground (arith, h);
        not_pending = ground (arith, h);
        anchor = a;
        anchored = at;
        overdue = old;
        no_limit = ground (arith, h);
        below_cap = ground (arith, h);
        tradeable = t;
      }

  cancel_one-cases :
      (today : ℕ) (o : Order) (s : Strategy)
      → (cancel_one e market unit config today o s ≡ s)
        ⊎ ((w : World) × (e.cancel o s.world ≡ some w)
            × (cancel_one e market unit config today o s
                ≡ note_cancelled today o (record s { world = w })))
  unfolding cancel_one
  cancel_one-cases today o s = by_reply (e.cancel o s.world) refl
    where
      by_reply :
          (r : Option World)
          → e.cancel o s.world ≡ r
          → (elim r [ none ↦ s | some w ↦ note_cancelled today o (record s { world = w }) ] ≡ s)
            ⊎ ((w : World) × (e.cancel o s.world ≡ some w)
                × (elim r [ none ↦ s | some w ↦ note_cancelled today o (record s { world = w }) ]
                    ≡ note_cancelled today o (record s { world = w })))
      by_reply none reply = inl refl
      by_reply (some w) reply = inr (w, reply, refl)

  -- A round of the sweep changes the object only for an order that is due, whose remainder can be
  -- traded and whose cancel the framework accepts, and then by that cancel and its notes alone.
  pub reconcile_order-changes :
      (today now : ℕ) (o : Order) (s : Strategy)
      → ((reconcile_order e market unit config today now o s).1 ≡ s)
        ⊎ (Due s now o
            × ((w : World) × (e.cancel o s.world ≡ some w)
                × ((reconcile_order e market unit config today now o s).1
                    ≡ note_cancelled today o (record s { world = w }))))
  unfolding reconcile_order cancel_unless
  reconcile_order-changes today now o s =
      elim (Bool-cases (may_cancel e market unit config now o s)) [
        | inr kept ↦ rw kept (inl refl)
        | inl due ↦ rw due (
            unless (partial_buy_has_untradeable_remainder unit s.world o)
              (may_cancel-Due s now o due))
      ]
    where
      unless :
          (r : Result Failure Bool)
          → (r ≡ ok false → Due s now o)
          → ((cancel_unless e market unit config today o r s).1 ≡ s)
            ⊎ (Due s now o
                × ((w : World) × (e.cancel o s.world ≡ some w)
                    × ((cancel_unless e market unit config today o r s).1
                        ≡ note_cancelled today o (record s { world = w }))))
      unless (err x) due = inl refl
      unless (ok true) due = inl refl
      unless (ok false) due = elim (cancel_one-cases today o s) [
        | inl kept ↦ inl kept
        | inr changed ↦ inr (due refl, changed)
      ]
