-- ===== src/Strategy/Submit.antt =====
-- Submitting orders, strategies/target_quantities.py: `_clamp_sell_quantity`,
-- `_submit_order_quantity`, `_order_slices` and `_submit_target_quantity`.
-- Logging and the entries of an intent's context that no decision reads are left out.
pub mod Clamp
pub mod Limit
pub mod Oversell
pub mod Spend
pub mod Tests
use qapp.Base.{
  ℕ, zero, suc, ◌+◌, min, Bool, true, false, not, ◌&&◌, ◌||◌, Option, none, some, List, [], ◌∷◌,
  ◌++◌, ltb, ◌==◌, if◌then◌else◌, insert, Result, ok, err,
}
use qapp.Base.Int.{ℤ, pos, negsuc, pos_part, ◌-ℤ◌}
use qapp.Base.Decimal.{finite}
use qapp.Splitter.{is_valid, split}
use qapp.Splitter.Fields.{RawRules, LimitOrderQuantityRules, from_instrument}
use qapp.Splitter.Fields
use qapp.Strategy.Types.{
  Side, buy, sell, working, Order, World, Intent, Config, Strategy, OrderRow, RowStatus, submitted,
  deferred, skipped, refused, RowReason, no_legal_order_quantity, invalid_order_quantity,
  sellable_snapshot_unstable, sellable_exhausted, sellable_pending_broker_data, missing_instrument,
  target, Failure, quantity_rules, missing_detail, submit_failed,
}
use qapp.Strategy.Monad.{Action, pure, gets, lift, modify, ◌>>=◌, ◌>>◌}
use qapp.Strategy.Orders.{
  FillSnapshot, snapshot_eq, today_fill_snapshot, open_sell_quantity, track_submitted_order,
  forget_submitted_order,
}

-- What the strategy does not implement: the exchange-local date and time of a timestamp, what other threads
-- do to the cache between two reads of it and to the object while a call waits for its lock, the identifier that the order factory gives, and the
-- framework's `submit_order` and `cancel_order`, which raise or lead to a new state of the cache.
pub record Engine : Type 0 where
  pub date_of : ℕ → Option ℕ
  pub others : World → World
  pub next_id : World → ℕ
  pub submit : Order → World → Option World
  pub cancel : Order → World → Option World
  pub time_of : ℕ → Option ℕ
  pub wait_for_lock : Strategy → Strategy

-- `_record_order`
abbrev pub add_row : ℕ → Intent → Side → ℕ → RowStatus → RowReason → Strategy → Strategy
add_row today i side quantity status reason s = record s {
  order_events =
      record {
        trading_date = today;
        instrument_id = i.instrument_id;
        side = side;
        quantity = quantity;
        target_qty = i.target_qty;
        status = status;
        reason = reason;
      }
      ∷ s.order_events;
}

-- `self._sellable_exhausted[instrument_id] = trading_date`
abbrev pub latch : ℕ → ℕ → Strategy → Strategy
latch today id s = record s { sellable_exhausted = insert id today s.sellable_exhausted }

-- The broker's figure, or else the position less what was bought today.
abbrev pub sellable_base : Option ℤ → ℤ → FillSnapshot → ℤ
sellable_base none current fills = current -ℤ pos fills.buy_qty
sellable_base (some venue) current fills = venue

abbrev pub is_some : {A : Type 0} → Option A → Bool
is_some none = false
is_some (some a) = true

-- The case `sellable_qty <= 0`.
nothing_sellable : ℕ → Intent → Bool → Strategy → Strategy
nothing_sellable today i authoritative s =
    if authoritative
    then add_row today i sell 0 deferred sellable_exhausted (latch today i.instrument_id s)
    else add_row today i sell 0 deferred sellable_pending_broker_data s

-- From `venue_can_use` on: the intent with its `sellable_qty`, and the clamped quantity.
clamp_stable :
    ℕ → Intent → ℕ → Option ℤ → ℤ → Strategy → Result Failure (Intent × Option ℕ) × Strategy
clamp_stable today i requested venue available s =
    let sellable = pos_part available in
    let i' = record i { sellable_qty = some sellable } in
    if sellable == 0 then (ok (i', some 0), nothing_sellable today i (is_some venue) s) else (
      ok (i', some (min requested sellable)),
      if ltb (min requested sellable) requested && is_some venue
          then latch today i.instrument_id s
          else s,
    )

-- `intent.side == SELL and quantity == intent.context.current_qty`
is_liquidation : Intent → Bool
is_liquidation i = elim i.side [
  | buy ↦ false
  | sell ↦ elim i.current_qty [ pos q ↦ i.quantity == q | negsuc _ ↦ false ]
]

-- `intent.side == SELL and quantity == details["sellable_qty"]`
pub may_be_odd : Intent → ℕ → Result Failure Bool
may_be_odd i quantity = elim i.side [
  | buy ↦ ok false
  | sell ↦ elim i.sellable_qty [ none ↦ err missing_detail | some q ↦ ok (quantity == q) ]
]

abbrev pub rules_of : RawRules → Result Failure LimitOrderQuantityRules
rules_of raw = elim (from_instrument raw) [ ok r ↦ ok r | err x ↦ err (quantity_rules x) ]

-- `_order_slices`
pub order_slices : ℕ → Config → Intent → Result Failure (List ℕ)
order_slices unit config i = elim (rules_of i.instrument) [
  | err x ↦ err x
  | ok r ↦
      elim (split unit config.order_slice_notional i.instrument (finite (pos i.quantity))
        (finite (pos i.price)) (is_liquidation i)) [
          | ok out ↦ ok out
          | err x ↦ err (quantity_rules x)
        ]
]

module _ (e : Engine) where
  -- `_clamp_sell_quantity`; the intent comes back with what was put into its context.
  pub clamp_sell_quantity : ℕ → Intent → ℕ → Action (Intent × Option ℕ)
  clamp_sell_quantity today i zero s = (ok (i, some 0), s)
  clamp_sell_quantity today i (suc n) s =
      let w1 = e.others s.world in
      let w2 = e.others w1 in
      let w3 = e.others w2 in
      let before = today_fill_snapshot e.date_of s.world i.instrument_id today in
      let current = w1.net_position i.instrument_id in
      let open_sells = open_sell_quantity w2 i.instrument_id in
      let after = today_fill_snapshot e.date_of w3 i.instrument_id today in
      let s' = record s { world = w3 } in
      let venue = w3.venue_sellable i.instrument_id in
      if snapshot_eq before after
      then clamp_stable today i (suc n) venue (sellable_base venue current after -ℤ pos open_sells)
          s'
      else (ok (i, none), add_row today i sell 0 deferred sellable_snapshot_unstable s')

  -- The order that the factory makes.
  abbrev pub new_order : World → Intent → ℕ → Order
  new_order w i quantity = record {
    client_order_id = e.next_id w;
    instrument_id = i.instrument_id;
    side = i.side;
    status = working;
    price = some i.price;
    quantity = quantity;
    filled_qty = 0;
    leaves_qty = quantity;
    is_own = true;
    is_pending_cancel = false;
    reconciliation = false;
    fills = [];
    activity = [];
  }

  -- From `order = self.order_factory.limit(...)` on.
  pub submit_order : ℕ → ℕ → Intent → ℕ → Action Bool
  submit_order today reason i quantity s =
      let o = new_order s.world i quantity in
      let tracked = track_submitted_order o.client_order_id s in
      elim (e.submit o s.world) [
        | none ↦ (err submit_failed, forget_submitted_order o.client_order_id tracked)
        | some w ↦ (
          ok true,
          add_row today i i.side quantity submitted (target reason) (record tracked { world = w }),
        )
      ]

  module _ (unit : ℕ) where
    -- From `rules = ...` on, with the quantity that is left after the clamp.
    pub send_quantity : ℕ → ℕ → Intent → ℕ → Action Bool
    send_quantity today reason i quantity = do
      rules ← lift (rules_of i.instrument)
      odd ← lift (may_be_odd i quantity)
      if is_valid unit rules (finite (pos quantity)) odd
          then submit_order today reason i quantity
          else (modify (add_row today i i.side 0 skipped invalid_order_quantity) >> pure false)

    -- What `_submit_order_quantity` does with the clamped quantity of a sell.
    pub send_clamped : ℕ → ℕ → Intent × Option ℕ → Action Bool
    send_clamped today reason (i, none) = pure false
    send_clamped today reason (i, some zero) = pure false
    send_clamped today reason (i, some (suc q)) = send_quantity today reason i (suc q)

    -- `_submit_order_quantity`; an intent always has a price here.
    pub submit_order_quantity : ℕ → ℕ → Intent → ℕ → Action Bool
    submit_order_quantity today reason i quantity = elim i.side [
      | buy ↦ send_quantity today reason i quantity
      | sell ↦ (clamp_sell_quantity today i quantity >>= send_clamped today reason)
    ]

    -- The loop over the slices; `submitted_any` so far.
    pub submit_slices : ℕ → ℕ → Intent → Bool → List ℕ → Action Bool
    submit_slices today reason i any [] = pure any
    submit_slices today reason i any (q ∷ qs) = do
      done ← submit_order_quantity today reason i q
      submit_slices today reason i (any || done) qs

    -- From `if not slices:` on.
    pub submit_all : ℕ → ℕ → Intent → Result Failure (List ℕ) → Action Bool
    submit_all today reason i (err x) s = (err x, s)
    submit_all today reason i (ok []) s =
        (ok false, add_row today i i.side 0 skipped no_legal_order_quantity s)
    submit_all today reason i (ok (q ∷ qs)) s = submit_slices today reason i false (q ∷ qs) s

    -- `_submit_target_quantity`
    pub submit_target_quantity : Config → ℕ → ℕ → Intent → Action Bool
    submit_target_quantity config today reason i s =
        if is_some (s.world.instrument i.instrument_id)
        then submit_all today reason i (order_slices unit config i) s
        else (ok false, add_row today i buy 0 refused missing_instrument s)
