-- ===== src/Strategy/Converge.antt =====
-- The convergence, strategies/target_quantities.py: `_converge_to_target`,
-- `_converge_to_target_locked` and `_target_order_intent`. The limit price that the pricer of a side
-- gives is an argument.
pub mod Desired
pub mod Decide
pub mod Buckets
pub mod Placed
pub mod Achieved
pub mod Guards
pub mod Tests
use qapp.Base.{
  ℕ, zero, suc, ◌-◌, Bool, true, false, not, ◌&&◌, ◌||◌, Option, none, some, List, [], ◌∷◌, ltb,
  leb, ◌==◌, if◌then◌else◌, Dict, IdSet, lookup, insert, erase, member, add, discard, Result, ok,
  err,
}
use qapp.Base.Int.{ℤ, pos, negsuc, pos_part, ltb_ℤ, ◌-ℤ◌}
use qapp.Splitter.Fields.{RawRules}
use qapp.Strategy.Types.{
  Side, buy, sell, World, Position, Config, Strategy, Version, Intent, LimitReason, up_limit,
  down_limit, Failure,
}
use qapp.Strategy.Monad.{Action, pure, gets, lift, modify, continue, ◌>>=◌, ◌>>◌}
use qapp.Strategy.Orders.{open_order_instruments, side_eq}
use qapp.Strategy.Submit.{Engine, is_some, submit_target_quantity}
use qapp.Strategy.Cash.{record_target, submit_buys_within_cash}
use qapp.Strategy.Windows.{within_trading_window, stop_time_reached, is_on}
use qapp.Strategy.Targets.{has_version}
use Desired.{
  by_delta, side_and_quantity, holds, held_of_positions, held_of_ids, held_instrument_ids,
  set_defaults, desired_quantities, is_at, all_reached, is_empty, target_achieved,
}
use qapp.Strategy.Unfilled.{Market, price_limit_reason, reconcile_unfilled_orders}

-- Where the loop puts an instrument in one cycle.
pub data Bucket : Type 0 where
  open_order frozen exhausted on_target intent_error sell_target buy_target : Bucket

-- The purge of `_sellable_exhausted`.
pub purge : ℕ → Dict ℕ → Dict ℕ
purge today [] = []
purge today ((id, day) ∷ d) =
    let rest = purge today d in if day == today then (id, day) ∷ rest else rest

-- `sorted(sell_intents.items())`
pub place_intent : Intent → List Intent → List Intent
place_intent i [] = i ∷ []
place_intent i (j ∷ js) =
    if leb i.instrument_id j.instrument_id then i ∷ j ∷ js else j ∷ place_intent i js

pub by_instrument : List Intent → List Intent
by_instrument [] = []
by_instrument (i ∷ is) = place_intent i (by_instrument is)

-- What the loop over the desired quantities builds: the lists of the summary and the two dicts of
-- intents, in the order of the desired quantities.
pub record Cycle : Type 0 where
  pub skip_open_order : List ℕ
  pub skip_frozen : List ℕ
  pub skip_sellable_exhausted : List ℕ
  pub skip_on_target : List ℕ
  pub skip_intent_error : List ℕ
  pub sell_intents : List Intent
  pub buy_intents : List Intent

module _ (e : Engine) (market : Market) (unit : ℕ) (config : Config) where
  -- From `instrument = self.cache.instrument(...)` on, with the side and the quantity.
  pub priced_intent : World → ℕ → ℕ → Side × ℕ → Option Intent
  priced_intent w id target (side, quantity) = elim (w.instrument id) [
    | none ↦ none
    | some raw ↦ elim (market.limit_price w id side quantity) [
      | none ↦ none
      | some price ↦ some (record {
        instrument_id = id;
        instrument = raw;
        side = side;
        quantity = quantity;
        price = price;
        target_qty = target;
        current_qty = w.net_position id;
        sellable_qty = none;
      })
    ]
  ]

  -- `_target_order_intent`
  pub target_order_intent : World → ℕ → ℕ → Option Intent
  target_order_intent w id target = elim (side_and_quantity (w.net_position id) target) [
    | none ↦ none
    | some sq ↦ priced_intent w id target sq
  ]

  -- The case `limit_reason is not None` under `freeze_symbol`.
  pub freeze : ℕ → LimitReason → Strategy → Strategy
  freeze id reason s = record s {
    frozen_instruments = insert id reason s.frozen_instruments;
    deferred_buys = erase id s.deferred_buys;
    insufficient_funds = discard id s.insufficient_funds;
  }

  -- By the side of the intent, from `if intent.side == OrderSide.SELL` on.
  pub by_side : ℕ → Intent → Strategy → Bucket × Option Intent × Strategy
  by_side today i s = elim i.side [
    | buy ↦ (buy_target, some i, s)
    | sell ↦
        if is_on (lookup i.instrument_id s.sellable_exhausted) today
        then (exhausted, none, s)
        else (sell_target, some i, s)
  ]

  -- From `limit_reason = ...` on.
  pub classify_intent :
      ℕ → Intent → Option LimitReason → Strategy → Bucket × Option Intent × Strategy
  classify_intent today i none s = by_side today i s
  classify_intent today i (some reason) s =
      if config.freeze_symbol
      then (frozen, none, freeze i.instrument_id reason s)
      else by_side today i s

  -- One round of the loop over the desired quantities.
  pub classify : IdSet → ℕ → ℕ → ℕ → Strategy → Bucket × Option Intent × Strategy
  classify busy today id target s =
      if member id busy
      then (open_order, none, s)
      else if is_some (lookup id s.frozen_instruments)
      then (frozen, none, s)
      else elim (target_order_intent s.world id target) [
        | none ↦
            (if is_at (s.world.net_position id) target then on_target else intent_error, none, s)
        | some i ↦ classify_intent today i (price_limit_reason s.world id i.side) s
      ]

  -- Where the loop puts what a round found.
  pub note : ℕ → Bucket × Option Intent → Cycle → Cycle
  note id (open_order, i) c = record c { skip_open_order = id ∷ c.skip_open_order }
  note id (frozen, i) c = record c { skip_frozen = id ∷ c.skip_frozen }
  note id (exhausted, i) c = record c { skip_sellable_exhausted = id ∷ c.skip_sellable_exhausted }
  note id (on_target, i) c = record c { skip_on_target = id ∷ c.skip_on_target }
  note id (intent_error, i) c = record c { skip_intent_error = id ∷ c.skip_intent_error }
  note id (sell_target, some i) c = record c { sell_intents = i ∷ c.sell_intents }
  note id (buy_target, some i) c = record c { buy_intents = i ∷ c.buy_intents }
  note id (_, none) c = c

  -- The loop; the rounds after this one see the object that it leaves.
  pub classify_all : IdSet → ℕ → Dict ℕ → Strategy → Cycle × Strategy
  classify_all busy today [] s = (
    record {
      skip_open_order = [];
      skip_frozen = [];
      skip_sellable_exhausted = [];
      skip_on_target = [];
      skip_intent_error = [];
      sell_intents = [];
      buy_intents = [];
    },
    s,
  )
  classify_all busy today ((id, target) ∷ d) s =
      let (b, i, t) = classify busy today id target s in
      let (c, end) = classify_all busy today d t in (note id (b, i) c, end)

  -- The loop over the sorted sell intents.
  pub submit_sells : ℕ → ℕ → List Intent → Action (Unit {0})
  submit_sells today reason [] = pure tt
  submit_sells today reason (i ∷ is) = do
    modify (record_target i)
    submit_target_quantity e unit config today reason i
    submit_sells today reason is

  -- `self._achieved_versions.add(...)`, if the target is achieved.
  pub note_achieved : Version → Strategy → Strategy
  note_achieved v s =
      if target_achieved config s && not (has_version v s.achieved_versions)
      then record s { achieved_versions = v ∷ s.achieved_versions }
      else s

  -- From `open_order_instruments = ...` on.
  pub trade : ℕ → Version → Action (Unit {0})
  trade today v s =
      let reason = s.target_reason in
      let (c, t) =
        classify_all (open_order_instruments s.world) today (desired_quantities config s) s in
      (do
        submit_sells today reason (by_instrument c.sell_intents)
        submit_buys_within_cash e unit config today reason c.buy_intents
        modify (note_achieved v))
        t

  -- `self._awaiting_pre_open_reconcile()`
  abbrev pub is_awaiting : World → Bool
  is_awaiting w = w.reconciler_configured && not w.reconciled_once

  -- From `if self._awaiting_pre_open_reconcile():` on.
  pub converge_version : ℕ → Version → Action (Unit {0})
  converge_version today v s =
      let s1 = record s { sellable_exhausted = purge today s.sellable_exhausted } in
      if is_awaiting s.world || has_version v s.achieved_versions
      then (ok tt, s)
      else if stop_time_reached e config s.world
      then (ok tt, s1)
      else (reconcile_unfilled_orders e market unit config today >>= λ _. trade today v) s1

  -- `_converge_to_target_locked`, by the version of the target.
  pub converge_for : Option Version → ℕ → Action (Unit {0})
  converge_for none today = pure tt
  converge_for (some v) today = converge_version today v

  pub converge_to_target_locked : ℕ → Action (Unit {0})
  converge_to_target_locked today s = converge_for s.target_version today s

  -- `lock.release()` at the end, after a raise too.
  pub release : Result Failure (Unit {0}) × Strategy → Result Failure (Unit {0}) × Strategy
  release (r, s) = (r, record s { converge_locked = false })

  -- From the answer of `acquire` on.
  pub converge_if_acquired : ℕ → Action (Unit {0})
  converge_if_acquired today s =
      if s.converge_locked
      then (ok tt, s)
      else release (converge_to_target_locked today (record s { converge_locked = true }))

  -- `self._converge_lock.acquire(...)`: a forced call waits while another thread holds the lock, until
  -- that thread frees it or the time is over.
  pub awaited_lock : Bool → Strategy → Strategy
  awaited_lock force s = if force && s.converge_locked then e.wait_for_lock s else s

  -- `_converge_to_target`
  pub converge_to_target : ℕ → Bool → Action (Unit {0})
  converge_to_target today force s =
      if (s.trading_paused && not force) || not (within_trading_window e config s 0)
      then (ok tt, s)
      else converge_if_acquired today (awaited_lock force s)
