-- ===== src/Strategy/Samples.antt =====
-- A small market for the runs: a framework that no other thread disturbs, with one instrument, a
-- holding of it, and a strategy.
use qapp.Base.{
  ℕ, ◌-◌, ◌*◌, ◌/◌, ◌≡◌, refl, Bool, true, false, ◌||◌, Option, none, some, List, [], ◌∷◌, arith,
  ◌==◌, if◌then◌else◌, suc,
}
use qapp.Base.Int.{pos}
use qapp.Base.Decimal.{finite}
use qapp.Splitter.Fields.{RawRules, fields}
use qapp.Strategy.Types.{buy, sell, working, Order, World, Config, Strategy, Intent, given}
use qapp.Strategy.Orders.Sums.{Fresh}
use qapp.Strategy.Submit.{Engine}
use qapp.Strategy.Submit.Limit.{IsQuiet}
use qapp.Strategy.Unfilled.{Market}

abbrev pub has_id : ℕ → List Order → Bool
has_id k [] = false
has_id k (o ∷ os) = o.client_order_id == k || has_id k os

has_id-Fresh : (k : ℕ) (os : List Order) → has_id k os ≡ false → Fresh k os
has_id-Fresh k [] h = tt
has_id-Fresh k (o ∷ os) h = (λ e. ground (arith, h, e), has_id-Fresh k os (ground (arith, h)))

-- `submit_order` of a framework that checks identifiers.
abbrev pub submit : Order → World → Option World
submit o w =
    if has_id o.client_order_id w.orders
      || (has_id o.client_order_id w.orders_open || has_id o.client_order_id w.orders_inflight)
    then none
    else some (record w { orders = o ∷ w.orders })

abbrev pub next_id : List Order → ℕ
next_id [] = 1
next_id (o ∷ os) = suc o.client_order_id

-- A day is 100 ticks of the clock.
abbrev pub engine : Engine
engine = record {
  date_of = λ ts. some (ts / 100);
  others = λ w. w;
  next_id = λ w. next_id w.orders;
  submit = submit;
  cancel = λ o w. some w;
  time_of = λ ts. some (ts - ts / 100 * 100);
  wait_for_lock = λ s. s;
}

submit-cases :
    (o : Order) (w : World) (b : Bool) {w' : World}
    → (if b then none else some (record w { orders = o ∷ w.orders })) ≡ some w'
    → (b ≡ false) × (w' ≡ record w { orders = o ∷ w.orders })
submit-cases o w true h = cc h
submit-cases o w false h = (refl, cc h)

pub engine-IsQuiet : IsQuiet engine
engine-IsQuiet = record {
  alone = λ w. refl;
  fresh = λ o w {w'} h. (
    has_id-Fresh o.client_order_id w.orders (ground (arith, (submit-cases o w _ h).0)),
    has_id-Fresh o.client_order_id w.orders_open (ground (arith, (submit-cases o w _ h).0)),
    has_id-Fresh o.client_order_id w.orders_inflight (ground (arith, (submit-cases o w _ h).0)),
  );
  adds = λ o w {w'} h. (submit-cases o w _ h).1;
}

-- Lots of 100 shares, one unit a share, and odd lots may be sold.
abbrev pub lots : RawRules
lots = fields (finite (pos 100)) (finite (pos 1000)) (finite (pos 100)) (some true)

-- 350 shares of instrument 7, of which 250 may be sold; date 5, time of day 20.
abbrev pub world : World
world = record {
  net_position = λ id. if id == 7 then pos 350 else pos 0;
  positions_open = record { instrument_id = 7; is_long = true; quantity = some 350 } ∷ [];
  orders = [];
  orders_open = [];
  orders_inflight = [];
  venue_sellable = λ id. if id == 7 then some (pos 250) else none;
  free_cash = some (pos 5000);
  instrument = λ id. some lots;
  clock_date = 5;
  timestamp_ns = 520;
  time_of_day = some 20;
  market_price = λ id. some 10;
  price_limits = λ id. (some 11, some 9);
  reconciler_configured = false;
  reconciled_once = false;
}

abbrev pub config : Config
config = record {
  order_slice_notional = pos 0;
  cash_buffer = pos 10;
  percent_scale = 100;
  exit_non_targets = true;
  freeze_symbol = true;
  sellable_denial_retry_window_ns = 30;
  unfilled_timeout_ns = 15;
  trading_windows = some (10, 40) ∷ some (60, 90) ∷ [];
  exchange_trading_windows = none ∷ some (60, 90) ∷ [];
  stop_time = some 80;
}

-- Instrument 7 is to be brought down to 100 shares, 8 up to 200.
abbrev pub strategy : Strategy
strategy = record {
  world = world;
  instrument_ids = 7 ∷ 8 ∷ [];
  target_quantities = (7, 100) ∷ (8, 200) ∷ [];
  target_date = some 5;
  target_reason = 1;
  target_version = some (given 3);
  target_signal_date = none;
  achieved_versions = [];
  frozen_instruments = [];
  deferred_buys = [];
  converge_locked = false;
  rejected_order_ids = [];
  insufficient_funds = [];
  startup_ts_ns = some 510;
  tracked_orders = [];
  authoritative_open = [];
  depth_converged_today = false;
  cancel_count_buy = [];
  cancel_count_sell = [];
  recent_sell_cancel_ts = [];
  sellable_exhausted = [];
  trading_day = some 5;
  last_quote_tick_ts_event = 515;
  convergence_suspended = false;
  trading_paused = false;
  target_updates_paused = false;
  order_events = [];
  target_events = [];
}

abbrev pub sell_intent : Intent
sell_intent = record {
  instrument_id = 7;
  instrument = lots;
  side = sell;
  quantity = 250;
  price = 10;
  target_qty = 100;
  current_qty = pos 350;
  sellable_qty = none;
}

abbrev pub buy_intent : Intent
buy_intent = record {
  instrument_id = 8;
  instrument = lots;
  side = buy;
  quantity = 200;
  price = 10;
  target_qty = 200;
  current_qty = pos 0;
  sellable_qty = none;
}

-- An open buy of 300 shares of instrument 8, of which 100 are filled.
abbrev pub open_order : Order
open_order = record {
  client_order_id = 4;
  instrument_id = 8;
  side = buy;
  status = working;
  price = some 10;
  quantity = 300;
  filled_qty = 100;
  leaves_qty = 200;
  is_own = true;
  is_pending_cancel = false;
  reconciliation = false;
  fills = [];
  activity = 501 ∷ 503 ∷ [];
}

abbrev pub market : Market
market = record {
  limit_price = λ w id side q. some 10;
  at_buy_price_cap = λ w o. false;
  effective_timeout_ns = λ w o base. base;
}
