-- ===== src/Strategy/Events/Replay.antt =====
-- The events that the framework replays from before the start, strategies/target_quantities.py.
use qapp.Base.{
  ℕ, ◌≡◌, refl, sym, ap, ◌∙◌, ◌⊎◌, inl, inr, true, Option, none, some, List, [], ◌∷◌, arith, All,
  All-map, lookup, erase, add, member, lookup-erase, member-discard, if_cases, Result,
}
use qapp.Strategy.Types.{Config, Strategy, Failure}
use qapp.Strategy.Orders.{is_historical_event, forget_submitted_order}
use qapp.Strategy.Events.{
  OrderEvent, Trigger, note_fill, on_order_filled, note_sell_cancel, on_order_canceled,
  is_transient_sellable_denial, handle_order_not_accepted,
}
use qapp.Strategy.Events.Markers.{is_insufficient_funds, is_sellable_position_denial}

-- A call of a handler; a refusal is a denial or a rejection.
pub data Delivery : Type 0 where
  fill cancel : OrderEvent → Delivery
  refusal : OrderEvent → List ℕ → Delivery

abbrev pub event_of : Delivery → OrderEvent
event_of (fill ev) = ev
event_of (cancel ev) = ev
event_of (refusal ev reason) = ev

abbrev pub deliver : Config → Delivery → Strategy → Option Trigger × Strategy
deliver config (fill ev) s = on_order_filled ev s
deliver config (cancel ev) s = on_order_canceled ev s
deliver config (refusal ev reason) s = (none, (handle_order_not_accepted config ev reason s).1)

abbrev pub with_trigger : Option Trigger → List Trigger → List Trigger
with_trigger none ts = ts
with_trigger (some t) ts = t ∷ ts

-- The deliveries in their order: the convergences that they schedule, and the object.
abbrev pub replay : Config → List Delivery → Strategy → List Trigger × Strategy
replay config [] s = ([], s)
replay config (d ∷ ds) s =
    let (t, s') = deliver config d s in
    let (ts, end) = replay config ds s' in (with_trigger t ts, end)

-- Nothing new is blocked for missing cash or deferred.
pub record Inert (s t : Strategy) : Type 0 where
  pub startup : t.startup_ts_ns ≡ s.startup_ts_ns
  pub funds :
      (id : ℕ) → member id t.insufficient_funds ≡ true → member id s.insufficient_funds ≡ true
  pub buys :
      (id : ℕ)
      → (lookup id t.deferred_buys ≡ none) ⊎ (lookup id t.deferred_buys ≡ lookup id s.deferred_buys)

Inert-trans : (s t u : Strategy) → Inert s t → Inert t u → Inert s u
Inert-trans s t u a b = record {
  startup = b.startup ∙ a.startup;
  funds = λ id h. a.funds id (b.funds id h);
  buys = λ id. elim (b.buys id) [
    | inl gone ↦ inl gone
    | inr kept ↦ elim (a.buys id) [ inl gone ↦ inl (kept ∙ gone) | inr same ↦ inr (kept ∙ same) ]
  ];
}

kept-Inert :
    (s t : Strategy)
    → t.startup_ts_ns ≡ s.startup_ts_ns
    → t.insufficient_funds ≡ s.insufficient_funds
    → t.deferred_buys ≡ s.deferred_buys
    → Inert s t
kept-Inert s t a b c = record {
  startup = a;
  funds = λ id h. ap (member id) (sym b) ∙ h;
  buys = λ id. inr (ap (lookup id) c);
}

erased :
    (j k : ℕ) (s : Strategy)
    → (lookup j (erase k s.deferred_buys) ≡ none)
      ⊎ (lookup j (erase k s.deferred_buys) ≡ lookup j s.deferred_buys)
erased j k s = ground (arith, lookup-erase j k s.deferred_buys)

filled-Inert : (ev : OrderEvent) (s : Strategy) → Inert s (on_order_filled ev s).1
unfolding on_order_filled note_fill forget_submitted_order
filled-Inert ev s = record {
  startup = ground arith;
  funds = λ id h. ground (arith, h, member-discard id ev.instrument_id s.insufficient_funds);
  buys = λ id. ground (arith, lookup-erase id ev.instrument_id s.deferred_buys);
}

canceled-Inert : (ev : OrderEvent) (s : Strategy) → Inert s (on_order_canceled ev s).1
unfolding on_order_canceled note_sell_cancel forget_submitted_order
canceled-Inert ev s = kept-Inert s _ (ground arith) (ground arith) (ground arith)

refused-Inert :
    (config : Config) (ev : OrderEvent) (reason : List ℕ) (s : Strategy)
    → is_historical_event s ev.ts_event ≡ true
    → Inert s (handle_order_not_accepted config ev reason s).1
unfolding handle_order_not_accepted forget_submitted_order is_historical_event
refused-Inert config ev reason s old =
    let noted = record (forget_submitted_order ev.client_order_id s) {
      rejected_order_ids = add ev.client_order_id s.rejected_order_ids;
    } in
    let same : Inert s noted = kept-Inert s noted refl refl refl in
    if_cases inert (is_insufficient_funds reason)
      (λ funds.
        if_cases inert (is_historical_event noted ev.ts_event) (λ _. same) (λ new. cc (old, new)))
      (λ other.
        if_cases inert (is_sellable_position_denial reason)
          (λ sellable.
            if_cases inert (is_transient_sellable_denial config ev.instrument_id noted) (λ _. same)
              (λ _. kept-Inert s _ refl refl refl))
          (λ rest. record {
            startup = refl;
            funds = λ id h. h;
            buys = λ id. erased id ev.instrument_id s;
          }))
  where
    inert : Result Failure (Unit {0}) × Strategy → Type 0
    inert r = Inert s r.1

deliver-silent :
    (config : Config) (d : Delivery) (s : Strategy)
    → is_historical_event s (event_of d).ts_event ≡ true
    → (deliver config d s).0 ≡ none
unfolding on_order_filled on_order_canceled is_historical_event
deliver-silent config (fill ev) s old = ground arith
deliver-silent config (cancel ev) s old = ground arith
deliver-silent config (refusal ev reason) s old = refl

deliver-Inert :
    (config : Config) (d : Delivery) (s : Strategy)
    → is_historical_event s (event_of d).ts_event ≡ true
    → Inert s (deliver config d s).1
deliver-Inert config (fill ev) s old = filled-Inert ev s
deliver-Inert config (cancel ev) s old = canceled-Inert ev s
deliver-Inert config (refusal ev reason) s old = refused-Inert config ev reason s old

still_old :
    (s t : Strategy) (ts : ℕ)
    → t.startup_ts_ns ≡ s.startup_ts_ns
    → is_historical_event s ts ≡ true
    → is_historical_event t ts ≡ true
unfolding is_historical_event
still_old s t ts same old = rw same old

-- A replay of events from before the start, in whatever order and number (fills, cancels, denials and
-- rejections with any reason), schedules no convergence, blocks no instrument for missing cash that
-- was not blocked before, and defers no buy anew.
pub replay-Inert :
    (config : Config) (ds : List Delivery) (s : Strategy)
    → All (λ d. is_historical_event s (event_of d).ts_event ≡ true) ds
    → ((replay config ds s).0 ≡ []) × Inert s (replay config ds s).1
replay-Inert config [] s old = (refl, kept-Inert s s refl refl refl)
replay-Inert config (d ∷ ds) s (old, olds) =
    let t = (deliver config d s).1 in
    let one = deliver-Inert config d s old in
    let rest = replay-Inert config ds t (
      All-map (λ d. is_historical_event s (event_of d).ts_event ≡ true)
        (λ d. is_historical_event t (event_of d).ts_event ≡ true) ds
        (λ d h. still_old s t (event_of d).ts_event one.startup h) olds) in
    (
      ap (λ o. with_trigger o (replay config ds t).0) (deliver-silent config d s old) ∙ rest.0,
      Inert-trans s t (replay config ds t).1 one rest.1,
    )
