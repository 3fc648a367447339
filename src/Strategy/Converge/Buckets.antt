-- ===== src/Strategy/Converge/Buckets.antt =====
-- The classification of the desired quantities in one cycle.
use mathlib.Core.Path.{subst}
use qapp.Base.{
  ℕ, ◌≡◌, refl, false, Option, none, some, [], ◌∷◌, arith, Dict, IdSet, lookup, member, All,
  Bool-cases, Option-cases, inl, inr, ◌⊎◌,
}
use qapp.Strategy.Types.{Side, buy, sell, World, Config, Strategy, Intent, LimitReason}
use qapp.Strategy.Submit.{Engine, is_some}
use qapp.Strategy.Unfilled.{Market, price_limit_reason}
use qapp.Strategy.Windows.{is_on}
use qapp.Strategy.Converge.{
  Bucket, open_order, frozen, exhausted, on_target, intent_error, sell_target, buy_target, Cycle,
  priced_intent, target_order_intent, freeze, by_side, classify_intent, classify, note,
  classify_all,
}
use qapp.Strategy.Converge.Desired.{side_and_quantity}

pub side_cases : (d : Side) → (d ≡ buy) ⊎ (d ≡ sell)
side_cases buy = inl refl
side_cases sell = inr refl

module _ (e : Engine) (market : Market) (unit : ℕ) (config : Config) where
  -- What a round returns: the blocks for the day are kept, and an intent is for an instrument without
  -- an open order, and not for a blocked sell.
  abbrev pub Tradable : IdSet → ℕ → Dict ℕ → Intent → Type 0
  Tradable busy today blocked i =
      (member i.instrument_id busy ≡ false)
      × (i.side ≡ sell → is_on (lookup i.instrument_id blocked) today ≡ false)

  abbrev Sound : IdSet → ℕ → Dict ℕ → Bucket × Option Intent × Strategy → Type 0
  Sound busy today blocked (b, none, t) = t.sellable_exhausted ≡ blocked
  Sound busy today blocked (b, some i, t) =
      (t.sellable_exhausted ≡ blocked) × Tradable busy today blocked i

  by_side-Sound :
      (busy : IdSet) (today : ℕ) (i : Intent) (s : Strategy)
      → member i.instrument_id busy ≡ false
      → Sound busy today s.sellable_exhausted (by_side e market unit config today i s)
  unfolding by_side
  by_side-Sound busy today i s idle = elim (side_cases i.side) [
    | inl buys ↦ rw (buys, by_side) (refl, (idle, λ sells. absurd (cc)))
    | inr sells ↦ elim (Bool-cases (is_on (lookup i.instrument_id s.sellable_exhausted) today)) [
      | inl blocked ↦ rw (sells, by_side) (rw blocked refl)
      | inr free ↦ rw (sells, by_side) (rw free (refl, (idle, λ _. free)))
    ]
  ]

  classify_intent-Sound :
      (busy : IdSet) (today : ℕ) (i : Intent) (reason : Option LimitReason) (s : Strategy)
      → member i.instrument_id busy ≡ false
      → Sound busy today s.sellable_exhausted
          (classify_intent e market unit config today i reason s)
  unfolding classify_intent freeze by_side
  classify_intent-Sound busy today i none s idle = by_side-Sound busy today i s idle
  classify_intent-Sound busy today i (some reason) s idle = elim (Bool-cases config.freeze_symbol) [
    | inl freezes ↦ rw freezes refl
    | inr keeps ↦ rw keeps (by_side-Sound busy today i s idle)
  ]

  priced_intent-id :
      (w : World) (id target : ℕ) (sq : Side × ℕ) {i : Intent}
      → priced_intent e market unit config w id target sq ≡ some i
      → i.instrument_id ≡ id
  unfolding priced_intent
  priced_intent-id w id target (side, q) h = ground (arith, h)

  pub intent-id :
      (w : World) (id target : ℕ) {i : Intent}
      → target_order_intent e market unit config w id target ≡ some i
      → i.instrument_id ≡ id
  unfolding target_order_intent
  intent-id w id target h = elim (Option-cases (side_and_quantity (w.net_position id) target)) [
    | inl nothing ↦ cc (rw (nothing, target_order_intent) at h)
    | inr (sq, wanted) ↦ priced_intent-id w id target sq (rw (wanted, target_order_intent) at h)
  ]

  classify-Sound :
      (busy : IdSet) (today id target : ℕ) (s : Strategy)
      → Sound busy today s.sellable_exhausted (classify e market unit config busy today id target s)
  unfolding classify
  classify-Sound busy today id target s = elim (Bool-cases (member id busy)) [
    | inl has_order ↦ rw has_order refl
    | inr idle ↦ rw idle (elim (Bool-cases (is_some (lookup id s.frozen_instruments))) [
      | inl is_frozen ↦ rw is_frozen refl
      | inr free ↦
          rw free
            (elim (Option-cases (target_order_intent e market unit config s.world id target)) [
              | inl nothing ↦ rw nothing refl
              | inr (i, found) ↦ rw found (
                  classify_intent-Sound busy today i (price_limit_reason s.world id i.side) s
                    (rw (intent-id s.world id target found) idle))
            ])
    ])
  ]

  note-All :
      (P : Intent → Type 0) (id : ℕ) (b : Bucket) (i : Intent) (c : Cycle)
      → P i
      → All P c.sell_intents
      → All P c.buy_intents
      → All P (note e market unit config id (b, some i) c).sell_intents
        × All P (note e market unit config id (b, some i) c).buy_intents
  unfolding note
  note-All P id open_order i c h sells buys = (sells, buys)
  note-All P id frozen i c h sells buys = (sells, buys)
  note-All P id exhausted i c h sells buys = (sells, buys)
  note-All P id on_target i c h sells buys = (sells, buys)
  note-All P id intent_error i c h sells buys = (sells, buys)
  note-All P id sell_target i c h sells buys = ((h, sells), buys)
  note-All P id buy_target i c h sells buys = (sells, (h, buys))

  note-none :
      (P : Intent → Type 0) (id : ℕ) (b : Bucket) (c : Cycle)
      → All P c.sell_intents
      → All P c.buy_intents
      → All P (note e market unit config id (b, none) c).sell_intents
        × All P (note e market unit config id (b, none) c).buy_intents
  unfolding note
  note-none P id open_order c sells buys = (sells, buys)
  note-none P id frozen c sells buys = (sells, buys)
  note-none P id exhausted c sells buys = (sells, buys)
  note-none P id on_target c sells buys = (sells, buys)
  note-none P id intent_error c sells buys = (sells, buys)
  note-none P id sell_target c sells buys = (sells, buys)
  note-none P id buy_target c sells buys = (sells, buys)

  -- The intents of a cycle, after a round and the rounds that follow.
  abbrev pub AllTradable : IdSet → ℕ → Dict ℕ → Cycle → Type 0
  AllTradable busy today blocked c =
      All (Tradable busy today blocked) c.sell_intents
      × All (Tradable busy today blocked) c.buy_intents

  round-Tradable :
      (busy : IdSet) (today : ℕ) (blocked : Dict ℕ) (id : ℕ) (r : Bucket × Option Intent × Strategy)
      (c : Cycle)
      → Sound busy today blocked r
      → AllTradable busy today r.2.sellable_exhausted c
      → AllTradable busy today blocked (note e market unit config id (r.0, r.1) c)
  unfolding note
  round-Tradable busy today blocked id (b, none, t) c kept rest =
      let (sells, buys) = subst (λ d. AllTradable busy today d c) kept rest in
      note-none (Tradable busy today blocked) id b c sells buys
  round-Tradable busy today blocked id (b, some i, t) c (kept, traded) rest =
      let (sells, buys) = subst (λ d. AllTradable busy today d c) kept rest in
      note-All (Tradable busy today blocked) id b i c traded sells buys

  -- No order is wanted for an instrument that has an open order, and no sell of one that is blocked
  -- for the day.
  pub classify_all-Tradable :
      (busy : IdSet) (today : ℕ) (d : Dict ℕ) (s : Strategy)
      → AllTradable busy today s.sellable_exhausted
          (classify_all e market unit config busy today d s).0
  unfolding classify_all
  classify_all-Tradable busy today [] s = (tt, tt)
  classify_all-Tradable busy today ((id, target) ∷ d) s =
      let r = classify e market unit config busy today id target s in
      round-Tradable busy today s.sellable_exhausted id r
        (classify_all e market unit config busy today d r.2).0
        (classify-Sound busy today id target s) (classify_all-Tradable busy today d r.2)
