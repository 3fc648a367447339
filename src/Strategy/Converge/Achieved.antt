-- ===== src/Strategy/Converge/Achieved.antt =====
-- What a cycle does once the target is achieved.
use qapp.Base.{ℕ, ◌≡◌, refl, inl, inr, true, ==_iff, none, [], ◌∷◌, Dict, lookup, Bool-cases}
use qapp.Base.Int.{pos}
use qapp.Strategy.Types.{Config, Strategy}
use qapp.Strategy.Orders.{open_order_instruments}
use qapp.Strategy.Submit.{Engine, is_some}
use qapp.Strategy.Unfilled.{Market}
use qapp.Strategy.Converge.{target_order_intent, classify, note, classify_all}
use qapp.Strategy.Converge.Desired.{target_achieved, desired_quantities}
use qapp.Strategy.Converge.Decide.{Reached, at_target-none, target_achieved-Reached}

module _ (e : Engine) (market : Market) (unit : ℕ) (config : Config) where
  no_intent :
      (s : Strategy) (id q : ℕ)
      → s.world.net_position id ≡ pos q
      → target_order_intent e market unit config s.world id q ≡ none
  unfolding target_order_intent
  no_intent s id q at = rw (at, target_order_intent) (rw (at_target-none q) refl)

  Reached-wants_nothing :
      (today : ℕ) (d : Dict ℕ) (s : Strategy)
      → Reached s d
      → let r = classify_all e market unit config [] today d s in
        (r.0.sell_intents ≡ []) × (r.0.buy_intents ≡ []) × (r.0.skip_intent_error ≡ []) × (r.1 ≡ s)
  unfolding classify_all classify note
  Reached-wants_nothing today [] s h = (refl, refl, refl, refl)
  Reached-wants_nothing today ((id, q) ∷ d) s (this, rest) = elim this [
    | inl is_frozen ↦ rw is_frozen (Reached-wants_nothing today d s rest)
    | inr at ↦ elim (Bool-cases (is_some (lookup id s.frozen_instruments))) [
      | inl is_frozen ↦ rw is_frozen (Reached-wants_nothing today d s rest)
      | inr free ↦
          rw (free, no_intent s id q at, at, (==_iff q q).1 refl)
            (Reached-wants_nothing today d s rest)
    ]
  ]

  -- While a target counts as achieved, the classification of another cycle wants no order, counts no
  -- intent error, and changes nothing: every desired instrument is frozen or on target.
  pub achieved_target_wants_nothing :
      (today : ℕ) (s : Strategy)
      → target_achieved config s ≡ true
      → let r =
          classify_all e market unit config
            (open_order_instruments s.world)
            today
            (desired_quantities config s)
            s in
        (r.0.sell_intents ≡ []) × (r.0.buy_intents ≡ []) × (r.0.skip_intent_error ≡ []) × (r.1 ≡ s)
  achieved_target_wants_nothing today s h =
      let (idle, deferred, blocked, reached) = target_achieved-Reached config s h in
      rw idle (Reached-wants_nothing today (desired_quantities config s) s reached)
