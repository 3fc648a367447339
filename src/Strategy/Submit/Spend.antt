-- ===== src/Strategy/Submit/Spend.antt =====
-- What one buy order commits: the open buy notional after `_submit_order_quantity`.
use qapp.Base.{
  ℕ, ◌+◌, ◌*◌, ◌≡◌, ◌≢◌, ◌⊎◌, inl, inr, refl, Bool, true, ◌&&◌, none, some, arith, Result, ok,
  Bool-cases, Option-cases,
}
use qapp.Base.Int.{pos}
use qapp.Base.Decimal.{finite}
use qapp.Splitter.{is_valid}
use qapp.Strategy.Types.{buy, Order, World, Intent, Strategy, Failure}
use qapp.Strategy.Monad.{lift_cases}
use qapp.Strategy.Orders.{
  open_notional, open_buy_order_notional, matches, is_active_order, track_submitted_order,
  forget_submitted_order,
}
use qapp.Strategy.Orders.Sums.{active_orders-cons}
use qapp.Strategy.Submit.{
  Engine, new_order, submit_order, send_quantity, submit_order_quantity, rules_of, may_be_odd,
}
use qapp.Strategy.Submit.Limit.{IsQuiet}

-- A buy of `q` shares was accepted and is open now, or it was not and the open notional is the same.
abbrev pub Spent : Intent → ℕ → Strategy → Result Failure Bool × Strategy → Type 0
Spent i q s r =
    ((r.0 ≡ ok true)
      × (open_buy_order_notional r.1.world ≡ open_buy_order_notional s.world + q * i.price))
    ⊎ ((r.0 ≢ ok true) × (open_buy_order_notional r.1.world ≡ open_buy_order_notional s.world))

module _ (e : Engine) (quiet : IsQuiet e) (today reason : ℕ) (i : Intent)
    (buys : i.side ≡ buy) where
  submit_order-Spent : (q : ℕ) (s : Strategy) → Spent i q s (submit_order e today reason i q s)
  unfolding submit_order forget_submitted_order track_submitted_order
  submit_order-Spent q s = elim (Option-cases (e.submit o s.world)) [
    | inl raised ↦ rw (raised, submit_order) (inr (λ h. cc, refl))
    | inr (w', sent) ↦ rw (sent, submit_order) (inl (refl, grown w' sent))
  ]
    where
      o : Order
      o = new_order e s.world i q

      grown :
          (w' : World)
          → e.submit o s.world ≡ some w'
          → open_buy_order_notional w' ≡ open_buy_order_notional s.world + q * i.price
      grown w' sent =
          let (f1, f2, f3) = quiet.fresh o s.world sent in
          let found : (matches none (some buy) o && is_active_order o) ≡ true = ground arith in
          rw (quiet.adds o s.world sent) (
            unfold open_buy_order_notional in
            active_orders-cons open_notional s.world o none (some buy) f1 f2 f3 found)

  send_quantity-Spent :
      (unit q : ℕ) (s : Strategy) → Spent i q s (send_quantity e unit today reason i q s)
  unfolding send_quantity
  send_quantity-Spent unit q s =
      lift_cases (Spent i q s) (rules_of i.instrument) _ s (λ x. inr (λ h. cc, refl))
        (λ rules _.
          lift_cases (Spent i q s) (may_be_odd i q) _ s (λ x. inr (λ h. cc, refl))
            (λ odd _. elim (Bool-cases (is_valid unit rules (finite (pos q)) odd)) [
              | inl valid ↦ rw valid (submit_order-Spent q s)
              | inr not_valid ↦ rw not_valid (inr (λ h. cc, refl))
            ]))

  pub submit_order_quantity-Spent :
      (unit q : ℕ) (s : Strategy) → Spent i q s (submit_order_quantity e unit today reason i q s)
  unfolding submit_order_quantity
  submit_order_quantity-Spent unit q s =
      rw (buys, submit_order_quantity) (send_quantity-Spent unit q s)
