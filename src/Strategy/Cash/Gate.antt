-- ===== src/Strategy/Cash/Gate.antt =====
-- No overspend: what `_submit_buys_within_cash` leaves open to buy stays within the cash it may use.
use mathlib.Core.Path.{subst}
use qapp.Base.{
  ℕ, zero, suc, ◌+◌, ◌*◌, ◌≤◌, max, ◌≡◌, inl, inr, refl, sym, ap, lt→ltb, Bool, true, false, some,
  List, [], ◌∷◌, arith, if◌then◌else◌, Result, ok, err, Bool-cases, member,
}
use qapp.Base.Int.{ℤ, pos, pos_part, ltb_ℤ, ◌-ℤ◌, ◌*ℤ◌}
use qapp.Strategy.Types.{Side, buy, sell, Intent, Config, Strategy, Failure}
use qapp.Strategy.Monad.{Action, continue, pure, lift_cases}
use qapp.Strategy.Orders.{open_buy_order_notional, side_eq}
use qapp.Strategy.Submit.{Engine, order_slices, submit_order_quantity}
use qapp.Strategy.Submit.Limit.{IsQuiet}
use qapp.Strategy.Submit.Spend.{Spent, submit_order_quantity-Spent}
use qapp.Strategy.Cash.{
  cost, left_over, after_slice, record_target, buy_slice, buy_slices, defer_unsent,
  buy_candidate_slices, buy_candidate, buy_candidates, by_target, available_cash, kept_share,
  within_cash, submit_buys_within_cash,
}

buy_of_not_sell : (d : Side) → side_eq d sell ≡ false → d ≡ buy
buy_of_not_sell buy h = refl
buy_of_not_sell sell h = cc

spend : (cash : ℤ) (c : ℕ) → c ≤ pos_part cash → pos_part (cash -ℤ pos c) + c ≡ pos_part cash
unfolding ◌-ℤ◌
spend cash c h = ground arith

-- The money of the open buy orders.
abbrev committed : Config → Strategy → ℕ
committed config s = open_buy_order_notional s.world * config.percent_scale

module _ (config : Config) (bound : ℕ) where
  -- After a step: what is committed to open buys and the cash left are within the bound; after a
  -- raise, what is committed is.
  abbrev Funded : {A : Type 0} → (A → ℤ) → Result Failure A × Strategy → Type 0
  Funded cash_of (ok a, s) = committed config s + pos_part (cash_of a) ≤ bound
  Funded cash_of (err x, s) = committed config s ≤ bound

  Funded-bind :
      {A B : Type 0} (f : A → ℤ) (g : B → ℤ) (r : Result Failure A × Strategy) (k : A → Action B)
      → Funded f r
      → ((a : A) (t : Strategy) → committed config t + pos_part (f a) ≤ bound → Funded g (k a t))
      → Funded g (continue r k)
  Funded-bind f g (ok a, s) k h rest = rest a s h
  Funded-bind f g (err x, s) k h rest = h

  module _ (e : Engine) (quiet : IsQuiet e) (unit today reason : ℕ) where
    after_sent :
        (i : Intent) (cash : ℤ) (q : ℕ) (s : Strategy) (r : Result Failure Bool × Strategy)
        → Spent i q s r
        → cost config i q ≤ pos_part cash
        → committed config s + pos_part cash ≤ bound
        → Funded left_over
            (continue r (λ done. pure (if done then cash -ℤ pos (cost config i q) else cash, done)))
    after_sent i cash q s (ok true, t) spent le h = elim spent [
      | inl sent ↦ omega (
        arith,
        spend cash (cost config i q) le,
        ap (λ (x : ℕ). x * config.percent_scale) sent.1,
        h,
      )
      | inr unsent ↦ absurd (unsent.0 refl)
    ]
    after_sent i cash q s (ok false, t) spent le h = ground arith
    after_sent i cash q s (err x, t) spent le h = ground arith

    buy_slice-Funded :
        (i : Intent) (cash : ℤ) (any : Bool) (q : ℕ) (s : Strategy)
        → i.side ≡ buy
        → cost config i q ≤ pos_part cash
        → committed config s + pos_part cash ≤ bound
        → Funded left_over (buy_slice e unit config today reason i cash any q s)
    unfolding buy_slice
    buy_slice-Funded i cash true q s buys le h =
        after_sent i cash q s (submit_order_quantity e unit today reason i q s)
          (submit_order_quantity-Spent e quiet today reason i buys unit q s) le h
    buy_slice-Funded i cash false q s buys le h =
        after_sent i cash q (record_target i s)
          (submit_order_quantity e unit today reason i q (record_target i s))
          (submit_order_quantity-Spent e quiet today reason i buys unit q (record_target i s)) le h

    buy_slices-Funded :
        (i : Intent) (cash : ℤ) (any : Bool) (qs : List ℕ) (s : Strategy)
        → i.side ≡ buy
        → committed config s + pos_part cash ≤ bound
        → Funded left_over (buy_slices e unit config today reason i cash any qs s)
    unfolding buy_slices
    buy_slices-Funded i cash any [] s buys h = h
    buy_slices-Funded i cash any (q ∷ qs) s buys h =
        elim (Bool-cases (ltb_ℤ cash (pos (cost config i q)))) [
          | inl short ↦ rw short h
          | inr covered ↦ rw covered (
              Funded-bind left_over left_over (buy_slice e unit config today reason i cash any q s)
                _ (buy_slice-Funded i cash any q s buys (ground arith) h)
                (after (λ c t g. buy_slices-Funded i c true qs t buys g)))
        ]
      where
        after :
            ((c : ℤ) (t : Strategy)
              → committed config t + pos_part c ≤ bound
              → Funded left_over (buy_slices e unit config today reason i c true qs t))
            → (out : ℤ × Bool) (t : Strategy)
            → committed config t + pos_part (left_over out) ≤ bound
            → Funded left_over
                (after_slice (λ c. buy_slices e unit config today reason i c true qs) any out t)
        after rest (c, true) t g = rest c t g
        after rest (c, false) t g = g

    buy_candidate_slices-Funded :
        (i : Intent) (cash : ℤ) (qs : List ℕ) (s : Strategy)
        → i.side ≡ buy
        → committed config s + pos_part cash ≤ bound
        → Funded (λ c. c) (buy_candidate_slices e unit config today reason i cash qs s)
    unfolding buy_candidate_slices defer_unsent
    buy_candidate_slices-Funded i cash [] s buys h = h
    buy_candidate_slices-Funded i cash (q ∷ qs) s buys h =
        Funded-bind left_over (λ c. c)
          (buy_slices e unit config today reason i cash false (q ∷ qs) s) _
          (buy_slices-Funded i cash false (q ∷ qs) s buys h) (λ out t g. after_defer out t g)
      where
        after_defer :
            (out : ℤ × Bool) (t : Strategy)
            → committed config t + pos_part (left_over out) ≤ bound
            → committed config (defer_unsent i out.1 t) + pos_part out.0 ≤ bound
        after_defer (c, any) t g = ground arith

    buy_candidate-Funded :
        (i : Intent) (cash : ℤ) (s : Strategy)
        → committed config s + pos_part cash ≤ bound
        → Funded (λ c. c) (buy_candidate e unit config today reason i cash s)
    unfolding buy_candidate
    buy_candidate-Funded i cash s h =
        elim (Bool-cases (member i.instrument_id s.insufficient_funds)) [
          | inl latched ↦ rw latched h
          | inr free ↦ rw free (elim (Bool-cases (side_eq i.side sell)) [
            | inl sells ↦ rw sells h
            | inr other ↦ rw other (
                lift_cases (Funded (λ c. c)) (order_slices unit config i) _ s (λ x. ground arith)
                  (λ out _.
                    buy_candidate_slices-Funded i cash out s (buy_of_not_sell i.side other) h))
          ])
        ]

    buy_candidates-Funded :
        (is : List Intent) (cash : ℤ) (s : Strategy)
        → committed config s + pos_part cash ≤ bound
        → Funded (λ c. c) (buy_candidates e unit config today reason is cash s)
    unfolding buy_candidates
    buy_candidates-Funded [] cash s h = h
    buy_candidates-Funded (i ∷ is) cash s h =
        Funded-bind (λ c. c) (λ c. c) (buy_candidate e unit config today reason i cash s) _
          (buy_candidate-Funded i cash s h) (λ c t g. buy_candidates-Funded is c t g)

Funded-committed :
    {A : Type 0} (config : Config) (bound : ℕ) (f : A → ℤ) (r : Result Failure A × Strategy)
    → Funded config bound f r
    → committed config r.1 ≤ bound
Funded-committed config bound f (ok a, s) h = omega arith
Funded-committed config bound f (err x, s) h = h

net_bound :
    (net : ℤ) (used : ℕ)
    → used + pos_part (pos (pos_part (net -ℤ pos used))) ≤ max used (pos_part net)
unfolding ◌-ℤ◌
net_bound net used = ground arith

available_bound :
    (config : Config) (free : ℤ) (reserved : ℕ)
    → reserved * config.percent_scale + pos_part (available_cash config free reserved)
      ≤ max (reserved * config.percent_scale) (pos_part (free *ℤ pos (kept_share config)))
unfolding available_cash
available_bound config free zero = omega arith
available_bound config free (suc n) =
    rw (lt→ltb 0 (suc n) (omega arith))
      (net_bound (free *ℤ pos (kept_share config)) (suc n * config.percent_scale))

module _ (e : Engine) (quiet : IsQuiet e) (unit : ℕ) (config : Config) (today reason : ℕ) where
  within_cash-bounded :
      (is : List Intent) (s : Strategy) (free : ℤ)
      → committed config (within_cash e unit config today reason is (some free) s).1
        ≤ max (committed config s) (pos_part (free *ℤ pos (kept_share config)))
  unfolding within_cash
  within_cash-bounded is s free =
      Funded-committed config bound (λ _. pos 0) _
        (Funded-bind config bound (λ c. c) (λ _. pos 0)
          (buy_candidates e unit config today reason (by_target is) cash s) _
          (buy_candidates-Funded config bound e quiet unit today reason (by_target is) cash s
            (available_bound config free (open_buy_order_notional s.world)))
          (λ c t g. omega (arith, g)))
    where
      cash : ℤ
      cash = available_cash config free (open_buy_order_notional s.world)

      bound : ℕ
      bound = max (committed config s) (pos_part (free *ℤ pos (kept_share config)))

-- On a quiet engine with a known free cash, whatever the gate does and however it ends, the money committed to open buy
-- orders stays within the free cash that the buffer leaves, or within what was committed before.
pub submit_buys_within_cash_bounded :
    (e : Engine) (quiet : IsQuiet e) (unit : ℕ) (config : Config) (today reason : ℕ)
    (is : List Intent) (s : Strategy) {free : ℤ}
    → s.world.free_cash ≡ some free
    → open_buy_order_notional (submit_buys_within_cash e unit config today reason is s).1.world
        * config.percent_scale
      ≤ max
          (open_buy_order_notional s.world * config.percent_scale)
          (pos_part (free *ℤ pos (kept_share config)))
unfolding submit_buys_within_cash
submit_buys_within_cash_bounded e quiet unit config today reason [] s h = omega arith
submit_buys_within_cash_bounded e quiet unit config today reason (i ∷ is) s {free} h =
    subst
      (λ o.
        committed config (within_cash e unit config today reason (i ∷ is) o s).1
        ≤ max (committed config s) (pos_part (free *ℤ pos (kept_share config))))
      (sym h) (within_cash-bounded e quiet unit config today reason (i ∷ is) s free)
