-- ===== src/Strategy/Cash.antt =====
-- The cash gate of the buys, strategies/target_quantities.py: `_submit_buys_within_cash`.
-- Money is counted in the unit of a quantity times a price, divided by `percent_scale`, so the cash
-- left by the buffer is exact.
pub mod Gate
pub mod Tests
use qapp.Base.{
  ℕ, zero, suc, ◌+◌, ◌-◌, ◌*◌, ◌≤◌, min, Bool, true, false, not, ◌&&◌, ◌||◌, Option, none, some,
  List, [], ◌∷◌, ◌++◌, ltb, leb, if◌then◌else◌, lookup, insert, erase, member, Result, ok, err,
}
use qapp.Base.Int.{ℤ, pos, negsuc, pos_part, ltb_ℤ, ◌-ℤ◌, ◌*ℤ◌}
use qapp.Strategy.Types.{
  Side, buy, sell, Intent, Config, Strategy, deferred, skipped, missing_free_cash,
  insufficient_cash, no_legal_order_quantity, Failure,
}
use qapp.Strategy.Monad.{Action, pure, gets, lift, modify, ◌>>=◌, ◌>>◌}
use qapp.Strategy.Orders.{open_buy_order_notional, side_eq}
use qapp.Strategy.Submit.{Engine, add_row, is_some, order_slices, submit_order_quantity}

-- `self._deferred_buys[instrument_id] = target_qty`
abbrev pub defer : Intent → Strategy → Strategy
defer i s = record s { deferred_buys = insert i.instrument_id i.target_qty s.deferred_buys }

-- `_record_target`
abbrev pub record_target : Intent → Strategy → Strategy
record_target i s = record s { target_events = (i.instrument_id, i.target_qty) ∷ s.target_events }

-- The loop of the case that free cash is unknown.
pub defer_all : ℕ → List Intent → Strategy → Strategy
defer_all today [] s = s
defer_all today (i ∷ is) s =
    defer_all today is (add_row today i buy 0 deferred missing_free_cash (defer i s))

-- `sorted(..., key=target_qty, reverse=True)`, which is stable.
pub place : Intent → List Intent → List Intent
place i [] = i ∷ []
place i (j ∷ js) = if leb j.target_qty i.target_qty then i ∷ j ∷ js else j ∷ place i js

pub by_target : List Intent → List Intent
by_target [] = []
by_target (i ∷ is) = place i (by_target is)

-- `max(0.0, cash_buffer_percent)`, capped at one, as the share of the cash that is kept for buys.
pub kept_share : Config → ℕ
kept_share config = config.percent_scale - min (pos_part config.cash_buffer) config.percent_scale

-- Free cash after the buffer and the open buy orders.
pub available_cash : Config → ℤ → ℕ → ℤ
available_cash config free reserved =
    let net = free *ℤ pos (kept_share config) in
    if ltb 0 reserved then pos (pos_part (net -ℤ pos (reserved * config.percent_scale))) else net

-- `_estimated_order_cost`
abbrev pub cost : Config → Intent → ℕ → ℕ
cost config i q = q * i.price * config.percent_scale

-- The cash that is left after a slice.
abbrev pub left_over : ℤ × Bool → ℤ
left_over (cash, done) = cash

-- `if not submitted: break`
abbrev pub after_slice : (ℤ → Action (ℤ × Bool)) → Bool → ℤ × Bool → Action (ℤ × Bool)
after_slice rest any (cash, true) = rest cash
after_slice rest any (cash, false) = pure (cash, any)

-- `if not submitted_any and instrument_id not in self._deferred_buys`
pub defer_unsent : Intent → Bool → Strategy → Strategy
defer_unsent i any s =
    if any || is_some (lookup i.instrument_id s.deferred_buys) then s else defer i s

module _ (e : Engine) (unit : ℕ) (config : Config) (today reason : ℕ) where
  -- One slice that the cash covers: the order is sent, and the cash is spent if it was accepted.
  pub buy_slice : Intent → ℤ → Bool → ℕ → Action (ℤ × Bool)
  buy_slice i cash any q s =
      (do
        modify (if any then (λ t. t) else record_target i)
        done ← submit_order_quantity e unit today reason i q
        pure (if done then cash -ℤ pos (cost config i q) else cash, done))
        s

  -- The loop over the slices of a candidate: the cash that is left, and `submitted_any`. It ends at
  -- the first slice that the cash does not cover or that is not submitted.
  pub buy_slices : Intent → ℤ → Bool → List ℕ → Action (ℤ × Bool)
  buy_slices i cash any [] = pure (cash, any)
  buy_slices i cash any (q ∷ qs) =
      if ltb_ℤ cash (pos (cost config i q))
      then (modify (λ s. add_row today i buy 0 deferred insufficient_cash (defer i s))
          >> pure (cash, any))
      else (buy_slice i cash any q >>= after_slice (λ c. buy_slices i c true qs) any)

  -- From `if not slices:` on.
  pub buy_candidate_slices : Intent → ℤ → List ℕ → Action ℤ
  buy_candidate_slices i cash [] =
      modify (λ s.
        add_row today i buy 0 skipped no_legal_order_quantity
          (record s { deferred_buys = erase i.instrument_id s.deferred_buys }))
      >> pure cash
  buy_candidate_slices i cash (q ∷ qs) =
      buy_slices i cash false (q ∷ qs) >>= λ out. modify (defer_unsent i out.1) >> pure out.0

  -- One round of the loop over the candidates: the cash that is left.
  pub buy_candidate : Intent → ℤ → Action ℤ
  buy_candidate i cash s =
      if member i.instrument_id s.insufficient_funds
      then (ok cash, defer i s)
      else if side_eq i.side sell
      then (ok cash, s)
      else (lift (order_slices unit config i) >>= buy_candidate_slices i cash) s

  pub buy_candidates : List Intent → ℤ → Action ℤ
  buy_candidates [] cash = pure cash
  buy_candidates (i ∷ is) cash = buy_candidate i cash >>= buy_candidates is

  -- The cases of `self._free_cash()`.
  pub within_cash : List Intent → Option ℤ → Action (Unit {0})
  within_cash is none s = (ok tt, defer_all today is s)
  within_cash is (some free) s =
      (buy_candidates (by_target is) (available_cash config free (open_buy_order_notional s.world))
          >>= λ _. pure tt)
        s

  -- `_submit_buys_within_cash`; `buy_intents` in the order of the dict.
  pub submit_buys_within_cash : List Intent → Action (Unit {0})
  submit_buys_within_cash [] s = (ok tt, s)
  submit_buys_within_cash (i ∷ is) s = within_cash (i ∷ is) s.world.free_cash s
