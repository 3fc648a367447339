-- ===== src/Strategy/Targets/Days.antt =====
-- The roll to a new trading day.
use qapp.Base.{ℕ, ◌≡◌, refl, ap, ◌∙◌, ==_iff, true, false, some, Bool-cases, inl, inr}
use qapp.Strategy.Types.{Config, Strategy}
use qapp.Strategy.Submit.{Engine}
use qapp.Strategy.Windows.{is_on, within_trading_window}
use qapp.Strategy.Windows.Session.{no_event_closes}
use qapp.Strategy.Targets.{roll_trading_day}

is_on-some : (d : ℕ) → is_on (some d) d ≡ true
is_on-some d = (==_iff d d).1 refl

module _ (e : Engine) (d : ℕ) where
  same_day : (s : Strategy) → is_on s.trading_day d ≡ true → roll_trading_day e d s ≡ s
  unfolding roll_trading_day
  same_day s same = rw same refl

  rolled_day : (s : Strategy) → is_on (roll_trading_day e d s).trading_day d ≡ true
  unfolding roll_trading_day
  rolled_day s = elim (Bool-cases (is_on s.trading_day d)) [
    | inl same ↦ ap (λ t. is_on t.trading_day d) (same_day s same) ∙ same
    | inr new ↦ rw new (is_on-some d)
  ]

  -- Rolling to the same trading day a second time changes nothing.
  pub roll_trading_day_twice :
      (s : Strategy) → roll_trading_day e d (roll_trading_day e d s) ≡ roll_trading_day e d s
  roll_trading_day_twice s = same_day (roll_trading_day e d s) (rolled_day s)

  stale_quote_reset :
      (s : Strategy)
      → is_on s.trading_day d ≡ false
      → is_on (e.date_of s.last_quote_tick_ts_event) d ≡ false
      → (roll_trading_day e d s).last_quote_tick_ts_event ≡ 0
  unfolding roll_trading_day
  stale_quote_reset s new stale = rw (new, stale) refl

  -- After a roll to a new trading day, a last quote tick of another date does not open the trading
  -- gate.
  pub stale_quote_closes_gate :
      (config : Config) (s : Strategy)
      → is_on s.trading_day d ≡ false
      → is_on (e.date_of s.last_quote_tick_ts_event) d ≡ false
      → within_trading_window e config (roll_trading_day e d s) 0 ≡ false
  stale_quote_closes_gate config s new stale =
      no_event_closes e config (roll_trading_day e d s) (stale_quote_reset s new stale)
