-- ===== src/Strategy/Windows.antt =====
-- The trading gates, strategies/target_quantities.py: `_time_window_index`, `_within_trading_window`
-- and `_stop_time_reached`. Times of day are numbers; both ends of a session belong to it.
pub mod Session
pub mod Tests
use qapp.Base.{
  ℕ, zero, suc, Bool, true, false, not, ◌&&◌, Option, none, some, List, [], ◌∷◌, leb, ltb, ◌==◌,
  if◌then◌else◌,
}
use qapp.Strategy.Types.{World, Config, Strategy}
use qapp.Strategy.Submit.{Engine}

abbrev pub in_session : ℕ → ℕ × ℕ → Bool
in_session t w = leb w.0 t && leb t w.1

-- The loop of `_time_window_index` from position `index`; a session that does not parse is passed
-- over, and keeps its position.
pub window_index_from : ℕ → ℕ → List (Option (ℕ × ℕ)) → Option ℕ
window_index_from index t [] = none
window_index_from index t (none ∷ ws) = window_index_from (suc index) t ws
window_index_from index t (some w ∷ ws) =
    let rest = window_index_from (suc index) t ws in if in_session t w then some index else rest

pub time_window_index : ℕ → List (Option (ℕ × ℕ)) → Option ℕ
unfolding window_index_from
time_window_index = window_index_from 0

-- Without a local time the first session is taken.
abbrev pub index_at : Config → Option ℕ → Option ℕ
index_at config none = some 0
index_at config (some t) = time_window_index t config.trading_windows

-- `_local_trading_window_index`
pub local_trading_window_index : Config → World → Option ℕ
local_trading_window_index config w = index_at config w.time_of_day

-- `int(ts_event or 0) or self._last_quote_tick_ts_event`
abbrev pub event_time : ℕ → ℕ → ℕ
event_time zero last_quote = last_quote
event_time (suc n) last_quote = suc n

abbrev pub same_index : Option ℕ → Option ℕ → Bool
same_index none session = false
same_index (some i) none = true
same_index (some i) (some j) = i == j

abbrev pub is_on : Option ℕ → ℕ → Bool
is_on none today = false
is_on (some d) today = d == today

module _ (e : Engine) (config : Config) where
  -- `_within_exchange_trading_time`, for the timestamp of an exchange event.
  pub event_in_session : World → ℕ → Option ℕ → Bool
  event_in_session w zero session = false
  event_in_session w (suc n) session =
      is_on (e.date_of (suc n)) w.clock_date && elim (e.time_of (suc n)) [
        | none ↦ false
        | some t ↦ same_index (time_window_index t config.exchange_trading_windows) session
      ]

  -- `_within_trading_window`; `ts_event` is 0 where none is passed.
  pub within_trading_window : Strategy → ℕ → Bool
  within_trading_window s ts_event = elim (local_trading_window_index config s.world) [
    | none ↦ false
    | some index ↦
        event_in_session s.world (event_time ts_event s.last_quote_tick_ts_event) (some index)
  ]

  pub stop_time_reached : World → Bool
  stop_time_reached w = elim config.stop_time [
    | none ↦ false
    | some stop ↦ elim w.time_of_day [ none ↦ false | some now ↦ leb stop now ]
  ]
