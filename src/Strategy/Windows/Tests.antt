-- ===== src/Strategy/Windows/Tests.antt =====
-- Runs of the trading gate, and instances of its theorems.
use qapp.Base.{◌≡◌, refl, ◌↔◌, true, false, some}
use qapp.Strategy.Types.{Strategy}
use qapp.Strategy.Windows.{
  window_index_from, time_window_index, local_trading_window_index, event_in_session,
  within_trading_window, stop_time_reached,
}
use qapp.Strategy.Windows.Session.{
  FirstAt, Open, time_window_index-FirstAt, within_trading_window-Open,
}
use qapp.Strategy.Samples.{engine, config, strategy, world}

-- The clock at 70 and a tick at 65 stand in the second session of both lists.
abbrev afternoon : Strategy
afternoon = record strategy {
  world = record world { time_of_day = some 70 };
  last_quote_tick_ts_event = 565;
}

gate_runs :
    (within_trading_window engine config afternoon 0 ≡ true)
    × (within_trading_window engine config strategy 0 ≡ false)
    × (stop_time_reached engine config world ≡ false)
unfolding within_trading_window event_in_session local_trading_window_index time_window_index
    window_index_from stop_time_reached
gate_runs = (refl, refl, refl)

time_window_index-FirstAt_example :
    (time_window_index 70 config.exchange_trading_windows ≡ some 1)
    ↔ FirstAt 70 1 config.exchange_trading_windows
time_window_index-FirstAt_example = time_window_index-FirstAt 70 config.exchange_trading_windows 1

within_trading_window-Open_example : Open engine config afternoon 565
unfolding within_trading_window event_in_session local_trading_window_index time_window_index
    window_index_from
within_trading_window-Open_example = within_trading_window-Open engine config afternoon 0 refl
