-- ===== src/Lib.antt =====
-- The trading core of qapp, an equity trading application on the Nautilus framework: the convergence
-- engine that drives the positions of an account to target share counts, the splitter that cuts its
-- orders to the exchange's quantity rules, and the manual controls.
--
-- The parts and how they interact. A target map (instrument to share count) comes in by
-- `update_target_quantities` or by a manual sale. A convergence cycle, started by an update, a timer, a
-- market event or an order event, classifies every desired instrument, submits the sells clamped to
-- what may be sold, and submits the buys within the free cash; both paths cut a quantity into legal
-- orders with the splitter. Order events keep latches that later cycles read: instruments blocked for
-- missing cash, instruments with nothing left to sell today, and the times of cancelled sells. A
-- convergence waits for the reconciler, which fetches the broker's sellable figures. Once on each
-- trading day the model strategy takes up the targets that the store has for the day, or asks the risk
-- manager for a plan, corrects it by the exits that are due, stores it and hands it over as a target map.
--
-- Which file models which part:
-- - Base and the files under it: Boolean tests, lists, Python dicts and sets as association lists,
--   results, integers and decimals.
-- - Splitter: strategies/order_splitter/notional_order_splitter.py. `from_instrument` is in
--   Splitter/Fields; `split` is cut into `slice`, `cut`, `top_up`, `move_from_end` where its body is.
-- - Strategy: strategies/target_quantities.py. Strategy/Types has the fields of the object and of what
--   it reads; Strategy/Monad its methods as functions of the object that may raise, which keep what
--   was written before a raise. Orders: `_active_orders`, `_open_sell_quantity`,
--   `_open_buy_order_notional`, `_today_fill_snapshot`. Submit: `_clamp_sell_quantity`,
--   `_submit_order_quantity`, `_order_slices`, `_submit_target_quantity`. Cash:
--   `_submit_buys_within_cash`. Windows: `_time_window_index`, `_within_trading_window`,
--   `_stop_time_reached`. Events: `on_order_filled`, `on_order_canceled`, `_handle_order_not_accepted`.
--   Unfilled: `_reconcile_unfilled_orders`. Converge: `_converge_to_target` and
--   `_converge_to_target_locked` with what they call; Converge/Desired: `_desired_quantities`,
--   `_held_instrument_ids`, `_target_achieved`; Converge/Placed has where a cycle puts an instrument,
--   Converge/Achieved the cycle after an achieved target. Events/Replay has sequences of events.
-- - Strategy/Targets: `update_target_quantities` and `_roll_trading_day`; Strategy/Targets/Manual:
--   `sell` of strategies/trading_control.py with `control_apply_targets`.
-- - Reconciler: strategies/execution_reconciliation.py, `ExecutionStateReconciler`: its operations
--   (`run`, `_on_done`, `update_from_mass_status`, `_next_daily_time`) as functions of its fields; a
--   cancelled asyncio task, whose `CancelledError` passes through `_on_done`, is left out.
--   Reconciler/Gate has the steps of the object and what they do to the convergence's gate.
-- - Model: strategies/model_prediction_targets.py and what it calls. Model/Plans: the data of
--   strategies/model_target_planners/base.py. Model/Calendar: strategies/model_common.py.
--   Model/Planner: strategies/model_target_planners/risk_manager.py, `_post_json` and `plan`.
--   Model/Local: `_target_plan`, `_local_safety_plan`, `_apply_forced_exit_overrides`,
--   `_annotate_plan`. Model/Store: the stored targets, `persist_strategy_target_plan` and
--   `_persist_target_plan` of lives/snapshot_recorder.py, `load_target_portfolios` of
--   backtests/result_writers/live_writer.py and `_target_quantities_from_live_target_rows`.
--   Model/Day: `_process_trading_day_once`, `_process_trading_day` and the end of
--   `refresh_reference_data`. Model/Candidates:
--   `_build_candidates` and `_entry_skip_reason`. Model/Recorder: `_ensure_daily_target` of
--   lives/snapshot_recorder.py with what it calls. Model/Exclusion: `_holding_exclusion`,
--   `_update_trailing_state` and the adjusted prices. Model/Holdings: `_build_current_holdings`;
--   Model/Holdings/Frame,
--   Rule, Forced and Due go from its exit rules to the targets of the plan. Model/Recency:
--   `_recent_holding_days` and `_recent_target_cutoff_date`. Model/Seeding:
--   `_seed_active_positions_from_portfolio`, `_recent_target_dates`, `_position_span_start_dates`.
--
-- Conventions. Quantities and prices are whole numbers of Decimal units, `unit` of which make a share;
-- a dict is a list of pairs in insertion order; identifiers, dates and texts that are only compared are
-- numbers. Every loop of the code runs over a list, so its model is a structural recursion and needs no
-- fuel; the attempts of `_post_json` are counted down from the six that the code allows. Floats that the
-- model targets carry are a type `W`, with the tests and the arithmetic of `Floats` in Model/Plans, of
-- which no law is used. The cash buffer is an exact share of `percent_scale`, where the code rounds a
-- float. Quantities are whole shares, which `int` keeps: the `int` of `_held_quantities` and of the
-- total in `target_version` is left out.
--
-- What is a parameter: the framework (`Engine` in Strategy/Submit: the cache changes of other threads,
-- order identifiers, `submit_order`, `cancel_order`, the exchange-local date and time of a time stamp, and what other
-- threads have done when a forced convergence has waited for the lock),
-- and the market's part (`Market` in Strategy/Unfilled: the pricers' limit price, the buy price cap and
-- the effective timeout, which strategies/pricing and the price trend give). `IsQuiet` in
-- Strategy/Submit/Limit is what two theorems rely on: no other thread changes the cache meanwhile, and
-- `submit_order` refuses a used identifier and else adds the order to the cache.
--
-- Of the reconciler the call of the broker (`Reply`) and whether a task is done; of the model targets
-- pandas' `searchsorted` (`IsSearch` is its documented result), the replies of the risk manager's
-- service, `str.strip` and `str.upper`, and the database (`Database` in Model/Store; `IsDatabase`: rows
-- inserted under a key that has none are found there in some order, and those of another snapshot type
-- stay), the names of instruments and tests on texts. `Planning` in Model/Day stands for
-- `compute_daily_target_plan`, of which Model/Candidates, Model/Holdings and Model/Local have the
-- candidates, the holdings and what is done with the request. The loaders of the recent target dates
-- and of the span starts are parameters (`Loader` in Model/Seeding).
--
-- What is not modelled: the pricers and the price trend, the full-tick refreshes, the account sizing,
-- the asset figures of the planning request, the signal of an exclusion and the shadow of the stop
-- loss, the recorder's snapshots, the live nodes, backtests, web pages and scripts. Logging, audit
-- details that no decision reads, and the code that replaces a failing cache call by an empty answer are left out. A handler returns the convergence that
-- it schedules in place of running it.
pub mod Base
pub mod Model
pub mod Reconciler
pub mod Splitter
pub mod Strategy
