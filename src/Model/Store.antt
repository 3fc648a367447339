-- ===== src/Model/Store.antt =====
-- The stored targets of a day: `persist_strategy_target_plan`, `_persist_target_plan` and
-- `_load_target` of lives/snapshot_recorder.py, `load_target_portfolios` and
-- `write_target_portfolios` of backtests/result_writers/live_writer.py, and
-- `_target_quantities_from_live_target_rows` and `_plan_version` of
-- strategies/model_prediction_targets.py. Of a row the audit columns are left out.
pub mod Rows
pub mod Roundtrip
pub mod Tests
use qapp.Base.{
  ℕ, ◌≡◌, ◌≢◌, Bool, true, false, not, Option, none, some, List, [], ◌∷◌, ◌==◌, if◌then◌else◌, All,
  Dict, insert, length, map, is_nil, Result, ok, err, ◌>>=◌,
}
use qapp.Base.Int.{ℤ, pos, negsuc}
use qapp.Strategy.Types.{Version, of_model}
use qapp.Strategy.Targets.{total, version_or}
use qapp.Model.Plans.{TargetInfo, ModelTargetPlan, Texts}
use qapp.Model.Local.{target_quantities_from_plan}

pub data SnapshotType : Type 0 where
  before_trading continuous_trading : SnapshotType

-- The account and the trader are fixed.
pub record Key : Type 0 where
  pub trade_date : ℕ
  pub signal_date : Option ℕ
  pub snapshot_type : SnapshotType

-- A row of `live_target_portfolio`; 0 is a missing or empty text.
pub record TargetRow : Type 0 where
  pub instrument_id : ℕ
  pub stock_code : ℕ
  pub request_id : Option ℕ
  pub target_qty : Option ℤ
  pub current_qty : Option ℤ
  pub target_version : Option Version
  pub is_locked : Option Bool
  pub reason : ℕ

-- The database: a query of the rows under a key, and an insertion that replaces rows of the same key
-- and instrument; `none` is an error, which leaves it as it was.
pub record Database (T : Type 0) : Type 0 where
  pub select : Key → T → Option (List TargetRow)
  pub upsert : Key → List TargetRow → T → Option T

-- The same rows in some order.
pub data Rearranged : List TargetRow → List TargetRow → Type 0 where
  none_left : Rearranged [] []
  same_first :
      {rs qs : List TargetRow} (r : TargetRow) → Rearranged rs qs → Rearranged (r ∷ rs) (r ∷ qs)
  exchanged : {rs : List TargetRow} (r q : TargetRow) → Rearranged (r ∷ q ∷ rs) (q ∷ r ∷ rs)
  in_turn : {rs qs ps : List TargetRow} → Rearranged rs qs → Rearranged qs ps → Rearranged rs ps

-- No instrument twice.
abbrev pub IsDistinct : List TargetRow → Type 0
IsDistinct [] = Unit
IsDistinct (r ∷ rs) = All (λ q. r.instrument_id ≢ q.instrument_id) rs × IsDistinct rs

-- Rows that are inserted where there were none are found again, in some order, and those of another
-- snapshot type stay.
pub record IsDatabase {T : Type 0} (db : Database T) : Type 0 where
  pub finds :
      (key : Key) (rows : List TargetRow) (t t' : T)
      → IsDistinct rows
      → db.select key t ≡ some []
      → db.upsert key rows t ≡ some t'
      → (found : List TargetRow) × (db.select key t' ≡ some found) × Rearranged rows found
  pub keeps :
      (trade_date : ℕ) (signal_date : Option ℕ) (rows : List TargetRow) (t t' : T)
      → db.upsert
          (record {
            trade_date = trade_date;
            signal_date = signal_date;
            snapshot_type = continuous_trading;
          })
          rows
          t
        ≡ some t'
      → let other : Key = record {
        trade_date = trade_date;
        signal_date = signal_date;
        snapshot_type = before_trading;
      } in
        db.select other t' ≡ db.select other t

-- What the rows of a day say.
pub record LoadedTarget : Type 0 where
  pub quantities : Dict ℕ
  pub reason : ℕ
  pub version : Option Version

pub data RowError : Type 0 where
  empty_instrument_id negative_target_qty no_target_qty : RowError

-- `if version is None and row.get("target_version")`
abbrev pub first_version : Option Version → Option Version → Option Version
first_version none found = found
first_version (some version) found = some version

-- `if row.get("reason")`
abbrev pub last_reason : ℕ → ℕ → ℕ
last_reason reason found = if found == 0 then reason else found

module _ (texts : Texts) where
  unfoldable pub note_row : ℕ → Option ℤ → TargetRow → LoadedTarget → Result RowError LoadedTarget
  note_row id none row loaded = ok loaded
  note_row id (some (negsuc _)) row loaded = err negative_target_qty
  note_row id (some (pos quantity)) row loaded = ok (record {
    quantities = insert id quantity loaded.quantities;
    reason = last_reason loaded.reason row.reason;
    version = first_version loaded.version row.target_version;
  })

  -- The body of the loop of `_target_quantities_from_live_target_rows`.
  unfoldable pub read_row : TargetRow → LoadedTarget → Result RowError LoadedTarget
  read_row row loaded =
      let id = texts.strip row.instrument_id in
      if id == 0 then err empty_instrument_id else note_row id row.target_qty row loaded

  unfoldable pub read_rows : List TargetRow → LoadedTarget → Result RowError LoadedTarget
  read_rows [] loaded = ok loaded
  read_rows (row ∷ rows) loaded = read_row row loaded >>= read_rows rows

  abbrev pub unless_empty : LoadedTarget → Result RowError LoadedTarget
  unless_empty loaded = if is_nil loaded.quantities then err no_target_qty else ok loaded

  -- `_target_quantities_from_live_target_rows`, with the text `loaded_target`.
  unfoldable pub target_quantities_from_live_target_rows :
      ℕ → List TargetRow → Result RowError LoadedTarget
  target_quantities_from_live_target_rows loaded_target rows =
      read_rows rows (record { quantities = []; reason = loaded_target; version = none })
      >>= unless_empty

-- `_plan_version`
unfoldable pub plan_version : {W : Type 0} → ModelTargetPlan W → Version
plan_version plan =
    let quantities = target_quantities_from_plan plan in
    of_model plan.trading_date plan.signal_date (length quantities) (total quantities)

-- The record of a target in `_persist_target_plan`.
unfoldable pub target_record : {W : Type 0} → Option ℕ → ℕ → Version → TargetInfo W → TargetRow
target_record request_id reason version t = record {
  instrument_id = t.instrument_id;
  stock_code = t.stock_code;
  request_id = request_id;
  target_qty = elim t.quantity [ none ↦ none | some quantity ↦ some (pos quantity) ];
  current_qty = t.target_context.current_qty;
  target_version = some (version_or t.target_version version);
  is_locked = t.is_locked;
  reason = reason;
}

unfoldable pub target_records : {W : Type 0} → ModelTargetPlan W → List TargetRow
target_records plan =
    map (target_record plan.request_id plan.reason (plan_version plan)) plan.targets

-- `plan.signal_date or signal_date`
abbrev pub or_date : Option ℕ → Option ℕ → Option ℕ
or_date none date = date
or_date (some date) _ = some date

-- A write that raised, or is done.
abbrev pub written : {T : Type 0} → T → Option T → Bool × T
written t none = (false, t)
written t (some t') = (true, t')

module _ {T : Type 0} (db : Database T) where
  abbrev pub next_type : Key → T → List TargetRow → Option (List TargetRow)
  next_type key t [] = db.select (record key { snapshot_type = continuous_trading }) t
  next_type key t (row ∷ rows) = some (row ∷ rows)

  -- `load_target_portfolios` with before-trading rows first and continuous ones after them.
  unfoldable pub load_target_portfolios : ℕ → Option ℕ → T → Option (List TargetRow)
  load_target_portfolios trading_date signal_date t =
      let key : Key = record {
        trade_date = trading_date;
        signal_date = signal_date;
        snapshot_type = before_trading;
      } in
      elim (db.select key t) [ none ↦ none | some rows ↦ next_type key t rows ]

  -- `_load_target`
  unfoldable pub load_target : ℕ → Option ℕ → T → List TargetRow
  load_target trading_date signal_date t =
      elim (load_target_portfolios trading_date signal_date t) [ none ↦ [] | some rows ↦ rows ]

  -- The write of `_persist_target_plan`, and whether it is done.
  unfoldable pub write_records : Key → List TargetRow → T → Bool × T
  write_records key [] t = (true, t)
  write_records key (r ∷ rs) t = written t (db.upsert key (r ∷ rs) t)

  module _ {W : Type 0} where
    -- `_persist_target_plan` up to the application of the target.
    unfoldable pub persist_target_plan : ModelTargetPlan W → SnapshotType → Option ℕ → T → Bool × T
    persist_target_plan plan snapshot_type signal_date t =
        write_records
          (record {
            trade_date = plan.trading_date;
            signal_date = or_date plan.signal_date signal_date;
            snapshot_type = snapshot_type;
          })
          (target_records plan) t

    -- `persist_strategy_target_plan`
    unfoldable pub persist_strategy_target_plan : ModelTargetPlan W → T → Bool × T
    persist_strategy_target_plan plan t =
        if not plan.persistable
        then (false, t)
        else if not (is_nil (load_target plan.trading_date plan.signal_date t))
        then (true, t)
        else persist_target_plan plan continuous_trading plan.signal_date t
