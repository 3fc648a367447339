-- ===== src/Model/Store/Tests.antt =====
-- A database in memory that meets the laws, and a plan that it stores.
use qapp.Base.{
  ℕ, ◌≡◌, ◌≢◌, refl, sym, ap, ◌∙◌, arith, Bool, true, false, ◌&&◌, Option, none, some, List, [],
  ◌∷◌, ◌==◌, if◌then◌else◌, if_false, All, lookup, IsDict, ok,
}
use qapp.Strategy.Targets.{same_date}
use qapp.Model.Plans.{TargetInfo, ModelTargetPlan}
use qapp.Model.Planner.{no_context}
use qapp.Model.Local.{quantities_from, target_quantities_from_plan}
use qapp.Model.Samples.{texts}
use qapp.Model.Store.{
  SnapshotType, before_trading, continuous_trading, Key, TargetRow, Rearranged, none_left,
  same_first, IsDistinct, Database, IsDatabase, LoadedTarget, note_row, read_row, read_rows,
  target_quantities_from_live_target_rows, plan_version, target_record, target_records,
  load_target_portfolios, load_target, write_records, persist_target_plan,
  persist_strategy_target_plan,
}
use qapp.Model.Store.Roundtrip.{persisted_plan_is_reloaded}

program : Unit {0}
unfolding quantities_from target_quantities_from_plan note_row read_row read_rows
    target_quantities_from_live_target_rows plan_version target_record target_records
    load_target_portfolios load_target write_records persist_target_plan
    persist_strategy_target_plan
program = tt

abbrev same_type : SnapshotType → SnapshotType → Bool
same_type before_trading before_trading = true
same_type continuous_trading continuous_trading = true
same_type _ _ = false

abbrev same_key : Key → Key → Bool
same_key k j =
    same_type k.snapshot_type j.snapshot_type
    && (k.trade_date == j.trade_date && same_date k.signal_date j.signal_date)

abbrev remove : ℕ → List TargetRow → List TargetRow
remove id [] = []
remove id (r ∷ rs) = let rest = remove id rs in if id == r.instrument_id then rest else r ∷ rest

abbrev merge : List TargetRow → List TargetRow → List TargetRow
merge [] old = old
merge (r ∷ rs) old = r ∷ remove r.instrument_id (merge rs old)

-- The rows by their keys.
abbrev pub Memory : Type 0
Memory = Key → List TargetRow

abbrev stored_in : Key → List TargetRow → Memory → Memory
stored_in key rows t k = if same_key key k then merge rows (t k) else t k

abbrev pub memory : Database Memory
memory = record {
  select = λ key t. some (t key);
  upsert = λ key rows t. some (stored_in key rows t);
}

remove-fresh :
    (r : TargetRow) (rs : List TargetRow)
    → All (λ q. r.instrument_id ≢ q.instrument_id) rs
    → remove r.instrument_id rs ≡ rs
remove-fresh r [] h = refl
remove-fresh r (q ∷ qs) h =
    if_false (r.instrument_id == q.instrument_id) _ _ (ground (arith, h.0))
    ∙ ap (λ l. q ∷ l) (remove-fresh r qs h.1)

merge-new : (rs : List TargetRow) → IsDistinct rs → merge rs [] ≡ rs
merge-new [] h = refl
merge-new (r ∷ rs) h =
    ap (λ l. r ∷ remove r.instrument_id l) (merge-new rs h.1)
    ∙ ap (λ l. r ∷ l) (remove-fresh r rs h.0)

same_date_refl : (d : Option ℕ) → same_date d d ≡ true
same_date_refl none = refl
same_date_refl (some d) = ground arith

same_key_refl : (k : Key) → same_key k k ≡ true
same_key_refl k = by_type k.snapshot_type
  where
    by_type :
        (s : SnapshotType)
        → (same_type s s && (k.trade_date == k.trade_date && same_date k.signal_date k.signal_date))
          ≡ true
    by_type before_trading = ground (arith, same_date_refl k.signal_date)
    by_type continuous_trading = ground (arith, same_date_refl k.signal_date)

rearranged-refl : (rs : List TargetRow) → Rearranged rs rs
rearranged-refl [] = none_left
rearranged-refl (r ∷ rs) = same_first r (rearranged-refl rs)

done :
    (key : Key) (rows : List TargetRow) (t t' : Memory)
    → memory.upsert key rows t ≡ some t'
    → stored_in key rows t ≡ t'
done key rows t t' e = ap (λ (o : Option Memory). elim o [ none ↦ t | some u ↦ u ]) e

pub memory-IsDatabase : IsDatabase memory
memory-IsDatabase = record {
  finds = λ key rows t t' distinct empty e. (
    rows,
    ap some (
        ap (λ (u : Memory). u key) (sym (done key rows t t' e))
        ∙ (ap (λ b. if b then merge rows (t key) else t key) (same_key_refl key)
            ∙ (ap
                  (λ (o : Option (List TargetRow)). elim o [
                    | none ↦ []
                    | some old ↦ merge rows old
                  ])
                  empty
                ∙ merge-new rows distinct))),
    rearranged-refl rows,
  );
  keeps = λ trade_date signal_date rows t t' e.
      ap
        (λ (u : Memory). some (
          u (record {
            trade_date = trade_date;
            signal_date = signal_date;
            snapshot_type = before_trading;
          })))
        (sym (
          done
            (record {
              trade_date = trade_date;
              signal_date = signal_date;
              snapshot_type = continuous_trading;
            })
            rows t t' e));
}

abbrev target : ℕ → Option ℕ → TargetInfo ℕ
target id quantity = record {
  stock_code = 100;
  weight = none;
  quantity = quantity;
  target_context = no_context;
  target_version = none;
  instrument_id = id;
  is_locked = none;
}

abbrev pub plan : ModelTargetPlan ℕ
plan = record {
  trading_date = 7;
  signal_date = some 6;
  targets = target 7 (some 0) ∷ target 8 none ∷ target 9 (some 200) ∷ [];
  reason = 1;
  request_id = some 2;
  total_asset = none;
  investable_asset = none;
  persistable = true;
  degraded_reason = none;
}

abbrev nothing : Memory
nothing _ = []

abbrev after : Memory
after = (persist_strategy_target_plan memory plan nothing).1

reload_run :
    target_quantities_from_live_target_rows texts 5 (load_target memory 7 (some 6) after)
    ≡ ok (record {
      quantities = (7, 0) ∷ (9, 200) ∷ [];
      reason = 1;
      version = some (plan_version plan);
    })
unfolding program
reload_run = refl

persisted_plan_is_reloaded_example :
    (found : List TargetRow) × (loaded : LoadedTarget) × (load_target_portfolios memory 7
        (some 6)
        after
      ≡ some found)
    × (target_quantities_from_live_target_rows texts 5 found ≡ ok loaded)
    × (loaded.reason ≡ 1)
    × (loaded.version ≡ some (plan_version plan))
    × IsDict loaded.quantities
    × ((i : ℕ) → lookup i loaded.quantities ≡ lookup i (target_quantities_from_plan plan))
unfolding program
persisted_plan_is_reloaded_example =
    persisted_plan_is_reloaded memory memory-IsDatabase plan texts 5 nothing after 9 200
      (ground arith) (ground arith) (omega arith) refl refl (refl, refl) refl
