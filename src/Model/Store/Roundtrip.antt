-- ===== src/Model/Store/Roundtrip.antt =====
-- A plan that is persisted and loaded again, lives/snapshot_recorder.py.
use mathlib.Core.Path.{subst}
use qapp.Base.{
  ℕ, ◌≡◌, ◌≢◌, refl, sym, ap, ◌∙◌, inl, inr, true, false, not, Option, none, some, List, [], ◌∷◌,
  All, Dict, IsDict, lookup, map, is_nil, ok, err, ◌>>=◌, if_false, else_else,
}
use qapp.Base.Int.{pos}
use qapp.Strategy.Types.{Version}
use qapp.Strategy.Targets.{version_or}
use qapp.Model.Plans.{TargetInfo, ModelTargetPlan, Texts}
use qapp.Model.Local.{quantities_from, target_quantities_from_plan, note_quantity}
use qapp.Model.Store.{
  SnapshotType, before_trading, continuous_trading, Key, TargetRow, Database, Rearranged,
  IsDistinct, IsDatabase, LoadedTarget, target_quantities_from_live_target_rows, plan_version,
  target_record, target_records, or_date, next_type, load_target_portfolios, load_target,
  write_records, persist_target_plan, persist_strategy_target_plan, unless_empty, no_target_qty,
  written,
}
use qapp.Model.Store.Rows.{
  IsWritten, quantity_in, quantities_of, quantities_of-IsDict, lookup-quantities_of, All-rearranged,
  last_quantity-rearranged, IsTold, read_rows-Reads,
}

-- A target whose row can be read back: its instrument is a stripped text that is not empty, and it has
-- no version of its own.
abbrev pub IsPlain : {W : Type 0} → Texts → TargetInfo W → Type 0
IsPlain texts t =
    (t.instrument_id ≢ 0)
    × (texts.strip t.instrument_id ≡ t.instrument_id)
    × (t.target_version ≡ none)

-- No instrument twice among the targets.
abbrev pub AreDistinct : {W : Type 0} → List (TargetInfo W) → Type 0
AreDistinct [] = Unit
AreDistinct (t ∷ ts) = All (λ u. t.instrument_id ≢ u.instrument_id) ts × AreDistinct ts

-- The key of the rows of a plan.
abbrev pub key_of : {W : Type 0} → ModelTargetPlan W → SnapshotType → Key
key_of plan snapshot_type = record {
  trade_date = plan.trading_date;
  signal_date = plan.signal_date;
  snapshot_type = snapshot_type;
}

-- No target of the plan's day and signal is stored.
abbrev pub IsUnstored : {W T : Type 0} → Database T → ModelTargetPlan W → T → Type 0
IsUnstored db plan t =
    (db.select (key_of plan before_trading) t ≡ some [])
    × (db.select (key_of plan continuous_trading) t ≡ some [])

module _ {W : Type 0} (texts : Texts) (request_id : Option ℕ) (reason : ℕ) (version : Version) where
  records-IsWritten :
      (ts : List (TargetInfo W))
      → All (IsPlain texts) ts
      → All (IsWritten texts reason version) (map (target_record request_id reason version) ts)
  unfolding target_record
  records-IsWritten [] h = tt
  records-IsWritten (t ∷ ts) h = (
    record {
      has_instrument = h.0.0;
      is_stripped = h.0.1;
      says_reason = refl;
      says_version = ap (λ v. some (version_or v version)) h.0.2;
      quantity = t.quantity;
      has_quantity = refl;
    },
    records-IsWritten ts h.1,
  )

  records-away :
      (t : TargetInfo W) (ts : List (TargetInfo W))
      → All (λ u. t.instrument_id ≢ u.instrument_id) ts
      → All
          (λ q. t.instrument_id ≢ q.instrument_id)
          (map (target_record request_id reason version) ts)
  unfolding target_record
  records-away t [] h = tt
  records-away t (u ∷ us) h = (h.0, records-away t us h.1)

  records-IsDistinct :
      (ts : List (TargetInfo W))
      → AreDistinct ts
      → IsDistinct (map (target_record request_id reason version) ts)
  unfolding target_record
  records-IsDistinct [] h = tt
  records-IsDistinct (t ∷ ts) h = (records-away t ts h.0, records-IsDistinct ts h.1)

  records-quantities :
      (ts : List (TargetInfo W)) (d : Dict ℕ)
      → quantities_of (map (target_record request_id reason version) ts) d ≡ quantities_from ts d
  unfolding target_record quantities_from
  records-quantities [] d = refl
  records-quantities (t ∷ ts) d =
      ap
        (λ o.
          quantities_of (map (target_record request_id reason version) ts)
            (note_quantity t.instrument_id o d))
        (same t.quantity)
      ∙ records-quantities ts (note_quantity t.instrument_id t.quantity d)
    where
      same : (o : Option ℕ) → quantity_in (elim o [ none ↦ none | some q ↦ some (pos q) ]) ≡ o
      same none = refl
      same (some q) = refl

  records-full :
      (ts : List (TargetInfo W)) (id q : ℕ)
      → lookup id (quantities_from ts []) ≡ some q
      → is_nil (map (target_record request_id reason version) ts) ≡ false
  unfolding quantities_from
  records-full [] id q h = cc h
  records-full (t ∷ ts) id q h = refl

-- What the reading of some rows gives, from what the loop gives.
finish :
    (texts : Texts) (reason loaded_target : ℕ) (version : Version) (found : List TargetRow)
    (id q : ℕ)
    → reason ≢ 0
    → All (IsWritten texts reason version) found
    → lookup id (quantities_of found []) ≡ some q
    → (loaded : LoadedTarget) × (target_quantities_from_live_target_rows texts loaded_target found
        ≡ ok loaded)
      × (loaded.reason ≡ reason)
      × (loaded.version ≡ some version)
      × (loaded.quantities ≡ quantities_of found [])
unfolding target_quantities_from_live_target_rows
finish texts reason loaded_target version found id q told written e =
    let (loaded, r, quantities, t) =
      read_rows-Reads texts reason version told found
        (record { quantities = []; reason = loaded_target; version = none }) written
        (inl (refl, refl)) in
    let some_there : lookup id loaded.quantities ≡ some q = ap (lookup id) quantities ∙ e in
    (
      loaded,
      ap (λ a. a >>= unless_empty texts) r ∙ not_empty loaded some_there,
      (by_told loaded t some_there).0,
      (by_told loaded t some_there).1,
      quantities,
    )
  where
    nothing : (d : Dict ℕ) → d ≡ [] → lookup id d ≡ some q → none ≡ some q
    nothing d empty e = sym (ap (lookup id) empty) ∙ e

    has : (d : Dict ℕ) → lookup id d ≡ some q → is_nil d ≡ false
    has [] e = cc e
    has (x ∷ xs) e = refl

    not_empty : (l : LoadedTarget) → lookup id l.quantities ≡ some q → unless_empty texts l ≡ ok l
    not_empty l e = if_false (is_nil l.quantities) (err no_target_qty) (ok l) (has l.quantities e)

    by_told :
        (l : LoadedTarget)
        → IsTold reason version l
        → lookup id l.quantities ≡ some q
        → (l.reason ≡ reason) × (l.version ≡ some version)
    by_told l (inl (empty, _)) e = cc (nothing l.quantities empty e)
    by_told l (inr known) e = known

written-done : {T : Type 0} (t t' : T) (o : Option T) → written t o ≡ (true, t') → o ≡ some t'
written-done t t' none e = cc (ap (λ r. r.0) e)
written-done t t' (some u) e = ap (λ r. some r.1) e

date_once : (d : Option ℕ) → or_date d d ≡ d
date_once none = refl
date_once (some d) = refl

module _ {T : Type 0} (db : Database T) where
  write-records :
      (key : Key) (rows : List TargetRow) (t t' : T)
      → is_nil rows ≡ false
      → write_records db key rows t ≡ (true, t')
      → db.upsert key rows t ≡ some t'
  unfolding write_records
  write-records key [] t t' full e = cc full
  write-records key (r ∷ rs) t t' full e = written-done t t' (db.upsert key (r ∷ rs) t) e

  module _ {W : Type 0} (law : IsDatabase db) (plan : ModelTargetPlan W) where
    pub load-next :
        (t : T) (found : List TargetRow)
        → db.select (key_of plan before_trading) t ≡ some []
        → db.select (key_of plan continuous_trading) t ≡ some found
        → load_target_portfolios db plan.trading_date plan.signal_date t ≡ some found
    unfolding load_target_portfolios
    load-next t found e e' =
        ap
          (λ o. elim o [
            | none ↦ none
            | some rows ↦ next_type db (key_of plan before_trading) t rows
          ])
          e
        ∙ e'

    load_target-empty :
        (t : T) → IsUnstored db plan t → load_target db plan.trading_date plan.signal_date t ≡ []
    unfolding load_target
    load_target-empty t (none_before, none_after) =
        ap (λ o. elim o [ none ↦ [] | some rows ↦ rows ]) (load-next t [] none_before none_after)

    persist-writes :
        (t : T)
        → plan.persistable ≡ true
        → IsUnstored db plan t
        → persist_strategy_target_plan db plan t
          ≡ write_records db (key_of plan continuous_trading) (target_records plan) t
    unfolding persist_strategy_target_plan persist_target_plan
    persist-writes t persistable unstored =
        else_else (not plan.persistable)
          (not (is_nil (load_target db plan.trading_date plan.signal_date t))) _ _ _
          (ap not persistable) (ap (λ l. not (is_nil l)) (load_target-empty t unstored))
        ∙ ap
            (λ d.
              write_records db
                (record {
                  trade_date = plan.trading_date;
                  signal_date = d;
                  snapshot_type = continuous_trading;
                })
                (target_records plan) t)
            (date_once plan.signal_date)

    stored :
        (t t' : T)
        → plan.persistable ≡ true
        → IsUnstored db plan t
        → IsDistinct (target_records plan)
        → is_nil (target_records plan) ≡ false
        → persist_strategy_target_plan db plan t ≡ (true, t')
        → (found : List TargetRow) × (load_target_portfolios db plan.trading_date plan.signal_date
              t'
            ≡ some found)
          × Rearranged (target_records plan) found
    stored t t' persistable unstored distinct full e =
        let done =
          write-records (key_of plan continuous_trading) (target_records plan) t t' full
            (sym (persist-writes t persistable unstored) ∙ e) in
        let (found, e', same) =
          law.finds (key_of plan continuous_trading) (target_records plan) t t' distinct unstored.1
            done in
        (
          found,
          load-next t' found
              (law.keeps plan.trading_date plan.signal_date (target_records plan) t t' done
                ∙ unstored.0)
              e',
          same,
        )

    -- A plan that the strategy persists on a day for which nothing is stored is read back as it is,
    -- in whatever order the rows come: its reason, its version, and the quantity of every instrument.
    -- The plan has a quantity, a reason, distinct instruments, and no target versions of its own.
    pub persisted_plan_is_reloaded :
        (texts : Texts) (loaded_target : ℕ) (t t' : T) (id q : ℕ)
        → All (IsPlain texts) plan.targets
        → AreDistinct plan.targets
        → plan.reason ≢ 0
        → lookup id (target_quantities_from_plan plan) ≡ some q
        → plan.persistable ≡ true
        → IsUnstored db plan t
        → persist_strategy_target_plan db plan t ≡ (true, t')
        → (found : List TargetRow) × (loaded : LoadedTarget) × (load_target_portfolios db
              plan.trading_date plan.signal_date t'
            ≡ some found)
          × (target_quantities_from_live_target_rows texts loaded_target found ≡ ok loaded)
          × (loaded.reason ≡ plan.reason)
          × (loaded.version ≡ some (plan_version plan))
          × IsDict loaded.quantities
          × ((i : ℕ) → lookup i loaded.quantities ≡ lookup i (target_quantities_from_plan plan))
    unfolding target_quantities_from_plan target_records
    persisted_plan_is_reloaded texts loaded_target t t' id q plain distinct told some_there
          persistable unstored e =
        let rows =
          records-IsDistinct texts plan.request_id plan.reason (plan_version plan) plan.targets
            distinct in
        let (found, at, same) =
          stored t t' persistable unstored rows
            (records-full texts plan.request_id plan.reason (plan_version plan) plan.targets id q
              some_there)
            e in
        let agrees : (i : ℕ)
            → lookup i (quantities_of found []) ≡ lookup i (target_quantities_from_plan plan) =
          λ i.
            lookup-quantities_of i found []
            ∙ (sym (last_quantity-rearranged i none same rows)
                ∙ (sym (lookup-quantities_of i (target_records plan) [])
                    ∙ ap (lookup i) (
                        records-quantities texts plan.request_id plan.reason (plan_version plan)
                          plan.targets []))) in
        let (loaded, read, reason, version, quantities) =
          finish texts plan.reason loaded_target (plan_version plan) found id q told
            (All-rearranged (IsWritten texts plan.reason (plan_version plan)) same (
              records-IsWritten texts plan.request_id plan.reason (plan_version plan) plan.targets
                plain))
            (agrees id ∙ some_there) in
        (
          found,
          loaded,
          at,
          read,
          reason,
          version,
          subst IsDict (sym quantities) (quantities_of-IsDict found [] tt),
          λ i. ap (lookup i) quantities ∙ agrees i,
        )
