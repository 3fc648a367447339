-- ===== src/Model/Recorder/Readers.antt =====
-- The two readers of the stored rows: `_apply_loaded_target` of lives/snapshot_recorder.py and
-- `_target_quantities_from_live_target_rows` of strategies/model_prediction_targets.py.
use qapp.Base.{
  ℕ, ◌≡◌, refl, sym, ap, ◌∙◌, Bool, true, false, Option, none, some, List, [], ◌∷◌, ◌==◌,
  if◌then◌else◌, if_cases, All, Dict, insert, is_nil, Result, ok, err, >>=-eq-ok,
}
use qapp.Base.Int.{ℤ, pos, negsuc}
use qapp.Strategy.Targets.Manual.{as_quantities}
use qapp.Model.Plans.{Texts}
use qapp.Model.Store.{
  TargetRow, LoadedTarget, RowError, note_row, read_row, read_rows, unless_empty,
  empty_instrument_id, target_quantities_from_live_target_rows, no_target_qty, negative_target_qty,
}
use qapp.Model.Recorder.{RowsRead, note_qty, read_loaded}

as_quantities-insert :
    (id q : ℕ) (d : Dict ℕ)
    → as_quantities (insert id q d) ≡ insert id (some (pos q)) (as_quantities d)
as_quantities-insert id q [] = refl
as_quantities-insert id q ((j, r) ∷ d) = by_key (id == j) (as_quantities-insert id q d)
  where
    by_key :
        (b : Bool)
        → as_quantities (insert id q d) ≡ insert id (some (pos q)) (as_quantities d)
        → as_quantities (if b then (id, q) ∷ d else (j, r) ∷ insert id q d) ≡ (
            if b
            then (id, some (pos q)) ∷ as_quantities d
            else (j, some (pos r)) ∷ insert id (some (pos q)) (as_quantities d))
    by_key true h = refl
    by_key false h = ap (λ l. (j, some (pos r)) ∷ l) h

-- The quantities of a result, as those of an update.
abbrev given_by : Result RowError LoadedTarget → Dict (Option ℤ)
given_by (err raised) = []
given_by (ok loaded) = as_quantities loaded.quantities

no_value :
    (raised : RowError) (loaded : LoadedTarget) {G : Type 0}
    → ◌≡◌ {A = Result RowError LoadedTarget} (err raised) (ok loaded)
    → G
no_value raised loaded e = cc e

module _ (texts : Texts) where
  note_row-agrees :
      (id : ℕ) (qty : Option ℤ) (row : TargetRow) (before after : LoadedTarget)
      → note_row texts id qty row before ≡ ok after
      → as_quantities after.quantities ≡ note_qty id qty (as_quantities before.quantities)
  unfolding note_row
  note_row-agrees id none row before after e = ap given_by (sym e)
  note_row-agrees id (some (pos q)) row before after e =
      ap given_by (sym e) ∙ as_quantities-insert id q before.quantities
  note_row-agrees id (some (negsuc q)) row before after e = no_value negative_target_qty after e

  read_row-agrees :
      (row : TargetRow) (before after : LoadedTarget)
      → texts.strip row.instrument_id ≡ row.instrument_id
      → read_row texts row before ≡ ok after
      → as_quantities after.quantities
        ≡ note_qty row.instrument_id row.target_qty (as_quantities before.quantities)
  unfolding read_row
  read_row-agrees row before after stripped e =
      if_cases
        (λ r.
          r ≡ ok after
          → as_quantities after.quantities
            ≡ note_qty (texts.strip row.instrument_id) row.target_qty
                (as_quantities before.quantities))
        (texts.strip row.instrument_id == 0) (λ _ h. no_value empty_instrument_id after h)
        (λ _ h. note_row-agrees (texts.strip row.instrument_id) row.target_qty row before after h) e
      ∙ ap (λ i. note_qty i row.target_qty (as_quantities before.quantities)) stripped

  read_rows-agrees :
      (rows : List TargetRow) (before after : LoadedTarget) (read : RowsRead)
      → All (λ (r : TargetRow). texts.strip r.instrument_id ≡ r.instrument_id) rows
      → read_rows texts rows before ≡ ok after
      → read.target_qty ≡ as_quantities before.quantities
      → (read_loaded rows read).target_qty ≡ as_quantities after.quantities
  unfolding read_rows read_loaded
  read_rows-agrees [] before after read h e same = same ∙ ap given_by e
  read_rows-agrees (row ∷ rows) before after read h e same =
      let (first, f, g) = >>=-eq-ok (read_row texts row before) (read_rows texts rows) e in
      read_rows-agrees rows first after _ h.1 g (
        ap (note_qty row.instrument_id row.target_qty) same
        ∙ sym (read_row-agrees row before first h.0 f))

  -- Where the strategy reads a day's rows without an error, the recorder hands the same quantities to
  -- the update, in the same order; the instruments of the rows are stripped texts.
  pub readers_agree :
      (loaded_target : ℕ) (rows : List TargetRow) (loaded : LoadedTarget)
      → All (λ (r : TargetRow). texts.strip r.instrument_id ≡ r.instrument_id) rows
      → target_quantities_from_live_target_rows texts loaded_target rows ≡ ok loaded
      → (read_loaded rows
          (record { target_qty = []; version = none; reason = loaded_target })).target_qty
        ≡ as_quantities loaded.quantities
  unfolding target_quantities_from_live_target_rows
  readers_agree loaded_target rows loaded stripped e =
      let (last, f, g) =
        >>=-eq-ok
          (read_rows texts rows
            (record { quantities = []; reason = loaded_target; version = none }))
          (unless_empty texts) e in
      read_rows-agrees rows _ last
        (record { target_qty = []; version = none; reason = loaded_target }) stripped f refl
      ∙ kept last g
    where
      kept :
          (last : LoadedTarget)
          → unless_empty texts last ≡ ok loaded
          → as_quantities last.quantities ≡ as_quantities loaded.quantities
      kept last =
          if_cases
            (λ r. r ≡ ok loaded → as_quantities last.quantities ≡ as_quantities loaded.quantities)
            (is_nil last.quantities) (λ _ h. no_value no_target_qty loaded h) (λ _ h. ap given_by h)
