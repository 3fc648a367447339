-- ===== src/Model/Store/Rows.antt =====
-- What the rows of a plan say, in whatever order they come, strategies/model_prediction_targets.py.
use qapp.Base.{
  ℕ, ◌≡◌, ◌≢◌, refl, sym, ap, ◌∙◌, inl, inr, Option, none, some, List, [], ◌∷◌, arith, ◌==◌,
  if◌then◌else◌, same_branches, All, Dict, IsDict, lookup, insert, lookup-insert, insert-IsDict,
  Result, ok, if_false, ◌⊎◌, err, ◌>>=◌,
}
use qapp.Base.Int.{ℤ, pos}
use qapp.Strategy.Types.{Version}
use qapp.Model.Plans.{Texts}
use qapp.Model.Local.{note_quantity}
use qapp.Model.Store.{
  TargetRow, Rearranged, none_left, same_first, exchanged, in_turn, IsDistinct, LoadedTarget,
  RowError, first_version, last_reason, note_row, read_row, read_rows, empty_instrument_id,
}

-- A row as a plan writes it: an instrument, the plan's reason and version, and no negative quantity.
pub record IsWritten (texts : Texts) (reason : ℕ) (version : Version) (r : TargetRow) : Type 0 where
  pub has_instrument : r.instrument_id ≢ 0
  pub is_stripped : texts.strip r.instrument_id ≡ r.instrument_id
  pub says_reason : r.reason ≡ reason
  pub says_version : r.target_version ≡ some version
  pub quantity : Option ℕ
  pub has_quantity : r.target_qty ≡ elim quantity [ none ↦ none | some q ↦ some (pos q) ]

-- The quantity of a row, if it is none below 0.
abbrev pub quantity_in : Option ℤ → Option ℕ
quantity_in (some (pos q)) = some q
quantity_in _ = none

-- The quantities of rows, read in turn.
abbrev pub quantities_of : List TargetRow → Dict ℕ → Dict ℕ
quantities_of [] d = d
quantities_of (r ∷ rs) d =
    quantities_of rs (note_quantity r.instrument_id (quantity_in r.target_qty) d)

abbrev pub or_else : Option ℕ → Option ℕ → Option ℕ
or_else none found = found
or_else (some q) found = some q

-- The quantity that the last row of an instrument gives it.
abbrev pub last_quantity : ℕ → List TargetRow → Option ℕ → Option ℕ
last_quantity id [] found = found
last_quantity id (r ∷ rs) found =
    last_quantity id rs
      (if id == r.instrument_id then or_else (quantity_in r.target_qty) found else found)

lookup-noted :
    (id k : ℕ) (o : Option ℕ) (d : Dict ℕ)
    → lookup id (note_quantity k o d) ≡ (if id == k then or_else o (lookup id d) else lookup id d)
lookup-noted id k none d = sym (same_branches (id == k) (lookup id d))
lookup-noted id k (some q) d = lookup-insert id k q d

pub lookup-quantities_of :
    (id : ℕ) (rs : List TargetRow) (d : Dict ℕ)
    → lookup id (quantities_of rs d) ≡ last_quantity id rs (lookup id d)
lookup-quantities_of id [] d = refl
lookup-quantities_of id (r ∷ rs) d =
    lookup-quantities_of id rs (note_quantity r.instrument_id (quantity_in r.target_qty) d)
    ∙ ap (last_quantity id rs) (lookup-noted id r.instrument_id (quantity_in r.target_qty) d)

pub note_quantity-IsDict :
    (id : ℕ) (o : Option ℕ) (d : Dict ℕ) → IsDict d → IsDict (note_quantity id o d)
note_quantity-IsDict id none d h = h
note_quantity-IsDict id (some q) d h = insert-IsDict id q d h

pub quantities_of-IsDict :
    (rs : List TargetRow) (d : Dict ℕ) → IsDict d → IsDict (quantities_of rs d)
quantities_of-IsDict [] d h = h
quantities_of-IsDict (r ∷ rs) d h =
    quantities_of-IsDict rs _ (note_quantity-IsDict r.instrument_id (quantity_in r.target_qty) d h)

pub All-rearranged :
    (P : TargetRow → Type 0) {rs qs : List TargetRow} → Rearranged rs qs → All P rs → All P qs
All-rearranged P none_left h = h
All-rearranged P (same_first r p) h = (h.0, All-rearranged P p h.1)
All-rearranged P (exchanged r q) h = (h.1.0, (h.0, h.1.1))
All-rearranged P (in_turn p p') h = All-rearranged P p' (All-rearranged P p h)

IsDistinct-rearranged : {rs qs : List TargetRow} → Rearranged rs qs → IsDistinct rs → IsDistinct qs
IsDistinct-rearranged none_left h = h
IsDistinct-rearranged (same_first r p) h =
    (All-rearranged (λ q. r.instrument_id ≢ q.instrument_id) p h.0, IsDistinct-rearranged p h.1)
IsDistinct-rearranged (exchanged r q) h = (((λ e. h.0.0 (sym e)), h.1.0), (h.0.1, h.1.1))
IsDistinct-rearranged (in_turn p p') h = IsDistinct-rearranged p' (IsDistinct-rearranged p h)

exchange :
    (id j k : ℕ) (p q found : Option ℕ)
    → j ≢ k
    → (if id == k
        then or_else q (if id == j then or_else p found else found)
        else if id == j
        then or_else p found
        else found)
      ≡ (if id == j
          then or_else p (if id == k then or_else q found else found)
          else if id == k
          then or_else q found
          else found)
exchange id j k p q found h = ground (arith, h)

pub last_quantity-rearranged :
    (id : ℕ) {rs qs : List TargetRow} (found : Option ℕ)
    → Rearranged rs qs
    → IsDistinct rs
    → last_quantity id rs found ≡ last_quantity id qs found
last_quantity-rearranged id found none_left h = refl
last_quantity-rearranged id found (same_first r p) h =
    last_quantity-rearranged id
      (if id == r.instrument_id then or_else (quantity_in r.target_qty) found else found) p h.1
last_quantity-rearranged id found (exchanged {rs} r q) h = ap (last_quantity id rs) (
    exchange id r.instrument_id q.instrument_id (quantity_in r.target_qty)
      (quantity_in q.target_qty) found h.0.0)
last_quantity-rearranged id found (in_turn p p') h =
    last_quantity-rearranged id found p h
    ∙ last_quantity-rearranged id found p' (IsDistinct-rearranged p h)

-- Nothing is read yet, or the reason and the version are the plan's.
abbrev pub IsTold : ℕ → Version → LoadedTarget → Type 0
IsTold reason version loaded =
    ((loaded.quantities ≡ []) × (loaded.version ≡ none))
    ⊎ ((loaded.reason ≡ reason) × (loaded.version ≡ some version))

module _ (texts : Texts) (reason : ℕ) (version : Version) (told : reason ≢ 0) where
  -- What reading rows from a start gives: their quantities.
  abbrev pub Reads : Result RowError LoadedTarget → Dict ℕ → Type 0
  Reads result quantities =
      (loaded : LoadedTarget) × (result ≡ ok loaded)
      × (loaded.quantities ≡ quantities)
      × IsTold reason version loaded

  read_row-opened :
      (r : TargetRow) (loaded : LoadedTarget)
      → IsWritten texts reason version r
      → read_row texts r loaded ≡ note_row texts r.instrument_id r.target_qty r loaded
  unfolding read_row
  read_row-opened r loaded w =
      ap (λ i. if i == 0 then err empty_instrument_id else note_row texts i r.target_qty r loaded)
        w.is_stripped
      ∙ if_false (r.instrument_id == 0) (err empty_instrument_id)
          (note_row texts r.instrument_id r.target_qty r loaded) (ground (arith, w.has_instrument))

  told_reason : (before found : ℕ) → found ≡ reason → last_reason before found ≡ reason
  told_reason before found e = if_false (found == 0) before found (ground (arith, told, e)) ∙ e

  told_version :
      (l : LoadedTarget)
      → IsTold reason version l
      → (found : Option Version) → found ≡ some version
      → first_version l.version found ≡ some version
  told_version l (inl (empty, fresh)) found e = ap (λ v. first_version v found) fresh ∙ e
  told_version l (inr (same, known)) found e = ap (λ v. first_version v found) known

  note_row-Reads :
      (r : TargetRow) (loaded : LoadedTarget) (quantity : Option ℕ) (qty : Option ℤ)
      → IsWritten texts reason version r
      → IsTold reason version loaded
      → qty ≡ (elim quantity [ none ↦ none | some q ↦ some (pos q) ])
      → Reads
          (note_row texts r.instrument_id qty r loaded)
          (note_quantity r.instrument_id (quantity_in qty) loaded.quantities)
  unfolding note_row
  note_row-Reads r loaded none qty w t e = rw e (loaded, refl, refl, t)
  note_row-Reads r loaded (some q) qty w t e = rw e (
    record {
      quantities = insert r.instrument_id q loaded.quantities;
      reason = last_reason loaded.reason r.reason;
      version = first_version loaded.version r.target_version;
    },
    refl,
    refl,
    inr (
      told_reason loaded.reason r.reason w.says_reason,
      told_version loaded t r.target_version w.says_version,
    ),
  )

  pub read_rows-Reads :
      (rs : List TargetRow) (loaded : LoadedTarget)
      → All (IsWritten texts reason version) rs
      → IsTold reason version loaded
      → Reads (read_rows texts rs loaded) (quantities_of rs loaded.quantities)
  unfolding read_rows
  read_rows-Reads [] loaded h t = (loaded, refl, refl, t)
  read_rows-Reads (r ∷ rs) loaded h t =
      let (first, e, q, t1) =
        note_row-Reads r loaded h.0.quantity r.target_qty h.0 t h.0.has_quantity in
      let (last, e', q', t2) = read_rows-Reads rs first h.1 t1 in
      (
        last,
        ap (λ a. a >>= read_rows texts rs) (read_row-opened r loaded h.0 ∙ e) ∙ e',
        q' ∙ ap (quantities_of rs) q,
        t2,
      )
