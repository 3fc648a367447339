-- ===== src/Strategy/Targets/Manual/Loop.antt =====
-- What the loop of a manual sale does to the target of every instrument.
use qapp.Base.{
  same_branches, ℕ, ◌≡◌, refl, sym, ap, ◌∙◌, false, ◌&&◌, Option, none, some, List, [], ◌∷◌, arith,
  ◌==◌, ==_iff, leb, ltb, if◌then◌else◌, Dict, lookup, lookup-insert, insert, member, to_set,
  IsDict, insert-IsDict, IdSet, Bool-cases, Option-cases, inl, inr,
}
use qapp.Base.Int.{ℤ, pos, pos_part, ◌-ℤ◌}
use qapp.Strategy.Types.{Position}
use qapp.Strategy.Targets.{normalize, place_key, note_held, open_long_quantities, by_key}
use qapp.Strategy.Targets.Updates.{lookup-by_key, lookup-place_key}
use qapp.Strategy.Targets.Manual.{Plan, sell_one, sell_loop, requested_holdings, as_quantities}

-- What may not be sold of a holding, if the sellable quantity is known.
abbrev pub remainder : Option ℕ → Option ℤ → Option ℕ → Option ℕ
remainder none sellable old = old
remainder (some held) none old = old
remainder (some held) (some sellable) old = some (pos_part (pos held -ℤ sellable))

abbrev pub override : Option ℕ → Option ℕ → Option ℕ
override none old = old
override (some q) old = some q

-- The quantities of a dict survive the normalization.
pub normalize-as_quantities :
    (id : ℕ) (d done : Dict ℕ)
    → IsDict d
    → lookup id (normalize (as_quantities d) done) ≡ override (lookup id d) (lookup id done)
unfolding normalize
normalize-as_quantities id [] done h = refl
normalize-as_quantities id ((k, q) ∷ d) done (fresh, rest) =
    normalize-as_quantities id d (insert k q done) rest ∙ step
  where
    step :
        override (lookup id d) (lookup id (insert k q done))
        ≡ override (if id == k then some q else lookup id d) (lookup id done)
    step = elim (Bool-cases (id == k)) [
      | inl same ↦
          (let known : lookup id d ≡ none = rw ((==_iff id k).0 same) fresh in
            rw (known, lookup-insert id k q done, same) refl)
      | inr other ↦ rw (lookup-insert id k q done, other) refl
    ]

place_key-IsDict : (k q : ℕ) (d : Dict ℕ) → lookup k d ≡ none → IsDict d → IsDict (place_key k q d)
unfolding place_key
place_key-IsDict k q [] fresh h = (refl, tt)
place_key-IsDict k q ((j, r) ∷ d) fresh (fresh_j, rest) = elim (Bool-cases (leb k j)) [
  | inl before ↦ rw before (fresh, (fresh_j, rest))
  | inr after ↦ rw after (
    ground (arith, lookup-place_key j k q d, fresh_j, fresh),
    place_key-IsDict k q d (ground (arith, fresh)) rest,
  )
]

pub by_key-IsDict : (d : Dict ℕ) → IsDict d → IsDict (by_key d)
unfolding by_key
by_key-IsDict [] h = tt
by_key-IsDict ((k, q) ∷ d) (fresh, rest) =
    place_key-IsDict k q (by_key d) (lookup-by_key k d ∙ fresh) (by_key-IsDict d rest)

pub open_long-IsDict :
    (ps : List Position) (held : Dict ℕ) → IsDict held → IsDict (open_long_quantities ps held)
unfolding open_long_quantities
open_long-IsDict [] held h = h
open_long-IsDict (p ∷ ps) held h = open_long-IsDict ps (note_held p held) noted
  where
    noted : IsDict (note_held p held)
    noted = elim (Option-cases p.quantity) [
      | inl no_quantity ↦ rw no_quantity h
      | inr (q, at) ↦ rw at (elim (Bool-cases (p.is_long && ltb 0 q)) [
        | inl long ↦ rw long (insert-IsDict p.instrument_id q held h)
        | inr other ↦ rw other h
      ])
    ]

pub lookup-requested :
    (id : ℕ) (ids : List ℕ) (held : Dict ℕ)
    → lookup id (requested_holdings ids held) ≡ (if member id ids then lookup id held else none)
unfolding requested_holdings
lookup-requested id [] held = refl
lookup-requested id (k ∷ ids) held = elim (Option-cases (lookup k held)) [
  | inl missing ↦
      rw (missing, requested_holdings) (ground (arith, lookup-requested id ids held, missing))
  | inr (q, at) ↦ rw (at, requested_holdings) (ground (arith, lookup-requested id ids held, at))
]

-- No identifier occurs twice.
abbrev pub Distinct : IdSet → Type 0
Distinct [] = Unit
Distinct (k ∷ ks) = (member k ks ≡ false) × Distinct ks

pub to_set-Distinct : (ks : List ℕ) → Distinct (to_set ks)
to_set-Distinct [] = tt
to_set-Distinct (k ∷ ks) = elim (Bool-cases (member k (to_set ks))) [
  | inl known ↦ rw known (to_set-Distinct ks)
  | inr new ↦ rw new (new, to_set-Distinct ks)
]

pub requested-IsDict :
    (ids : IdSet) (held : Dict ℕ) → Distinct ids → IsDict (requested_holdings ids held)
unfolding requested_holdings
requested-IsDict [] held h = tt
requested-IsDict (k ∷ ids) held (new, rest) = elim (Option-cases (lookup k held)) [
  | inl missing ↦ rw (missing, requested_holdings) (requested-IsDict ids held rest)
  | inr (q, at) ↦
      rw (at, requested_holdings)
        (
          lookup-requested k ids held ∙ ap (λ b. if b then lookup k held else none) new,
          requested-IsDict ids held rest,
        )
]

sell_one-lookup :
    (k q : ℕ) (sellable : Option ℤ) (p : Plan) (id : ℕ)
    → IsDict p.new_targets
    → IsDict (sell_one k q sellable p).new_targets
      × (lookup id (sell_one k q sellable p).new_targets ≡ (
          if id == k
          then remainder (some q) sellable (lookup id p.new_targets)
          else lookup id p.new_targets))
unfolding sell_one
sell_one-lookup k q none p id g = (g, sym (same_branches (id == k) (lookup id p.new_targets)))
sell_one-lookup k q (some v) p id g = (
  insert-IsDict k (pos_part (pos q -ℤ v)) p.new_targets g,
  lookup-insert id k (pos_part (pos q -ℤ v)) p.new_targets,
)

-- What the loop does to the target of every instrument.
pub sell_loop-lookup :
    (sellable : ℕ → Option ℤ) (hs : Dict ℕ) (p : Plan) (id : ℕ)
    → IsDict hs
    → IsDict p.new_targets
    → IsDict (sell_loop sellable hs p).new_targets
      × (lookup id (sell_loop sellable hs p).new_targets
          ≡ remainder (lookup id hs) (sellable id) (lookup id p.new_targets))
unfolding sell_loop
sell_loop-lookup sellable [] p id h g = (g, refl)
sell_loop-lookup sellable ((k, q) ∷ hs) p id (fresh, rest) g =
    let (g', one) = sell_one-lookup k q (sellable k) p id g in
    let (g'', all) = sell_loop-lookup sellable hs (sell_one k q (sellable k) p) id rest g' in
    (
      g'',
      elim (Bool-cases (id == k)) [
        | inl same ↦ all ∙ rw same (rw (one, same, (==_iff id k).0 same, fresh) refl)
        | inr other ↦ all ∙ rw other (rw (one, other) refl)
      ],
    )
