-- ===== src/Base/Dicts.antt =====
-- Python's `dict` and `set` with keys that are only compared: identifiers, order ids and dates are
-- numbers, whose order is the order of the texts. A dict keeps its insertion order.
use Prim.Native.Nat.{ℕ}
use mathlib.Core.Path.{◌≡◌, refl, ap, ◌∙◌}
use mathlib.Core.Bool.{Bool, true, false}
use mathlib.Core.Option.{Option, none, some}
use mathlib.Core.List.{List, [], ◌∷◌}
use native.Mathlib.Omega.{arith}
use mathlib.Core.Logic.{inl, inr}
use qapp.Base.Tests.{leb, ◌==◌, ==_iff, Bool-cases, if◌then◌else◌}

abbrev pub Dict {ℓ} : Type ℓ → Type ℓ
Dict V = List (ℕ × V)

-- A `set` of identifiers.
abbrev pub IdSet : Type 0
IdSet = List ℕ

module _ {ℓ} {V : Type ℓ} where
  -- `d.get(k)`
  abbrev pub lookup : ℕ → Dict V → Option V
  lookup k [] = none
  lookup k ((j, v) ∷ d) = if k == j then some v else lookup k d

  -- `d[k] = v`
  abbrev pub insert : ℕ → V → Dict V → Dict V
  insert k v [] = (k, v) ∷ []
  insert k v ((j, w) ∷ d) = if k == j then (k, v) ∷ d else (j, w) ∷ insert k v d

  -- `d.setdefault(k, v)`
  abbrev pub set_default : ℕ → V → Dict V → Dict V
  set_default k v d = elim (lookup k d) [ none ↦ insert k v d | some _ ↦ d ]

  -- `d.pop(k, None)`
  abbrev pub erase : ℕ → Dict V → Dict V
  erase k [] = []
  erase k ((j, w) ∷ d) = let rest = erase k d in if k == j then rest else (j, w) ∷ rest

  pub lookup-insert :
      (j k : ℕ) (v : V) (d : Dict V)
      → lookup j (insert k v d) ≡ (if j == k then some v else lookup j d)
  lookup-insert j k v [] = ground arith
  lookup-insert j k v ((i, w) ∷ d) = ground (arith, lookup-insert j k v d)

  pub lookup-erase :
      (j k : ℕ) (d : Dict V) → lookup j (erase k d) ≡ (if j == k then none else lookup j d)
  lookup-erase j k [] = ground arith
  lookup-erase j k ((i, w) ∷ d) = ground (arith, lookup-erase j k d)

-- `k in s`
abbrev pub member : ℕ → IdSet → Bool
member k [] = false
member k (j ∷ s) = if k == j then true else member k s

-- `s.add(k)`
abbrev pub add : ℕ → IdSet → IdSet
add k s = if member k s then s else k ∷ s

-- `s.discard(k)`
abbrev pub discard : ℕ → IdSet → IdSet
discard k [] = []
discard k (j ∷ s) = let rest = discard k s in if k == j then rest else j ∷ rest

pub member-add : (j k : ℕ) (s : IdSet) → member j (add k s) ≡ (if j == k then true else member j s)
member-add j k [] = ground arith
member-add j k (i ∷ s) = ground (arith, member-add j k s)

pub member-discard :
    (j k : ℕ) (s : IdSet) → member j (discard k s) ≡ (if j == k then false else member j s)
member-discard j k [] = ground arith
member-discard j k (i ∷ s) = ground (arith, member-discard j k s)

-- `set(...)` of a list.
abbrev pub to_set : List ℕ → IdSet
to_set [] = []
to_set (k ∷ ks) = add k (to_set ks)

pub member-to_set : (j : ℕ) (ks : List ℕ) → member j (to_set ks) ≡ member j ks
member-to_set j [] = refl
member-to_set j (k ∷ ks) = ground (arith, member-add j k (to_set ks), member-to_set j ks)

-- No key occurs twice.
abbrev pub IsDict {ℓ} : {V : Type ℓ} → Dict V → Type ℓ
IsDict [] = Unit
IsDict ((k, v) ∷ d) = (lookup k d ≡ none) × IsDict d

pub insert-IsDict {ℓ} : {V : Type ℓ} (k : ℕ) (v : V) (d : Dict V) → IsDict d → IsDict (insert k v d)
insert-IsDict k v [] h = (refl, tt)
insert-IsDict k v ((j, w) ∷ d) (fresh, rest) = elim (Bool-cases (k == j)) [
  | inl same ↦ rw same (rw ((==_iff k j).0 same) fresh, rest)
  | inr other ↦
      rw other (ground (arith, lookup-insert j k v d, fresh, other), insert-IsDict k v d rest)
]

-- `sorted(keys)`
abbrev pub place_id : ℕ → List ℕ → List ℕ
place_id k [] = k ∷ []
place_id k (j ∷ js) = if leb k j then k ∷ j ∷ js else j ∷ place_id k js

abbrev pub sort_ids : List ℕ → List ℕ
sort_ids [] = []
sort_ids (k ∷ ks) = place_id k (sort_ids ks)

member-place_id :
    (i k : ℕ) (ks : List ℕ) → member i (place_id k ks) ≡ (if i == k then true else member i ks)
member-place_id i k [] = refl
member-place_id i k (j ∷ js) = ground (arith, member-place_id i k js)

pub member-sort_ids : (i : ℕ) (ks : List ℕ) → member i (sort_ids ks) ≡ member i ks
member-sort_ids i [] = refl
member-sort_ids i (k ∷ ks) = ground (arith, member-place_id i k (sort_ids ks), member-sort_ids i ks)

module _ {ℓ} {V : Type ℓ} where
  -- The entries by their keys.
  abbrev pub place_entry : ℕ → V → Dict V → Dict V
  place_entry k v [] = (k, v) ∷ []
  place_entry k v ((j, w) ∷ d) = if leb k j then (k, v) ∷ (j, w) ∷ d else (j, w) ∷ place_entry k v d

  abbrev pub sort_entries : Dict V → Dict V
  sort_entries [] = []
  sort_entries ((k, v) ∷ d) = place_entry k v (sort_entries d)

  lookup-place_entry :
      (i k : ℕ) (v : V) (d : Dict V)
      → lookup k d ≡ none
      → lookup i (place_entry k v d) ≡ (if i == k then some v else lookup i d)
  lookup-place_entry i k v [] h = refl
  lookup-place_entry i k v ((j, w) ∷ d) h = ground (arith, h, lookup-place_entry i k v d)

  pub lookup-sort_entries : (i : ℕ) (d : Dict V) → IsDict d → lookup i (sort_entries d) ≡ lookup i d
  lookup-sort_entries i [] h = refl
  lookup-sort_entries i ((k, v) ∷ d) (fresh, rest) =
      lookup-place_entry i k v (sort_entries d) (lookup-sort_entries k d rest ∙ fresh)
      ∙ ap (λ o. if i == k then some v else o) (lookup-sort_entries i d rest)

  place_entry-IsDict :
      (k : ℕ) (v : V) (d : Dict V) → lookup k d ≡ none → IsDict d → IsDict (place_entry k v d)
  place_entry-IsDict k v [] fresh h = (refl, tt)
  place_entry-IsDict k v ((j, w) ∷ d) fresh (new, rest) = elim (Bool-cases (leb k j)) [
    | inl e ↦ rw e (fresh, (new, rest))
    | inr e ↦ rw e (
      ground (arith, fresh, new, lookup-place_entry j k v d),
      place_entry-IsDict k v d (ground (arith, fresh)) rest,
    )
  ]

  pub sort_entries-IsDict : (d : Dict V) → IsDict d → IsDict (sort_entries d)
  sort_entries-IsDict [] h = tt
  sort_entries-IsDict ((k, v) ∷ d) (fresh, rest) =
      place_entry-IsDict k v (sort_entries d) (lookup-sort_entries k d rest ∙ fresh)
        (sort_entries-IsDict d rest)
