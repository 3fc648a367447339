-- ===== src/Model/Recency/Count.antt =====
-- What `_recent_holding_days` of strategies/model_prediction_targets.py counts.
use qapp.Base.{
  ℕ, suc, ◌+◌, ◌-◌, ◌≤◌, ◌≡◌, refl, ap, ◌∙◌, true, ◌&&◌, some, List, [], ◌∷◌, max, leb, ltb,
  if◌then◌else◌, All, All-map, if_cases, member, place_id, sort_ids, member-sort_ids, arith,
}
use qapp.Model.Calendar.{IsAscending}
use qapp.Model.Recency.{index_of, first_from, recent_holding_days}

-- The number of dates before the value.
abbrev pub below : ℕ → List ℕ → ℕ
below value [] = 0
below value (d ∷ ds) = if ltb d value then suc (below value ds) else below value ds

-- The number of dates from the first on and before the second.
abbrev pub between : ℕ → ℕ → List ℕ → ℕ
between first last [] = 0
between first last (d ∷ ds) =
    if leb first d && ltb d last then suc (between first last ds) else between first last ds

below-between :
    (first last : ℕ) (ds : List ℕ)
    → first ≤ last
    → below last ds ≡ below first ds + between first last ds
below-between first last [] h = refl
below-between first last (d ∷ ds) h = ground (arith, h, below-between first last ds h)

between-place_id :
    (first last k : ℕ) (ds : List ℕ)
    → between first last (place_id k ds) ≡ between first last (k ∷ ds)
between-place_id first last k [] = refl
between-place_id first last k (d ∷ ds) = ground (arith, between-place_id first last k ds)

between-sort_ids :
    (first last : ℕ) (ds : List ℕ) → between first last (sort_ids ds) ≡ between first last ds
between-sort_ids first last [] = refl
between-sort_ids first last (d ∷ ds) =
    between-place_id first last d (sort_ids ds) ∙ ground (arith, between-sort_ids first last ds)

member-All : (v n : ℕ) (ds : List ℕ) → member v ds ≡ true → All (λ d. n ≤ d) ds → n ≤ v
member-All v n [] h hs = ground (arith, h)
member-All v n (d ∷ ds) h hs =
    let rest : member v ds ≡ true → n ≤ v = λ m. member-All v n ds m hs.1 in
    ground (arith, h, hs.0, rest)

below_none : (v : ℕ) (ds : List ℕ) (n : ℕ) → v ≤ n → All (λ d. n ≤ d) ds → below v ds ≡ 0
below_none v [] n h hs = refl
below_none v (d ∷ ds) n h hs = ground (arith, h, hs.0, below_none v ds n h hs.1)

All-place_id :
    (n k : ℕ) (ds : List ℕ) → n ≤ k → All (λ d. n ≤ d) ds → All (λ d. n ≤ d) (place_id k ds)
All-place_id n k [] h hs = (h, tt)
All-place_id n k (d ∷ ds) h hs =
    if_cases (All (λ e. n ≤ e)) (leb k d) (λ le. (h, hs)) (λ gt. (hs.0, All-place_id n k ds h hs.1))

All-weaken : (n k : ℕ) (ds : List ℕ) → n ≤ k → All (λ d. k ≤ d) ds → All (λ d. n ≤ d) ds
All-weaken n k ds h hs = All-map (λ d. k ≤ d) (λ d. n ≤ d) ds (λ d le. omega (arith, h, le)) hs

place_id-IsAscending : (k : ℕ) (ds : List ℕ) → IsAscending ds → IsAscending (place_id k ds)
place_id-IsAscending k [] h = (tt, tt)
place_id-IsAscending k (d ∷ ds) h =
    if_cases IsAscending (leb k d)
      (λ le. let this : k ≤ d = ground (arith, le) in ((this, All-weaken k d ds this h.0), h))
      (λ gt.
        let this : d ≤ k = ground (arith, gt) in
        (All-place_id d k ds this h.0, place_id-IsAscending k ds h.1))

sort_ids-IsAscending : (ds : List ℕ) → IsAscending (sort_ids ds)
sort_ids-IsAscending [] = tt
sort_ids-IsAscending (d ∷ ds) = place_id-IsAscending d (sort_ids ds) (sort_ids-IsAscending ds)

index_of-below :
    (v : ℕ) (ds : List ℕ) → IsAscending ds → member v ds ≡ true → index_of v ds ≡ some (below v ds)
unfolding index_of
index_of-below v [] h m = ground (arith, m)
index_of-below v (d ∷ ds) h m =
    let least : member v ds ≡ true → d ≤ v = λ m'. member-All v d ds m' h.0 in
    let rest : member v ds ≡ true → index_of v ds ≡ some (below v ds) =
      λ m'. index_of-below v ds h.1 m' in
    let nothing : v ≤ d → below v ds ≡ 0 = λ le. below_none v ds d le h.0 in
    ground (arith, m, least, rest, nothing)

first_from-below :
    (v t : ℕ) (ds : List ℕ)
    → IsAscending ds
    → member t ds ≡ true
    → v ≤ t
    → first_from v ds ≡ some (below v ds)
unfolding first_from
first_from-below v t [] h m le = ground (arith, m)
first_from-below v t (d ∷ ds) h m le =
    let rest : member t ds ≡ true → first_from v ds ≡ some (below v ds) =
      λ m'. first_from-below v t ds h.1 m' le in
    let nothing : v ≤ d → below v ds ≡ 0 = λ le'. below_none v ds d le' h.0 in
    ground (arith, m, le, rest, nothing)

-- The holding days of a known date are the trading days from it on and before today, and at least
-- one, where today is a trading day and the date is not after it.
pub recent_holding_days_counts :
    (dates : List ℕ) (today recent : ℕ)
    → member today dates ≡ true
    → recent ≤ today
    → recent_holding_days dates today (some recent) ≡ max 1 (between recent today dates)
unfolding recent_holding_days
recent_holding_days_counts dates today recent h le =
    let ordered = sort_ids dates in
    let up = sort_ids-IsAscending dates in
    let m : member today ordered ≡ true = member-sort_ids today dates ∙ h in
    let span : below today ordered - below recent ordered ≡ between recent today ordered =
      omega (arith, below-between recent today ordered le) in
    rw (index_of-below today ordered up m) (
      rw (first_from-below recent today ordered up m le)
        (ap (max 1) (span ∙ between-sort_ids recent today dates)))
