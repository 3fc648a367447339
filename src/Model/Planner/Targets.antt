-- ===== src/Model/Planner/Targets.antt =====
-- The targets of a plan, strategies/model_target_planners/risk_manager.py.
use mathlib.Core.Path.{subst}
use qapp.Base.{
  ℕ, ◌≤◌, ◌≡◌, refl, Bool, true, false, not, ◌&&◌, Option, none, some, List, [], ◌∷◌, arith, leb,
  if◌then◌else◌, Dict, lookup, insert, set_default, lookup-insert, All, All-map, Result, ok, ◌>>=◌,
  OnOk, >>=-OnOk, OnOk_value, OnOk-unit, is_nil, if_both, ◌==◌, Bool-cases, inl, inr,
}
use qapp.Model.Plans.{
  TargetInfo, ModelTargetPlan, ModelTargetPlanningRequest, ModelTargetCandidate, CurrentHolding,
  Texts, normalize_stock_code,
}
use qapp.Model.Planner.{
  ResponseRow, Response, Reply, PlannerError, target_quantity, is_locked, target_rows,
  map_candidates, map_holdings, stock_to_instrument, target_of_row, targets_of, place_target,
  sort_targets, read_response, plan, post_json,
}

-- A predicate on all values of a dict.
Values : (ℕ → Type 0) → Dict ℕ → Type 0
Values P d = (k v : ℕ) → lookup k d ≡ some v → P v

insert-Values : (P : ℕ → Type 0) (k v : ℕ) (d : Dict ℕ) → Values P d → P v → Values P (insert k v d)
unfolding Values
insert-Values P k v d h p j w e = found (j == k) (lookup-insert j k v d)
  where
    found : (b : Bool) → lookup j (insert k v d) ≡ (if b then some v else lookup j d) → P w
    found true f = let same : v ≡ w = cc (e, f) in subst P same p
    found false f = h j w (cc (e, f))

set_default-Values :
    (P : ℕ → Type 0) (k v : ℕ) (d : Dict ℕ) → Values P d → P v → Values P (set_default k v d)
set_default-Values P k v d h p = by_lookup (lookup k d)
  where
    by_lookup : (o : Option ℕ) → Values P (elim o [ none ↦ insert k v d | some _ ↦ d ])
    by_lookup none = insert-Values P k v d h p
    by_lookup (some _) = h

-- The targets in the order of their instruments.
abbrev pub IsOrdered : {W : Type 0} → List (TargetInfo W) → Type 0
IsOrdered [] = Unit
IsOrdered (t ∷ ts) = All (λ u. t.instrument_id ≤ u.instrument_id) ts × IsOrdered ts

module _ {W : Type 0} where
  place_target-All :
      (P : TargetInfo W → Type 0) (t : TargetInfo W) (ts : List (TargetInfo W))
      → P t
      → All P ts
      → All P (place_target t ts)
  unfolding place_target
  place_target-All P t [] p h = (p, tt)
  place_target-All P t (u ∷ us) p h =
      if_both (All P) (leb t.instrument_id u.instrument_id) (p, h)
        (h.0, place_target-All P t us p h.1)

  sort_targets-All :
      (P : TargetInfo W → Type 0) (ts : List (TargetInfo W)) → All P ts → All P (sort_targets ts)
  unfolding sort_targets
  sort_targets-All P [] h = tt
  sort_targets-All P (t ∷ ts) h =
      place_target-All P t (sort_targets ts) h.0 (sort_targets-All P ts h.1)

  place_target-IsOrdered :
      (t : TargetInfo W) (ts : List (TargetInfo W)) → IsOrdered ts → IsOrdered (place_target t ts)
  unfolding place_target
  place_target-IsOrdered t [] h = (tt, tt)
  place_target-IsOrdered t (u ∷ us) h = elim (Bool-cases (leb t.instrument_id u.instrument_id)) [
    | inl e ↦ rw e (
      (
        ground (arith, e),
        All-map (λ x. u.instrument_id ≤ x.instrument_id) (λ x. t.instrument_id ≤ x.instrument_id) us
            (λ x k. ground (arith, e, k)) h.0,
      ),
      h,
    )
    | inr e ↦ rw e (
      place_target-All (λ x. u.instrument_id ≤ x.instrument_id) t us (ground (arith, e)) h.0,
      place_target-IsOrdered t us h.1,
    )
  ]

  sort_targets-IsOrdered : (ts : List (TargetInfo W)) → IsOrdered (sort_targets ts)
  unfolding sort_targets
  sort_targets-IsOrdered [] = tt
  sort_targets-IsOrdered (t ∷ ts) =
      place_target-IsOrdered t (sort_targets ts) (sort_targets-IsOrdered ts)

  module _ (texts : Texts) (P : ℕ → Type 0) where
    map_candidates-Values :
        (cs : List (ModelTargetCandidate W)) (d : Dict ℕ)
        → All (λ c. P c.instrument_id) cs
        → Values P d
        → Values P (map_candidates texts cs d)
    unfolding map_candidates
    map_candidates-Values [] d h k = k
    map_candidates-Values (c ∷ cs) d h k =
        map_candidates-Values cs _ h.1
          (insert-Values P (normalize_stock_code texts c.stock_code) c.instrument_id d k h.0)

    map_holdings-Values :
        (hs : List (CurrentHolding W)) (d : Dict ℕ)
        → All (λ c. P c.instrument_id) hs
        → Values P d
        → Values P (map_holdings texts hs d)
    unfolding map_holdings
    map_holdings-Values [] d h k = k
    map_holdings-Values (c ∷ cs) d h k =
        map_holdings-Values cs _ h.1
          (set_default-Values P (normalize_stock_code texts c.stock_code) c.instrument_id d k h.0)

    target_of_row-instrument :
        (is_positive : W → Bool) (stock id : ℕ) (row : ResponseRow W)
        → P id
        → OnOk
            (λ (t : TargetInfo W). P t.instrument_id)
            (target_of_row texts is_positive stock id row)
    unfolding target_of_row
    target_of_row-instrument is_positive stock id row p =
        >>=-OnOk (λ _. Unit {0}) _ (target_quantity row.target_quantity) _ (OnOk-unit _)
          λ quantity _.
            >>=-OnOk (λ _. Unit {0}) _ (is_locked row.is_locked) _ (OnOk-unit _) λ locked _. p

    targets_of-All :
        (is_positive : W → Bool) (mapping : Dict ℕ) (found : List (Option (ResponseRow W)))
        → Values P mapping
        → OnOk
            (All (λ (t : TargetInfo W). P t.instrument_id))
            (targets_of texts is_positive mapping found)
    unfolding targets_of Values
    targets_of-All is_positive mapping [] k = tt
    targets_of-All is_positive mapping (none ∷ found) k = targets_of-All is_positive mapping found k
    targets_of-All is_positive mapping (some row ∷ found) k =
        by_lookup (lookup stock mapping) refl (targets_of-All is_positive mapping found k)
      where
        stock : ℕ
        stock = normalize_stock_code texts row.stock_code

        rest : Result PlannerError (List (TargetInfo W))
        rest = targets_of texts is_positive mapping found

        by_lookup :
            (o : Option ℕ)
            → lookup stock mapping ≡ o
            → OnOk (All (λ (t : TargetInfo W). P t.instrument_id)) rest
            → OnOk (All (λ (t : TargetInfo W). P t.instrument_id)) (elim o [
              | none ↦ rest
              | some id ↦ target_of_row texts is_positive stock id row >>= λ target.
                  rest >>= λ targets. ok (target ∷ targets)
            ])
        by_lookup none e all = all
        by_lookup (some id) e all =
            >>=-OnOk _ _ (target_of_row texts is_positive stock id row) _
              (target_of_row-instrument is_positive stock id row (k stock id e))
              λ target p. >>=-OnOk _ _ rest _ all λ targets q. (p, q)

    read_response-targets :
        (is_positive : W → Bool) (reason request_id : ℕ) (request : ModelTargetPlanningRequest W)
        (response : Response W)
        → All (λ (c : ModelTargetCandidate W). P c.instrument_id) request.candidates
        → All (λ (h : CurrentHolding W). P h.instrument_id) request.current_holdings
        → OnOk
            (λ (p : ModelTargetPlan W).
              All (λ (t : TargetInfo W). P t.instrument_id) p.targets × IsOrdered p.targets)
            (read_response texts is_positive reason request_id request response)
    unfolding read_response stock_to_instrument Values
    read_response-targets is_positive reason request_id request response known held =
        if_both (OnOk _) (not response.success) tt (
          >>=-OnOk (λ _. Unit {0}) _ (target_rows response.target_weights) _ (OnOk-unit _)
            λ found _.
              >>=-OnOk _ _ (targets_of texts is_positive (stock_to_instrument texts request) found)
                _
                (targets_of-All is_positive (stock_to_instrument texts request) found (
                  map_holdings-Values request.current_holdings _ held
                    (map_candidates-Values request.candidates [] known (λ j v e. cc e))))
                λ targets all. (sort_targets-All _ targets all, sort_targets-IsOrdered targets))

    -- A plan, if the service leads to one, only has targets of the instruments that the request
    -- offers: what holds of all candidates and all holdings holds of every target. The targets come
    -- in the order of their instruments.
    pub planned_targets_are_known :
        (is_positive : W → Bool) (reason request_id : ℕ) (service : ℕ → Reply W)
        (request : ModelTargetPlanningRequest W) (p : ModelTargetPlan W)
        → All (λ (c : ModelTargetCandidate W). P c.instrument_id) request.candidates
        → All (λ (h : CurrentHolding W). P h.instrument_id) request.current_holdings
        → plan texts is_positive reason request_id service request ≡ ok p
        → All (λ (t : TargetInfo W). P t.instrument_id) p.targets × IsOrdered p.targets
    unfolding plan
    planned_targets_are_known is_positive reason request_id service request p known held e =
        OnOk_value _ _
          (if_both (OnOk _) (is_nil request.candidates && is_nil request.current_holdings) (tt, tt)
            (>>=-OnOk (λ _. Unit {0}) _ (post_json service).result _ (OnOk-unit _)
              λ response _.
                read_response-targets is_positive reason request_id request response known held))
          e
