-- ===== src/Model/Local/Exits.antt =====
-- The forced exits in a plan of the risk manager, strategies/model_prediction_targets.py.
use qapp.Base.{
  ℕ, ◌≡◌, refl, sym, ap, ◌∙◌, Bool, true, false, Option, none, some, List, [], ◌∷◌, leb, ◌==◌,
  ==_iff, if◌then◌else◌, if_both, same_branches, Dict, lookup, insert, lookup-insert, IsDict,
  insert-IsDict, place_entry, sort_entries, lookup-sort_entries, sort_entries-IsDict, Result, ok,
  err,
}
use qapp.Strategy.Submit.{is_some}
use qapp.Model.Plans.{
  TargetInfo, ModelTargetPlan, ModelTargetPlanningRequest, Degraded, risk_manager_failure,
  ExitReason, ModelState, Framework,
}
use qapp.Model.Planner.{PlannerError}
use qapp.Model.Local.{
  held_quantities, is_in, note_quantity, quantities_from, target_quantities_from_plan,
  targets_by_instrument, values, local_target_info, local_safety_plan, override_targets,
  apply_forced_exit_overrides, annotate_plan, planned, target_plan,
}
use qapp.Model.Local.Quantities.{safe_target, held_quantities-IsDict, lookup-local_targets}

-- The quantity of a target, else what was found before.
abbrev or_found : Option ℕ → Option ℕ → Option ℕ
or_found none found = found
or_found (some q) found = some q

lookup-note_quantity :
    (id k : ℕ) (o : Option ℕ) (d : Dict ℕ)
    → lookup id (note_quantity k o d) ≡ (if id == k then or_found o (lookup id d) else lookup id d)
lookup-note_quantity id k none d = sym (same_branches (id == k) (lookup id d))
lookup-note_quantity id k (some q) d = lookup-insert id k q d

module _ {W : Type 0} where
  abbrev quantity_of : Option (TargetInfo W) → Option ℕ
  quantity_of none = none
  quantity_of (some t) = t.quantity

  -- Each target stands under its instrument.
  abbrev IsKeyed : Dict (TargetInfo W) → Type 0
  IsKeyed [] = Unit
  IsKeyed ((k, t) ∷ d) = (t.instrument_id ≡ k) × IsKeyed d

  insert-IsKeyed :
      (t : TargetInfo W) (d : Dict (TargetInfo W))
      → IsKeyed d
      → IsKeyed (insert t.instrument_id t d)
  insert-IsKeyed t [] h = (refl, tt)
  insert-IsKeyed t ((j, u) ∷ d) h =
      if_both IsKeyed (t.instrument_id == j) (refl, h.1) (h.0, insert-IsKeyed t d h.1)

  place_entry-IsKeyed :
      (k : ℕ) (t : TargetInfo W) (d : Dict (TargetInfo W))
      → t.instrument_id ≡ k
      → IsKeyed d
      → IsKeyed (place_entry k t d)
  place_entry-IsKeyed k t [] e h = (e, tt)
  place_entry-IsKeyed k t ((j, u) ∷ d) e h =
      if_both IsKeyed (leb k j) (e, h) (h.0, place_entry-IsKeyed k t d e h.1)

  sort_entries-IsKeyed : (d : Dict (TargetInfo W)) → IsKeyed d → IsKeyed (sort_entries d)
  sort_entries-IsKeyed [] h = tt
  sort_entries-IsKeyed ((k, t) ∷ d) h =
      place_entry-IsKeyed k t (sort_entries d) h.0 (sort_entries-IsKeyed d h.1)

  entry_step :
      (t : TargetInfo W) (o : Option (TargetInfo W)) (b : Bool) (found : Option ℕ)
      → (b ≡ true → o ≡ none)
      → or_found (quantity_of o) (if b then or_found t.quantity found else found)
        ≡ or_found (quantity_of (if b then some t else o)) found
  entry_step t o true found h = rw (h refl) refl
  entry_step t o false found h = refl

  exit_step :
      (t : TargetInfo W) (r : ExitReason) (o : Option ExitReason) (p : Option (TargetInfo W))
      (b : Bool)
      → t.quantity ≡ some 0
      → (if is_some o then some 0 else quantity_of (if b then some t else p))
        ≡ (if is_some (if b then some r else o) then some 0 else quantity_of p)
  exit_step t r o p true h = rw h (same_branches (is_some o) (some 0))
  exit_step t r o p false h = refl

  lookup-values :
      (id : ℕ) (d : Dict (TargetInfo W)) (q : Dict ℕ)
      → IsKeyed d
      → IsDict d
      → lookup id (quantities_from (values d) q)
        ≡ or_found (quantity_of (lookup id d)) (lookup id q)
  unfolding quantities_from
  lookup-values id [] q h h' = refl
  lookup-values id ((k, t) ∷ d) q h h' =
      lookup-values id d (note_quantity t.instrument_id t.quantity q) h.1 h'.1
      ∙ (ap (or_found (quantity_of (lookup id d))) (
            lookup-note_quantity id t.instrument_id t.quantity q
            ∙ ap (λ j. if id == j then or_found t.quantity (lookup id q) else lookup id q) h.0)
          ∙ entry_step t (lookup id d) (id == k) (lookup id q)
              (λ e. ap (λ j. lookup j d) ((==_iff id k).0 e) ∙ h'.0))

  targets_by_instrument-IsKeyed :
      (ts : List (TargetInfo W)) (d : Dict (TargetInfo W))
      → IsKeyed d
      → IsDict d
      → IsKeyed (targets_by_instrument ts d) × IsDict (targets_by_instrument ts d)
  unfolding targets_by_instrument
  targets_by_instrument-IsKeyed [] d h h' = (h, h')
  targets_by_instrument-IsKeyed (t ∷ ts) d h h' =
      targets_by_instrument-IsKeyed ts (insert t.instrument_id t d) (insert-IsKeyed t d h)
        (insert-IsDict t.instrument_id t d h')

  module _ (f : Framework W) where
    override-IsKeyed :
        (exits : Dict ExitReason) (d : Dict (TargetInfo W)) (m : ModelState W)
        → IsKeyed d
        → IsDict d
        → IsKeyed (override_targets f exits d m).0 × IsDict (override_targets f exits d m).0
    unfolding override_targets local_target_info
    override-IsKeyed [] d m h h' = (h, h')
    override-IsKeyed ((k, r) ∷ exits) d m h h' =
        override-IsKeyed exits (insert k (local_target_info f k 0 m).0 d) _
          (insert-IsKeyed (local_target_info f k 0 m).0 d h) (insert-IsDict k _ d h')

    quantity-override :
        (id : ℕ) (exits : Dict ExitReason) (d : Dict (TargetInfo W)) (m : ModelState W)
        → quantity_of (lookup id (override_targets f exits d m).0)
          ≡ (if is_in id exits then some 0 else quantity_of (lookup id d))
    unfolding override_targets local_target_info
    quantity-override id [] d m = refl
    quantity-override id ((k, r) ∷ exits) d m =
        quantity-override id exits (insert k (local_target_info f k 0 m).0 d) _
        ∙ (ap (λ p. if is_in id exits then some 0 else quantity_of p)
              (lookup-insert id k (local_target_info f k 0 m).0 d)
            ∙ exit_step (local_target_info f k 0 m).0 r (lookup id exits) (lookup id d) (id == k)
                refl)

    lookup-overridden :
        (plan : ModelTargetPlan W) (exits : Dict ExitReason) (m : ModelState W) (id : ℕ)
        → is_in id exits ≡ true
        → lookup id (target_quantities_from_plan (apply_forced_exit_overrides f plan exits m).0)
          ≡ some 0
    unfolding apply_forced_exit_overrides target_quantities_from_plan
    lookup-overridden plan [] m id h = cc h
    lookup-overridden plan (exit ∷ exits) m id h =
        let start = targets_by_instrument-IsKeyed plan.targets [] tt tt in
        let (keyed, unique) =
          override-IsKeyed (exit ∷ exits) (targets_by_instrument plan.targets []) m start.0
            start.1 in
        let targets =
          (override_targets f (exit ∷ exits) (targets_by_instrument plan.targets []) m).0 in
        lookup-values id (sort_entries targets) [] (sort_entries-IsKeyed targets keyed)
          (sort_entries-IsDict targets unique)
        ∙ (ap (λ o. or_found (quantity_of o) none) (lookup-sort_entries id targets unique)
            ∙ ap (λ o. or_found o none)
                (quantity-override id (exit ∷ exits) (targets_by_instrument plan.targets []) m
                  ∙ ap
                      (λ b.
                        if b
                        then some 0
                        else quantity_of (lookup id (targets_by_instrument plan.targets [])))
                      h))

    lookup-safe :
        (request : ModelTargetPlanningRequest W) (exits : Dict ExitReason) (reason : Degraded)
        (m : ModelState W) (id q : ℕ)
        → is_in id exits ≡ true
        → lookup id (held_quantities m.base) ≡ some q
        → lookup id (target_quantities_from_plan (local_safety_plan f request exits reason m).0)
          ≡ some 0
    unfolding local_safety_plan target_quantities_from_plan
    lookup-safe request exits reason m id q h held =
        lookup-local_targets f exits id (held_quantities m.base) m []
          (held_quantities-IsDict m.base)
        ∙ (ap (λ o. safe_target exits id o none) held ∙ ap (λ b. some (if b then 0 else q)) h)

    planned-exits :
        (request : ModelTargetPlanningRequest W) (exits : Dict ExitReason) (m : ModelState W)
        (answer : Result PlannerError (ModelTargetPlan W)) (id q : ℕ)
        → is_in id exits ≡ true
        → lookup id (held_quantities m.base) ≡ some q
        → lookup id (target_quantities_from_plan (planned f true request exits m answer).0) ≡ some 0
    unfolding planned
    planned-exits request exits m (err raised) id q h held =
        lookup-safe request exits risk_manager_failure m id q h held
    planned-exits request exits m (ok plan) id q h held =
        lookup-overridden (annotate_plan f plan request m) exits m id h

    -- Where local exits are authoritative, a holding that must be left has the target 0 in the plan of
    -- the day, whatever the risk manager answers, and also where it fails or is not asked.
    pub forced_exit_is_final :
        (planner : ModelTargetPlanningRequest W → Result PlannerError (ModelTargetPlan W))
        (request : ModelTargetPlanningRequest W) (exits : Dict ExitReason)
        (degraded : Option Degraded) (m : ModelState W) (id q : ℕ)
        → is_in id exits ≡ true
        → lookup id (held_quantities m.base) ≡ some q
        → lookup id
            (target_quantities_from_plan (target_plan f planner true request exits degraded m).0)
          ≡ some 0
    unfolding target_plan
    forced_exit_is_final planner request exits (some reason) m id q h held =
        lookup-safe request exits reason m id q h held
    forced_exit_is_final planner request exits none m id q h held =
        planned-exits request exits m (planner request) id q h held
