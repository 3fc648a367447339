-- ===== src/Strategy/Targets/Manual/Outcomes.antt =====
-- What a manual sale leaves as targets.
use qapp.Base.{
  ℕ, ◌≡◌, refl, sym, ap, ◌∙◌, Bool, true, false, Option, none, some, List, [], ◌∷◌, arith,
  if◌then◌else◌, Dict, lookup, member, to_set, member-to_set, IsDict, Bool-cases, inl, inr,
}
use qapp.Strategy.Types.{Strategy}
use qapp.Strategy.Targets.{open_long_quantities, by_key, target_version}
use qapp.Strategy.Targets.Updates.{lookup-by_key, update_sets_targets}
use qapp.Strategy.Targets.Manual.{
  Plan, requested_holdings, plan_sell, as_quantities, apply_targets, apply_affected, sell_manually,
}
use qapp.Strategy.Targets.Manual.Loop.{
  remainder, override, normalize-as_quantities, by_key-IsDict, open_long-IsDict, lookup-requested,
  to_set-Distinct, requested-IsDict, sell_loop-lookup,
}

-- The targets that a sale installs are those of its plan.
apply_targets-lookup :
    (d : Dict ℕ) (target_date reason : ℕ) (s : Strategy) (id : ℕ)
    → IsDict d
    → lookup id (apply_targets d target_date reason s).1.target_quantities ≡ lookup id d
unfolding apply_targets
apply_targets-lookup d target_date reason s id g =
    update_sets_targets (as_quantities d) target_date reason
      (some (target_version target_date d reason)) true none s id (ground arith)
    ∙ normalize-as_quantities id d [] g
    ∙ same_option (lookup id d)
  where
    same_option : (o : Option ℕ) → override o none ≡ o
    same_option none = refl
    same_option (some q) = refl

affected-applies :
    (affected : List ℕ) (d : Dict ℕ) (reason : ℕ) (s : Strategy) {t : Strategy}
    → apply_affected affected d reason s ≡ (true, t)
    → t ≡ (apply_targets d s.world.clock_date reason s).1
unfolding apply_affected
affected-applies [] d reason s h = cc h
affected-applies (_ ∷ _) d reason s h = sym (ap (λ r. r.1) h)

-- A sale that forces a convergence has installed the targets of its plan.
forced_plan :
    (ids : Option (List ℕ)) (reason : ℕ) (s : Strategy) (id : ℕ) {p : Plan} {t : Strategy}
    → sell_manually ids reason s ≡ some (p, (true, t))
    → IsDict
        (plan_sell s.world.venue_sellable
          (open_long_quantities s.world.positions_open [])
          s.target_quantities
          ids).new_targets
    → lookup id t.target_quantities
      ≡ lookup id
          (plan_sell s.world.venue_sellable
            (open_long_quantities s.world.positions_open [])
            s.target_quantities
            ids).new_targets
unfolding sell_manually
forced_plan ids reason s id {p} {t} h g = elim (Bool-cases s.converge_locked) [
  | inl held ↦ cc (rw held at h)
  | inr free ↦
      (let done : apply_affected plan.affected plan.new_targets reason s ≡ (true, t) =
          cc (rw free at h) in
        rw (affected-applies plan.affected plan.new_targets reason s done)
          (apply_targets-lookup plan.new_targets s.world.clock_date reason s id g))
]
  where
    plan : Plan
    plan =
        plan_sell s.world.venue_sellable (open_long_quantities s.world.positions_open [])
          s.target_quantities ids

-- A sale of everything that affects a holding leaves as targets, for every holding whose sellable
-- quantity is known, what cannot be sold of it, and no other target.
pub sell_all_targets :
    (reason : ℕ) (s : Strategy) (id : ℕ) {p : Plan} {t : Strategy}
    → sell_manually none reason s ≡ some (p, (true, t))
    → lookup id t.target_quantities
      ≡ remainder
          (lookup id (open_long_quantities s.world.positions_open []))
          (s.world.venue_sellable id)
          none
unfolding plan_sell
sell_all_targets reason s id h =
    let held = open_long_quantities s.world.positions_open [] in
    let (g, targets) =
      sell_loop-lookup s.world.venue_sellable (by_key held) _ id
        (by_key-IsDict held (open_long-IsDict s.world.positions_open [] tt)) tt in
    forced_plan none reason s id h g
    ∙ targets
    ∙ ap (λ o. remainder o (s.world.venue_sellable id) none) (lookup-by_key id held)

-- Where the target map has no key twice, a sale of named instruments that affects a holding sets the
-- target of each named holding whose sellable quantity is known to what cannot be sold of it, and
-- keeps every other target.
pub sell_named_targets :
    (ids : List ℕ) (reason : ℕ) (s : Strategy) (id : ℕ) {p : Plan} {t : Strategy}
    → IsDict s.target_quantities
    → sell_manually (some ids) reason s ≡ some (p, (true, t))
    → lookup id t.target_quantities ≡ (
        if member id ids
        then remainder
            (lookup id (open_long_quantities s.world.positions_open []))
            (s.world.venue_sellable id)
            (lookup id s.target_quantities)
        else lookup id s.target_quantities)
unfolding plan_sell
sell_named_targets ids reason s id known h =
    let held = open_long_quantities s.world.positions_open [] in
    let (g, targets) =
      sell_loop-lookup s.world.venue_sellable (requested_holdings (to_set ids) held) _ id
        (requested-IsDict (to_set ids) held (to_set-Distinct ids)) known in
    forced_plan (some ids) reason s id h g
    ∙ targets
    ∙ ap (λ o. remainder o (s.world.venue_sellable id) (lookup id s.target_quantities))
        (lookup-requested id (to_set ids) held)
    ∙ ap
        (λ b.
          remainder (if b then lookup id held else none) (s.world.venue_sellable id)
            (lookup id s.target_quantities))
        (member-to_set id ids)
    ∙ out (member id ids) (lookup id held)
  where
    out :
        (b : Bool) (held : Option ℕ)
        → remainder
            (if b then held else none)
            (s.world.venue_sellable id)
            (lookup id s.target_quantities)
          ≡ (if b
              then remainder held (s.world.venue_sellable id) (lookup id s.target_quantities)
              else lookup id s.target_quantities)
    out true held = refl
    out false held = refl
