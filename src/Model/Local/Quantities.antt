-- ===== src/Model/Local/Quantities.antt =====
-- The quantities of the local plans, strategies/model_prediction_targets.py.
use mathlib.Core.Path.{subst}
use qapp.Base.{
  ℕ, zero, suc, ◌≡◌, ◌≢◌, refl, sym, ap, ◌∙◌, ◌⊎◌, inl, inr, Bool, true, false, ◌&&◌, Option, none,
  some, List, [], ◌∷◌, arith, ◌==◌, ==_iff, Bool-cases, if◌then◌else◌, Dict, lookup, insert, member,
  lookup-insert, IsDict, insert-IsDict, if_both, sort_ids, member-sort_ids,
}
use qapp.Base.Int.{ℤ, pos, negsuc, pos_part, ltb_ℤ, ◌-ℤ◌}
use qapp.Strategy.Types.{Side, buy, sell, Strategy, World}
use qapp.Strategy.Converge.Desired.{holds, held_instrument_ids, by_delta, side_and_quantity}
use qapp.Model.Plans.{
  TargetInfo, ModelTargetPlanningRequest, Degraded, ExitReason, ModelState, Framework,
}
use qapp.Model.Local.{
  held_loop, held_quantities, is_in, unless_forced, note_quantity, quantities_from,
  target_quantities_from_plan, local_target_info, local_targets, local_safety_plan,
}

-- What is held of an instrument that is in the list.
abbrev held_of : World → Bool → ℕ → Option ℕ → Option ℕ
held_of w listed id found =
    if listed && holds w id then some (pos_part (w.net_position id)) else found

same_id :
    (i q : ℕ) (listed held : Bool) (d : Dict ℕ)
    → (if listed && held then some q else lookup i (if held then insert i q d else d))
      ≡ (if held then some q else lookup i d)
same_id i q true true d = refl
same_id i q false true d = ground (arith, lookup-insert i i q d)
same_id i q true false d = refl
same_id i q false false d = refl

other_id :
    (i id q : ℕ) (held : Bool) (d : Dict ℕ)
    → (i == id) ≡ false
    → lookup i (if held then insert id q d else d) ≡ lookup i d
other_id i id q true d e = lookup-insert i id q d ∙ ap (λ b. if b then some q else lookup i d) e
other_id i id q false d e = refl

lookup-held_loop :
    (w : World) (i : ℕ) (ids : List ℕ) (d : Dict ℕ)
    → lookup i (held_loop w ids d) ≡ held_of w (member i ids) i (lookup i d)
unfolding held_loop
lookup-held_loop w i [] d = refl
lookup-held_loop w i (id ∷ ids) d =
    lookup-held_loop w i ids (noted id) ∙ elim (Bool-cases (i == id)) [
      | inl e ↦
          subst
            (λ j. held_of w (member i ids) i (lookup i (noted j)) ≡ held_of w true i (lookup i d))
            ((==_iff i id).0 e)
            (same_id i (pos_part (w.net_position i)) (member i ids) (holds w i) d)
          ∙ ap (λ b. held_of w (if b then true else member i ids) i (lookup i d)) (sym e)
      | inr e ↦
          ap (held_of w (member i ids) i)
            (other_id i id (pos_part (w.net_position id)) (holds w id) d e)
          ∙ ap (λ b. held_of w (if b then true else member i ids) i (lookup i d)) (sym e)
    ]
  where
    noted : ℕ → Dict ℕ
    noted j = if holds w j then insert j (pos_part (w.net_position j)) d else d

held_loop-IsDict : (w : World) (ids : List ℕ) (d : Dict ℕ) → IsDict d → IsDict (held_loop w ids d)
unfolding held_loop
held_loop-IsDict w [] d h = h
held_loop-IsDict w (id ∷ ids) d h =
    held_loop-IsDict w ids _ (if_both IsDict (holds w id) (insert-IsDict id _ d h) h)

-- What `_held_quantities` gives for an instrument: its position, if it is held.
pub lookup-held_quantities :
    (s : Strategy) (id : ℕ)
    → lookup id (held_quantities s) ≡ (
        if member id (held_instrument_ids s) && holds s.world id
        then some (pos_part (s.world.net_position id))
        else none)
unfolding held_quantities
lookup-held_quantities s id =
    lookup-held_loop s.world id (sort_ids (held_instrument_ids s)) []
    ∙ ap (λ b. held_of s.world b id none) (member-sort_ids id (held_instrument_ids s))

pub held_quantities-IsDict : (s : Strategy) → IsDict (held_quantities s)
unfolding held_quantities
held_quantities-IsDict s = held_loop-IsDict s.world (sort_ids (held_instrument_ids s)) [] tt

-- The quantity of a local plan.
abbrev pub safe_target : Dict ExitReason → ℕ → Option ℕ → Option ℕ → Option ℕ
safe_target forced_exits id none found = found
safe_target forced_exits id (some q) found = some (unless_forced forced_exits id q)

safe_insert :
    (forced_exits : Dict ExitReason) (id k q : ℕ) (o : Option ℕ) (d : Dict ℕ) (b : Bool)
    → (id == k) ≡ b
    → (b ≡ true → o ≡ none)
    → safe_target forced_exits id o (lookup id (insert k (unless_forced forced_exits k q) d))
      ≡ safe_target forced_exits id (if b then some q else o) (lookup id d)
safe_insert forced_exits id k q o d true e fresh = rw (fresh refl) (
    lookup-insert id k (unless_forced forced_exits k q) d
    ∙ (ap (λ c. if c then some (unless_forced forced_exits k q) else lookup id d) e
        ∙ ap (λ j. some (unless_forced forced_exits j q)) (sym ((==_iff id k).0 e))))
safe_insert forced_exits id k q o d false e fresh = ap (safe_target forced_exits id o) (
    lookup-insert id k (unless_forced forced_exits k q) d
    ∙ ap (λ c. if c then some (unless_forced forced_exits k q) else lookup id d) e)

sub_self : (n : ℕ) → pos n -ℤ pos n ≡ pos 0
unfolding ◌-ℤ◌
sub_self n = ground arith

no_buy :
    (b : Bool) (p q : ℕ)
    → let sale : Option (Side × ℕ) = some (sell, p) in (if b then sale else none) ≢ some (buy, q)
no_buy true p q h = cc h
no_buy false p q h = cc h

-- A target of 0 or of the position itself is no reason to buy.
at_most_buys_nothing :
    (net : ℤ) (target q : ℕ)
    → (target ≡ 0) ⊎ (net ≡ pos target)
    → side_and_quantity net target ≢ some (buy, q)
unfolding side_and_quantity
at_most_buys_nothing net zero q _ = no_buy (ltb_ℤ (pos 0) net) (pos_part net) q
at_most_buys_nothing net (suc n) q (inl e) = absurd (omega (arith, e))
at_most_buys_nothing net (suc n) q (inr e) =
    λ h. cc (sym (ap by_delta (ap (λ k. pos (suc n) -ℤ k) e ∙ sub_self (suc n))) ∙ h)

by_forced :
    (forced : Bool) (n target : ℕ)
    → some (if forced then 0 else n) ≡ some target
    → (target ≡ 0) ⊎ (n ≡ target)
by_forced true n target h = inl (cc h)
by_forced false n target h = inr (cc h)

by_held :
    (forced_exits : Dict ExitReason) (id n target : ℕ) (held : Bool)
    → safe_target forced_exits id (if held then some n else none) none ≡ some target
    → (target ≡ 0) ⊎ (n ≡ target)
by_held forced_exits id n target true h = by_forced (is_in id forced_exits) n target h
by_held forced_exits id n target false h = cc h

safe_target-cases :
    (forced_exits : Dict ExitReason) (id : ℕ) (net : ℤ) (b : Bool) (target : ℕ)
    → safe_target forced_exits id
        (if b && ltb_ℤ (pos 0) net then some (pos_part net) else none)
        none
      ≡ some target
    → (target ≡ 0) ⊎ (net ≡ pos target)
safe_target-cases forced_exits id (pos n) b target h = elim (by_held forced_exits id n target _ h) [
  | inl e ↦ inl e
  | inr e ↦ inr (ap pos e)
]
safe_target-cases forced_exits id (negsuc n) b target h =
    elim (by_held forced_exits id 0 target _ h) [ inl e ↦ inl e | inr e ↦ inl (sym e) ]

module _ {W : Type 0} (f : Framework W) where
  pub lookup-local_targets :
      (forced_exits : Dict ExitReason) (id : ℕ) (held : Dict ℕ) (m : ModelState W) (d : Dict ℕ)
      → IsDict held
      → lookup id (quantities_from (local_targets f forced_exits held m).0 d)
        ≡ safe_target forced_exits id (lookup id held) (lookup id d)
  unfolding quantities_from local_targets local_target_info
  lookup-local_targets forced_exits id [] m d h = refl
  lookup-local_targets forced_exits id ((k, q) ∷ held) m d (fresh, rest) =
      lookup-local_targets forced_exits id held _ (insert k (unless_forced forced_exits k q) d) rest
      ∙ safe_insert forced_exits id k q (lookup id held) d (id == k) refl
          (λ e. ap (λ j. lookup j held) ((==_iff id k).0 e) ∙ fresh)

  -- The local safety plan, which is not persistable, has a target for exactly the instruments held: 0
  -- for a forced exit, and the position otherwise. Trading toward it never buys.
  pub safety_plan_never_buys :
      (request : ModelTargetPlanningRequest W) (forced_exits : Dict ExitReason) (reason : Degraded)
      (m : ModelState W) (id : ℕ)
      → let plan = (local_safety_plan f request forced_exits reason m).0 in
        (plan.persistable ≡ false)
        × (lookup id (target_quantities_from_plan plan)
            ≡ safe_target forced_exits id (lookup id (held_quantities m.base)) none)
        × ((target q : ℕ)
            → lookup id (target_quantities_from_plan plan) ≡ some target
            → side_and_quantity (m.base.world.net_position id) target ≢ some (buy, q))
  unfolding local_safety_plan target_quantities_from_plan
  safety_plan_never_buys request forced_exits reason m id = (
    refl,
    found,
    λ target q e. at_most_buys_nothing (m.base.world.net_position id) target q (
        safe_target-cases forced_exits id (m.base.world.net_position id)
          (member id (held_instrument_ids m.base)) target
          (ap (λ o. safe_target forced_exits id o none) (sym (lookup-held_quantities m.base id))
            ∙ (sym found ∙ e))),
  )
    where
      found :
          lookup id (quantities_from (local_targets f forced_exits (held_quantities m.base) m).0 [])
          ≡ safe_target forced_exits id (lookup id (held_quantities m.base)) none
      found =
          lookup-local_targets forced_exits id (held_quantities m.base) m []
            (held_quantities-IsDict m.base)

pub quantities_from-IsDict :
    {W : Type 0} (ts : List (TargetInfo W)) (d : Dict ℕ) → IsDict d → IsDict (quantities_from ts d)
unfolding quantities_from
quantities_from-IsDict [] d h = h
quantities_from-IsDict (t ∷ ts) d h = quantities_from-IsDict ts _ (noted t.instrument_id t.quantity)
  where
    noted : (id : ℕ) (o : Option ℕ) → IsDict (note_quantity id o d)
    noted id none = h
    noted id (some q) = insert-IsDict id q d h
