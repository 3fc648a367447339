-- ===== src/Strategy/Targets/Updates.antt =====
-- What an update of the targets does to the map and to the latches.
use mathlib.Core.Path.{subst}
use qapp.Base.{
  ℕ, ◌≡◌, refl, sym, ap, Bool, true, false, not, ◌&&◌, Option, some, List, [], ◌∷◌, arith, ◌==◌,
  if◌then◌else◌, Dict, lookup, Bool-cases, Option-cases, inl, inr,
}
use qapp.Base.Int.{ℤ}
use qapp.Strategy.Types.{Strategy, Version}
use qapp.Strategy.Targets.{
  normalize, is_version, includes, place_key, by_key, discard_version, has_version, accept, install,
  update_target_quantities,
}

pub lookup-place_key :
    (i k q : ℕ) (d : Dict ℕ) → lookup i (place_key k q d) ≡ (if i == k then some q else lookup i d)
unfolding place_key
lookup-place_key i k q [] = refl
lookup-place_key i k q ((j, r) ∷ d) = ground (arith, lookup-place_key i k q d)

pub lookup-by_key : (i : ℕ) (d : Dict ℕ) → lookup i (by_key d) ≡ lookup i d
unfolding by_key
lookup-by_key i [] = refl
lookup-by_key i ((k, q) ∷ d) = ground (arith, lookup-place_key i k q (by_key d), lookup-by_key i d)

includes-lookup :
    (i q : ℕ) (c d : Dict ℕ) → includes c d ≡ true → lookup i c ≡ some q → lookup i d ≡ some q
unfolding includes
includes-lookup i q [] d h l = ground arith
includes-lookup i q ((k, r) ∷ c) d h l = ground (arith, includes-lookup i q c d)

both_include :
    (i : ℕ) (c d : Dict ℕ) → includes c d ≡ true → includes d c ≡ true → lookup i c ≡ lookup i d
both_include i c d h k = elim (Option-cases (lookup i c)) [
  | inl no_c ↦ elim (Option-cases (lookup i d)) [
    | inl no_d ↦ cc
    | inr (q, at_d) ↦ cc (includes-lookup i q d c k at_d)
  ]
  | inr (q, at_c) ↦ cc (includes-lookup i q c d h at_c)
]

has-discard : (v : Version) (vs : List Version) → has_version v (discard_version v vs) ≡ false
unfolding has_version discard_version
has-discard v [] = refl
has-discard v (w ∷ ws) = ground (arith, has-discard v ws)

install-lookup :
    (id : ℕ) (quantities : Dict ℕ) (target_date reason : ℕ) (version : Version) (s : Strategy)
    → lookup id (install quantities target_date reason version s).1.target_quantities
      ≡ lookup id quantities
unfolding install accept
install-lookup id quantities target_date reason version s =
    elim (Bool-cases (
      is_version version s.target_version
      && (includes quantities s.target_quantities && includes s.target_quantities quantities))) [
        | inl same ↦
            rw same
              (sym (both_include id quantities s.target_quantities (ground arith) (ground arith)))
        | inr differs ↦ rw differs (lookup-by_key id quantities)
      ]

-- An update that the guard lets pass sets the target of every instrument to the normalized quantity,
-- whether the map is replaced or was the same already.
pub update_sets_targets :
    (quantities : Dict (Option ℤ)) (target_date reason : ℕ) (version : Option Version)
    (bypass : Bool) (signal : Option ℕ) (s : Strategy) (id : ℕ)
    → (s.target_updates_paused && not bypass) ≡ false
    → lookup id
        (update_target_quantities quantities target_date reason version bypass signal
          s).1.target_quantities
      ≡ lookup id (normalize quantities [])
unfolding update_target_quantities
update_sets_targets quantities target_date reason version bypass signal s id passes =
    rw passes (install-lookup id (normalize quantities []) target_date reason _ _)

-- While the updates are paused, an update without the bypass changes nothing and starts no
-- convergence.
pub paused_update_is_inert :
    (quantities : Dict (Option ℤ)) (target_date reason : ℕ) (version : Option Version)
    (signal : Option ℕ) (s : Strategy)
    → s.target_updates_paused ≡ true
    → update_target_quantities quantities target_date reason version false signal s ≡ (false, s)
unfolding update_target_quantities
paused_update_is_inert quantities target_date reason version signal s paused = rw paused refl

-- The reset state of an update that starts a convergence.
abbrev pub IsReset : Strategy → Type 0
IsReset t =
    (t.frozen_instruments ≡ [])
    × (t.deferred_buys ≡ [])
    × (t.insufficient_funds ≡ [])
    × ((v : Version) × (t.target_version ≡ some v) × (has_version v t.achieved_versions ≡ false))
    × (t.convergence_suspended ≡ false)

install_resets :
    (quantities : Dict ℕ) (target_date reason : ℕ) (version : Version) (s : Strategy) {t : Strategy}
    → install quantities target_date reason version s ≡ (true, t)
    → IsReset t
unfolding install
install_resets quantities target_date reason version s {t} h =
    elim (Bool-cases (
      is_version version s.target_version
      && (includes quantities s.target_quantities && includes s.target_quantities quantities))) [
        | inl same ↦ cc (rw same at h)
        | inr differs ↦
            let h' = rw differs at h in
            subst IsReset (ap (λ r. r.1) h') (
              unfold accept in
              (
                refl,
                refl,
                refl,
                (version, refl, has-discard version s.achieved_versions),
                ground (arith, ap (λ r. r.0) h'),
              ))
      ]

-- An update that starts a convergence has left no frozen instrument, no deferred buy, no block for
-- missing cash, and a version that does not count as achieved, and the strategy is not suspended.
pub converging_update_resets :
    (quantities : Dict (Option ℤ)) (target_date reason : ℕ) (version : Option Version)
    (bypass : Bool) (signal : Option ℕ) (s : Strategy) {t : Strategy}
    → update_target_quantities quantities target_date reason version bypass signal s ≡ (true, t)
    → IsReset t
unfolding update_target_quantities
converging_update_resets quantities target_date reason version bypass signal s {t} h =
    elim (Bool-cases (s.target_updates_paused && not bypass)) [
      | inl paused ↦ cc (rw paused at h)
      | inr passes ↦
          install_resets (normalize quantities []) target_date reason _ _ (rw passes at h)
    ]
