-- ===== src/Strategy/Targets/Known.antt =====
-- An update with quantities that are known, strategies/target_quantities.py.
use qapp.Base.{
  ℕ, ◌≡◌, refl, ap, ◌∙◌, Bool, true, false, ◌&&◌, Option, none, some, [], ◌∷◌, ◌==◌, ==_iff,
  if◌then◌else◌, Dict, IsDict, lookup, insert, lookup-insert,
}
use qapp.Strategy.Types.{Strategy, Version}
use qapp.Strategy.Targets.{normalize, update_target_quantities}
use qapp.Strategy.Targets.Updates.{update_sets_targets}
use qapp.Strategy.Targets.Manual.{as_quantities}

abbrev or_before : Option ℕ → Option ℕ → Option ℕ
or_before none before = before
or_before (some q) before = some q

entry :
    (b : Bool) (q : ℕ) (o before : Option ℕ)
    → (b ≡ true → o ≡ none)
    → or_before o (if b then some q else before) ≡ or_before (if b then some q else o) before
entry true q o before h = rw (h refl) refl
entry false q o before h = refl

lookup-normalize :
    (id : ℕ) (q d : Dict ℕ)
    → IsDict q
    → lookup id (normalize (as_quantities q) d) ≡ or_before (lookup id q) (lookup id d)
unfolding normalize
lookup-normalize id [] d h = refl
lookup-normalize id ((k, n) ∷ q) d (fresh, rest) =
    lookup-normalize id q (insert k n d) rest
    ∙ (ap (or_before (lookup id q)) (lookup-insert id k n d)
        ∙ entry (id == k) n (lookup id q) (lookup id d)
            (λ e. ap (λ j. lookup j q) ((==_iff id k).0 e) ∙ fresh))

or_before-none : (o : Option ℕ) → or_before o none ≡ o
or_before-none none = refl
or_before-none (some q) = refl

-- An update that is not paused sets every target to the quantity given for it.
pub known_update :
    (quantities : Dict ℕ) (target_date reason : ℕ) (version : Option Version) (signal : Option ℕ)
    (s : Strategy) (id : ℕ)
    → IsDict quantities
    → s.target_updates_paused ≡ false
    → lookup id
        (update_target_quantities
          (as_quantities quantities)
          target_date
          reason
          version
          false
          signal
          s).1.target_quantities
      ≡ lookup id quantities
known_update quantities target_date reason version signal s id unique running =
    update_sets_targets (as_quantities quantities) target_date reason version false signal s id
      (ap (λ b. b && true) running)
    ∙ (lookup-normalize id quantities [] unique ∙ or_before-none (lookup id quantities))
