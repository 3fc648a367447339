-- ===== src/Strategy/Converge/Guards.antt =====
-- The gates of a convergence, and its lock.
use qapp.Base.{
  ℕ, ◌≡◌, ◌⊎◌, inl, inr, refl, sym, ap, ◌∙◌, if_cases, Bool, true, false, not, ◌&&◌, ◌||◌, none,
  some, if◌then◌else◌, Result, ok,
}
use qapp.Strategy.Types.{Config, Strategy, Version, Failure}
use qapp.Strategy.Submit.{Engine}
use qapp.Strategy.Unfilled.{Market}
use qapp.Strategy.Windows.{within_trading_window}
use qapp.Strategy.Targets.{has_version}
use qapp.Strategy.Converge.{
  release, converge_if_acquired, awaited_lock, is_awaiting, converge_version, converge_for,
  converge_to_target_locked, converge_to_target,
}

-- A closed gate, and an open one.
shut :
    (paused force locked within waited : Bool)
    → (paused && not force || not within) ≡ true
    → locked ≡ (if (force && locked) && within then waited else locked)
shut paused false locked within waited h = refl
shut paused true false within waited h = refl
shut true true true false waited h = refl
shut false true true false waited h = refl
shut true true true true waited h = cc h
shut false true true true waited h = cc h

opened :
    (paused force locked within : Bool) (waited s : Strategy)
    → (paused && not force || not within) ≡ false
    → (if force && locked then waited else s).converge_locked
      ≡ (if (force && locked) && within then waited.converge_locked else s.converge_locked)
opened paused false locked within waited s h = refl
opened paused true false within waited s h = refl
opened paused true true true waited s h = refl
opened true true true false waited s h = cc h
opened false true true false waited s h = cc h

module _ (e : Engine) (market : Market) (unit : ℕ) (config : Config) where
  release-free :
      (r : Result Failure (Unit {0}) × Strategy)
      → (release e market unit config r).1.converge_locked ≡ false
  unfolding release
  release-free (r, s) = refl

  converge_if_acquired-frees :
      (today : ℕ) (s : Strategy)
      → (converge_if_acquired e market unit config today s).1.converge_locked ≡ s.converge_locked
  unfolding converge_if_acquired
  converge_if_acquired-frees today s =
      if_cases
        (λ (r : Result Failure (Unit {0}) × Strategy). r.1.converge_locked ≡ s.converge_locked)
        s.converge_locked (λ locked. refl) (λ unlocked. release-free _ ∙ sym unlocked)

  -- A convergence leaves the lock as it found it, however it ends; a forced one that has to wait for
  -- another thread leaves it as the wait did, so free where the other thread freed it in time.
  pub convergence_keeps_lock :
      (today : ℕ) (force : Bool) (s : Strategy)
      → (converge_to_target e market unit config today force s).1.converge_locked ≡ (
          if (force && s.converge_locked) && within_trading_window e config s 0
          then (e.wait_for_lock s).converge_locked
          else s.converge_locked)
  unfolding converge_to_target awaited_lock
  convergence_keeps_lock today force s =
      if_cases
        (λ (r : Result Failure (Unit {0}) × Strategy). r.1.converge_locked ≡ (
          if (force && s.converge_locked) && within_trading_window e config s 0
          then (e.wait_for_lock s).converge_locked
          else s.converge_locked))
        (s.trading_paused && not force || not (within_trading_window e config s 0))
        (shut s.trading_paused force s.converge_locked (within_trading_window e config s 0) _)
        (λ open_gate.
          converge_if_acquired-frees today _
          ∙ opened s.trading_paused force s.converge_locked (within_trading_window e config s 0)
              (e.wait_for_lock s) s open_gate)

  converge_version-idle :
      (today : ℕ) (v : Version) (s : Strategy)
      → (is_awaiting e market unit config s.world || has_version v s.achieved_versions) ≡ true
      → converge_version e market unit config today v s ≡ (ok tt, s)
  unfolding converge_version
  converge_version-idle today v s idle = rw idle refl

  -- Without a target version, before the first reconciliation where one is configured, or for a
  -- version that was achieved, a convergence changes nothing under its lock.
  pub idle_convergence :
      (today : ℕ) (s : Strategy)
      → (s.target_version ≡ none)
        ⊎ ((v : Version) × (s.target_version ≡ some v)
            × ((is_awaiting e market unit config s.world || has_version v s.achieved_versions)
                ≡ true))
      → converge_to_target_locked e market unit config today s ≡ (ok tt, s)
  unfolding converge_to_target_locked converge_for
  idle_convergence today s (inl no_version) =
      ap (λ v. converge_for e market unit config v today s) no_version
  idle_convergence today s (inr (v, known, idle)) =
      ap (λ w. converge_for e market unit config w today s) known
      ∙ converge_version-idle today v s idle
