-- ===== src/Model/Planner/Retry.antt =====
-- The attempts of `_post_json`, strategies/model_target_planners/risk_manager.py.
use qapp.Base.{
  Bool, true, false, ℕ, zero, suc, ◌+◌, ◌≤◌, ◌<◌, ◌≡◌, ◌≢◌, ◌⊎◌, inl, inr, refl, sym, ap, ◌∙◌,
  arith, leb, Result, ok, err, if◌then◌else◌,
}
use qapp.Model.Planner.{
  Reply, object, bad_reply, other_error, Response, PlannerError, gave_up, propagated, Posted,
  max_attempts, after_reply, post_from, post_json,
}

-- The seconds slept in `k` retries from `attempt` on.
abbrev pub pauses : ℕ → ℕ → ℕ
pauses attempt zero = 0
pauses attempt (suc k) = attempt + pauses (suc attempt) k

pauses-bound : (k : ℕ) → 1 + k ≤ max_attempts → pauses 1 k ≤ 15
pauses-bound zero h = omega arith
pauses-bound (suc zero) h = omega arith
pauses-bound (suc (suc zero)) h = omega arith
pauses-bound (suc (suc (suc zero))) h = omega arith
pauses-bound (suc (suc (suc (suc zero)))) h = omega arith
pauses-bound (suc (suc (suc (suc (suc zero))))) h = omega arith
pauses-bound (suc (suc (suc (suc (suc (suc k)))))) h = omega (arith, h)

module _ {W : Type 0} where
  -- The result of a call that ends with a reply.
  abbrev pub verdict : Reply W → Result PlannerError (Response W)
  verdict (object response) = ok response
  verdict bad_reply = err gave_up
  verdict other_error = err propagated

  -- The call from `attempt` on ends after `k` retries: all replies before are bad, and the last one is
  -- not, or it is that of the last attempt.
  pub record Ends (service : ℕ → Reply W) (attempt k : ℕ) : Type 0 where
    pub in_time : attempt + k ≤ max_attempts
    pub retried : (j : ℕ) → j < k → service (attempt + j) ≡ bad_reply
    pub decides : (service (attempt + k) ≢ bad_reply) ⊎ (attempt + k ≡ max_attempts)

  IsEnded : (ℕ → Reply W) → ℕ → ℕ → Type 0
  IsEnded service left attempt =
      (k : ℕ) × Ends service attempt k
      × (post_from service left attempt ≡ record {
        attempts = suc k;
        slept = pauses attempt k;
        result = verdict (service (attempt + k));
      })

  -- A reply that is not tried again.
  at_once :
      (service : ℕ → Reply W) (left attempt : ℕ)
      → attempt + left ≡ max_attempts
      → (service attempt ≢ bad_reply) ⊎ (attempt ≡ max_attempts)
      → Ends service attempt 0
  at_once service left attempt budget decides = record {
    in_time = omega (arith, budget);
    retried = λ j h. absurd (omega (arith, h));
    decides = elim decides [
      | inl other ↦ inl (λ h. other (ap service (omega arith) ∙ h))
      | inr last ↦ inr (omega (arith, last))
    ];
  }

  -- A bad reply, and then the end of the rest.
  after_retry :
      (service : ℕ → Reply W) (attempt k : ℕ)
      → service attempt ≡ bad_reply
      → Ends service (suc attempt) k
      → Ends service attempt (suc k)
  after_retry service attempt k e rest = record {
    in_time = omega (arith, rest.in_time);
    retried = λ j. elim j as (λ i. i < suc k → service (attempt + i) ≡ bad_reply) [
      | zero ↦ λ h. ap service (omega arith) ∙ e
      | suc i ↦ λ h. ap service (omega arith) ∙ rest.retried i (omega (arith, h))
    ];
    decides = elim rest.decides [
      | inl other ↦ inl (λ h. other (ap service (omega arith) ∙ h))
      | inr last ↦ inr (omega (arith, last))
    ];
  }

  -- A posting, by its parts.
  abbrev pub posted : ℕ → ℕ → Result PlannerError (Response W) → Posted W
  posted attempts slept result = record { attempts = attempts; slept = slept; result = result }

  ends_somewhere :
      (service : ℕ → Reply W) (left attempt : ℕ) (reply : Reply W)
      → attempt + left ≡ max_attempts
      → service attempt ≡ reply
      → IsEnded service (suc left) attempt
  unfolding IsEnded post_from after_reply
  ends_somewhere service left attempt (object response) budget e = (
    0,
    at_once service left attempt budget (inl (λ h. cc (e, h))),
    ap (after_reply attempt (post_from service left (suc attempt))) e
        ∙ ap (posted 1 0) (sym (ap verdict (ap service (omega arith) ∙ e))),
  )
  ends_somewhere service left attempt other_error budget e = (
    0,
    at_once service left attempt budget (inl (λ h. cc (e, h))),
    ap (after_reply attempt (post_from service left (suc attempt))) e
        ∙ ap (posted 1 0) (sym (ap verdict (ap service (omega arith) ∙ e))),
  )
  ends_somewhere service zero attempt bad_reply budget e = (
    0,
    at_once service zero attempt budget (inr (omega (arith, budget))),
    ap (after_reply attempt (post_from service zero (suc attempt))) e
        ∙ (last (leb max_attempts attempt) (ground (arith, budget)) _ _
            ∙ ap (posted 1 0) (sym (ap verdict (ap service (omega arith) ∙ e)))),
  )
    where
      last : (b : Bool) → b ≡ true → (p q : Posted W) → (if b then p else q) ≡ p
      last true h p q = refl
      last false h p q = cc h
  ends_somewhere service (suc left) attempt bad_reply budget e =
      let (k, ends, found) =
        ends_somewhere service left (suc attempt) _ (omega (arith, budget)) refl in
      (
        suc k,
        after_retry service attempt k e ends,
        ap (after_reply attempt (post_from service (suc left) (suc attempt))) e
            ∙ (goes_on (leb max_attempts attempt) (ground (arith, budget)) _
                ∙ (ap (λ rest. posted (suc rest.attempts) (attempt + rest.slept) rest.result) found
                    ∙ ap (posted (suc (suc k)) (pauses attempt (suc k)))
                        (ap verdict (ap service (omega arith))))),
      )
    where
      goes_on :
          (b : Bool)
          → b ≡ false
          → (rest : Posted W)
          → (if b
              then posted 1 0 (err gave_up)
              else posted (suc rest.attempts) (attempt + rest.slept) rest.result)
            ≡ posted (suc rest.attempts) (attempt + rest.slept) rest.result
      goes_on true h rest = cc h
      goes_on false h rest = refl

  -- Whatever the service does, a call ends after some number of retries: all replies before the last
  -- were bad, and that one is not, or it is the sixth. Its object is the result; otherwise the call
  -- gives up or raises. Each retry waits for as many seconds as its number, 15 at most in all.
  pub post-Ends :
      (service : ℕ → Reply W)
      → (k : ℕ) × Ends service 1 k
        × (post_json service ≡ posted (suc k) (pauses 1 k) (verdict (service (1 + k))))
        × (pauses 1 k ≤ 15)
  unfolding IsEnded post_json
  post-Ends service =
      let (k, ends, found) = ends_somewhere service 5 1 _ refl refl in
      (k, ends, found, pauses-bound k ends.in_time)
