-- ===== src/Model/Candidates/Eligible.antt =====
-- Who becomes a candidate, strategies/model_prediction_targets.py.
use qapp.Base.{
  ℕ, suc, ◌≡◌, ◌≢◌, refl, sym, ap, ◌∙◌, Bool, true, false, Option, none, some, List, [], ◌∷◌, ◌++◌,
  arith, ◌==◌, if◌then◌else◌, if_cases, same_branches, length, All, All-map, All-append, Dict,
  IdSet, lookup, member, add, member-add, ok, OnOk, >>=-OnOk, OnOk_value,
}
use qapp.Model.Plans.{ModelTargetCandidate, ModelState, Framework}
use qapp.Model.Candidates.{
  Signal, Reference, EntryConfig, Names, EntrySkipReason, Screening, entry_skip_reason,
  today_open_price, skip_reason_of, record_signal, candidate_from, admit, decide, screen_signal,
  screen, build_candidates, local_exit, missing_open_price,
}

-- No instrument twice among the candidates.
abbrev pub AreDistinct : {W : Type 0} → List (ModelTargetCandidate W) → Type 0
AreDistinct [] = Unit
AreDistinct (c ∷ cs) = All (λ b. c.instrument_id ≢ b.instrument_id) cs × AreDistinct cs

module _ {W : Type 0} (f : Framework W) (names : Names) (config : EntryConfig W)
    (reference : Reference W) (m : ModelState W) (trading_date : ℕ) (excluded : IdSet) where
  -- A candidate is no forced exit, comes from a signal that no rule skips, and has today's open price.
  pub record IsEligible (c : ModelTargetCandidate W) : Type 0 where
    pub not_excluded : member c.instrument_id excluded ≡ false
    pub signal_stock : ℕ
    pub maps : lookup signal_stock m.instrument_by_stock ≡ some c.instrument_id
    pub not_skipped : entry_skip_reason f names config reference m signal_stock trading_date ≡ none
    pub has_open : c.open_price ≡ today_open_price f names config m c.instrument_id
    pub open_price : W
    pub is_open : c.open_price ≡ some open_price

  -- What holds while the signals are gone through: an instrument is a candidate or filtered once.
  record IsScreened (s : Screening W) : Type 0 where
    eligible : All IsEligible s.candidates
    known : All (λ (c : ModelTargetCandidate W). member c.instrument_id s.seen ≡ true) s.candidates
    distinct : AreDistinct s.candidates
    ranked : s.entry_rank ≡ length s.candidates

  distinct-append :
      (cs : List (ModelTargetCandidate W)) (c : ModelTargetCandidate W) (seen : IdSet)
      → All (λ (b : ModelTargetCandidate W). member b.instrument_id seen ≡ true) cs
      → member c.instrument_id seen ≡ false
      → AreDistinct cs
      → AreDistinct (cs ++ (c ∷ []))
  distinct-append [] c seen known fresh h = (tt, tt)
  distinct-append (b ∷ bs) c seen known fresh h = (
    All-append (λ (x : ModelTargetCandidate W). b.instrument_id ≢ x.instrument_id) bs (c ∷ []) h.0
        (λ e. cc (sym known.0 ∙ ap (λ i. member i seen) e ∙ fresh), tt),
    distinct-append bs c seen known.1 fresh h.1,
  )

  length-append :
      (cs : List (ModelTargetCandidate W)) (c : ModelTargetCandidate W)
      → length (cs ++ (c ∷ [])) ≡ suc (length cs)
  length-append [] c = refl
  length-append (b ∷ bs) c = ap suc (length-append bs c)

  known-add :
      (cs : List (ModelTargetCandidate W)) (id : ℕ) (seen : IdSet)
      → All (λ (c : ModelTargetCandidate W). member c.instrument_id seen ≡ true) cs
      → All (λ (c : ModelTargetCandidate W). member c.instrument_id (add id seen) ≡ true) cs
  known-add cs id seen h =
      All-map (λ (c : ModelTargetCandidate W). member c.instrument_id seen ≡ true)
        (λ (c : ModelTargetCandidate W). member c.instrument_id (add id seen) ≡ true) cs
        (λ c k.
          member-add c.instrument_id id seen
          ∙ (ap (λ b. if c.instrument_id == id then true else b) k
              ∙ same_branches (c.instrument_id == id) true))
        h

  not_skipped-parts :
      (id stock : ℕ)
      → skip_reason_of f names config reference m trading_date excluded id stock ≡ none
      → (member id excluded ≡ false)
        × (entry_skip_reason f names config reference m stock trading_date ≡ none)
  unfolding skip_reason_of
  not_skipped-parts id stock h = parts (member id excluded) _ h
    where
      parts :
          (b : Bool) (e : Option EntrySkipReason)
          → (if b then some local_exit else e) ≡ none
          → (b ≡ false) × (e ≡ none)
      parts true e h = cc h
      parts false e h = (refl, h)

  -- The state in which an instrument is first seen.
  abbrev noted : ℕ → Screening W → Screening W
  noted id s = record s { seen = add id s.seen }

  noted-IsScreened : (id : ℕ) (s : Screening W) → IsScreened s → IsScreened (noted id s)
  noted-IsScreened id s h = record {
    eligible = h.eligible;
    known = known-add s.candidates id s.seen h.known;
    distinct = h.distinct;
    ranked = h.ranked;
  }

  recorded-IsScreened :
      (id rank : ℕ) (signal : Signal W) (reason : Option EntrySkipReason) (s : Screening W)
      → IsScreened s
      → IsScreened (record_signal f names config id rank signal reason s)
  recorded-IsScreened id rank signal reason s h = record {
    eligible = h.eligible;
    known = h.known;
    distinct = h.distinct;
    ranked = h.ranked;
  }

  admit-IsScreened :
      (id : ℕ) (signal : Signal W) (price : W) (expected : Option W) (s : Screening W)
      → ((x : W) → IsEligible (candidate_from f names config id signal price x))
      → member id s.seen ≡ false
      → IsScreened s
      → OnOk IsScreened (admit f names config id signal price expected (noted id s))
  unfolding admit
  admit-IsScreened id signal price none s eligible fresh h = tt
  admit-IsScreened id signal price (some x) s eligible fresh h =
      let c = candidate_from f names config id signal price x in
      record {
        eligible = All-append IsEligible s.candidates (c ∷ []) h.eligible (eligible x, tt);
        known =
            All-append
              (λ (b : ModelTargetCandidate W). member b.instrument_id (add id s.seen) ≡ true)
              s.candidates (c ∷ []) (known-add s.candidates id s.seen h.known)
              (ground (arith, member-add id id s.seen), tt);
        distinct = distinct-append s.candidates c s.seen h.known fresh h.distinct;
        ranked = ap suc h.ranked ∙ sym (length-append s.candidates c);
      }

  decide-IsScreened :
      (id : ℕ) (signal : Signal W) (reason : Option EntrySkipReason) (price : Option W)
      (s : Screening W)
      → lookup signal.stock_code m.instrument_by_stock ≡ some id
      → member id s.seen ≡ false
      → skip_reason_of f names config reference m trading_date excluded id signal.stock_code
        ≡ reason
      → today_open_price f names config m id ≡ price
      → IsScreened s
      → OnOk IsScreened (decide f names config id signal reason price (noted id s))
  unfolding decide
  decide-IsScreened id signal (some reason) price s maps fresh e e' h =
      recorded-IsScreened id signal.rank signal (some reason) (noted id s) (noted-IsScreened id s h)
  decide-IsScreened id signal none none s maps fresh e e' h =
      recorded-IsScreened id signal.rank signal (some missing_open_price) (noted id s)
        (noted-IsScreened id s h)
  decide-IsScreened id signal none (some price) s maps fresh e e' h =
      admit-IsScreened id signal price signal.pred_return_live s eligible_one fresh h
    where
      eligible_one :
          (expected : W) → IsEligible (candidate_from f names config id signal price expected)
      eligible_one expected = record {
        not_excluded = (not_skipped-parts id signal.stock_code e).0;
        signal_stock = signal.stock_code;
        maps = maps;
        not_skipped = (not_skipped-parts id signal.stock_code e).1;
        has_open = sym e';
        open_price = price;
        is_open = refl;
      }

  screen_signal-IsScreened :
      (signal : Signal W) (found : Option ℕ) (s : Screening W)
      → lookup signal.stock_code m.instrument_by_stock ≡ found
      → IsScreened s
      → OnOk IsScreened
          (screen_signal f names config reference m trading_date excluded signal found s)
  unfolding screen_signal
  screen_signal-IsScreened signal none s e h = h
  screen_signal-IsScreened signal (some id) s e h =
      if_cases (OnOk IsScreened) (member id s.seen) (λ _. h)
        (λ fresh. decide-IsScreened id signal _ _ s e fresh refl refl h)

  screen-IsScreened :
      (signals : List (Signal W)) (s : Screening W)
      → IsScreened s
      → OnOk IsScreened (screen f names config reference m trading_date excluded signals s)
  unfolding screen
  screen-IsScreened [] s h = h
  screen-IsScreened (signal ∷ signals) s h =
      >>=-OnOk IsScreened IsScreened _
        (screen f names config reference m trading_date excluded signals)
        (screen_signal-IsScreened signal _ s refl h) (λ s' h'. screen-IsScreened signals s' h')

  -- The candidates of a request are distinct instruments, as many as the entry ranks given, and each
  -- one is eligible: it is not excluded, it comes from a signal that no entry rule skips, and it has an
  -- open price today.
  pub build_candidates-IsEligible :
      (signal_date : Option ℕ) (open_prices : Dict W) (s : Screening W)
      → build_candidates f names config reference m trading_date signal_date open_prices excluded
        ≡ ok s
      → All IsEligible s.candidates
        × AreDistinct s.candidates
        × (s.entry_rank ≡ length s.candidates)
  unfolding build_candidates
  build_candidates-IsEligible signal_date open_prices s e =
      let h =
        OnOk_value IsScreened _
          (screen-IsScreened _ _
            (record { eligible = tt; known = tt; distinct = tt; ranked = refl }))
          e in
      (h.eligible, h.distinct, h.ranked)
