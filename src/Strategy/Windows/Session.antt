-- ===== src/Strategy/Windows/Session.antt =====
-- When the trading gate is open.
use mathlib.Core.Path.{subst}
use mathlib.Core.Option.{some-injective}
use qapp.Base.{
  ℕ, zero, suc, ◌+◌, ◌≡◌, refl, sym, ap, ◌↔◌, ◌∙◌, true, false, Option, none, some, List, [], ◌∷◌,
  arith, Bool-cases, Option-cases, inl, inr, ==_iff,
}
use qapp.Strategy.Types.{World, Config, Strategy}
use qapp.Strategy.Submit.{Engine}
use qapp.Strategy.Windows.{
  in_session, window_index_from, time_window_index, index_at, local_trading_window_index,
  event_time, same_index, is_on, event_in_session, within_trading_window,
}

-- The first session that holds the time stands at position `i`.
pub data FirstAt (t : ℕ) : ℕ → List (Option (ℕ × ℕ)) → Type 0 where
  here :
      {w : ℕ × ℕ} {ws : List (Option (ℕ × ℕ))} → in_session t w ≡ true → FirstAt t 0 (some w ∷ ws)
  skip_none : {i : ℕ} {ws : List (Option (ℕ × ℕ))} → FirstAt t i ws → FirstAt t (suc i) (none ∷ ws)
  skip_some :
      {i : ℕ} {w : ℕ × ℕ} {ws : List (Option (ℕ × ℕ))}
      → in_session t w ≡ false
      → FirstAt t i ws
      → FirstAt t (suc i) (some w ∷ ws)

index_sound :
    (n t : ℕ) (ws : List (Option (ℕ × ℕ))) {j : ℕ}
    → window_index_from n t ws ≡ some j
    → (i : ℕ) × (j ≡ n + i) × FirstAt t i ws
unfolding window_index_from
index_sound n t [] h = cc h
index_sound n t (none ∷ ws) h =
    let (i, e, f) = index_sound (suc n) t ws h in (suc i, omega (arith, e), skip_none f)
index_sound n t (some w ∷ ws) {j} h = elim (Bool-cases (in_session t w)) [
  | inl holds ↦ (0, ground (arith, rw holds at h), here holds)
  | inr not_in ↦
      (let (i, e, f) = index_sound (suc n) t ws (rw not_in at h) in
        (suc i, omega (arith, e), skip_some not_in f))
]

index_complete :
    (t n : ℕ) {i : ℕ} {ws : List (Option (ℕ × ℕ))}
    → FirstAt t i ws
    → window_index_from n t ws ≡ some (n + i)
unfolding window_index_from
index_complete t n (here holds) = rw holds (ap some (omega arith))
index_complete t n (skip_none {i} f) = index_complete t (suc n) f ∙ ap some (omega arith)
index_complete t n (skip_some {i} not_in f) =
    rw not_in (index_complete t (suc n) f ∙ ap some (omega arith))

-- The index of a time is that of the first session that parses and holds it, its ends included, and
-- there is one whenever there is such a session.
pub time_window_index-FirstAt :
    (t : ℕ) (ws : List (Option (ℕ × ℕ))) (i : ℕ)
    → (time_window_index t ws ≡ some i) ↔ FirstAt t i ws
unfolding time_window_index
time_window_index-FirstAt t ws i = (
  λ h. let (j, e, f) = index_sound 0 t ws h in subst (λ k. FirstAt t k ws) (omega (arith, e)) f,
  λ f. index_complete t 0 f ∙ ap some (omega arith),
)

-- The clock stands in the session at this position of the strategy's list, in none before it; where
-- its conversion to the local time fails, the position is the first one.
pub data Stands (config : Config) (w : World) : ℕ → Type 0 where
  in_window :
      {t i : ℕ} → w.time_of_day ≡ some t → FirstAt t i config.trading_windows → Stands config w i
  no_local_time : w.time_of_day ≡ none → Stands config w 0

-- An open gate: where the clock stands, and that the event that counts is of today and stands in the
-- session at the same position of the exchange's list.
pub record Open (e : Engine) (config : Config) (s : Strategy) (ts : ℕ) : Type 0 where
  pub index : ℕ
  pub event_clock : ℕ
  pub local : Stands config s.world index
  pub today : e.date_of ts ≡ some s.world.clock_date
  pub at_exchange : e.time_of ts ≡ some event_clock
  pub in_same : FirstAt event_clock index config.exchange_trading_windows

is_on-eq : (d : Option ℕ) (today : ℕ) → is_on d today ≡ true → d ≡ some today
is_on-eq none today h = cc h
is_on-eq (some d) today h = ap some ((==_iff d today).0 h)

same_index-eq : (o : Option ℕ) (i : ℕ) → same_index o (some i) ≡ true → o ≡ some i
same_index-eq none i h = cc h
same_index-eq (some j) i h = ap some ((==_iff j i).0 h)

event-open :
    (e : Engine) (config : Config) (w : World) (ts i : ℕ)
    → event_in_session e config w ts (some i) ≡ true
    → (e.date_of ts ≡ some w.clock_date)
      × ((c : ℕ) × (e.time_of ts ≡ some c) × FirstAt c i config.exchange_trading_windows)
unfolding event_in_session
event-open e config w zero i h = cc h
event-open e config w (suc n) i h = elim (Bool-cases (is_on (e.date_of (suc n)) w.clock_date)) [
  | inr other ↦ cc (rw other at h)
  | inl on ↦ (
    is_on-eq (e.date_of (suc n)) w.clock_date on,
    elim (Option-cases (e.time_of (suc n))) [
      | inl no_time ↦ cc (rw (on, no_time) at h)
      | inr (c, at) ↦ (
        c,
        at,
        (time_window_index-FirstAt c config.exchange_trading_windows i).0 (
            same_index-eq (time_window_index c config.exchange_trading_windows) i
              (rw (on, at) at h)),
      )
    ],
  )
]

local-Stands :
    (config : Config) (w : World) (i : ℕ)
    → local_trading_window_index config w ≡ some i
    → Stands config w i
unfolding local_trading_window_index
local-Stands config w i h = elim (Option-cases w.time_of_day) [
  | inl no_time ↦
      subst (Stands config w) (some-injective 0 i (sym (ap (index_at config) no_time) ∙ h))
        (no_local_time no_time)
  | inr (t, at) ↦
      in_window at (
        (time_window_index-FirstAt t config.trading_windows i).0
          (sym (ap (index_at config) at) ∙ h))
]

-- The trading gate is open only if the clock stands in a trading session, or has no local time, which
-- counts as the first session, and the event that was passed, or else the last quote tick, is of the
-- clock's date and stands in an exchange session, the first one that holds it having the position
-- that the clock's session has in the strategy's list.
pub within_trading_window-Open :
    (e : Engine) (config : Config) (s : Strategy) (ts_event : ℕ)
    → within_trading_window e config s ts_event ≡ true
    → Open e config s (event_time ts_event s.last_quote_tick_ts_event)
unfolding within_trading_window
within_trading_window-Open e config s ts_event h =
    elim (Option-cases (local_trading_window_index config s.world)) [
      | inl outside ↦ cc (rw (outside, within_trading_window) at h)
      | inr (i, found) ↦
          (let (on, (c, at, first)) =
              event-open e config s.world (event_time ts_event s.last_quote_tick_ts_event) i
                (rw (found, within_trading_window) at h) in
            record {
              index = i;
              event_clock = c;
              local = local-Stands config s.world i found;
              today = on;
              at_exchange = at;
              in_same = first;
            })
    ]

-- Without a quote tick and without an event the gate is closed.
pub no_event_closes :
    (e : Engine) (config : Config) (s : Strategy)
    → s.last_quote_tick_ts_event ≡ 0
    → within_trading_window e config s 0 ≡ false
unfolding within_trading_window event_in_session
no_event_closes e config s none_yet =
    elim (Option-cases (local_trading_window_index config s.world)) [
      | inl outside ↦ rw (outside, within_trading_window) refl
      | inr (i, found) ↦
          rw (found, within_trading_window)
            (ap (λ t. event_in_session e config s.world t (some i)) none_yet)
    ]
