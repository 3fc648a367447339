-- ===== src/Strategy/Targets.antt =====
-- The target map, strategies/target_quantities.py: `update_target_quantities`, `target_version`,
-- `_roll_trading_day` and the `control_*` methods; and
-- strategies/trading_control.py, `TradingController`, whose state is a flag that the strategy
-- mirrors. An operation returns the object and whether it starts a convergence.
pub mod Manual
pub mod Known
pub mod Updates
pub mod Days
pub mod Tests
use qapp.Base.{
  ℕ, zero, suc, ◌+◌, ◌-◌, Bool, true, false, not, ◌&&◌, ◌||◌, Option, none, some, List, [], ◌∷◌,
  ltb, leb, ◌==◌, if◌then◌else◌, Dict, IdSet, lookup, insert, member, add, length,
}
use qapp.Base.Int.{ℤ, pos, negsuc, pos_part, ltb_ℤ, ◌-ℤ◌}
use qapp.Strategy.Types.{Config, Strategy, World, Position, Version, given, computed, of_model}
use qapp.Strategy.Submit.{Engine, is_some}
use qapp.Strategy.Windows.{is_on}

-- The loop that normalizes the quantities: what is no number, or negative, is passed over.
pub normalize : Dict (Option ℤ) → Dict ℕ → Dict ℕ
normalize [] done = done
normalize ((id, none) ∷ qs) done = normalize qs done
normalize ((id, some (negsuc _)) ∷ qs) done = normalize qs done
normalize ((id, some (pos q)) ∷ qs) done = normalize qs (insert id q done)

-- `sum(quantities.values())`
pub total : Dict ℕ → ℕ
total [] = 0
total ((id, q) ∷ d) = q + total d

-- `target_version`; the `int` of the total is left out, since whole shares keep it.
pub target_version : ℕ → Dict ℕ → ℕ → Version
target_version target_date d reason = computed target_date reason (length d) (total d)

abbrev pub same_date : Option ℕ → Option ℕ → Bool
same_date none none = true
same_date (some a) (some b) = a == b
same_date _ _ = false

abbrev pub version_eq : Version → Version → Bool
version_eq (given a) (given b) = a == b
version_eq (computed a b c d) (computed a' b' c' d') = a == a' && b == b' && c == c' && d == d'
version_eq (of_model a b c d) (of_model a' b' c' d') =
    a == a' && same_date b b' && c == c' && d == d'
version_eq _ _ = false

abbrev pub is_version : Version → Option Version → Bool
is_version v none = false
is_version v (some w) = version_eq v w

-- Equality of two dicts: each has the entries of the other.
abbrev pub is_quantity : ℕ → Option ℕ → Bool
is_quantity q none = false
is_quantity q (some r) = q == r

pub includes : Dict ℕ → Dict ℕ → Bool
includes [] d = true
includes ((k, q) ∷ c) d = is_quantity q (lookup k d) && includes c d

-- `dict(sorted(normalized.items()))`
pub place_key : ℕ → ℕ → Dict ℕ → Dict ℕ
place_key k q [] = (k, q) ∷ []
place_key k q ((j, r) ∷ d) = if leb k j then (k, q) ∷ (j, r) ∷ d else (j, r) ∷ place_key k q d

pub by_key : Dict ℕ → Dict ℕ
by_key [] = []
by_key ((k, q) ∷ d) = place_key k q (by_key d)

-- `self._achieved_versions.discard(version_value)`
pub discard_version : Version → List Version → List Version
discard_version v [] = []
discard_version v (w ∷ ws) =
    let rest = discard_version v ws in if version_eq v w then rest else w ∷ rest

pub has_version : Version → List Version → Bool
has_version v [] = false
has_version v (w ∷ ws) = version_eq v w || has_version v ws

-- The end of an update: the new map and what is reset with it. The depth subscriptions, which only
-- the market data reads, are left out.
pub accept : Dict ℕ → ℕ → ℕ → Version → Strategy → Strategy
accept quantities target_date reason version s = record s {
  target_quantities = by_key quantities;
  target_date = some target_date;
  target_reason = reason;
  target_version = some version;
  frozen_instruments = [];
  deferred_buys = [];
  insufficient_funds = [];
  achieved_versions = discard_version version s.achieved_versions;
}

-- `version or target_version(...)`
abbrev pub version_or : Option Version → Version → Version
version_or none v = v
version_or (some w) v = w

-- An update that the guard lets pass, with the normalized quantities and their version.
pub install : Dict ℕ → ℕ → ℕ → Version → Strategy → Bool × Strategy
install quantities target_date reason version s =
    if is_version version s.target_version
      && (includes quantities s.target_quantities && includes s.target_quantities quantities)
    then (false, s)
    else (not s.convergence_suspended, accept quantities target_date reason version s)

-- `update_target_quantities`
pub update_target_quantities :
    Dict (Option ℤ) → ℕ → ℕ → Option Version → Bool → Option ℕ → Strategy → Bool × Strategy
update_target_quantities quantities target_date reason version bypass_pause signal_date s =
    let normalized = normalize quantities [] in
    if s.target_updates_paused && not bypass_pause
    then (false, s)
    else install normalized target_date reason
        (version_or version (target_version target_date normalized reason))
        (record s { target_signal_date = signal_date })

-- `_roll_trading_day`; the market data that it resets stands outside the object here.
pub roll_trading_day : Engine → ℕ → Strategy → Strategy
roll_trading_day e trading_date s = if is_on s.trading_day trading_date then s else record s {
  trading_day = some trading_date;
  authoritative_open = [];
  depth_converged_today = false;
  cancel_count_buy = [];
  cancel_count_sell = [];
  recent_sell_cancel_ts = [];
  last_quote_tick_ts_event =
      (if is_on (e.date_of s.last_quote_tick_ts_event) trading_date
        then s.last_quote_tick_ts_event
        else 0);
}

-- `control_set_paused_flag` and `set_paused`
pub set_paused : Bool → Strategy → Strategy
set_paused paused s = record s { trading_paused = paused; convergence_suspended = paused }

-- `control_set_target_updates_paused_flag` and `set_target_updates_paused`
pub set_target_updates_paused : Bool → Strategy → Strategy
set_target_updates_paused paused s = record s { target_updates_paused = paused }

abbrev pub note_held : Position → Dict ℕ → Dict ℕ
note_held p held = elim p.quantity [
  | none ↦ held
  | some q ↦ if p.is_long && ltb 0 q then insert p.instrument_id q held else held
]

-- The loop of `control_open_long_quantities`.
pub open_long_quantities : List Position → Dict ℕ → Dict ℕ
open_long_quantities [] held = held
open_long_quantities (p ∷ ps) held = open_long_quantities ps (note_held p held)
