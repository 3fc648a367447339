-- ===== src/Model/Candidates/Tests.antt =====
-- Runs of the entry filter, and an instance of its theorem.
use qapp.Base.{
  ℕ, ◌≡◌, refl, false, Option, none, some, List, [], ◌∷◌, ◌==◌, map, All, length, ok, err,
  if◌then◌else◌,
}
use qapp.Base.Int.{◌-ℤ◌}
use qapp.Model.Calendar.{earlier}
use qapp.Model.Plans.{ModelState, normalize_stock_code}
use qapp.Model.Local.{above_nought, is_suspended_status}
use qapp.Model.Samples.{framework, state}
use qapp.Model.Candidates.{
  SignalEvent, Signal, Reference, EntryConfig, Names, EntrySkipReason, Screening, place_prefix,
  longest_first, first_prefix, last_n, name_skip_reason, today_open_price, gap_exceeds,
  has_excessive_open_gap, limit_row, limit_rows, all_at_limit, required_dates,
  has_consecutive_up_limits, market_skip_reason, entry_skip_reason, skip_reason_of, admit, decide,
  screen_signal, screen, build_candidates, st_name, new_stock, consecutive_up_limit, local_exit,
  missing_open_price,
}
use qapp.Model.Candidates.Eligible.{IsEligible, AreDistinct, build_candidates-IsEligible}

program : Unit {0}
unfolding ◌-ℤ◌ earlier normalize_stock_code above_nought is_suspended_status place_prefix
    longest_first first_prefix last_n name_skip_reason today_open_price gap_exceeds
    has_excessive_open_gap limit_row limit_rows all_at_limit required_dates
    has_consecutive_up_limits market_skip_reason entry_skip_reason skip_reason_of admit decide
    screen_signal screen build_candidates
program = tt

-- Prefixes of two digits; 44 ends as ST names do, and the name of instrument 3 is 4412.
abbrev names : Names
names = record {
  instrument_name = λ id. if id == 3 then 4412 else 9900;
  text_length = λ _. 2;
  starts_with = λ name prefix. if name == 4412 then prefix == 44 else false;
  ends_with_st = λ prefix. prefix == 44;
}

abbrev config : EntryConfig ℕ
config = record {
  min_listed_days = 2;
  max_open_gap_up = 0;
  consecutive_up_limit_days = 2;
  excluded_name_prefixes = 55 ∷ 44 ∷ [];
  price_comparison_tolerance = 0;
}

abbrev signal : ℕ → Signal ℕ
signal code = record {
  date = 6;
  stock_code = code;
  score = 1;
  rank = code;
  pred_return_live = some 2;
}

-- Stock 105 was at its limit on both days before, and 106 is listed since the sixth.
abbrev reference : Reference ℕ
reference = record {
  signals_by_date =
      (
        6,
        signal 101
            ∷ signal 102
            ∷ signal 103
            ∷ signal 104
            ∷ signal 105
            ∷ signal 106
            ∷ signal 101
            ∷ [],
      )
      ∷ [];
  trading_dates = 4 ∷ 5 ∷ 6 ∷ 7 ∷ [];
  listed_dates = (106, 6) ∷ [];
  st_by_date = [];
  suspended_by_date = [];
  daily_stock_data = λ code d. some (record {
    close = some (if code == 105 then 11 else 10);
    up_limit = some 11;
    adj_factor = none;
  });
}

abbrev opened : ModelState ℕ
opened = record state {
  instrument_by_stock = (101, 1) ∷ (102, 2) ∷ (103, 3) ∷ (104, 4) ∷ (105, 5) ∷ (106, 6) ∷ [];
  today_open = (1, 10) ∷ (2, 10) ∷ (3, 10) ∷ (5, 10) ∷ (6, 10) ∷ [];
}

abbrev built : Screening ℕ
unfolding program
built =
    elim (build_candidates framework names config reference opened 7 (some 6) [] (2 ∷ []))
      as (λ _. Screening ℕ) [
        | ok s ↦ s
        | err _ ↦ record {
          candidates = [];
          seen = [];
          entry_rank = 0;
          open_prices = [];
          signal_events = [];
        }
      ]

abbrev reasons : List (ℕ × Option EntrySkipReason)
reasons =
    (1, none)
    ∷ (2, some local_exit)
    ∷ (3, some st_name)
    ∷ (4, some missing_open_price)
    ∷ (5, some consecutive_up_limit)
    ∷ (6, some new_stock)
    ∷ []

screen_run :
    map (λ (e : SignalEvent). (e.instrument_id, e.skip_reason)) built.signal_events ≡ reasons
unfolding program
screen_run = refl

build_candidates-IsEligible_example :
    All (IsEligible framework names config reference opened 7 (2 ∷ [])) built.candidates
    × AreDistinct built.candidates
    × (built.entry_rank ≡ length built.candidates)
unfolding program
build_candidates-IsEligible_example =
    build_candidates-IsEligible framework names config reference opened 7 (2 ∷ []) (some 6) [] built
      refl
