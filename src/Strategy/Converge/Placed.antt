-- ===== src/Strategy/Converge/Placed.antt =====
-- Every desired instrument is placed once in a cycle: in one of the lists of the summary, or as an
-- intent to sell or to buy.
use qapp.Base.{
  ℕ, suc, ◌+◌, ◌≡◌, true, false, Option, none, some, List, [], ◌∷◌, ◌==◌, if◌then◌else◌,
}
use qapp.Strategy.Types.{Strategy, Intent}
use qapp.Strategy.Converge.{
  Bucket, open_order, frozen, exhausted, on_target, intent_error, sell_target, buy_target, Cycle,
}

abbrev pub times : ℕ → List ℕ → ℕ
times j [] = 0
times j (k ∷ ks) = if j == k then suc (times j ks) else times j ks

abbrev pub times_wanted : ℕ → List Intent → ℕ
times_wanted j [] = 0
times_wanted j (i ∷ is) =
    if j == i.instrument_id then suc (times_wanted j is) else times_wanted j is

-- How often the cycle has an instrument, over the five lists and the two dicts.
abbrev pub placed : ℕ → Cycle → ℕ
placed j c =
    times j c.skip_open_order
    + times j c.skip_frozen
    + times j c.skip_sellable_exhausted
    + times j c.skip_on_target
    + times j c.skip_intent_error
    + times_wanted j c.sell_intents
    + times_wanted j c.buy_intents

-- A round that ends in an intent has one, for its own instrument.
abbrev Fits : ℕ → Bucket × Option Intent → Type 0
Fits id (sell_target, some i) = i.instrument_id ≡ id
Fits id (sell_target, none) = true ≡ false
Fits id (buy_target, some i) = i.instrument_id ≡ id
Fits id (buy_target, none) = true ≡ false
Fits id (open_order, i) = Unit
Fits id (frozen, i) = Unit
Fits id (exhausted, i) = Unit
Fits id (on_target, i) = Unit
Fits id (intent_error, i) = Unit
