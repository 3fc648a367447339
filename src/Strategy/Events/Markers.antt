-- ===== src/Strategy/Events/Markers.antt =====
-- The classification of a broker's reason text: `_INSUFFICIENT_FUNDS_MARKERS`,
-- `_SELLABLE_POSITION_MARKERS`, `_is_insufficient_funds` and `_is_sellable_position_denial`
-- (strategies/target_quantities.py). The markers are in lower case already.
use Prim.Native.Char.{code}
use Prim.Native.String.{String}
use qapp.Base.{ℕ, Bool, true, false, ◌&&◌, ◌||◌, List, [], ◌∷◌, ◌==◌}

-- The code points of a text.
abbrev pub codes : String → List ℕ
codes String.[] = []
codes (String.◌∷◌ c s) = code c ∷ codes s

unfoldable pub starts_with : List ℕ → List ℕ → Bool
starts_with [] text = true
starts_with (c ∷ cs) [] = false
starts_with (c ∷ cs) (d ∷ ds) = c == d && starts_with cs ds

-- `marker in text`
unfoldable pub occurs_in : List ℕ → List ℕ → Bool
occurs_in marker [] = starts_with marker []
occurs_in marker (c ∷ cs) = starts_with marker (c ∷ cs) || occurs_in marker cs

unfoldable pub any_occurs : List String → List ℕ → Bool
any_occurs [] text = false
any_occurs (m ∷ ms) text = occurs_in (codes m) text || any_occurs ms text

abbrev pub insufficient_funds_markers : List String
insufficient_funds_markers =
    "260200" ∷ "可用资金不足" ∷ "资金不足" ∷ "insufficient" ∷ "free_balance" ∷ "free balance"
    ∷ "cum_notional_exceeds_free_balance" ∷ []

abbrev pub sellable_position_markers : List String
sellable_position_markers =
    "251005" ∷ "sellable volume" ∷ "sellable position" ∷ "can_use_volume" ∷ "证券可用数量不足" ∷ "可用持仓不足"
    ∷ "可卖数量不足" ∷ []

unfoldable pub is_insufficient_funds : List ℕ → Bool
is_insufficient_funds text = any_occurs insufficient_funds_markers text

unfoldable pub is_sellable_position_denial : List ℕ → Bool
is_sellable_position_denial text = any_occurs sellable_position_markers text
