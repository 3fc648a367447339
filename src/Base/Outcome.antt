-- ===== src/Base/Outcome.antt =====
-- The outcome of code that may raise: a value, or the exception with its class.
use mathlib.Core.Path.{◌≡◌, refl, subst}

pub data Result (E A : Type 0) : Type 0 where
  ok : A → Result E A
  err : E → Result E A

infixl 5 ◌>>=◌
abbrev pub ◌>>=◌ : {E A B : Type 0} → Result E A → (A → Result E B) → Result E B
◌>>=◌ (err raised) rest = err raised
◌>>=◌ (ok value) rest = rest value

module _ {E A B : Type 0} where
  -- A chain that succeeds got a value from its first part.
  pub >>=-eq-ok :
      (first : Result E A) (rest : A → Result E B) {out : B}
      → (first >>= rest) ≡ ok out
      → (value : A) × (first ≡ ok value) × (rest value ≡ ok out)
  >>=-eq-ok (err raised) rest h = cc h
  >>=-eq-ok (ok value) rest h = (value, refl, h)

-- A predicate on the value, where there is one.
abbrev pub OnOk : {E A : Type 0} → (A → Type 0) → Result E A → Type 0
OnOk P (err raised) = Unit
OnOk P (ok value) = P value

pub >>=-OnOk :
    {E A B : Type 0} (Q : A → Type 0) (P : B → Type 0) (first : Result E A) (rest : A → Result E B)
    → OnOk Q first
    → ((value : A) → Q value → OnOk P (rest value))
    → OnOk P (first >>= rest)
>>=-OnOk Q P (err raised) rest h next = tt
>>=-OnOk Q P (ok value) rest h next = next value h

pub OnOk_value :
    {E A : Type 0} (P : A → Type 0) (r : Result E A) {value : A} → OnOk P r → r ≡ ok value → P value
OnOk_value P r h e = subst (OnOk P) e h

pub OnOk-unit : {E A : Type 0} (r : Result E A) → OnOk (λ _. Unit {0}) r
OnOk-unit (err raised) = tt
OnOk-unit (ok value) = tt
