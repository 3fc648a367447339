-- ===== src/Strategy/Monad.antt =====
-- A method of the strategy: it reads and changes the object and may raise. What was written before
-- a raise stays written.
use qapp.Base.{Result, ok, err, ◌≡◌, refl}
use qapp.Strategy.Types.{Strategy, Failure}

abbrev pub Action : Type 0 → Type 0
Action A = Strategy → Result Failure A × Strategy

module _ {A : Type 0} where
  abbrev pub pure : A → Action A
  pure a s = (ok a, s)

  abbrev pub gets : (Strategy → A) → Action A
  gets f s = (ok (f s), s)

  abbrev pub lift : Result Failure A → Action A
  lift r s = (r, s)

abbrev pub modify : (Strategy → Strategy) → Action (Unit {0})
modify f s = (ok tt, f s)

-- What follows a call, if it did not raise.
abbrev pub continue :
    {A B : Type 0} → Result Failure A × Strategy → (A → Action B) → Result Failure B × Strategy
continue (ok a, s) f = f a s
continue (err e, s) f = (err e, s)

infixl 5 ◌>>=◌ ◌>>◌
abbrev pub ◌>>=◌ : {A B : Type 0} → Action A → (A → Action B) → Action B
◌>>=◌ m f s = continue (m s) f

abbrev pub ◌>>◌ : {A B : Type 0} → Action A → Action B → Action B
m >> k = m >>= λ _. k

bind_result :
    {A B : Type 0} (P : Strategy → Type 0) (r : Result Failure A × Strategy) (f : A → Action B)
    → P r.1
    → ((a : A) → r.0 ≡ ok a → P (f a r.1).1)
    → P (continue r f).1
bind_result P (ok a, s) f h k = k a refl
bind_result P (err e, s) f h k = h

-- A property of the object that the first part establishes and the rest keeps holds at the end,
-- whether or not the method raises.
pub bind_keeps :
    {A B : Type 0} (P : Strategy → Type 0) (m : Action A) (f : A → Action B) (s : Strategy)
    → P (m s).1
    → ((a : A) → (m s).0 ≡ ok a → P (f a (m s).1).1)
    → P ((m >>= f) s).1
bind_keeps P m f s = bind_result P (m s) f

-- A step that only may raise: the cases of its result.
pub lift_cases :
    {A B : Type 0} (Q : Result Failure B × Strategy → Type 0) (r : Result Failure A)
    (f : A → Action B) (s : Strategy)
    → ((x : Failure) → Q (err x, s))
    → ((a : A) → r ≡ ok a → Q (f a s))
    → Q ((lift r >>= f) s)
lift_cases Q (ok a) f s h k = k a refl
lift_cases Q (err x) f s h k = h x
