-- ===== src/Prelude/Effects.antt =====
-- Python exceptions as values, alone and beside the state of an object whose method raised them.
use mathlib.Core.Path.{◌≡◌, refl}
use mathlib.Core.Logic.{◌⊎◌, inl, inr}
use mathlib.Core.Bool.{Bool, true, false}
use mathlib.Core.Option.{Option, none, some}
use native.Mathlib.Omega.{arith}

-- `E` is the sum of the exception classes that the component raises.
pub data Result (E : Type 0) (A : Type 0) : Type 0 where
  ok : A → Result E A
  err : E → Result E A

-- A method that mutates its object and may raise: what was written before a raise stays written.
abbrev pub Exec : Type 0 → Type 0 → Type 0 → Type 0
Exec S E A = S → Result E A × S

module _ {S E A : Type 0} where
  abbrev pub pure : A → Exec S E A
  pure a s = (ok a, s)

  abbrev pub raise : E → Exec S E A
  raise e s = (err e, s)

  abbrev pub lift : Result E A → Exec S E A
  lift r s = (r, s)

  abbrev pub gets : (S → A) → Exec S E A
  gets f s = (ok (f s), s)

abbrev pub modify : {S E : Type 0} → (S → S) → Exec S E (Unit {0})
modify f s = (ok tt, f s)

-- `if refused: raise e`
abbrev pub raise_if : {S E : Type 0} → Bool → E → Exec S E (Unit {0})
raise_if true e s = (err e, s)
raise_if false e s = (ok tt, s)

abbrev pub continue : {S E A B : Type 0} → Result E A → (A → Exec S E B) → Exec S E B
continue (ok a) f s = f a s
continue (err e) f s = (err e, s)

infixl 5 ◌>>=◌ ◌>>◌
abbrev pub ◌>>=◌ : {S E A B : Type 0} → Exec S E A → (A → Exec S E B) → Exec S E B
◌>>=◌ m f s = let r = m s in continue r.0 f r.1

abbrev pub ◌>>◌ : {S E A B : Type 0} → Exec S E A → Exec S E B → Exec S E B
m >> n = m >>= λ _. n

-- The call raised.
abbrev pub IsErr : {E A : Type 0} → Result E A → Type 0
IsErr (ok a) = ⊥
IsErr (err e) = Unit

pub IsErr-cases : {E A : Type 0} (r : Result E A) → IsErr r ⊎ ((a : A) × (r ≡ ok a))
IsErr-cases (ok a) = inr (a, refl)
IsErr-cases (err e) = inl tt

-- The same without a state.
abbrev pub and_then : {E A B : Type 0} → Result E A → (A → Result E B) → Result E B
and_then (ok a) f = f a
and_then (err e) f = err e

-- A lookup that raises where nothing is found.
abbrev pub or_raise : {E A : Type 0} → E → Option A → Result E A
or_raise e none = err e
or_raise e (some a) = ok a

pub Result-cases :
    {E A : Type 0} (r : Result E A) → ((e : E) × (r ≡ err e)) ⊎ ((a : A) × (r ≡ ok a))
Result-cases (ok a) = inr (a, refl)
Result-cases (err e) = inl (e, refl)

-- A chain that returns, returned at its first step.
pub and_then-ok :
    {E A B : Type 0} (r : Result E A) (f : A → Result E B) {b : B}
    → and_then r f ≡ ok b
    → (a : A) × (r ≡ ok a) × (f a ≡ ok b)
and_then-ok (ok a) f h = (a, refl, h)
and_then-ok (err e) f h = absurd (ground arith)

pub and_then-ok_then {ℓ} :
    {E A B : Type 0} {C : Type ℓ} (r : Result E A) {f : A → Result E B} {b : B}
    → and_then r f ≡ ok b
    → ((a : A) → r ≡ ok a → f a ≡ ok b → C)
    → C
and_then-ok_then r {f = f} h k = let (a, is, rest) = and_then-ok r f h in k a is rest

-- What holds of the state before a step that does not change it, and after what follows the step if it
-- returns, holds after both.
module _ {S E : Type 0} (Q : S → Type 0) where
  pub lift-keeps :
      {A B : Type 0} (r : Result E A) (f : A → Exec S E B) (s : S)
      → Q s
      → ((a : A) → r ≡ ok a → Q (f a s).1)
      → Q (continue r f s).1
  lift-keeps (ok a) f s before after = after a refl
  lift-keeps (err e) f s before after = before

  pub raise_if-keeps :
      {B : Type 0} (b : Bool) (e : E) (m : Exec S E B) (s : S)
      → Q s
      → (b ≡ false → Q (m s).1)
      → Q ((raise_if b e >> m) s).1
  raise_if-keeps true e m s before after = before
  raise_if-keeps false e m s before after = after refl
