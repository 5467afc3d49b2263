-- ===== src/Prelude/Result.antt =====
-- What a function that may raise returns: a value, or the exception.
use mathlib.Core.Path.{◌≡◌, refl}
use mathlib.Core.Bool.{Bool, true, false}
use mathlib.Core.Option.{Option, none, some}

pub data Result (E A : Type 0) : Type 0 where
  ok : A → Result E A
  raise : E → Result E A

infixl 5 ◌>>=◌ ◌>>◌
abbrev pub ◌>>=◌ : {E A B : Type 0} → Result E A → (A → Result E B) → Result E B
ok a >>= f = f a
raise e >>= f = raise e

abbrev pub ◌>>◌ : {E B : Type 0} → Result E (Unit {0}) → Result E B → Result E B
m >> k = m >>= λ _. k

-- `if test: raise e`
abbrev pub raise_if : {E : Type 0} → Bool → E → Result E (Unit {0})
raise_if true e = raise e
raise_if false e = ok tt

abbrev pub or_raise : {E A : Type 0} → Option A → E → Result E A
or_raise none e = raise e
or_raise (some a) e = ok a

pub >>=-eq-ok :
    {E A B : Type 0} (first : Result E A) (next : A → Result E B) {value : B}
    → (first >>= next) ≡ ok value
    → (a : A) × (first ≡ ok a) × (next a ≡ ok value)
>>=-eq-ok (ok a) next h = (a, refl, h)
>>=-eq-ok (raise e) next h = cc

-- What holds of a result if it is a value.
abbrev pub OnOk : {E A : Type 0} → (A → Type 0) → Result E A → Type 0
OnOk P (ok a) = P a
OnOk P (raise e) = Unit

pub ok-injective : {E A : Type 0} {a b : A} → ◌≡◌ {A = Result E A} (ok a) (ok b) → a ≡ b
ok-injective h = cc

-- A step that keeps a condition, after one that may raise.
pub OnOk-bind :
    {E A B : Type 0} (P : A → Type 0) (Q : B → Type 0) (r : Result E A) (f : A → Result E B)
    → OnOk P r
    → ((a : A) → P a → OnOk Q (f a))
    → OnOk Q (r >>= f)
OnOk-bind P Q (ok a) f h k = k a h
OnOk-bind P Q (raise e) f h k = tt

pub OnOk-raise_if :
    {E A : Type 0} (P : A → Type 0) (b : Bool) (e : E) (r : Result E A)
    → (b ≡ false → OnOk P r)
    → OnOk P (raise_if b e >> r)
OnOk-raise_if P true e r h = tt
OnOk-raise_if P false e r h = h refl
