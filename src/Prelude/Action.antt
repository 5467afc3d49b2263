-- ===== src/Prelude/Action.antt =====
-- Code that reads and changes a state and may raise: what it has changed before it raises stays
-- changed. A triple says what holds after it, if it returns and if it raises.
use mathlib.Core.Bool.{Bool, true, false}
use turning_good_agent.Prelude.Tests.{if◌then◌else◌}
use turning_good_agent.Prelude.Result.{Result, ok, raise}

abbrev pub Action : Type 0 → Type 0 → Type 0 → Type 0
Action S E A = S → Result E A × S

module _ {S E A : Type 0} where
  abbrev pub and_then : {B : Type 0} → Result E A × S → (A → Action S E B) → Result E B × S
  and_then (ok a, s) f = f a s
  and_then (raise e, s) f = (raise e, s)

  unfoldable pub done : A → Action S E A
  done a s = (ok a, s)

  unfoldable pub throw : E → Action S E A
  throw e s = (raise e, s)

  -- `try: m` with a handler that itself is an action.
  abbrev pub or_handle : Result E A × S → (E → Action S E A) → Result E A × S
  or_handle (ok a, s) f = (ok a, s)
  or_handle (raise e, s) f = f e s

infixl 5 ◌>>=◌ ◌>>◌
unfoldable pub ◌>>=◌ : {S E A B : Type 0} → Action S E A → (A → Action S E B) → Action S E B
(m >>= f) s = and_then (m s) f

unfoldable pub ◌>>◌ : {S E B : Type 0} → Action S E (Unit {0}) → Action S E B → Action S E B
(m >> k) s = and_then (m s) (λ _. k)

unfoldable pub current : {S E : Type 0} → Action S E S
current s = (ok s, s)

unfoldable pub modify : {S E : Type 0} → (S → S) → Action S E (Unit {0})
modify f s = (ok tt, f s)

-- What holds of an outcome: `Q` of a value and the state it leaves, `R` of the state an exception
-- leaves.
abbrev pub After : {S E A : Type 0} → (A → S → Type 0) → (S → Type 0) → Result E A × S → Type 0
After Q R (ok a, s) = Q a s
After Q R (raise e, s) = R s

pub After-weaken :
    {S E A : Type 0} (Q : A → S → Type 0) (R T : S → Type 0) (r : Result E A × S)
    → ((s : S) → R s → T s)
    → After Q R r
    → After Q T r
After-weaken Q R T (ok a, s) weaker h = h
After-weaken Q R T (raise e, s) weaker h = weaker s h

pub record Triple {S E A : Type 0} (P : S → Type 0) (m : Action S E A) (Q : A → S → Type 0)
    (R : S → Type 0) : Type 0 where
  pub at : (s : S) → P s → After Q R (m s)

module _ {S E A : Type 0} (R : S → Type 0) where
  pub Triple-done : (Q : A → S → Type 0) (a : A) → Triple {E = E} (λ s. Q a s) (done a) Q R
  unfolding done
  Triple-done Q a = record { at = λ s h. h }

  pub Triple-throw : (Q : A → S → Type 0) (e : E) → Triple {E = E} R (throw e) Q R
  unfolding throw
  Triple-throw Q e = record { at = λ s h. h }

  pub Triple-if :
      (P : S → Type 0) (Q : A → S → Type 0) (b : Bool) (m n : Action S E A)
      → Triple P m Q R
      → Triple P n Q R
      → Triple P (if b then m else n) Q R
  Triple-if P Q true m n p q = p
  Triple-if P Q false m n p q = q

  After-and_then :
      {B : Type 0} (Q : A → S → Type 0) (U : B → S → Type 0) (r : Result E A × S)
      (f : A → Action S E B)
      → After Q R r
      → ((a : A) → Triple (Q a) (f a) U R)
      → After U R (and_then r f)
  After-and_then Q U (ok a, s) f h k = (k a).at s h
  After-and_then Q U (raise e, s) f h k = h

  pub Triple-bind :
      {B : Type 0} {P : S → Type 0} (Q : A → S → Type 0) {U : B → S → Type 0} (m : Action S E A)
      (f : A → Action S E B)
      → Triple P m Q R
      → ((a : A) → Triple (Q a) (f a) U R)
      → Triple P (m >>= f) U R
  unfolding ◌>>=◌
  Triple-bind Q {U} m f p k = record { at = λ s h. After-and_then Q U (m s) f (p.at s h) k }

  pub Triple-then :
      {P : S → Type 0} (Q : S → Type 0) {U : A → S → Type 0} (m : Action S E (Unit {0}))
      (n : Action S E A)
      → Triple P m (λ u. Q) R
      → Triple Q n U R
      → Triple P (m >> n) U R
  unfolding ◌>>◌
  Triple-then Q {U} m n p q = record { at = λ s h. go (m s) (p.at s h) }
    where
      go : (r : Result E (Unit {0}) × S) → After (λ u. Q) R r → After U R (and_then r (λ _. n))
      go (ok a, s) h = q.at s h
      go (raise e, s) h = h

-- An action that depends on the state it starts in.
module _ {S E : Type 0} (P R : S → Type 0) where
  pub Triple-current :
      {A : Type 0} (Q : A → S → Type 0) (f : S → Action S E A)
      → ((s : S) → P s → After Q R (f s s))
      → Triple P (current >>= f) Q R
  unfolding ◌>>=◌ current
  Triple-current Q f h = record { at = h }

  pub Triple-modify :
      (Q : S → Type 0) (f : S → S)
      → ((s : S) → P s → Q (f s))
      → Triple {E = E} P (modify f) (λ u. Q) R
  unfolding modify
  Triple-modify Q f h = record { at = h }

-- A weaker condition on what an exception leaves.
pub Triple-weaken :
    {S E A : Type 0} {P : S → Type 0} (Q : A → S → Type 0) (R T : S → Type 0) (m : Action S E A)
    → ((s : S) → R s → T s)
    → Triple P m Q R
    → Triple P m Q T
Triple-weaken Q R T m weaker p = record { at = λ s h. After-weaken Q R T (m s) weaker (p.at s h) }
