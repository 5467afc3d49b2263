-- ===== src/Prelude/Keys.antt =====
-- Equality of keys as an interface, with instances for numbers, texts and pairs.
use Prim.Native.Nat.{ℕ, ◌+◌, ◌<◌}
use Prim.Native.String.{String}
use mathlib.Core.Path.{◌≡◌, refl}
use mathlib.Core.Logic.{◌↔◌}
use mathlib.Core.Bool.{Bool, true, false}
use mathlib.Core.List.{List, [], ◌∷◌, ◌++◌}
use native.Mathlib.Omega.{arith}
use text.Mathlib.Text.{◌==◌ as str_eq}
use text.Mathlib.TextEquality.{eq_iff}
use turning_good_agent.Prelude.Tests.{nat_beq, nat_beq_iff, if◌then◌else◌}

pub record Eq {ℓ} (A : Type ℓ) : Type ℓ where
  pub beq : A → A → Bool
  pub beq_iff : (x y : A) → (beq x y ≡ true) ↔ (x ≡ y)

instance abbrev pub string_eq : Eq String
string_eq = record { beq_iff = eq_iff; beq = str_eq }

infix 50 ◌==◌
abbrev pub ◌==◌ {ℓ} : {A : Type ℓ} ⦃e : Eq A⦄ → A → A → Bool
◌==◌ ⦃e⦄ = e.beq

instance abbrev pub nat_eq : Eq ℕ
nat_eq = record { beq_iff = nat_beq_iff; beq = nat_beq }

-- `a in xs` on a list or a set kept as a list.
module _ {ℓ} {A : Type ℓ} ⦃e : Eq A⦄ where
  abbrev pub contains : A → List A → Bool
  contains a [] = false
  contains a (x ∷ xs) = if x == a then true else contains a xs

  -- `xs.discard(a)` on a set kept as a list: every copy goes.
  abbrev pub discard : A → List A → List A
  discard a [] = []
  discard a (x ∷ xs) = let rest = discard a xs in if x == a then rest else x ∷ rest

  -- `xs.add(a)` on a set kept as a list.
  abbrev pub add : A → List A → List A
  add a xs = if contains a xs then xs else a ∷ xs

  pub beq_refl : (a : A) → (a == a) ≡ true
  beq_refl a = (e.beq_iff a a).1 refl

  pub contains-discard :
      (a b : A) (xs : List A)
      → contains b (discard a xs) ≡ (if a == b then false else contains b xs)
  contains-discard a b [] = ground arith
  contains-discard a b (x ∷ xs) =
      ground (arith, contains-discard a b xs, e.beq_iff x a, e.beq_iff x b, e.beq_iff a b)

  pub contains-add :
      (a b : A) (xs : List A) → contains b (add a xs) ≡ (if a == b then true else contains b xs)
  contains-add a b xs = ground (arith, e.beq_iff a b)

  -- How often a key stands in a list.
  abbrev pub count : A → List A → ℕ
  count a [] = 0
  count a (x ∷ xs) = (if x == a then 1 else 0) + count a xs

  -- 1 for a member of a set, 0 for any other key.
  abbrev pub member : A → List A → ℕ
  member a xs = if contains a xs then 1 else 0

  pub contains-pos : (a : A) (xs : List A) → contains a xs ≡ true → 0 < count a xs
  contains-pos a [] h = cc
  contains-pos a (x ∷ xs) h = ground (arith, contains-pos a xs)

  pub contains-zero : (a : A) (xs : List A) → contains a xs ≡ false → count a xs ≡ 0
  contains-zero a [] h = refl
  contains-zero a (x ∷ xs) h = ground (arith, contains-zero a xs)

  pub count-append : (a : A) (xs ys : List A) → count a (xs ++ ys) ≡ count a xs + count a ys
  count-append a [] ys = omega arith
  count-append a (x ∷ xs) ys = omega (arith, count-append a xs ys)
