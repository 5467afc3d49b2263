-- ===== src/Prelude/Dict.antt =====
-- Python's `dict` as an association list: `put` writes in place or at the end, `remove` is
-- `pop(k, None)`. The laws are in `if` form.
use turning_good_agent.Prelude.Tests.{if◌then◌else◌}
use turning_good_agent.Prelude.Keys.{Eq, ◌==◌}
use Prim.Native.Nat.{ℕ, ◌+◌}
use mathlib.Core.Path.{◌≡◌, refl}
use mathlib.Core.Option.{Option, none, some}
use mathlib.Core.List.{List, [], ◌∷◌}
use native.Mathlib.Omega.{arith}

abbrev pub Dict : Type 0 → Type 0 → Type 0
Dict K V = List (K × V)

-- The sum of a weight over the values.
abbrev pub weight : {K V : Type 0} → (V → ℕ) → Dict K V → ℕ
weight f [] = 0
weight f ((k, v) ∷ d) = f v + weight f d

abbrev pub weight_at : {V : Type 0} → (V → ℕ) → Option V → ℕ
weight_at f none = 0
weight_at f (some v) = f v

module _ {K V : Type 0} ⦃e : Eq K⦄ where
  unfoldable pub get : K → Dict K V → Option V
  get k [] = none
  get k ((j, v) ∷ d) = if j == k then some v else get k d

  unfoldable pub put : K → V → Dict K V → Dict K V
  put k v [] = (k, v) ∷ []
  put k v ((j, w) ∷ d) = let rest = put k v d in if j == k then (k, v) ∷ d else (j, w) ∷ rest

  unfoldable pub remove : K → Dict K V → Dict K V
  remove k [] = []
  remove k ((j, v) ∷ d) = let rest = remove k d in if j == k then rest else (j, v) ∷ rest

  pub get-put :
      (k j : K) (v : V) (d : Dict K V) → get j (put k v d) ≡ (if k == j then some v else get j d)
  unfolding get put
  get-put k j v [] = refl
  get-put k j v ((i, w) ∷ d) =
      ground (arith, e.beq_iff k j, e.beq_iff i k, e.beq_iff i j, get-put k j v d)

  pub get-remove :
      (k j : K) (d : Dict K V) → get j (remove k d) ≡ (if k == j then none else get j d)
  unfolding get remove
  get-remove k j [] = ground arith
  get-remove k j ((i, w) ∷ d) =
      ground (arith, e.beq_iff k j, e.beq_iff i k, e.beq_iff i j, get-remove k j d)

  -- No key stands twice.
  abbrev pub UniqueKeys : Dict K V → Type 0
  UniqueKeys [] = Unit
  UniqueKeys ((k, v) ∷ d) = (get k d ≡ none) × UniqueKeys d

  pub put-UniqueKeys : (k : K) (v : V) (d : Dict K V) → UniqueKeys d → UniqueKeys (put k v d)
  unfolding put get
  put-UniqueKeys k v [] u = (refl, tt)
  put-UniqueKeys k v ((j, w) ∷ d) u =
      ground (arith, put-UniqueKeys k v d u.1, get-put k j v d, e.beq_iff j k, e.beq_iff k j)

  pub remove-UniqueKeys : (k : K) (d : Dict K V) → UniqueKeys d → UniqueKeys (remove k d)
  unfolding remove get
  remove-UniqueKeys k [] u = u
  remove-UniqueKeys k ((j, w) ∷ d) u = ground (arith, remove-UniqueKeys k d u.1, get-remove k j d)

  pub weight-put :
      (f : V → ℕ) (k : K) (v : V) (d : Dict K V)
      → weight f (put k v d) + weight_at f (get k d) ≡ weight f d + f v
  unfolding put get
  weight-put f k v [] = omega arith
  weight-put f k v ((j, w) ∷ d) = ground (arith, weight-put f k v d)

  weight-remove_absent :
      (f : V → ℕ) (k : K) (d : Dict K V) → get k d ≡ none → weight f (remove k d) ≡ weight f d
  unfolding remove get
  weight-remove_absent f k [] h = refl
  weight-remove_absent f k ((j, w) ∷ d) h = ground (arith, weight-remove_absent f k d)

  pub weight-remove :
      (f : V → ℕ) (k : K) (d : Dict K V)
      → UniqueKeys d
      → weight f (remove k d) + weight_at f (get k d) ≡ weight f d
  unfolding remove get
  weight-remove f k [] u = omega arith
  weight-remove f k ((j, w) ∷ d) u =
      ground (arith, weight-remove f k d u.1, weight-remove_absent f k d, e.beq_iff j k)

pub get-nil : {K V : Type 0} ⦃e : Eq K⦄ (k : K) → get {V = V} k [] ≡ none
unfolding get
get-nil k = refl

pub ruleset dict_laws = (get-nil, get-put, get-remove)
