-- ===== src/Proactive/ReviewWindow/Ordering.antt =====
-- proactive/review_window.py: the sorted source of a review.
use turning_good_agent.Prelude.{
  ℕ, ◌+◌, ◌≤◌, ◌<◌, ◌≡◌, refl, true, false, Bool-cases, inl, inr, List, [], ◌∷◌, arith, leb, leb→le,
  total, take, drop, All,
}
use turning_good_agent.Proactive.ReviewWindow.{
  Timed, key_le, insert_by_key, sort_by_key, first_at_or_after,
}

abbrev pub Sorted : List Timed → Type 0
Sorted [] = Unit
Sorted (a ∷ rest) = All (λ (b : Timed). a.time ≤ b.time) rest × Sorted rest

key_le-true : (a b : Timed) → key_le a b ≡ true → a.time ≤ b.time
key_le-true a b h = ground arith

key_le-false : (a b : Timed) → key_le a b ≡ false → b.time ≤ a.time
key_le-false a b h = ground arith

module _ (P : Timed → Type 0) where
  insert_by_key-All : (a : Timed) (l : List Timed) → P a → All P l → All P (insert_by_key a l)
  unfolding insert_by_key
  insert_by_key-All a [] p h = (p, tt)
  insert_by_key-All a (b ∷ rest) p h = elim (Bool-cases (key_le a b)) [
    | inl first ↦ rw first (p, h)
    | inr later ↦ rw later (h.0, insert_by_key-All a rest p h.1)
  ]

  All-weaken : (Q : Timed → Type 0) (l : List Timed) → ((t : Timed) → P t → Q t) → All P l → All Q l
  All-weaken Q [] f h = tt
  All-weaken Q (t ∷ l) f h = (f t h.0, All-weaken Q l f h.1)

insert_by_key-Sorted : (a : Timed) (l : List Timed) → Sorted l → Sorted (insert_by_key a l)
unfolding insert_by_key
insert_by_key-Sorted a [] s = (tt, tt)
insert_by_key-Sorted a (b ∷ rest) s = elim (Bool-cases (key_le a b)) [
  | inl first ↦ rw first (
      let le = key_le-true a b first in
      (
        (
          le,
          All-weaken (λ (t : Timed). b.time ≤ t.time) (λ (t : Timed). a.time ≤ t.time) rest
              (λ t h. omega arith) s.0,
        ),
        s,
      ))
  | inr later ↦ rw later (
    insert_by_key-All (λ (t : Timed). b.time ≤ t.time) a rest (key_le-false a b later) s.0,
    insert_by_key-Sorted a rest s.1,
  )
]

pub sort_by_key-Sorted : (l : List Timed) → Sorted (sort_by_key l)
unfolding sort_by_key
sort_by_key-Sorted [] = tt
sort_by_key-Sorted (a ∷ l) = insert_by_key-Sorted a (sort_by_key l) (sort_by_key-Sorted l)

module _ (w : Timed → ℕ) where
  insert_by_key-total : (a : Timed) (l : List Timed) → total w (insert_by_key a l) ≡ w a + total w l
  unfolding insert_by_key
  insert_by_key-total a [] = refl
  insert_by_key-total a (b ∷ rest) = ground (arith, insert_by_key-total a rest)

  -- Sorting rearranges: every weight of the messages stays.
  pub sort_by_key-total : (l : List Timed) → total w (sort_by_key l) ≡ total w l
  unfolding sort_by_key
  sort_by_key-total [] = refl
  sort_by_key-total (a ∷ l) =
      omega (arith, insert_by_key-total a (sort_by_key l), sort_by_key-total l)

abbrev pub Before : ℕ → Timed → Type 0
Before threshold t = t.time < threshold

-- What stands before the index is older than the threshold.
pub take-first_at_or_after :
    (l : List Timed) (threshold : ℕ)
    → All (Before threshold) (take (first_at_or_after l threshold false) l)
unfolding first_at_or_after
take-first_at_or_after [] threshold = tt
take-first_at_or_after (m ∷ rest) threshold = elim (Bool-cases (leb threshold m.time)) [
  | inl here ↦ rw here tt
  | inr later ↦ rw later (ground arith, take-first_at_or_after rest threshold)
]

-- What stands from the index on, in a sorted list, is not.
pub drop-first_at_or_after :
    (l : List Timed) (threshold : ℕ)
    → Sorted l
    → All (λ (t : Timed). threshold ≤ t.time) (drop (first_at_or_after l threshold false) l)
unfolding first_at_or_after
drop-first_at_or_after [] threshold s = tt
drop-first_at_or_after (m ∷ rest) threshold s = elim (Bool-cases (leb threshold m.time)) [
  | inl here ↦ rw here (
      let le = leb→le threshold m.time here in
      (
        le,
        All-weaken (λ (t : Timed). m.time ≤ t.time) (λ (t : Timed). threshold ≤ t.time) rest
            (λ t h. omega arith) s.0,
      ))
  | inr later ↦ rw later (drop-first_at_or_after rest threshold s.1)
]
