-- ===== src/Proactive/ReviewWindow/Batches.antt =====
-- proactive/review_window.py, `_batches`: its results and its failures.
use turning_good_agent.Prelude.{
  ℕ, ◌+◌, ◌≤◌, ◌≡◌, refl, sym, Bool, true, false, ◌&&◌, Bool-cases, inl, inr, List, [], ◌∷◌, ◌++◌,
  arith, ltb, ltb→le, any, total, total-append, All, All-append, append-nil, append_assoc,
}
use turning_good_agent.Prelude.Result.{ok, raise, OnOk}
use turning_good_agent.Sessions.{MessageRecord, is_nonempty}
use turning_good_agent.Proactive.ReviewWindow.{oversized_message, batch_loop, batches_of}

abbrev pub tokens : List MessageRecord → ℕ
tokens messages = total (λ (m : MessageRecord). m.token_count) messages

abbrev pub concat : List (List MessageRecord) → List MessageRecord
concat [] = []
concat (batch ∷ batches) = batch ++ concat batches

concat-snoc :
    (batches : List (List MessageRecord)) (last : List MessageRecord)
    → concat (batches ++ last ∷ []) ≡ concat batches ++ last
concat-snoc [] last = append-nil last
concat-snoc (b ∷ bs) last = rw (concat-snoc bs last) (sym (append_assoc b (concat bs) last))

-- A batch that a review may send.
abbrev pub IsBounded : ℕ → List MessageRecord → Type 0
IsBounded limit batch = (is_nonempty batch ≡ true) × (tokens batch ≤ limit)

-- What the batches made of `messages` are.
abbrev pub AreBatches : ℕ → List MessageRecord → List (List MessageRecord) → Type 0
AreBatches limit messages batches = All (IsBounded limit) batches × (concat batches ≡ messages)

is_nonempty-snoc : (xs : List MessageRecord) (m : MessageRecord) → is_nonempty (xs ++ m ∷ []) ≡ true
is_nonempty-snoc [] m = refl
is_nonempty-snoc (x ∷ xs) m = refl

module _ (limit : ℕ) where
  IsBounded-snoc :
      (batches : List (List MessageRecord)) (current : List MessageRecord)
      → All (IsBounded limit) batches
      → is_nonempty current ≡ true
      → tokens current ≤ limit
      → All (IsBounded limit) (batches ++ current ∷ [])
  IsBounded-snoc batches current all n t =
      All-append (IsBounded limit) batches (current ∷ []) all ((n, t), tt)

  batch_loop-AreBatches :
      (messages : List MessageRecord) (batches : List (List MessageRecord))
      (current : List MessageRecord) (current_tokens : ℕ)
      → tokens current ≡ current_tokens
      → current_tokens ≤ limit
      → All (IsBounded limit) batches
      → OnOk
          (AreBatches limit (concat batches ++ (current ++ messages)))
          (batch_loop limit messages batches current current_tokens)
  unfolding batch_loop
  batch_loop-AreBatches [] batches [] n e h all = (all, sym (append-nil (concat batches)))
  batch_loop-AreBatches [] batches (c ∷ cs) n e h all = (
    IsBounded-snoc batches (c ∷ cs) all refl (omega arith),
    rw (append-nil cs) (concat-snoc batches (c ∷ cs)),
  )
  batch_loop-AreBatches (m ∷ rest) batches current n e h all =
      elim (Bool-cases (ltb limit m.token_count)) [
        | inl big ↦ rw big tt
        | inr small ↦ elim (Bool-cases (is_nonempty current && ltb limit (n + m.token_count))) [
          | inl full ↦
              rw (small, full)
                (rw (← append_assoc (concat batches) current (m ∷ rest)) (
                  rw (← concat-snoc batches current) (
                    batch_loop-AreBatches rest (batches ++ current ∷ []) (m ∷ []) m.token_count
                      (omega arith) (ltb→le limit m.token_count small)
                      (IsBounded-snoc batches current all (ground arith) (omega arith)))))
          | inr room ↦
              rw (small, room)
                (rw (← append_assoc current (m ∷ []) rest) (
                  batch_loop-AreBatches rest batches (current ++ m ∷ []) (n + m.token_count)
                    (omega (
                      arith,
                      total-append (λ (r : MessageRecord). r.token_count) current (m ∷ []),
                      e,
                    ))
                    (fits current small e room) all))
        ]
      ]
    where
      fits :
          (xs : List MessageRecord)
          → ltb limit m.token_count ≡ false
          → tokens xs ≡ n
          → (is_nonempty xs && ltb limit (n + m.token_count)) ≡ false
          → n + m.token_count ≤ limit
      fits [] small q r = omega (arith, ltb→le limit m.token_count small)
      fits (x ∷ xs) small q r = ltb→le limit (n + m.token_count) r

-- Where batching succeeds, the batches are the messages in order, none empty and none above the
-- limit.
pub batches_of-AreBatches :
    (limit : ℕ) (messages : List MessageRecord)
    → OnOk (AreBatches limit messages) (batches_of messages limit)
unfolding batches_of
batches_of-AreBatches limit messages =
    batch_loop-AreBatches limit messages [] [] 0 refl (omega arith) tt

abbrev pub is_oversized : ℕ → MessageRecord → Bool
is_oversized limit m = ltb limit m.token_count

batch_loop-raise :
    (limit : ℕ) (messages : List MessageRecord) (batches : List (List MessageRecord))
    (current : List MessageRecord) (n : ℕ)
    → any (is_oversized limit) messages ≡ true
    → batch_loop limit messages batches current n ≡ raise oversized_message
unfolding batch_loop
batch_loop-raise limit [] batches current n h = cc
batch_loop-raise limit (m ∷ rest) batches current n h = ground (
  arith,
  batch_loop-raise limit rest (batches ++ current ∷ []) (m ∷ []) m.token_count,
  batch_loop-raise limit rest batches (current ++ m ∷ []) (n + m.token_count),
)

batch_loop-ok :
    (limit : ℕ) (messages : List MessageRecord) (batches : List (List MessageRecord))
    (current : List MessageRecord) (n : ℕ)
    → any (is_oversized limit) messages ≡ false
    → (result : List (List MessageRecord)) × (batch_loop limit messages batches current n
        ≡ ok result)
unfolding batch_loop
batch_loop-ok limit [] batches current n h = (_, refl)
batch_loop-ok limit (m ∷ rest) batches current n h = elim (Bool-cases (ltb limit m.token_count)) [
  | inl big ↦ cc (rw big at h)
  | inr small ↦
      let tail_ok : any (is_oversized limit) rest ≡ false = rw small at h in
      elim (Bool-cases (is_nonempty current && ltb limit (n + m.token_count))) [
        | inl full ↦
            rw (small, full)
              (batch_loop-ok limit rest (batches ++ current ∷ []) (m ∷ []) m.token_count tail_ok)
        | inr room ↦
            rw (small, room)
              (batch_loop-ok limit rest batches (current ++ m ∷ []) (n + m.token_count) tail_ok)
      ]
]

-- Batching fails exactly if one message alone is above the limit.
pub batches_of_total :
    (limit : ℕ) (messages : List MessageRecord)
    → (any (is_oversized limit) messages ≡ true
        → batches_of messages limit ≡ raise oversized_message)
      × (any (is_oversized limit) messages ≡ false
          → (result : List (List MessageRecord)) × (batches_of messages limit ≡ ok result))
unfolding batches_of
batches_of_total limit messages =
    (batch_loop-raise limit messages [] [] 0, batch_loop-ok limit messages [] [] 0)
