-- ===== src/Memory/Partition.antt =====
-- memory/short_term.py, `plan_compaction`: the summarised messages and the verbatim ones.
use turning_good_agent.Prelude.{
  ℕ, ◌+◌, ◌≡◌, refl, String, Bool, true, false, Bool-cases, inl, inr, List, [], ◌∷◌, ◌++◌, ◌⊎◌, ◌≤◌,
  ◌<◌, arith, length, total, contains, contains-pos, contains-zero, count, string_eq, eq_iff, not,
  ◌&&◌, if◌then◌else◌,
}
use turning_good_agent.Sessions.{MessageRecord}
use turning_good_agent.Memory.{
  ShortTermMemory, CompactionPlan, is_turn, complete_turns, recent_window, ids, outside,
  plan_compaction, should_compact, count_tokens,
}
use turning_good_agent.Memory.Window.{concat, concat-append, recent_window-IsNewest}

-- `xs` is `ys` with some messages left out.
pub data Subseq : List MessageRecord → List MessageRecord → Type 0 where
  done : Subseq [] []
  skip : {y : MessageRecord} {xs ys : List MessageRecord} → Subseq xs ys → Subseq xs (y ∷ ys)
  take : {y : MessageRecord} {xs ys : List MessageRecord} → Subseq xs ys → Subseq (y ∷ xs) (y ∷ ys)

Subseq-nil : (ys : List MessageRecord) → Subseq [] ys
Subseq-nil [] = done
Subseq-nil (y ∷ ys) = skip (Subseq-nil ys)

Subseq-tail : {x : MessageRecord} {xs ys : List MessageRecord} → Subseq (x ∷ xs) ys → Subseq xs ys
Subseq-tail (skip s) = skip (Subseq-tail s)
Subseq-tail (take s) = skip s

Subseq-suffix :
    (xs : List MessageRecord) {ys zs : List MessageRecord} → Subseq (xs ++ ys) zs → Subseq ys zs
Subseq-suffix [] s = s
Subseq-suffix (x ∷ xs) s = Subseq-suffix xs (Subseq-tail s)

complete_turns-Subseq :
    (messages : List MessageRecord) → Subseq (concat (complete_turns messages)) messages
unfolding complete_turns
complete_turns-Subseq [] = done
complete_turns-Subseq (m ∷ []) = skip done
complete_turns-Subseq (m ∷ n ∷ rest) = elim (Bool-cases (is_turn m n)) [
  | inl both ↦ rw both (take (take (complete_turns-Subseq rest)))
  | inr other ↦ rw other (skip (complete_turns-Subseq (n ∷ rest)))
]

pub recent_window-Subseq :
    (memory : ShortTermMemory) (messages : List MessageRecord)
    → Subseq (recent_window memory messages) messages
recent_window-Subseq memory messages =
    let window = recent_window-IsNewest memory messages in
    rw window.whole (
      Subseq-suffix (concat window.older) (
        rw (← concat-append window.older window.newer)
          (rw (← window.split) (complete_turns-Subseq messages))))

-- A message is left out exactly if its id is known.
count-outside :
    (a : String) (known : List String) (ys : List MessageRecord)
    → count a (ids (outside known ys)) ≡ (if contains a known then 0 else count a (ids ys))
unfolding outside
count-outside a known [] = ground arith
count-outside a known (y ∷ ys) = ground (arith, count-outside a known ys, eq_iff y.id a)

outside-Subseq : (known : List String) (ys : List MessageRecord) → Subseq (outside known ys) ys
unfolding outside
outside-Subseq known [] = done
outside-Subseq known (y ∷ ys) = elim (Bool-cases (contains y.id known)) [
  | inl known_id ↦ rw known_id (skip (outside-Subseq known ys))
  | inr other ↦ rw other (take (outside-Subseq known ys))
]

Subseq-refl : (ys : List MessageRecord) → Subseq ys ys
Subseq-refl [] = done
Subseq-refl (y ∷ ys) = take (Subseq-refl ys)

count-Subseq :
    (a : String) {xs ys : List MessageRecord} → Subseq xs ys → count a (ids xs) ≤ count a (ids ys)
count-Subseq a done = omega arith
count-Subseq a (skip s) = ground (arith, count-Subseq a s)
count-Subseq a (take s) = ground (arith, count-Subseq a s)

-- The messages with one id: all of them are in `source` or in `window`, or `window` holds some of
-- them and the others are in neither.
abbrev pub Divided : List MessageRecord → List MessageRecord → List MessageRecord → String → Type 0
Divided messages source window a =
    (count a (ids source) + count a (ids window) ≡ count a (ids messages))
    ⊎ ((count a (ids source) ≡ 0)
        × (0 < count a (ids window))
        × (count a (ids window) < count a (ids messages)))

pub record IsDivided (messages : List MessageRecord) (plan : CompactionPlan) : Type 0 where
  pub source : Subseq plan.compact_source messages
  pub window : Subseq plan.recent_window messages
  pub each : (a : String) → Divided messages plan.compact_source plan.recent_window a

outside-Divided :
    {xs ys : List MessageRecord} (a : String) → Subseq xs ys → Divided ys (outside (ids xs) ys) xs a
outside-Divided {xs} {ys} a s = ground (
  arith,
  count-outside a (ids xs) ys,
  count-Subseq a s,
  contains-pos a (ids xs),
  contains-zero a (ids xs),
)

-- Whatever the history, a plan summarises and keeps messages of it, in its order. Of the messages
-- with one id all are summarised or kept, each once; or, if the window holds some but not all of
-- them, none is summarised, and those outside the window are in neither part. The second case is
-- that of messages reloaded from the session file, which have all the same, empty id.
pub plan_compaction-IsDivided :
    (memory : ShortTermMemory) (messages : List MessageRecord) (force : Bool)
    → IsDivided messages (plan_compaction memory messages force)
unfolding plan_compaction
plan_compaction-IsDivided memory messages force =
    at (not force && not (should_compact memory messages))
  where
    window : List MessageRecord
    window = recent_window memory messages

    source : List MessageRecord
    source = outside (ids window) messages

    at :
        (rests : Bool)
        → IsDivided messages (
            if rests
            then (record {
              should_compact = false;
              compact_source = [];
              recent_window = messages;
              compacted_message_count = 0;
              compacted_token_count = 0;
              raw_window_message_count = length messages;
              raw_window_token_count = count_tokens messages;
            })
            else (record {
              should_compact = true;
              compact_source = source;
              recent_window = window;
              compacted_message_count = length source;
              compacted_token_count = count_tokens source;
              raw_window_message_count = length window;
              raw_window_token_count = count_tokens window;
            }))
    at true = record {
      source = Subseq-nil messages;
      window = Subseq-refl messages;
      each = λ a. inl (omega arith);
    }
    at false = record {
      source = outside-Subseq (ids window) messages;
      window = recent_window-Subseq memory messages;
      each = λ a. outside-Divided a (recent_window-Subseq memory messages);
    }

-- Leaving out all ids of the window counts no message twice.
outside-total :
    (w : MessageRecord → ℕ) {xs ys : List MessageRecord} (known : List String)
    → Subseq xs ys
    → ((a : String) → contains a (ids xs) ≡ true → contains a known ≡ true)
    → total w (outside known ys) + total w xs ≤ total w ys
unfolding outside
outside-total w known done covers = omega arith
outside-total w known (skip {y} s) covers =
    let rest = outside-total w known s covers in ground arith
outside-total w known (take {y} {xs} s) covers =
    let rest = outside-total w known s (λ (a : String) h. covers a (ground (arith, h))) in
    let known_id = covers y.id (ground (arith, eq_iff y.id y.id)) in ground arith

-- What a plan promises.
pub record IsAccounted (memory : ShortTermMemory) (messages : List MessageRecord) (force : Bool)
    (plan : CompactionPlan) : Type 0 where
  pub counts : plan.compacted_message_count + plan.raw_window_message_count ≤ length messages
  pub tokens : plan.compacted_token_count + plan.raw_window_token_count ≤ count_tokens messages
  pub idle :
      plan.should_compact ≡ false
      → (plan.recent_window ≡ messages)
        × (plan.compact_source ≡ [])
        × (count_tokens messages ≤ memory.compact_token_threshold)
  pub window :
      plan.should_compact ≡ true
      → (plan.raw_window_token_count ≤ memory.recent_window_token_limit)
        × ((force ≡ true) ⊎ (memory.compact_token_threshold < count_tokens messages))

length-eq-total : (messages : List MessageRecord) → length messages ≡ total (λ _. 1) messages
length-eq-total [] = refl
length-eq-total (m ∷ ms) = omega (arith, length-eq-total ms)

-- Whatever the history, the message and token counts of a plan's two parts add up to no more than
-- the history's. Without compaction the history stays whole and is within the threshold; with it the
-- window is within its limit, and it was forced or due.
pub plan_compaction-IsAccounted :
    (memory : ShortTermMemory) (messages : List MessageRecord) (force : Bool)
    → IsAccounted memory messages force (plan_compaction memory messages force)
unfolding plan_compaction should_compact
plan_compaction-IsAccounted memory messages force = record {
  counts = ground (
    arith,
    parts (λ _. 1),
    length-eq-total messages,
    length-eq-total (recent_window memory messages),
    length-eq-total (outside (ids (recent_window memory messages)) messages),
  );
  tokens = ground (arith, parts (λ (m : MessageRecord). m.token_count));
  idle = λ h. ground arith;
  window = λ h. ground (arith, (recent_window-IsNewest memory messages).fits);
}
  where
    parts :
        (w : MessageRecord → ℕ)
        → total w (outside (ids (recent_window memory messages)) messages)
            + total w (recent_window memory messages)
          ≤ total w messages
    parts w =
        outside-total w (ids (recent_window memory messages)) (recent_window-Subseq memory messages)
          (λ a h. h)
