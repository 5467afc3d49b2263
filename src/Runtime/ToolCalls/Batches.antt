-- ===== src/Runtime/ToolCalls/Batches.antt =====
-- runtime/tool_call_runner.py: which calls run together. The loop of `execute_calls` is run with what
-- records the batches in place of what executes them.
use turning_good_agent.Prelude.{
  ◌≡◌, refl, ap, ◌∙◌, String, true, false, Option, some, List, [], ◌∷◌, ◌++◌, map, All, All-append,
  append_assoc, Bool-cases, inl, inr,
}
use turning_good_agent.Hooks.{ToolCall}
use turning_good_agent.Runtime.ToolCalls.{
  PreparedToolCall, ToolCallRunner, prepare, is_parallel_safe, execute_loop,
}

abbrev pub concat : {A : Type 0} → List (List A) → List A
concat [] = []
concat (batch ∷ batches) = batch ++ concat batches

-- A batch is recorded, but for the empty one, which runs nothing.
abbrev pub recorded : {A : Type 0} → List A → List (List A)
recorded [] = []
recorded (p ∷ batch) = (p ∷ batch) ∷ []

module _ {J : Type 0} (self : ToolCallRunner J) where
  abbrev pub AllSafe : List (PreparedToolCall J) → Type 0
  AllSafe = All (λ p. is_parallel_safe self p ≡ true)

  -- The first batch, if there is one, is a call that may not run beside others.
  abbrev pub BeginsAlone : List (List (PreparedToolCall J)) → Type 0
  BeginsAlone [] = Unit
  BeginsAlone ([] ∷ batches) = ⊥
  BeginsAlone ((p ∷ batch) ∷ batches) = (is_parallel_safe self p ≡ false) × (batch ≡ [])

  -- A call that is not parallel-safe is alone, and the parallel-safe ones in a row are one batch.
  pub data AreCallBatches : List (List (PreparedToolCall J)) → Type 0 where
    nothing : AreCallBatches []
    alone :
        {p : PreparedToolCall J} {batches : List (List (PreparedToolCall J))}
        → is_parallel_safe self p ≡ false
        → AreCallBatches batches
        → AreCallBatches ((p ∷ []) ∷ batches)
    together :
        {p : PreparedToolCall J} {batch : List (PreparedToolCall J)}
        {batches : List (List (PreparedToolCall J))}
        → AllSafe (p ∷ batch)
        → BeginsAlone batches
        → AreCallBatches batches
        → AreCallBatches ((p ∷ batch) ∷ batches)

  -- The batches that `execute_calls` executes, in order.
  unfoldable pub call_batches :
      Option (List String) → List (ToolCall J) → Option (List (List (PreparedToolCall J)))
  unfolding execute_loop
  call_batches allowed calls =
      execute_loop self (λ batch. some (recorded batch)) (λ p. some (p ∷ [])) allowed calls
        (some []) []

  module _ (allowed : Option (List String)) where
    abbrev loop :
        List (ToolCall J)
        → List (List (PreparedToolCall J))
        → List (PreparedToolCall J)
        → Option (List (List (PreparedToolCall J)))
    loop calls records batch =
        execute_loop self (λ batch. some (recorded batch)) (λ p. some (p ∷ [])) allowed calls
          (some records) batch

    -- What the loop adds to the batches that are recorded.
    record Added (calls : List (ToolCall J)) (records : List (List (PreparedToolCall J)))
        (batch : List (PreparedToolCall J)) : Type 0 where
      added : List (List (PreparedToolCall J))
      result : loop calls records batch ≡ some (records ++ added)
      whole : concat added ≡ batch ++ map (prepare self allowed) calls
      batches : AreCallBatches added

    -- A batch that is waiting, before a call that is alone.
    flush :
        (batch : List (PreparedToolCall J)) (p : PreparedToolCall J)
        (later : List (List (PreparedToolCall J)))
        → AllSafe batch
        → is_parallel_safe self p ≡ false
        → AreCallBatches later
        → AreCallBatches (recorded batch ++ (p ∷ []) ∷ later)
    flush [] p later safe unsafe h = alone unsafe h
    flush (q ∷ batch) p later safe unsafe h = together safe (unsafe, refl) (alone unsafe h)

    concat-recorded :
        (batch : List (PreparedToolCall J)) (later : List (List (PreparedToolCall J)))
        → concat (recorded batch ++ later) ≡ batch ++ concat later
    concat-recorded [] later = refl
    concat-recorded (q ∷ batch) later = refl

    loop-Added :
        (calls : List (ToolCall J)) (records : List (List (PreparedToolCall J)))
        (batch : List (PreparedToolCall J))
        → AllSafe batch
        → Added calls records batch
    unfolding execute_loop
    loop-Added [] records [] safe = record {
      added = [];
      result = refl;
      whole = refl;
      batches = nothing;
    }
    loop-Added [] records (q ∷ batch) safe = record {
      added = (q ∷ batch) ∷ [];
      result = refl;
      whole = refl;
      batches = together safe tt nothing;
    }
    loop-Added (call ∷ calls) records batch safe =
        let p = prepare self allowed call in
        let rest = map (prepare self allowed) calls in
        elim (Bool-cases (is_parallel_safe self p)) [
          | inl is_safe ↦
              let h = loop-Added calls records (batch ++ p ∷ []) (
                All-append (λ q. is_parallel_safe self q ≡ true) batch (p ∷ []) safe
                  (is_safe, tt)) in
              record {
                added = h.added;
                result = rw is_safe h.result;
                whole = h.whole ∙ append_assoc batch (p ∷ []) rest;
                batches = h.batches;
              }
          | inr unsafe ↦
              let h = loop-Added calls ((records ++ recorded batch) ++ (p ∷ []) ∷ []) [] tt in
              record {
                added = recorded batch ++ (p ∷ []) ∷ h.added;
                result = rw unsafe (
                    h.result
                    ∙ ap some (
                        append_assoc (records ++ recorded batch) ((p ∷ []) ∷ []) h.added
                        ∙ append_assoc records (recorded batch) ((p ∷ []) ∷ h.added)));
                whole =
                    concat-recorded batch ((p ∷ []) ∷ h.added)
                    ∙ ap (λ (l : List (PreparedToolCall J)). batch ++ p ∷ l) h.whole;
                batches = flush batch p h.added safe unsafe h.batches;
              }
        ]

    -- The batches that `execute_calls` executes one behind the other are the prepared calls in the
    -- model's order, cut so that a call which is not parallel-safe is executed alone, and that the
    -- parallel-safe calls in a row are executed together.
    pub call_batches-AreCallBatches :
        (calls : List (ToolCall J))
        → (bs : List (List (PreparedToolCall J))) × (call_batches allowed calls ≡ some bs)
          × (concat bs ≡ map (prepare self allowed) calls)
          × AreCallBatches bs
    unfolding call_batches
    call_batches-AreCallBatches calls =
        let h = loop-Added calls [] [] tt in (h.added, h.result, h.whole, h.batches)
