-- ===== src/Runtime/ToolCalls/Order.antt =====
-- runtime/tool_call_runner.py: the order of the records, and the batches.
use turning_good_agent.Prelude.{
  ◌≡◌, refl, sym, ap, ◌∙◌, String, Option, none, some, List, [], ◌∷◌, ◌++◌, map, append-nil,
  append_assoc, Bool-cases, inl, inr, string_eq,
}
use turning_good_agent.Hooks.{ToolCall}
use turning_good_agent.Runtime.ToolCalls.{
  PreparedToolCall, ToolCallRunner, Finished, prepare, is_parallel_safe, execute_prepared,
  cons_some, append_some, gather, execute_parallel_batch, execute_loop, execute_calls,
}

module _ {J : Type 0} (self : ToolCallRunner J) where
  append_some_nil : (l : Option (List (Finished J))) → append_some self (some []) l ≡ l
  append_some_nil none = refl
  append_some_nil (some l) = refl

  append_some_assoc :
      (k l m : Option (List (Finished J)))
      → append_some self (append_some self k l) m ≡ append_some self k (append_some self l m)
  append_some_assoc none l m = refl
  append_some_assoc (some k) none m = refl
  append_some_assoc (some k) (some l) none = refl
  append_some_assoc (some k) (some l) (some m) = ap some (append_assoc k l m)

  cons_some-append :
      (a : Option (Finished J)) (l m : Option (List (Finished J)))
      → append_some self (cons_some self a l) m ≡ cons_some self a (append_some self l m)
  cons_some-append none l m = refl
  cons_some-append (some a) none m = refl
  cons_some-append (some a) (some l) none = refl
  cons_some-append (some a) (some l) (some m) = refl

  gather-append :
      (front back : List (PreparedToolCall J))
      → gather self (front ++ back) ≡ append_some self (gather self front) (gather self back)
  unfolding gather
  gather-append [] back = sym (append_some_nil (gather self back))
  gather-append (p ∷ front) back =
      ap (cons_some self (execute_prepared self p)) (gather-append front back)
      ∙ sym (cons_some-append (execute_prepared self p) (gather self front) (gather self back))

  batch-gather :
      (batch : List (PreparedToolCall J)) → execute_parallel_batch self batch ≡ gather self batch
  unfolding execute_parallel_batch gather
  batch-gather [] = refl
  batch-gather (p ∷ []) = refl
  batch-gather (p ∷ q ∷ rest) = refl

  alone_step :
      (p : PreparedToolCall J) (rest : List (PreparedToolCall J))
      (records : Option (List (Finished J))) (batch : List (PreparedToolCall J))
      → append_some self
          (append_some self
            (append_some self records (execute_parallel_batch self batch))
            (cons_some self (execute_prepared self p) (some [])))
          (gather self rest)
        ≡ append_some self records (gather self (batch ++ p ∷ rest))
  unfolding gather
  alone_step p rest records batch =
      rw (batch-gather batch, gather-append batch (p ∷ rest))
        (append_some_assoc (append_some self records (gather self batch)) _ (gather self rest)
          ∙ append_some_assoc records (gather self batch) _
          ∙ ap
              (λ (l : Option (List (Finished J))).
                append_some self records (append_some self (gather self batch) l))
              (cons_some-append (execute_prepared self p) (some []) (gather self rest)
                ∙ ap (cons_some self (execute_prepared self p))
                    (append_some_nil (gather self rest))))

  module _ (allowed : Option (List String)) where
    loop-gather :
        (calls : List (ToolCall J)) (records : Option (List (Finished J)))
        (batch : List (PreparedToolCall J))
        → execute_loop self
            (execute_parallel_batch self)
            (execute_prepared self)
            allowed
            calls
            records
            batch
          ≡ append_some self records (gather self (batch ++ map (prepare self allowed) calls))
    unfolding execute_loop
    loop-gather [] records batch =
        ap (append_some self records)
          (batch-gather batch ∙ ap (gather self) (sym (append-nil batch)))
    loop-gather (call ∷ calls) records batch =
        let p = prepare self allowed call in
        let rest = map (prepare self allowed) calls in
        elim (Bool-cases (is_parallel_safe self p)) [
          | inl safe ↦ rw safe (
              loop-gather calls records (batch ++ p ∷ [])
              ∙ ap (λ (l : List (PreparedToolCall J)). append_some self records (gather self l))
                  (append_assoc batch (p ∷ []) rest))
          | inr alone ↦ rw alone (loop-gather calls _ [] ∙ alone_step p rest records batch)
        ]

    -- However the calls fall into parallel batches, what `execute_calls` returns is what preparing
    -- and executing the calls one by one, in the model's order, gives.
    pub execute_calls-in_order :
        (calls : List (ToolCall J))
        → execute_calls self allowed calls ≡ gather self (map (prepare self allowed) calls)
    unfolding execute_calls
    execute_calls-in_order calls =
        loop-gather calls (some []) []
        ∙ append_some_nil (gather self (map (prepare self allowed) calls))
