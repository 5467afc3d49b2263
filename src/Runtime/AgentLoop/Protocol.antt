-- ===== src/Runtime/AgentLoop/Protocol.antt =====
-- runtime/agent_loop.py, `run`: the requests of a turn and its end.
use turning_good_agent.Prelude.{
  ℕ, zero, suc, ◌≤◌, ◌≡◌, refl, String, Bool, true, false, not, Option, none, some, List, [],
  length, nat_beq, nat_beq_iff, take, All, ltb, ◌==◌, string_eq, if◌then◌else◌, arith,
}
use turning_good_agent.Prelude.Result.{Result, ok, raise}
use turning_good_agent.Prelude.Text.{is_empty, strip}
use turning_good_agent.Prelude.Action.{
  done, throw, ◌>>=◌, ◌>>◌, modify, After, Triple, Triple-done, Triple-throw, Triple-bind,
  Triple-then, Triple-current, Triple-modify, Triple-weaken,
}
use turning_good_agent.Sessions.{is_nonempty}
use turning_good_agent.Hooks.{ToolCall}
use turning_good_agent.Llm.{LlmResponse}
use turning_good_agent.Tools.{ToolRegistry}
use turning_good_agent.Runtime.Attachments.{Message, CallRecord}
use turning_good_agent.Runtime.AgentLoop.{
  Raised, Surroundings, AgentLoopResult, LoopState, Step, Round,
}
use turning_good_agent.Runtime.AgentLoop.Complete.{multi_agent_deadline_expired}
use turning_good_agent.Runtime.AgentLoop.ParentCalls.{refresh_openai_tools, assistant_message}
use turning_good_agent.Runtime.AgentLoop.Rounds.{
  or_fail, trying, apply_turn_control, safe_point, stop_or,
}
use turning_good_agent.Runtime.AgentLoop.Run.{
  keep_records, record_results, after_calls, run_calls, answer_with, add_response, after_response,
  ask, round, zip_error, after_summary, summarise, or_next_round, rounds, start, run,
}
use turning_good_agent.Runtime.AgentLoop.Shapes.{
  owed_by-append, call_ids, Answered, record_results-Answered,
}
use turning_good_agent.Runtime.AgentLoop.Invariant.{
  requests, parent_endings, Asked, FinishedAs, IsOpen, IsOpen-less, IsOpen-IsBroken, IsOpen-asked,
}
use turning_good_agent.Runtime.AgentLoop.Triples.{
  Triple-await, Triple-await_until, Open-kept, execute_parent_calls-Stays, apply_turn_control-Stays,
}
use turning_good_agent.Runtime.AgentLoop.Ends.{
  Broken, Open, Left, Leaves, ends-Leaves, fails, fail_with-Leaves, Leaves-if, Leaves-current,
  stop_or-Leaves, Leaves-bind, safe_point-Leaves,
}

module _ {W J A : Type 0} (env : Surroundings W J A) (total : ℕ) where
  trying-Leaves :
      {B : Type 0} (P : LoopState W J A → Type 0) (Q : B → LoopState W J A → Type 0) (left : ℕ)
      (owed : List String) (later : Option ℕ) (m : Step W J A B) (next : B → Round W J A)
      → Triple P m Q (Open env total left owed)
      → ((b : B) → Triple (Q b) (next b) (Left env total later) (Broken env total))
      → Triple P (trying env m next) (Left env total later) (Broken env total)
  unfolding trying
  trying-Leaves {B} P Q left owed later m next p k = record { at = λ s h. go (m s) (p.at s h) }
    where
      go :
          (r : Result Raised B × LoopState W J A)
          → After Q (Open env total left owed) r
          → After (Left env total later) (Broken env total) (or_fail env r next)
      go (ok b, s) h = (k b).at s h
      go (raise e, s) h = (fail_with-Leaves env total left owed later e).at s h

  IsOpen-results :
      (left : ℕ) (calls : List (ToolCall J)) (executed : List (CallRecord J × Bool))
      (s : LoopState W J A)
      → length calls ≡ length executed
      → Open env total left (call_ids calls) s
      → Open env total left [] (record_results env calls executed s)
  unfolding record_results
  IsOpen-results left calls executed s same h = record {
    asked_so_far = h.asked_so_far;
    owes = record_results-Answered env calls executed s h.owes same;
    unfinished_parent = h.unfinished_parent;
    unfinished = h.unfinished;
  }

  IsOpen-refreshed :
      (left : ℕ) (s : LoopState W J A)
      → Open env total left [] s
      → Open env total left [] (refresh_openai_tools env s)
  unfolding refresh_openai_tools
  IsOpen-refreshed left s h = record {
    asked_so_far = h.asked_so_far;
    owes = h.owes;
    unfinished_parent = h.unfinished_parent;
    unfinished = h.unfinished;
  }

  module _ (left : ℕ) where
    -- The calls and their results, known to be equally many or not.
    results-Leaves :
        (content : String) (calls : List (ToolCall J)) (executed : List (CallRecord J × Bool))
        (same : Bool)
        → nat_beq (length calls) (length executed) ≡ same
        → Leaves env total left (call_ids calls) (some left) (
            if not same
            then modify (keep_records env calls executed)
              >> throw (zip_error (ltb (length executed) (length calls)))
            else modify (record_results env calls executed)
              >> (apply_turn_control env
                  >>= stop_or env content
                      (modify (refresh_openai_tools env) >> safe_point env (done none))))
    results-Leaves content calls executed false e =
        Triple-then (Broken env total) (Broken env total) _ _
          (Triple-modify _ _ _ _ (λ s h.
            let broken = IsOpen-IsBroken env total left (call_ids calls) s h in
            record {
              asked_before = broken.asked_before;
              finished_at_most_once = broken.finished_at_most_once;
            }))
          (Triple-throw (Broken env total) (Left env total (some left)) _)
    results-Leaves content calls executed true e =
        Triple-then (Broken env total) (Open env total left []) _ _
          (Triple-modify _ _ _ _ (λ s.
            IsOpen-results left calls executed s
              ((nat_beq_iff (length calls) (length executed)).0 e)))
          (Leaves-bind env total left [] (some left) _ _ (apply_turn_control-Stays env total left)
            (λ stopped. stop_or-Leaves env total left [] (some left) content _ stopped (
              Triple-then (Broken env total) (Open env total left []) _ _
                (Triple-modify _ _ _ _ (IsOpen-refreshed left))
                (safe_point-Leaves env total left [] (some left) _
                  (Triple-done (Broken env total) (Left env total (some left)) none)))))

    after_calls-Leaves :
        (content : String) (calls : List (ToolCall J)) (executed : List (CallRecord J × Bool))
        (adapter : A)
        → Leaves env total left
            (call_ids calls)
            (some left)
            (after_calls env content calls (executed, adapter))
    unfolding after_calls
    after_calls-Leaves content calls executed adapter =
        Triple-then (Broken env total) (Open env total left (call_ids calls)) _ _
          (Triple-modify _ _ _ _ (λ s h. record {
            asked_so_far = h.asked_so_far;
            owes = h.owes;
            unfinished_parent = h.unfinished_parent;
            unfinished = h.unfinished;
          }))
          (results-Leaves content calls executed _ refl)

    pub run_calls-Leaves :
        (response : LlmResponse J) (calls : List (ToolCall J))
        → Leaves env total left [] (some left) (run_calls env response calls)
    unfolding run_calls assistant_message
    run_calls-Leaves response calls =
        Triple-then (Broken env total) (Open env total left (call_ids calls)) _ _
          (Triple-modify _ _ _ _ (λ s h. record {
            asked_so_far = h.asked_so_far;
            owes = owed_by-append s.working _ h.owes;
            unfinished_parent = h.unfinished_parent;
            unfinished = h.unfinished;
          }))
          (Leaves-current env total left (call_ids calls) (some left) _ (λ s.
            Leaves-if env total left (call_ids calls) (some left)
              (env.is_stop_requested s.channel_adapter s.world) _ _
              (ends-Leaves env total left (call_ids calls) (some left) _ true "cancelled" refl)
              (trying-Leaves (Open env total left (call_ids calls))
                (λ b. Open env total left (call_ids calls)) left (call_ids calls) (some left) _ _
                (execute_parent_calls-Stays env total left (call_ids calls) calls s.channel_adapter)
                (λ b. after_calls-Leaves response.content calls b.0 b.1))))

    answer_with-Leaves :
        (response : LlmResponse J) → Leaves env total left [] (some left) (answer_with env response)
    unfolding answer_with
    answer_with-Leaves response = Leaves-current env total left [] (some left) _ (λ s.
        Leaves-if env total left [] (some left) (env.is_stop_requested s.channel_adapter s.world) _
          _ (ends-Leaves env total left [] (some left) _ true "cancelled" refl)
          (Leaves-if env total left [] (some left) (is_empty (strip response.content)) _ _
            (fails env total left [] (some left) "failed" _)
            (ends-Leaves env total left [] (some left) _ false "completed" refl)))

    used-Open :
        (response : LlmResponse J) (s : LoopState W J A)
        → Open env total left [] s
        → Open env total left [] (add_response env response s)
    used-Open response s h = record {
      asked_so_far = h.asked_so_far;
      owes = h.owes;
      unfinished_parent = h.unfinished_parent;
      unfinished = h.unfinished;
    }

    after_response-Leaves :
        (response : LlmResponse J)
        → Leaves env total left [] (some left) (after_response env response)
    unfolding after_response
    after_response-Leaves response =
        Triple-then (Broken env total) (Open env total left []) _ _
          (Triple-modify _ _ _ _ (used-Open response))
          (Leaves-if env total left [] (some left) (is_nonempty response.tool_calls) _ _
            (run_calls-Leaves response (take env.max_tool_calls_per_round response.tool_calls))
            (answer_with-Leaves response))

    ask-Triple :
        (emit_deltas with_tools : Bool)
        → Triple
            (Open env total (suc left) [])
            (ask env emit_deltas with_tools)
            (λ r. Open env total left [])
            (Open env total left [])
    unfolding ask
    ask-Triple emit_deltas with_tools = Triple-current _ _ _ _ (λ s h.
        (Triple-await_until env (λ t. (t ≡ s) × Open env total (suc left) [] t)
            (Open env total left []) (Open env total left []) _ _ (Open-kept env total left [])
            (λ t k. k)
            (λ t k. (
              IsOpen-less env total left [] t k.1,
              rw (k.0) (IsOpen-asked env total left s _ h),
            ))).at
          s (refl, h))

    round-Leaves : Leaves env total (suc left) [] (some left) (round env)
    unfolding round
    round-Leaves =
        Leaves-bind env total (suc left) [] (some left) _ _
          (apply_turn_control-Stays env total (suc left))
          (λ stopped. stop_or-Leaves env total (suc left) [] (some left) "" _ stopped (
            safe_point-Leaves env total (suc left) [] (some left) _ (
              trying-Leaves (Open env total (suc left) []) (λ r. Open env total left []) left []
                (some left) _ _ (ask-Triple true true) after_response-Leaves)))

    after_summary-Leaves :
        (summary : LlmResponse J) → Leaves env total left [] none (after_summary env summary)
    unfolding after_summary
    after_summary-Leaves summary =
        Triple-then (Broken env total) (Open env total left []) _ _
          (Triple-modify _ _ _ _ (used-Open summary))
          (Leaves-current env total left [] none _ (λ s.
            Leaves-if env total left [] none (env.is_stop_requested s.channel_adapter s.world) _ _
              (ends-Leaves env total left [] none _ true "cancelled" refl)
              (Triple-then (Broken env total) (Open env total left []) _ _
                (Triple-weaken (λ u. Open env total left []) (Open env total left [])
                  (Broken env total) _ (IsOpen-IsBroken env total left [])
                  (Triple-await env (Open env total left []) _ (Open-kept env total left [])))
                (ends-Leaves env total left [] none _ false "completed" refl))))

    summarise-Leaves : Leaves env total (suc left) [] none (summarise env)
    unfolding summarise
    summarise-Leaves =
        Triple-then (Broken env total) (Open env total (suc left) []) _ _
          (Triple-modify _ _ _ _ (λ s h. record {
            asked_so_far = h.asked_so_far;
            owes = owed_by-append s.working _ h.owes;
            unfinished_parent = h.unfinished_parent;
            unfinished = h.unfinished;
          }))
          (Leaves-current env total (suc left) [] none _ (λ s.
            Leaves-if env total (suc left) [] none (multi_agent_deadline_expired env s.world) _ _
              (ends-Leaves env total (suc left) [] none _ false "timed_out" refl)
              (trying-Leaves (Open env total (suc left) []) (λ r. Open env total left []) left []
                none _ _ (ask-Triple false false) after_summary-Leaves)))

  next_round-Leaves :
      (n : ℕ) (later : Round W J A)
      → Leaves env total (suc n) [] none later
      → (o : Option (AgentLoopResult J))
      → Triple
          (Left env total (some (suc n)) o)
          (or_next_round env later o)
          (Left env total none)
          (Broken env total)
  next_round-Leaves n later h (some r) =
      Triple-done (Broken env total) (Left env total none) (some r)
  next_round-Leaves n later h none = h

  rounds-Leaves : (n : ℕ) → Leaves env total (suc n) [] none (rounds env n)
  unfolding rounds
  rounds-Leaves zero = summarise-Leaves 0
  rounds-Leaves (suc n) =
      Triple-bind (Broken env total) (Left env total (some (suc n))) _ _ (round-Leaves (suc n))
        (next_round-Leaves n (rounds env n) (rounds-Leaves n))

module _ {W J A : Type 0} (env : Surroundings W J A) (messages : List (Message J)) (adapter : A)
    (tools : ToolRegistry J) (w : W) where
  -- A turn that returns has a result, and has called `finish_parent_turn` of its invocation, if it has
  -- one, once; a turn that raises has called it at most once.
  unfoldable pub FinishesParent :
      Result Raised (Option (AgentLoopResult J)) × LoopState W J A → Type 0
  FinishesParent (ok (some r), s) =
      (outcome : String) × FinishedAs env.invocation outcome (parent_endings s.log)
      × (r.cancelled ≡ (outcome == "cancelled"))
  FinishesParent (ok none, s) = ⊥
  FinishesParent (raise e, s) = length (parent_endings s.log) ≤ 1

  abbrev total : ℕ
  total = suc env.max_tool_rounds

  start-IsOpen : Answered messages → IsOpen env total total [] (start env messages adapter tools w)
  unfolding start refresh_openai_tools
  start-IsOpen h = record {
    asked_so_far = record { well_formed = tt; bounded = omega arith };
    owes = h;
    unfinished_parent = refl;
    unfinished = refl;
  }

  ran_to_end :
      Answered messages
      → After (Left env total none) (Broken env total) (run env messages adapter tools w)
  unfolding run
  ran_to_end h =
      (rounds-Leaves env total env.max_tool_rounds).at (start env messages adapter tools w)
        (start-IsOpen h)

  Asked-all :
      (r : Result Raised (Option (AgentLoopResult J)) × LoopState W J A)
      → After (Left env total none) (Broken env total) r
      → Asked total 0 r.1.log
  Asked-all (ok (some r), s) h = h.closed.asked_in_all
  Asked-all (ok none, s) h = absurd h
  Asked-all (raise e, s) h = h.asked_before

  FinishesParent-all :
      (r : Result Raised (Option (AgentLoopResult J)) × LoopState W J A)
      → After (Left env total none) (Broken env total) r
      → FinishesParent r
  unfolding FinishesParent
  FinishesParent-all (ok (some r), s) h = (h.outcome, h.closed.finished_once, h.agrees)
  FinishesParent-all (ok none, s) h = h
  FinishesParent-all (raise e, s) h = h.finished_at_most_once

  -- If every call in the given conversation is answered in place, then in every request that the
  -- turn sends to the model each assistant message with calls is followed by the answers to these
  -- calls, one each and in order; and it sends at most one request more than it has rounds.
  pub run-requests :
      Answered messages
      → All Answered (requests (run env messages adapter tools w).1.log)
        × (length (requests (run env messages adapter tools w).1.log) ≤ suc env.max_tool_rounds)
  run-requests h =
      let all = Asked-all (run env messages adapter tools w) (ran_to_end h) in
      (all.well_formed, omega (arith, all.bounded))

  -- If every call in the given conversation is answered in place, then a turn that returns has a
  -- result, and if it was given a delegation invocation it has called `finish_parent_turn` of it
  -- exactly once, with an outcome that is "cancelled" exactly if the result is; given none it has
  -- called nothing. A turn that raises has called it at most once.
  pub run-FinishesParent : Answered messages → FinishesParent (run env messages adapter tools w)
  run-FinishesParent h = FinishesParent-all (run env messages adapter tools w) (ran_to_end h)
