-- ===== src/Runtime/AgentLoop/Ends.antt =====
-- runtime/agent_loop.py: how a round ends the turn or leaves it open.
use turning_good_agent.Prelude.{
  ℕ, ◌≤◌, ◌≡◌, refl, String, Bool, true, false, Option, none, some, List, [], length, ◌==◌,
  string_eq, if◌then◌else◌, arith,
}
use turning_good_agent.Prelude.Result.{Result, ok, raise}
use turning_good_agent.Prelude.Action.{
  done, throw, ◌>>=◌, ◌>>◌, current, After, Triple, Triple-done, Triple-throw, Triple-if,
  Triple-bind, Triple-then, Triple-current, Triple-modify, Triple-weaken,
}
use turning_good_agent.Runtime.AgentLoop.{
  Raised, cancelled_error, timeout_error, exception, Surroundings, Delegation, AgentLoopResult,
  LoopState, Step, Round,
}
use turning_good_agent.Runtime.AgentLoop.Complete.{multi_agent_deadline_expired}
use turning_good_agent.Runtime.AgentLoop.Rounds.{
  finish_parent, finish_multi_agent, finish, ends, fail_with, go_on, safe_point, stop_or,
}
use turning_good_agent.Runtime.AgentLoop.Invariant.{
  parent_endings, FinishedAs, IsOpen, IsClosed, IsBroken, IsEnded, IsOpen-IsBroken,
  IsOpen-parent_finished,
}
use turning_good_agent.Runtime.AgentLoop.Triples.{
  IsKept, Triple-await, Stays, check_invocation-Stays,
}

module _ {W J A : Type 0} (env : Surroundings W J A) (total : ℕ) where
  abbrev pub Broken : LoopState W J A → Type 0
  Broken = IsBroken env total

  abbrev pub Closed : String → LoopState W J A → Type 0
  Closed = IsClosed env total

  abbrev pub Open : ℕ → List String → LoopState W J A → Type 0
  Open = IsOpen env total

  Closed-kept : (outcome : String) → IsKept env (Closed outcome)
  Closed-kept outcome s w h = record {
    asked_in_all = h.asked_in_all;
    finished_once = h.finished_once;
  }

  at_most_one :
      (invocation : Option (Delegation W J A)) (outcome : String) (outcomes : List String)
      → FinishedAs invocation outcome outcomes
      → length outcomes ≤ 1
  at_most_one none outcome outcomes h = rw h (omega arith)
  at_most_one (some invocation) outcome outcomes h = rw h (omega arith)

  Closed-Broken : (outcome : String) (s : LoopState W J A) → Closed outcome s → Broken s
  Closed-Broken outcome s h = record {
    asked_before = h.asked_in_all;
    finished_at_most_once =
        at_most_one env.invocation outcome (parent_endings s.log) h.finished_once;
  }

  closes :
      (outcome : String) (r : Result Raised (Unit {0}) × LoopState W J A)
      → After (λ u. Closed outcome) Broken r
      → After (λ u. Broken) Broken r
  closes outcome (ok u, s) h = Closed-Broken outcome s h
  closes outcome (raise e, s) h = h

  -- What a round leaves: the turn's end or, where it may, an open turn with nothing owed.
  abbrev pub Left : Option ℕ → Option (AgentLoopResult J) → LoopState W J A → Type 0
  Left later (some r) s = IsEnded env total r s
  Left (some left) none s = Open left [] s
  Left none none s = ⊥

  module _ (left : ℕ) (owed : List String) where
    unfinished_parent :
        (outcome : String)
        → env.invocation ≡ none
        → (s : LoopState W J A) → Open left owed s
        → Closed outcome s
    unfinished_parent outcome e s h = record {
      asked_in_all = (IsOpen-IsBroken env total left owed s h).asked_before;
      finished_once = rw e h.unfinished_parent;
    }

    -- Told to an invocation whose presence is known.
    finish_parent-Closed :
        (invocation : Option (Delegation W J A)) (outcome : String) (finished : Bool)
        → env.invocation ≡ invocation
        → finished ≡ false
        → Triple
            (Open left owed)
            (finish_parent env invocation outcome finished)
            (λ u. Closed outcome)
            Broken
    unfolding finish_parent done
    finish_parent-Closed none outcome finished e f = record {
      at = λ s h. unfinished_parent outcome e s h;
    }
    finish_parent-Closed (some invocation) outcome true e f = cc
    finish_parent-Closed (some invocation) outcome false e f =
        Triple-then Broken (Closed outcome) _ _
          (Triple-modify _ _ _ _ (λ s h.
            let (asked_in_all, once) = IsOpen-parent_finished env total left owed s outcome h in
            record { asked_in_all = asked_in_all; finished_once = rw e once }))
          (Triple-weaken (λ u. Closed outcome) (Closed outcome) Broken _ (Closed-Broken outcome)
            (Triple-await env (Closed outcome) (invocation.finish_parent_turn outcome)
              (Closed-kept outcome)))

    pub finish_multi_agent-Closed :
        (outcome : String)
        → Triple (Open left owed) (finish_multi_agent env outcome) (λ u. Closed outcome) Broken
    unfolding finish_multi_agent
    finish_multi_agent-Closed outcome = Triple-current _ _ _ _ (λ s h.
        (finish_parent-Closed env.invocation outcome s.invocation_finished refl h.unfinished).at s
          h)

    finish-Ended :
        (content : String) (is_cancelled : Bool) (outcome : String)
        → is_cancelled ≡ (outcome == "cancelled")
        → Triple
            (Open left owed)
            (finish env content is_cancelled outcome)
            (IsEnded env total)
            Broken
    unfolding finish done
    finish-Ended content is_cancelled outcome agrees =
        Triple-then Broken (Closed outcome) _ _ (finish_multi_agent-Closed outcome) (
          Triple-current (Closed outcome) Broken _ _
            (λ s h. record { outcome = outcome; closed = h; agrees = agrees }))

    -- A piece of a round.
    abbrev pub Leaves : Option ℕ → Round W J A → Type 0
    Leaves later m = Triple (Open left owed) m (Left later) Broken

    module _ (later : Option ℕ) where
      pub ends-Leaves :
          (content : String) (is_cancelled : Bool) (outcome : String)
          → is_cancelled ≡ (outcome == "cancelled")
          → Leaves later (ends env content is_cancelled outcome)
      unfolding ends
      ends-Leaves content is_cancelled outcome agrees =
          Triple-bind Broken (IsEnded env total) _ _
            (finish-Ended content is_cancelled outcome agrees)
            (λ r. Triple-done Broken (Left later) (some r))

      pub fails :
          (outcome : String) (e : Raised) → Leaves later (finish_multi_agent env outcome >> throw e)
      fails outcome e =
          Triple-then Broken Broken _ _
            (record { at = λ s h. closes outcome _ ((finish_multi_agent-Closed outcome).at s h) })
            (Triple-throw Broken (Left later) e)

      pub fail_with-Leaves : (e : Raised) → Leaves later (fail_with env e)
      unfolding fail_with
      fail_with-Leaves cancelled_error = fails "cancelled" cancelled_error
      fail_with-Leaves timeout_error = ends-Leaves _ false "timed_out" refl
      fail_with-Leaves (exception text) = fails "failed" (exception text)

      pub Leaves-if :
          (b : Bool) (m n : Round W J A)
          → Leaves later m
          → Leaves later n
          → Leaves later (if b then m else n)
      Leaves-if = Triple-if Broken (Open left owed) (Left later)

      pub Leaves-current :
          (f : LoopState W J A → Round W J A)
          → ((s : LoopState W J A) → Leaves later (f s))
          → Leaves later (current >>= f)
      Leaves-current f k =
          Triple-current (Open left owed) Broken (Left later) f (λ s h. (k s).at s h)

      pub stop_or-Leaves :
          (content : String) (next : Round W J A) (stopped : Bool)
          → Leaves later next
          → Leaves later (stop_or env content next stopped)
      stop_or-Leaves content next true h = ends-Leaves content true "cancelled" refl
      stop_or-Leaves content next false h = h

      go_on-Leaves :
          (next : Round W J A) (error : Option String)
          → Leaves later next
          → Leaves later (go_on env next error)
      go_on-Leaves next (some error) h = ends-Leaves error false "failed" refl
      go_on-Leaves next none h = h

      pub Leaves-bind :
          {B : Type 0} (m : Step W J A B) (f : B → Round W J A)
          → Stays env total left owed m
          → ((b : B) → Leaves later (f b))
          → Leaves later (m >>= f)
      Leaves-bind m f p k =
          Triple-bind Broken (λ b. Open left owed) m f
            (Triple-weaken (λ b. Open left owed) (Open left owed) Broken m
              (IsOpen-IsBroken env total left owed) p)
            k

      pub safe_point-Leaves :
          (next : Round W J A) → Leaves later next → Leaves later (safe_point env next)
      unfolding safe_point
      safe_point-Leaves next h = Leaves-current _ (λ s.
          Leaves-if (multi_agent_deadline_expired env s.world) _ _
            (ends-Leaves _ false "timed_out" refl)
            (Leaves-bind _ _ (check_invocation-Stays env total left owed env.invocation s)
              (λ error. go_on-Leaves next error h)))
