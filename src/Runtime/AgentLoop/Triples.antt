-- ===== src/Runtime/AgentLoop/Triples.antt =====
-- runtime/agent_loop.py: the pieces of a round that neither ask the model nor call `finish_parent_turn`.
use turning_good_agent.Prelude.{
  ℕ, ◌-◌, refl, String, Bool, Bool-cases, inl, inr, true, false, not, Option, none, some, List, [],
  ◌∷◌, leb, ◌==◌, string_eq, if◌then◌else◌,
}
use turning_good_agent.Prelude.Text.{is_empty, strip}
use turning_good_agent.Prelude.Result.{Result, ok, raise}
use turning_good_agent.Prelude.Action.{
  done, ◌>>=◌, ◌>>◌, current, After, After-weaken, Triple, Triple-done, Triple-if, Triple-bind,
  Triple-then, Triple-current, Triple-modify,
}
use turning_good_agent.Hooks.{ToolCall}
use turning_good_agent.Runtime.AgentLoop.{
  Raised, Call, Surroundings, Delegation, Effect, ran, delegated, LoopState, Step,
}
use turning_good_agent.Runtime.AgentLoop.Complete.{
  settled, note, await, wait_for, deadline_of, await_until, await_multi_agent_deadline,
}
use turning_good_agent.Runtime.AgentLoop.ParentCalls.{
  ParentCalls, no_calls, flushed, flush_ordinary, delegate_call, dispatch,
  delegate_multi_agent_name, dispatch_all, execute_parent_calls,
}
use turning_good_agent.Runtime.AgentLoop.Rounds.{guide, apply_turn_control, check_invocation}
use turning_good_agent.Runtime.AgentLoop.Shapes.{owed_by-append}
use turning_good_agent.Runtime.AgentLoop.Invariant.{IsOpen, IsOpen-append}

module _ {W J A : Type 0} (env : Surroundings W J A) where
  -- What no change outside the loop can change.
  abbrev pub IsKept : (LoopState W J A → Type 0) → Type 0
  IsKept P = (s : LoopState W J A) (w : W) → P s → P (record s { world = w })

  settled-After :
      {B : Type 0} (P : LoopState W J A → Type 0)
      → IsKept P
      → (s : LoopState W J A) (r : Result Raised B × W) → P s
      → After (λ b. P) P (settled env s r)
  settled-After P kept s (ok b, w) h = kept s w h
  settled-After P kept s (raise e, w) h = kept s w h

  pub Triple-await :
      {B : Type 0} (P : LoopState W J A → Type 0) (m : Call W B)
      → IsKept P
      → Triple P (await env m) (λ b. P) P
  unfolding await
  Triple-await P m kept = record { at = λ s h. settled-After P kept s (m s.world) h }

  -- A call under the deadline: before the effect is noted `P` holds, and after it `Q`.
  await_until-After :
      {B : Type 0} (Q R : LoopState W J A → Type 0) (deadline : Option ℕ) (effect : Effect J)
      (m : Call W B) (s : LoopState W J A)
      → IsKept Q
      → ((t : LoopState W J A) → Q t → R t)
      → R s
      → Q (note env effect s)
      → After (λ b. Q) R (await_until env deadline effect m s)
  unfolding await_until await
  await_until-After Q R none effect m s kept weaker before noted =
      After-weaken (λ b. Q) Q R _ weaker
        (settled-After Q kept (note env effect s) (m s.world) noted)
  await_until-After Q R (some deadline) effect m s kept weaker before noted =
      elim (Bool-cases (leb deadline (env.time s.world))) [
        | inl late ↦ rw late before
        | inr early ↦ rw early (
            After-weaken (λ b. Q) Q R _ weaker
              (settled-After Q kept (note env effect s)
                (wait_for env (deadline - env.time s.world) m s.world) noted))
      ]

  pub Triple-await_until :
      {B : Type 0} (P Q R : LoopState W J A → Type 0) (effect : Effect J) (m : Call W B)
      → IsKept Q
      → ((t : LoopState W J A) → Q t → R t)
      → ((t : LoopState W J A) → P t → R t × Q (note env effect t))
      → Triple P (await_multi_agent_deadline env effect m) (λ b. Q) R
  unfolding await_multi_agent_deadline
  Triple-await_until P Q R effect m kept weaker noted = record {
    at = λ s h.
        await_until-After Q R (deadline_of env env.invocation s.world) effect m s kept weaker
          (noted s h).0 (noted s h).1;
  }

  module _ (total left : ℕ) (owed : List String) where
    abbrev Open : LoopState W J A → Type 0
    Open = IsOpen env total left owed

    -- A piece that leaves the turn open.
    abbrev pub Stays : {B : Type 0} → Step W J A B → Type 0
    Stays m = Triple Open m (λ b. Open) Open

    pub Open-kept : IsKept Open
    Open-kept s w h = record {
      asked_so_far = h.asked_so_far;
      owes = h.owes;
      unfinished_parent = h.unfinished_parent;
      unfinished = h.unfinished;
    }

    pub Stays-await : {B : Type 0} (m : Call W B) → Stays (await env m)
    Stays-await m = Triple-await Open m Open-kept

    pub Stays-done : {B : Type 0} (b : B) → Stays (done b)
    Stays-done b = Triple-done Open (λ b. Open) b

    pub Stays-bind :
        {B C : Type 0} (m : Step W J A B) (f : B → Step W J A C)
        → Stays m
        → ((b : B) → Stays (f b))
        → Stays (m >>= f)
    Stays-bind m f p k = Triple-bind Open (λ b. Open) m f p k

    pub Stays-then :
        {C : Type 0} (m : Step W J A (Unit {0})) (n : Step W J A C)
        → Stays m
        → Stays n
        → Stays (m >> n)
    Stays-then m n p q = Triple-then Open Open m n p q

    pub Stays-current :
        {C : Type 0} (f : LoopState W J A → Step W J A C)
        → ((s : LoopState W J A) → Stays (f s))
        → Stays (current >>= f)
    Stays-current f k = Triple-current Open Open (λ b. Open) f (λ s h. (k s).at s h)

    Stays-ran :
        {B : Type 0} (calls : List (ToolCall J)) (m : Call W B)
        → Stays (await_multi_agent_deadline env (ran calls) m)
    Stays-ran calls m =
        Triple-await_until Open Open Open (ran calls) m Open-kept (λ t h. h)
          (λ t h. (h, IsOpen-append env total left owed t (ran calls ∷ []) refl refl h))

    flush_ordinary-Stays :
        (b : ParentCalls J A) (calls : List (ToolCall J)) → Stays (flush_ordinary env b calls)
    unfolding flush_ordinary
    flush_ordinary-Stays b [] = Stays-done b
    flush_ordinary-Stays b (call ∷ calls) =
        Stays-bind _ _ (Stays-ran (call ∷ calls) _) (λ records. Stays-done (flushed env b records))

    delegate_call-Stays :
        (invocation : Option (Delegation W J A)) (call : ToolCall J) (b : ParentCalls J A)
        (s : LoopState W J A)
        → Stays (delegate_call env invocation call b s)
    unfolding delegate_call
    delegate_call-Stays none call b s = Stays-done _
    delegate_call-Stays (some invocation) call b s =
        Triple-if Open Open (λ c. Open) (invocation.is_schema_visible s.world) _ _
          (Stays-then _ _
            (Triple-modify Open Open Open (note env (delegated call.args))
              (λ t h. IsOpen-append env total left owed t (delegated call.args ∷ []) refl refl h))
            (Stays-bind _ _ (Stays-await (invocation.invoke call.args))
              (λ content. Stays-current _ (λ t. Stays-done _))))
          (Stays-done _)

    dispatch-Stays : (call : ToolCall J) (b : ParentCalls J A) → Stays (dispatch env call b)
    unfolding dispatch
    dispatch-Stays call b =
        Triple-if Open Open (λ c. Open) (not (call.name == delegate_multi_agent_name)) _ _
          (Stays-done _)
          (Stays-bind _ _ (flush_ordinary-Stays b b.ordinary)
            (λ b'. Stays-current _ (λ s. delegate_call-Stays env.invocation call b' s)))

    dispatch_all-Stays :
        (calls : List (ToolCall J)) (b : ParentCalls J A) → Stays (dispatch_all env calls b)
    unfolding dispatch_all
    dispatch_all-Stays [] b = flush_ordinary-Stays b b.ordinary
    dispatch_all-Stays (call ∷ calls) b =
        Stays-bind _ _ (dispatch-Stays call b) (dispatch_all-Stays calls)

    pub execute_parent_calls-Stays :
        (calls : List (ToolCall J)) (adapter : A) → Stays (execute_parent_calls env calls adapter)
    unfolding execute_parent_calls
    execute_parent_calls-Stays calls adapter =
        Stays-bind _ _ (dispatch_all-Stays calls (no_calls adapter)) (λ b. Stays-done _)

    pub check_invocation-Stays :
        (invocation : Option (Delegation W J A)) (s : LoopState W J A)
        → Stays (check_invocation env invocation s)
    check_invocation-Stays none s = Stays-done none
    check_invocation-Stays (some invocation) s = Stays-await _

  either :
      (P : LoopState W J A → Type 0) (b : Bool) (s t : LoopState W J A)
      → P s
      → P t
      → P (if b then s else t)
  either P true s t h k = h
  either P false s t h k = k

  guide-IsOpen :
      (total left : ℕ) (guidance : List String) (s : LoopState W J A)
      → IsOpen env total left [] s
      → IsOpen env total left [] (guide env guidance s)
  unfolding guide
  guide-IsOpen total left [] s h = h
  guide-IsOpen total left (content ∷ guidance) s h = guide-IsOpen total left guidance _ (
      either (IsOpen env total left []) (is_empty (strip content)) s _ h (record {
        asked_so_far = h.asked_so_far;
        owes = owed_by-append s.working _ h.owes;
        unfinished_parent = h.unfinished_parent;
        unfinished = h.unfinished;
      }))

  pub apply_turn_control-Stays : (total left : ℕ) → Stays total left [] (apply_turn_control env)
  unfolding apply_turn_control
  apply_turn_control-Stays total left = Stays-current total left [] _ (λ s.
      Triple-if _ _ _ (env.is_stop_requested s.channel_adapter s.world) _ _
        (Stays-done total left [] true)
        (Stays-bind total left [] _ _ (Stays-await total left [] _) (λ guidance.
          Stays-then total left [] _ _
            (Triple-modify _ _ _ (guide env guidance) (guide-IsOpen total left guidance))
            (Stays-done total left [] false))))
