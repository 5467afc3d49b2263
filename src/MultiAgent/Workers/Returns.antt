-- ===== src/MultiAgent/Workers/Returns.antt =====
-- multi_agent/coordinator.py, `_run_worker`: it returns a node of its task, whatever happens.
use turning_good_agent.Prelude.{
  arith, ℕ, ◌≡◌, refl, String, string_eq, Bool, Option, none, some, if◌then◌else◌,
}
use turning_good_agent.Prelude.Dict.{get}
use turning_good_agent.Prelude.Action.{
  done, ◌>>=◌, current, Triple, Triple-if, Triple-bind, Triple-current,
}
use turning_good_agent.MultiAgent.{MultiAgentTask, MultiAgentNode, MultiAgentRun}
use turning_good_agent.MultiAgent.Nodes.{
  node_of, cancelled_node, failed_node, timed_out_node, event_failure_node,
}
use turning_good_agent.MultiAgent.Coordinator.{
  Slot, run_slot, global_slot, Surroundings, MultiAgentCoordinator, Act, outside, emit, emit_node,
}
use turning_good_agent.MultiAgent.Workers.{
  run_within, unless_failed, run_started, terminal_before_start, within_slot, run_worker,
}

-- The node of a task.
abbrev pub IsFor : String → MultiAgentTask → MultiAgentNode → Type 0
IsFor node_id task node = (node.node_id ≡ node_id) × (node.role ≡ task.role)

module _ {W : Type 0} (env : Surroundings W) where
  -- An action returns, whatever the state, and does not raise.
  abbrev pub Returns : {B : Type 0} → (B → Type 0) → Act W B → Type 0
  Returns Q m = Triple (λ s. Unit) m (λ b s. Q b) (λ s. ⊥)

  pub Returns-done : {B : Type 0} (Q : B → Type 0) (b : B) → Q b → Returns Q (done b)
  unfolding done
  Returns-done Q b h = record { at = λ s u. h }

  pub Returns-bind :
      {B C : Type 0} (P : B → Type 0) (Q : C → Type 0) (m : Act W B) (f : B → Act W C)
      → Returns P m
      → ((b : B) → P b → Returns Q (f b))
      → Returns Q (m >>= f)
  Returns-bind P Q m f p k =
      Triple-bind (λ s. ⊥) (λ b s. P b) m f p (λ b. record { at = λ s h. (k b h).at s tt })

  unfoldable pub Anything : {B : Type 0} → B → Type 0
  Anything b = Unit

  Returns-current :
      {C : Type 0} (Q : C → Type 0) (f : MultiAgentCoordinator W → Act W C)
      → ((s : MultiAgentCoordinator W) → Returns Q (f s))
      → Returns Q (current >>= f)
  Returns-current Q f k = Triple-current _ _ _ f (λ s u. (k s).at s u)

  Returns-outside :
      {B : Type 0} (Q : B → Type 0) (f : W → B × W)
      → ((w : W) → Q (f w).0)
      → Returns Q (outside env f)
  unfolding outside done
  Returns-outside Q f h = record { at = λ s u. h s.world }

  pub anything : {B : Type 0} (b : B) → Anything b
  unfolding Anything
  anything b = tt

  Anything-outside : {B : Type 0} (f : W → B × W) → Returns Anything (outside env f)
  unfolding outside done Anything
  Anything-outside f = record { at = λ s u. tt }

  Returns-emit :
      (event_type : String) (run : MultiAgentRun) (o : Option MultiAgentNode)
      → Returns Anything (emit env event_type run o)
  unfolding emit Anything
  Returns-emit event_type run o = record { at = λ s u. tt }

  pub Returns-emit_node :
      (Q : MultiAgentNode → Type 0) (run : MultiAgentRun) (node : MultiAgentNode)
      → Q node
      → Returns Q (emit_node env run node)
  unfolding emit_node
  Returns-emit_node Q run node h =
      Returns-bind Anything Q _ _ (Returns-emit _ run (some node)) (λ sent u. Returns-done Q node h)

  module _ (run : MultiAgentRun) (task : MultiAgentTask) (node_id : String) (deadline : ℕ) where
    abbrev ForTask : Act W MultiAgentNode → Type 0
    ForTask = Returns (IsFor node_id task)

    ForTask-current :
        (f : MultiAgentCoordinator W → Act W MultiAgentNode)
        → ((s : MultiAgentCoordinator W) → ForTask (f s))
        → ForTask (current >>= f)
    ForTask-current = Returns-current (IsFor node_id task)

    ForTask-if :
        (b : Bool) (m n : Act W MultiAgentNode)
        → ForTask m
        → ForTask n
        → ForTask (if b then m else n)
    ForTask-if = Triple-if _ _ _

    before_start-IsFor :
        (w : W) → IsFor node_id task (terminal_before_start env node_id task deadline w)
    unfolding cancelled_node timed_out_node node_of
    before_start-IsFor w = ground arith

    run_within-IsFor :
        (dependency : Option String) → ForTask (run_within env run task node_id deadline dependency)
    unfolding run_within timed_out_node node_of
    run_within-IsFor dependency = ForTask-current _ (λ s.
        ForTask-if _ _ _ (Returns-emit_node _ run _ (refl, refl)) (
          Returns-bind Anything _ _ _ (Anything-outside _)
            (λ answer u. ForTask-current _ (λ t. Returns-emit_node _ run _ (refl, refl)))))

    failure : (e : String) → IsFor node_id task (event_failure_node node_id task e)
    unfolding event_failure_node failed_node node_of
    failure e = (refl, refl)

    unless_failed-IsFor :
        (next : Act W MultiAgentNode)
        → ForTask next
        → ForTask (unless_failed env run task node_id next)
    unfolding unless_failed
    unless_failed-IsFor next h = ForTask-current _ (λ s. go (get run.run_id s.event_errors))
      where
        go :
            (o : Option String)
            → ForTask (elim o [ some e ↦ done (event_failure_node node_id task e) | none ↦ next ])
        go (some e) = Returns-done _ _ (failure e)
        go none = h

    run_started-IsFor :
        (dependency : Option String)
        → ForTask (run_started env run task node_id deadline dependency)
    unfolding run_started
    run_started-IsFor dependency =
        Returns-bind Anything _ _ _ (Returns-emit _ run _)
          (λ sent u. unless_failed-IsFor _ (run_within-IsFor dependency))

    within_slot-IsFor :
        (slot : Slot) (body : Act W MultiAgentNode)
        → ForTask body
        → ForTask (within_slot env slot run task node_id deadline body)
    unfolding within_slot
    within_slot-IsFor slot body h = Returns-bind Anything _ _ _ (Anything-outside _) (λ acquired u.
        ForTask-if acquired _ _
          (Returns-bind (IsFor node_id task) _ body _ h (λ node k. Returns-outside _ _ (λ w. k)))
          (ForTask-current _ (λ s. Returns-emit_node _ run _ (before_start-IsFor s.world))))

    pub run_worker-IsFor :
        (dependency : Option String) → ForTask (run_worker env run task node_id deadline dependency)
    unfolding run_worker
    run_worker-IsFor dependency = unless_failed-IsFor _ (
        within_slot-IsFor run_slot _
          (within_slot-IsFor global_slot _ (run_started-IsFor dependency)))
