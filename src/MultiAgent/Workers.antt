-- ===== src/MultiAgent/Workers.antt =====
-- Turning-Good-Agent/multi_agent/coordinator.py, `_run_worker`: one worker within its slots.
pub mod Returns
use Prim.Native.Nat.{min}
use turning_good_agent.Prelude.{
  ℕ, zero, suc, ◌+◌, ◌-◌, String, Bool, true, false, not, ◌&&◌, ◌||◌, Option, none, some, List, [],
  ◌∷◌, ◌++◌, contains, add, leb, nat_beq, ◌==◌, string_eq, if◌then◌else◌,
}
use turning_good_agent.Prelude.Dict.{Dict, get, put}
use turning_good_agent.Prelude.Result.{Result, ok}
use turning_good_agent.Prelude.Action.{Action, done, ◌>>=◌, ◌>>◌, current, modify}
use turning_good_agent.Hooks.{truthy}
use turning_good_agent.MultiAgent.{
  Strategy, Status, running, cancelled, failed, timed_out, MultiAgentTask, WorkerResult,
  MultiAgentNode, MultiAgentRun, is_completed, is_terminal, Key, key_eq,
}
use turning_good_agent.MultiAgent.Nodes.{
  unsuccessful, node_of, cancelled_node, timed_out_node, event_failure_node, running_node,
  WorkerAnswer, worker_result, successful_content, safe_task_label, safe_error,
  normalize_worker_result,
}
use turning_good_agent.MultiAgent.Coordinator.{
  Slot, run_slot, global_slot, Surroundings, MultiAgentCoordinator, Act, outside, stop_requested,
  acquire, await_worker_result, emit, emit_node,
}

module _ {W : Type 0} (env : Surroundings W) where
  -- `_run_worker` inside both slots.
  abbrev pub stop_result : W → WorkerResult × Option String → WorkerResult × Option String
  stop_result w (result, error_code) =
      if stop_requested env w && is_completed result.status
      then (unsuccessful cancelled "用户已停止协作", none)
      else (result, error_code)

  abbrev pub finish_worker :
      MultiAgentRun → MultiAgentTask → String → WorkerAnswer → Act W MultiAgentNode
  finish_worker run task node_id answer = current >>= λ (s : MultiAgentCoordinator W).
      let (result, error_code) = stop_result s.world (
        normalize_worker_result env.sanitize_content env.encoded_length
          env.worker_result_token_limit answer) in
      emit_node env run (node_of node_id task result error_code)

  unfoldable pub run_within :
      MultiAgentRun → MultiAgentTask → String → ℕ → Option String → Act W MultiAgentNode
  run_within run task node_id deadline dependency = current >>= λ (s : MultiAgentCoordinator W).
      let timeout = min env.worker_timeout (deadline - env.time s.world) in
      if nat_beq timeout 0
      then emit_node env run (timed_out_node node_id task)
      else outside env (await_worker_result env run.run_id task node_id dependency timeout)
        >>= finish_worker run task node_id

  -- What follows unless the events of the run have failed.
  unfoldable pub unless_failed :
      MultiAgentRun → MultiAgentTask → String → Act W MultiAgentNode → Act W MultiAgentNode
  unless_failed run task node_id next = current >>= λ (s : MultiAgentCoordinator W).
      elim (get run.run_id s.event_errors) [
        | some event_error ↦ done (event_failure_node node_id task event_error)
        | none ↦ next
      ]

  unfoldable pub run_started :
      MultiAgentRun → MultiAgentTask → String → ℕ → Option String → Act W MultiAgentNode
  run_started run task node_id deadline dependency =
      emit env "multi_agent.node.updated" run (some (running_node node_id task running)) >>= λ sent.
      unless_failed run task node_id (run_within run task node_id deadline dependency)

  abbrev pub terminal_before_start : String → MultiAgentTask → ℕ → W → MultiAgentNode
  terminal_before_start node_id task deadline w =
      if stop_requested env w
      then cancelled_node node_id task "用户已停止协作"
      else if leb deadline (env.time w)
      then timed_out_node node_id task
      else cancelled_node node_id task "Worker 未取得执行槽位"

  -- A slot that is taken for `body` and given back after it.
  unfoldable pub within_slot :
      Slot
      → MultiAgentRun
      → MultiAgentTask
      → String
      → ℕ
      → Act W MultiAgentNode
      → Act W MultiAgentNode
  within_slot slot run task node_id deadline body =
      outside env (acquire env slot deadline) >>= λ acquired.
      if acquired
      then (body >>= λ node. outside env (λ w. (node, env.release slot w)))
      else current >>= λ (s : MultiAgentCoordinator W).
          emit_node env run (terminal_before_start node_id task deadline s.world)

  unfoldable pub run_worker :
      MultiAgentRun → MultiAgentTask → String → ℕ → Option String → Act W MultiAgentNode
  run_worker run task node_id deadline dependency = unless_failed run task node_id (
      within_slot run_slot run task node_id deadline (
        within_slot global_slot run task node_id deadline
          (run_started run task node_id deadline dependency)))
