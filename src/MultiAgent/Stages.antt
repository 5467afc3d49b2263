-- ===== src/MultiAgent/Stages.antt =====
-- Turning-Good-Agent/multi_agent/coordinator.py, `_run_sequential`: a pipeline of workers.
use turning_good_agent.Prelude.{
  ℕ, suc, String, Bool, true, false, Option, none, some, List, [], ◌∷◌, string_eq,
}
use turning_good_agent.Prelude.Text.{append_text, show}
use turning_good_agent.Prelude.Action.{done, ◌>>=◌}
use turning_good_agent.MultiAgent.{MultiAgentTask, MultiAgentNode, MultiAgentRun, key_eq}
use turning_good_agent.MultiAgent.Nodes.{
  result_context_exceeded_code, result_context_exceeded_error, cancelled_node, failed_node,
  successful_content, build_dependency,
}
use turning_good_agent.MultiAgent.Coordinator.{Surroundings, Act, emit_node}
use turning_good_agent.MultiAgent.Workers.{run_worker}

abbrev pub node_name : ℕ → String
node_name index = append_text "worker-" (show index)

module _ {W : Type 0} (env : Surroundings W) where
  -- The rest of a pipeline: the content for the next worker, `blocked` and `skip_next`.
  abbrev pub Rest : Type 0
  Rest = Option String → Bool → Bool → Act W (List MultiAgentNode)

  abbrev pub then_rest : MultiAgentNode → Act W (List MultiAgentNode) → Act W (List MultiAgentNode)
  then_rest node rest = rest >>= λ nodes. done (node ∷ nodes)

  -- A worker that has completed, before the next one.
  unfoldable pub hand_over :
      MultiAgentRun
      → ℕ
      → MultiAgentNode
      → List MultiAgentTask
      → String
      → Rest
      → Act W (List MultiAgentNode)
  hand_over run index node [] content rest = then_rest node (rest none false false)
  hand_over run index node (next ∷ tasks) content rest =
      elim (build_dependency env.encoded_length content) [
        | some dependency ↦ then_rest node (rest (some dependency) false false)
        | none ↦
            (let failed =
                failed_node (node_name (suc index)) next result_context_exceeded_error
                  result_context_exceeded_code in
              emit_node env run failed >>= λ sent.
              then_rest node (then_rest failed (rest none true true)))
      ]

  unfoldable pub after_worker :
      MultiAgentRun → ℕ → List MultiAgentTask → Rest → MultiAgentNode → Act W (List MultiAgentNode)
  after_worker run index tasks rest node = elim (successful_content node) [
    | none ↦ then_rest node (rest none true false)
    | some content ↦ hand_over run index node tasks content rest
  ]

  -- The `for` loop of `_run_sequential`, from a worker's index on.
  unfoldable pub run_from : MultiAgentRun → ℕ → ℕ → List MultiAgentTask → Rest
  run_from run deadline index [] dependency blocked skip_next = done []
  run_from run deadline index (task ∷ tasks) dependency blocked true =
      run_from run deadline (suc index) tasks dependency blocked false
  run_from run deadline index (task ∷ tasks) dependency true false =
      emit_node env run (cancelled_node (node_name index) task "前序 Worker 未成功") >>= λ node.
      then_rest node (run_from run deadline (suc index) tasks dependency true false)
  run_from run deadline index (task ∷ tasks) dependency false false =
      run_worker env run task (node_name index) deadline dependency
      >>= after_worker run index tasks (run_from run deadline (suc index) tasks)

  unfoldable pub run_sequential :
      MultiAgentRun → ℕ → List MultiAgentTask → Act W (List MultiAgentNode)
  run_sequential run deadline tasks = run_from run deadline 1 tasks none false false
