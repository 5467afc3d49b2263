-- ===== src/MultiAgent/Runs.antt =====
-- Turning-Good-Agent/multi_agent/coordinator.py: a run from its delegation to its end. How the workers
-- of a fan-out interleave is left open: their collection is an argument of `delegate`.
use turning_good_agent.Prelude.{
  ℕ, suc, ◌+◌, String, Bool, true, false, not, ◌&&◌, ◌||◌, Option, none, some, List, [], ◌∷◌, keep,
  leb, string_eq, if◌then◌else◌,
}
use turning_good_agent.Prelude.Dict.{get, put}
use turning_good_agent.Prelude.Action.{done, throw, ◌>>=◌, ◌>>◌, current, modify}
use turning_good_agent.MultiAgent.{
  Strategy, fan_out_fan_in, pipeline, Status, queued, running, waiting, completed, failed,
  timed_out, cancelled, MultiAgentTask, MultiAgentRequest, MultiAgentNode, MultiAgentRun,
  is_completed, Key, key_eq,
}
use turning_good_agent.MultiAgent.Nodes.{
  result_context_exceeded_code, result_context_exceeded_error, running_node, first_error,
  first_error_code, is_over_budget,
}
use turning_good_agent.MultiAgent.Coordinator.{
  Surroundings, MultiAgentCoordinator, Act, stop_requested, emit, emit_node,
}
use turning_good_agent.MultiAgent.Stages.{node_name, run_sequential}

-- The type of the event of a run's status.
abbrev pub run_event : Status → String
run_event completed = "multi_agent.run.completed"
run_event cancelled = "multi_agent.run.cancelled"
run_event queued = "multi_agent.run.started"
run_event running = "multi_agent.run.started"
run_event waiting = "multi_agent.run.started"
run_event _ = "multi_agent.run.failed"

abbrev pub finish_run : MultiAgentRun → Status → Option String → MultiAgentRun
finish_run run status error = record run { status = status; error = error }

-- What a delegation is given of its parent's turn.
pub record DelegateParentTurn : Type 0 where
  pub session_id : String
  pub request_id : String
  pub initial_context_tokens : ℕ

module _ {W : Type 0} (env : Surroundings W) where
  abbrev pub remember : Key → MultiAgentRun → MultiAgentCoordinator W → MultiAgentCoordinator W
  remember key run s = record s { runs_by_request = put key run s.runs_by_request }

  unfoldable pub finish_event_failure : Key → MultiAgentRun → Act W MultiAgentRun
  finish_event_failure key run = current >>= λ (s : MultiAgentCoordinator W).
      let error : String = elim (get run.run_id s.event_errors) [
        | some event_error ↦ event_error
        | none ↦ "Multi-Agent 事件持久化失败"
      ] in
      let failed_run =
        finish_run (record run { error_code = some "event_persistence_failed" }) failed
          (some error) in
      modify (remember key failed_run)
      >> (emit env "multi_agent.run.failed" failed_run none >>= λ sent. done failed_run)

  -- The rest of `delegate`, unless an event has failed.
  abbrev pub if_recorded : Key → MultiAgentRun → Act W MultiAgentRun → Act W MultiAgentRun
  if_recorded key run next = current >>= λ (s : MultiAgentCoordinator W).
      elim (get run.run_id s.event_errors) [
        | some event_error ↦ finish_event_failure key run
        | none ↦ next
      ]

  abbrev pub if_sent : Key → MultiAgentRun → Bool → Act W MultiAgentRun → Act W MultiAgentRun
  if_sent key run true next = next
  if_sent key run false next = finish_event_failure key run

  abbrev pub end_delegation : Key → MultiAgentRun → Act W MultiAgentRun
  end_delegation key run =
      modify (remember key run)
      >> (emit env (run_event run.status) run none >>= λ sent. if_sent key run sent (done run))

  abbrev pub has_failed : MultiAgentNode → Bool
  has_failed node = not (is_completed node.status)

  abbrev pub is_fan_out : Strategy → Bool
  is_fan_out fan_out_fan_in = true
  is_fan_out pipeline = false

  abbrev pub some_or : Option String → Option String → Option String
  some_or (some a) b = some a
  some_or none b = b

  abbrev pub is_nonempty : {X : Type 0} → List X → Bool
  is_nonempty [] = false
  is_nonempty (x ∷ l) = true

  -- The status of a run once its workers are collected; none where its parent goes on with it.
  unfoldable pub outcome_of : DelegateParentTurn → ℕ → MultiAgentRun → W → Option MultiAgentRun
  outcome_of parent deadline run w =
      let over =
        is_over_budget env.encoded_length env.parent_result_token_limit env.max_context_tokens
          parent.initial_context_tokens run.nodes in
      let coded = if over then some result_context_exceeded_code else run.error_code in
      if stop_requested env w
      then some (finish_run (record run { error_code = coded }) cancelled (some "用户已停止协作"))
      else if leb deadline (env.time w)
      then some
          (finish_run (record run { error_code = coded }) timed_out (some "Multi-Agent Run 已超时"))
      else if over
      then some (
          finish_run (record run { error_code = coded }) failed
            (some result_context_exceeded_error))
      else if not (is_nonempty (keep (λ (n : MultiAgentNode). is_completed n.status) run.nodes))
          || (not (is_fan_out run.strategy) && is_nonempty (keep has_failed run.nodes))
      then some (
          finish_run
            (record run { error_code = some_or (first_error_code run.nodes) run.error_code }) failed
            (some (first_error run.nodes)))
      else none

  abbrev pub settle_run : Key → MultiAgentRun → Option MultiAgentRun → Act W MultiAgentRun
  settle_run key run (some ended) = end_delegation key ended
  settle_run key run none = modify (remember key run) >> done run

  unfoldable pub collected : DelegateParentTurn → Key → ℕ → MultiAgentRun → Act W MultiAgentRun
  collected parent key deadline run = if_recorded key run (
      current >>= λ (s : MultiAgentCoordinator W).
      settle_run key run (outcome_of parent deadline run s.world))

  unfoldable pub emit_nodes : MultiAgentRun → List MultiAgentNode → Act W (Unit {0})
  emit_nodes run [] = done tt
  emit_nodes run (node ∷ nodes) = emit_node env run node >>= λ sent. emit_nodes run nodes

  abbrev pub queued_nodes : ℕ → List MultiAgentTask → List MultiAgentNode
  queued_nodes index [] = []
  queued_nodes index (task ∷ tasks) =
      running_node (node_name index) task queued ∷ queued_nodes (suc index) tasks

  -- How the workers of a run are collected.
  abbrev pub Collect : Type 0
  Collect = MultiAgentRun → ℕ → List MultiAgentTask → Act W (List MultiAgentNode)

  abbrev pub collect_by : Strategy → Collect → Collect
  collect_by fan_out_fan_in run_fanout = run_fanout
  collect_by pipeline run_fanout = run_sequential env

  unfoldable pub start_run :
      Collect
      → MultiAgentRequest
      → DelegateParentTurn
      → Key
      → ℕ
      → MultiAgentRun
      → Act W MultiAgentRun
  start_run run_fanout request parent key deadline run =
      let started = record run { status = running } in
      modify (remember key started)
      >> (emit env (run_event running) started none >>= λ sent. if_recorded key started (
          collect_by request.strategy run_fanout started deadline request.tasks >>= λ nodes.
          collected parent key deadline (record started { nodes = nodes })))

  abbrev pub open_run : Key → ℕ → MultiAgentRun → MultiAgentCoordinator W → MultiAgentCoordinator W
  open_run key deadline run s = record s {
    runs_by_request = put key run s.runs_by_request;
    run_keys = put run.run_id key s.run_keys;
    run_deadlines = put run.run_id deadline s.run_deadlines;
  }

  abbrev pub new_run : MultiAgentRequest → DelegateParentTurn → W → MultiAgentRun
  new_run request parent w = record {
    run_id = env.new_run_id w;
    parent_session_id = parent.session_id;
    parent_request_id = parent.request_id;
    strategy = request.strategy;
    status = queued;
    nodes = queued_nodes 1 request.tasks;
    error = none;
    error_code = none;
  }

  abbrev pub begin :
      Collect → MultiAgentRequest → DelegateParentTurn → ℕ → MultiAgentRun → Act W MultiAgentRun
  begin run_fanout request parent deadline run =
      let key : Key = (parent.session_id, parent.request_id) in
      modify (open_run key deadline run)
      >> (emit env (run_event queued) run none >>= λ sent. if_recorded key run (
          emit_nodes run run.nodes
          >> if_recorded key run (start_run run_fanout request parent key deadline run)))

  unfoldable pub delegate : Collect → MultiAgentRequest → DelegateParentTurn → Act W MultiAgentRun
  delegate run_fanout request parent = current >>= λ (s : MultiAgentCoordinator W).
      elim (get (parent.session_id, parent.request_id) s.runs_by_request) [
        | some run ↦ throw "每个父请求只能创建一次 Multi-Agent Run"
        | none ↦
            begin run_fanout request parent (env.time s.world + env.run_timeout)
              (new_run request parent s.world)
      ]
