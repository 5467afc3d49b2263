-- ===== src/MultiAgent/Invocation.antt =====
-- Turning-Good-Agent/multi_agent/delegate_tool.py: `DelegateMultiAgentInvocation`, the one delegation
-- of a parent's turn, on top of the coordinator. The JSON text of a result and the tokens of the
-- parent's messages and schemas are parameters. Of the adapter that is put around the parent's
-- channel, the approval of a tool is modelled.
pub mod Once
use turning_good_agent.Prelude.{
  ℕ, String, Bool, true, false, not, ◌&&◌, ◌||◌, Option, none, some, List, [], ◌∷◌, any, ◌==◌,
  string_eq, if◌then◌else◌,
}
use turning_good_agent.Prelude.Text.{append_text}
use turning_good_agent.Prelude.Result.{Result, ok, raise}
use turning_good_agent.Prelude.Action.{Action, and_then, done, throw, ◌>>=◌, ◌>>◌, current, modify}
use turning_good_agent.Hooks.{truthy}
use turning_good_agent.MultiAgent.{
  Strategy, fan_out_fan_in, pipeline, Status, completed, failed, timed_out, cancelled, interrupted,
  MultiAgentRequest, MultiAgentNode, MultiAgentRun, is_completed, is_terminal,
}
use turning_good_agent.MultiAgent.Requests.{Value, validate_delegate_request}
use turning_good_agent.MultiAgent.Nodes.{content_of}
use turning_good_agent.MultiAgent.Coordinator.{Surroundings, MultiAgentCoordinator, Act}
use turning_good_agent.MultiAgent.Runs.{DelegateParentTurn, Collect, is_fan_out, delegate}
use turning_good_agent.MultiAgent.Endings.{
  finalize, set_waiting, check_parent_context, run_for, deadline_for,
}

pub record CompletedNode : Type 0 where
  pub node_id : String
  pub role : String
  pub content : Option String

pub record FailedNode : Type 0 where
  pub node_id : String
  pub status : Status
  pub error_code : Option String
  pub error : Option String

-- The fields of a result for the parent.
pub data DelegateResult : Type 0 where
  refused_result : String → String → DelegateResult
  run_result : MultiAgentRun → Bool → List CompletedNode → List FailedNode → DelegateResult

-- The invocation, with the coordinator it shares.
pub record Invocation (W : Type 0) : Type 0 where
  pub coordinator : MultiAgentCoordinator W
  pub accepted : Bool
  pub run_id : Option String
  pub schema_visible : Bool
  pub finished : Bool

abbrev pub new_invocation : {W : Type 0} → MultiAgentCoordinator W → Invocation W
new_invocation coordinator = record {
  coordinator = coordinator;
  accepted = false;
  run_id = none;
  schema_visible = true;
  finished = false;
}

-- The statuses of a run that has ended without success.
abbrev pub has_ended_badly : Status → Bool
has_ended_badly status = is_terminal status && not (is_completed status)

abbrev pub terminal_content : MultiAgentRun → String
terminal_content run =
    append_text "Multi-Agent 协作失败："
      (elim (truthy run.error) [ some error ↦ error | none ↦ "Worker 未能完成" ])

-- `_terminal_content`
unfoldable pub terminal_text : MultiAgentRun → Status → String
terminal_text run timed_out = "Multi-Agent 协作已超时。"
terminal_text run cancelled = "Multi-Agent 协作已停止。"
terminal_text run interrupted = "Multi-Agent 协作已中断，请重新提交任务。"
terminal_text run _ = terminal_content run

abbrev pub has_result : MultiAgentNode → Bool
has_result node = elim node.result [ none ↦ false | some result ↦ is_completed node.status ]

unfoldable pub completed_nodes : List MultiAgentNode → List CompletedNode
completed_nodes [] = []
completed_nodes (node ∷ nodes) =
    let rest = completed_nodes nodes in
    if has_result node
    then record { node_id = node.node_id; role = node.role; content = content_of node } ∷ rest
    else rest

unfoldable pub failed_nodes : List MultiAgentNode → List FailedNode
failed_nodes [] = []
failed_nodes (node ∷ nodes) =
    let rest = failed_nodes nodes in
    if is_completed node.status
    then rest
    else record {
      node_id = node.node_id;
      status = node.status;
      error_code = node.error_code;
      error = node.error;
    }
      ∷ rest

-- `_run_content`
unfoldable pub run_content : MultiAgentRun → DelegateResult
unfolding completed_nodes failed_nodes
run_content run =
    run_result run
      (is_fan_out_run
        && any (λ (n : MultiAgentNode). is_completed n.status) run.nodes
        && any (λ (n : MultiAgentNode). not (is_completed n.status)) run.nodes)
      (if has_ended_badly run.status then [] else completed_nodes run.nodes)
      (failed_nodes run.nodes)
  where
    is_fan_out_run : Bool
    is_fan_out_run = elim run.strategy [ fan_out_fan_in ↦ true | pipeline ↦ false ]

abbrev pub duplicate_result : DelegateResult
duplicate_result = refused_result "duplicate_delegate" "每个父请求只能受理一次 delegate_multi_agent 调用。"

abbrev pub invalid_result : String → DelegateResult
invalid_result text = refused_result "invalid_delegate_request" (append_text "委派请求无效：" text)

abbrev pub runtime_error_result : DelegateResult
runtime_error_result = refused_result "multi_agent_runtime_error" "Multi-Agent 协作失败：运行时未能建立协作状态。"

abbrev pub id_of : Option MultiAgentRun → Option String → Option String
id_of none run_id = run_id
id_of (some run) run_id = some run.run_id

module _ {W : Type 0} (env : Surroundings W) (run_fanout : Collect env)
    (parent : DelegateParentTurn) (max_workers_per_run : ℕ) where
  abbrev pub Step : Type 0 → Type 0
  Step = Action (Invocation W) String

  abbrev pub within :
      {B : Type 0}
      → Invocation W
      → Result String B × MultiAgentCoordinator W
      → Result String B × Invocation W
  within i r = (r.0, record i { coordinator = r.1 })

  -- A call of the coordinator.
  unfoldable pub coordinate : {B : Type 0} → Act W B → Step B
  coordinate m i = within i (m i.coordinator)

  -- What `delegate` returns or raises, as the parent sees it.
  unfoldable pub after_delegate :
      Result String MultiAgentRun × Invocation W → Result String DelegateResult × Invocation W
  after_delegate (ok run, i) = (ok (run_content run), record i { run_id = some run.run_id })
  after_delegate (raise e, i) = (
    ok runtime_error_result,
    record i {
      run_id = id_of (run_for env parent.session_id parent.request_id i.coordinator) i.run_id;
    },
  )

  unfoldable pub accept : MultiAgentRequest → Step DelegateResult
  accept request i = after_delegate (
      coordinate (delegate env run_fanout request parent)
        (record i { accepted = true; schema_visible = false }))

  abbrev pub accept_checked : Result String MultiAgentRequest → Step DelegateResult
  accept_checked (ok request) = accept request
  accept_checked (raise text) = done (invalid_result text)

  unfoldable pub invoke : Value → Step DelegateResult
  invoke args = current >>= λ (i : Invocation W).
      if i.accepted
      then done duplicate_result
      else accept_checked (validate_delegate_request args max_workers_per_run)

  abbrev pub check_run : String → ℕ → Option MultiAgentRun → Step (Option String)
  check_run run_id context_tokens none = coordinate (check_parent_context env run_id context_tokens)
  check_run run_id context_tokens (some run) =
      if has_ended_badly run.status
      then done (some (terminal_text run run.status))
      else coordinate (check_parent_context env run_id context_tokens)

  unfoldable pub check_parent_synthesis : ℕ → Step (Option String)
  check_parent_synthesis context_tokens = current >>= λ (i : Invocation W). elim i.run_id [
    | none ↦ done none
    | some run_id ↦
        check_run run_id context_tokens
          (run_for env parent.session_id parent.request_id i.coordinator)
  ]

  -- `except ValueError`: every error of `finalize` but a missing key is one.
  abbrev pub ignore_value_error :
      Result String MultiAgentRun × Invocation W → Result String (Unit {0}) × Invocation W
  ignore_value_error (ok run, i) = (ok tt, i)
  ignore_value_error (raise e, i) = (if e == "KeyError" then raise e else ok tt, i)

  abbrev pub finish_run_id : String → Option String → Step (Unit {0})
  finish_run_id outcome none = done tt
  finish_run_id outcome (some run_id) = λ i.
      ignore_value_error (coordinate (finalize env run_id outcome) (record i { finished = true }))

  unfoldable pub finish_parent_turn : String → Step (Unit {0})
  finish_parent_turn outcome = current >>= λ (i : Invocation W).
      if i.finished then done tt else finish_run_id outcome i.run_id

  unfoldable pub deadline_monotonic : Invocation W → Option ℕ
  deadline_monotonic i = elim i.run_id [
    | none ↦ none
    | some run_id ↦ deadline_for env run_id i.coordinator
  ]

  unfoldable pub project_waiting_run : Bool → Step (Unit {0})
  project_waiting_run is_wait = current >>= λ (i : Invocation W). elim i.run_id [
    | none ↦ done tt
    | some run_id ↦ coordinate (set_waiting env run_id is_wait) >>= λ run. done tt
  ]

  -- The approval of a tool, in a run that waits meanwhile; `finally` puts it back.
  unfoldable pub request_tool_approval : {B : Type 0} → Step B → Step B
  request_tool_approval ask = project_waiting_run true >> λ i. and_finally (ask i)
    where
      and_finally : {B : Type 0} → Result String B × Invocation W → Result String B × Invocation W
      and_finally (ok b, j) = (project_waiting_run false >> done b) j
      and_finally (raise e, j) = (project_waiting_run false >> throw e) j
