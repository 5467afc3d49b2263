-- ===== src/MultiAgent/Endings.antt =====
-- Turning-Good-Agent/multi_agent/coordinator.py: what the parent's turn asks of a run that its
-- workers are done with.
use turning_good_agent.Prelude.{
  ℕ, String, Bool, true, false, not, ◌&&◌, ◌||◌, Option, none, some, keep, discard, leb, ◌==◌,
  string_eq, if◌then◌else◌,
}
use turning_good_agent.Prelude.Text.{append_text}
use turning_good_agent.Prelude.Dict.{get, remove}
use turning_good_agent.Prelude.Action.{done, throw, ◌>>=◌, ◌>>◌, current, modify}
use turning_good_agent.MultiAgent.{
  Status, running, waiting, completed, failed, timed_out, cancelled, MultiAgentRun, is_terminal,
  Key, key_eq,
}
use turning_good_agent.MultiAgent.Nodes.{
  result_context_exceeded_code, result_context_exceeded_error,
}
use turning_good_agent.MultiAgent.Coordinator.{Surroundings, MultiAgentCoordinator, Act, emit}
use turning_good_agent.MultiAgent.Runs.{run_event, finish_run, remember, finish_event_failure}

module _ {W : Type 0} (env : Surroundings W) where
  -- What a finished run still holds is forgotten; the key is that of the run.
  unfoldable pub release_run_runtime_state :
      String → MultiAgentCoordinator W → MultiAgentCoordinator W
  release_run_runtime_state run_id s = record s {
    runs_by_request = elim (get run_id s.run_keys) [
      | some key ↦ remove key s.runs_by_request
      | none ↦ s.runs_by_request
    ];
    run_keys = remove run_id s.run_keys;
    run_deadlines = remove run_id s.run_deadlines;
    event_errors = remove run_id s.event_errors;
    terminal_runs = discard run_id s.terminal_runs;
    terminal_nodes = keep (λ (key : Key). not (key.0 == run_id)) s.terminal_nodes;
    world = env.release_run run_id s.world;
  }

  abbrev pub is_past : Option ℕ → W → Bool
  is_past none w = false
  is_past (some deadline) w = leb deadline (env.time w)

  -- The status and the error of an outcome of the parent's turn.
  abbrev pub outcome_status : String → Option (Status × Option String)
  outcome_status outcome =
      if outcome == "completed"
      then some (completed, none)
      else if outcome == "failed"
      then some (failed, some "父 Agent synthesis 失败")
      else if outcome == "cancelled"
      then some (cancelled, some "用户已停止协作")
      else if outcome == "timed_out"
      then some (timed_out, some "Multi-Agent Run 已超时")
      else none

  abbrev pub if_delivered : Key → MultiAgentRun → Bool → Act W MultiAgentRun
  if_delivered key final true = modify (release_run_runtime_state final.run_id) >> done final
  if_delivered key final false = finish_event_failure env key final

  abbrev pub finalize_as :
      Key → MultiAgentRun → Option (Status × Option String) → Act W MultiAgentRun
  finalize_as key run none = throw "不支持的父 Run 收口结果"
  finalize_as key run (some (status, error)) =
      modify (remember env key (finish_run run status error))
      >> (emit env (run_event status) (finish_run run status error) none
          >>= if_delivered key (finish_run run status error))

  unfoldable pub finalize_run : Key → String → MultiAgentRun → Act W MultiAgentRun
  finalize_run key outcome run = current >>= λ (s : MultiAgentCoordinator W).
      let late = outcome == "completed" && is_past (get run.run_id s.run_deadlines) s.world in
      if is_terminal run.status
      then modify (release_run_runtime_state run.run_id) >> done run
      else finalize_as key run (outcome_status (if late then "timed_out" else outcome))

  -- The run under a key, which `open_run` puts there with the key.
  abbrev pub with_run :
      {B : Type 0}
      → Option Key
      → B
      → (Key → MultiAgentRun → Act W B)
      → MultiAgentCoordinator W
      → Act W B
  with_run none missing next s = done missing
  with_run (some key) missing next s = elim (get key s.runs_by_request) [
    | none ↦ throw "KeyError"
    | some run ↦ next key run
  ]

  unfoldable pub finalize : String → String → Act W MultiAgentRun
  finalize run_id outcome = current >>= λ (s : MultiAgentCoordinator W).
      elim (get run_id s.run_keys) [
        | none ↦ throw "未知 Multi-Agent Run"
        | some key ↦ elim (get key s.runs_by_request) [
          | none ↦ throw "KeyError"
          | some run ↦ finalize_run key outcome run
        ]
      ]

  abbrev pub is_waiting : Status → Bool
  is_waiting waiting = true
  is_waiting _ = false

  abbrev pub is_running : Status → Bool
  is_running running = true
  is_running _ = false

  abbrev pub project_waiting : Bool → Key → MultiAgentRun → Act W (Option MultiAgentRun)
  project_waiting is_wait key run =
      let status = if is_wait then waiting else running in
      if is_terminal run.status
        || (if is_wait then is_waiting run.status else is_running run.status)
      then done (some run)
      else modify (remember env key (record run { status = status }))
        >> (emit env (run_event status) (record run { status = status }) none >>= λ sent.
            done (some (record run { status = status })))

  unfoldable pub set_waiting : String → Bool → Act W (Option MultiAgentRun)
  set_waiting run_id is_wait = current >>= λ (s : MultiAgentCoordinator W).
      with_run (get run_id s.run_keys) none (project_waiting is_wait) s

  abbrev pub check_context : ℕ → Key → MultiAgentRun → Act W (Option String)
  check_context context_tokens key run =
      let failed_run =
        finish_run (record run { error_code = some result_context_exceeded_code }) failed
          (some result_context_exceeded_error) in
      if is_terminal run.status || leb context_tokens env.max_context_tokens
      then done none
      else modify (remember env key failed_run)
        >> (emit env "multi_agent.run.failed" failed_run none >>= λ sent.
            done (some (append_text "Multi-Agent 协作失败：" result_context_exceeded_error)))

  -- The tokens of the parent's messages and schemas are given.
  unfoldable pub check_parent_context : String → ℕ → Act W (Option String)
  check_parent_context run_id context_tokens = current >>= λ (s : MultiAgentCoordinator W).
      with_run (get run_id s.run_keys) none (check_context context_tokens) s

  abbrev pub run_for : String → String → MultiAgentCoordinator W → Option MultiAgentRun
  run_for session_id request_id s = get (session_id, request_id) s.runs_by_request

  abbrev pub deadline_for : String → MultiAgentCoordinator W → Option ℕ
  deadline_for run_id s = get run_id s.run_deadlines
