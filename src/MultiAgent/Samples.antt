-- ===== src/MultiAgent/Samples.antt =====
-- The theorems on delegations at a pipeline of two workers, the first of which fails.
use turning_good_agent.Prelude.{
  ◌≡◌, refl, ℕ, suc, ◌≤◌, String, true, false, Option, none, some, List, [], ◌∷◌,
}
use turning_good_agent.Prelude.Result.{ok, OnOk}
use turning_good_agent.Prelude.Action.{After}
use turning_good_agent.MultiAgent.{
  pipeline, running, completed, failed, MultiAgentTask, MultiAgentNode, MultiAgentRun,
}
use turning_good_agent.MultiAgent.Requests.{
  Value, text_value, list_value, object_value, no_values, next_value, no_fields, next_field,
  IsRequest, validate_delegate_request,
}
use turning_good_agent.MultiAgent.Requests.Valid.{validate_delegate-IsRequest}
use turning_good_agent.MultiAgent.Nodes.{worker_result, unsuccessful}
use turning_good_agent.MultiAgent.Coordinator.{returned, Surroundings, new_coordinator}
use turning_good_agent.MultiAgent.Stages.{run_sequential}
use turning_good_agent.MultiAgent.Pipeline.{AreStages, run_sequential-AreStages}
use turning_good_agent.MultiAgent.Runs.{DelegateParentTurn, Collect}
use turning_good_agent.MultiAgent.Invocation.{new_invocation}
use turning_good_agent.MultiAgent.Invocation.Once.{
  invoke_all, delegate_first, invoke_all-delegate_first,
}
use turning_good_agent.MultiAgent.Events.{ends_node, ends_run, sent_count, emit_all, emit_all-once}

-- The state is the time.
abbrev surroundings : Surroundings ℕ
surroundings = record {
  time = λ w. w;
  is_stop_requested = λ w. some false;
  new_run_id = λ w. "run";
  wait_acquire = λ slot remaining w. (some tt, suc w);
  release = λ slot w. w;
  start_worker = λ task dependency run_id node_id w. w;
  wait_worker = λ node_id remaining w.
      (some (returned (worker_result (unsuccessful failed "broken"))), suc w);
  cancel_worker = λ node_id w. w;
  release_run = λ run_id w. w;
  event_sink = some (λ payload w. (true, suc w));
  sanitize_content = λ text. text;
  encoded_length = λ text. 1;
  is_alnum = λ c. true;
  run_timeout = 100;
  worker_timeout = 50;
  worker_result_token_limit = 10;
  parent_result_token_limit = 20;
  max_context_tokens = 30;
}

abbrev tasks : List MultiAgentTask
tasks =
    record { role = "reader"; brief = "read" } ∷ record { role = "writer"; brief = "write" } ∷ []

abbrev run : MultiAgentRun
run = record {
  run_id = "run";
  parent_session_id = "s";
  parent_request_id = "r";
  strategy = pipeline;
  status = running;
  nodes = [];
  error = none;
  error_code = none;
}

run_sequential-AreStages_example :
    After
      (λ nodes t. AreStages 1 tasks false nodes)
      (λ t. ⊥)
      (run_sequential surroundings run 100 tasks (new_coordinator 0))
run_sequential-AreStages_example =
    run_sequential-AreStages surroundings run 100 tasks (new_coordinator 0)

abbrev node : MultiAgentNode
node = record {
  node_id = "worker-1";
  role = "reader";
  status = completed;
  result = none;
  error = none;
  error_code = none;
}

abbrev events : List (String × MultiAgentRun × Option MultiAgentNode)
events =
    ("multi_agent.node.updated", run, some node)
    ∷ ("multi_agent.node.updated", run, some node)
    ∷ ("multi_agent.run.started", run, none)
    ∷ []

emit_all-once_example :
    (sent_count
        (ends_node ("run", "worker-1"))
        (emit_all surroundings events (new_coordinator 0)).sent
      ≤ 1)
    × (sent_count (ends_run "run") (emit_all surroundings events (new_coordinator 0)).sent ≤ 1)
emit_all-once_example = emit_all-once surroundings 0 events ("run", "worker-1")

abbrev task_value : String → Value
task_value role =
    object_value
      (next_field "role" (text_value role) (next_field "brief" (text_value "read") no_fields))

abbrev payload : Value
payload = object_value (
    next_field "strategy" (text_value "pipeline") (
      next_field "tasks"
        (list_value (next_value (task_value "reader") (next_value (task_value "writer") no_values)))
        no_fields))

validate_delegate-IsRequest_example : OnOk (IsRequest 4) (validate_delegate_request payload 4)
validate_delegate-IsRequest_example = validate_delegate-IsRequest 4 payload

abbrev parent : DelegateParentTurn
parent = record { session_id = "s"; request_id = "r"; initial_context_tokens = 5 }

abbrev collected_by_none : Collect surroundings
collected_by_none r deadline given s = (ok [], s)

-- A call that is no object, a valid one, and a second one.
abbrev calls : List Value
calls = text_value "x" ∷ payload ∷ payload ∷ []

invoke_all-delegate_first_example :
    invoke_all surroundings collected_by_none parent 4 calls (new_invocation (new_coordinator 0))
    ≡ delegate_first surroundings collected_by_none parent 4 calls
        (new_invocation (new_coordinator 0))
invoke_all-delegate_first_example =
    invoke_all-delegate_first surroundings collected_by_none parent 4 calls
      (new_invocation (new_coordinator 0)) refl
