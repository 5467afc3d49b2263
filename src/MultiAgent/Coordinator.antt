-- ===== src/MultiAgent/Coordinator.antt =====
-- Turning-Good-Agent/multi_agent/coordinator.py: the coordinator's state, its events and the run of
-- one worker. `W` is the state of everything else: the clock, the semaphores, the workers and the
-- store of events; a step there may answer as it likes. A cancellation of the parent's own task is
-- not modelled, so what the code does in `finally` comes last. `sent` notes the events that the sink
-- has taken, which the code does not keep. Waiting polls: `poll` is given as many polls as there are
-- units of time until the deadline, one more than a clock that advances at every poll can need.
pub mod Polls
use Prim.Native.Nat.{min}
use turning_good_agent.Prelude.{
  ℕ, zero, suc, ◌+◌, ◌-◌, String, Bool, true, false, not, ◌&&◌, ◌||◌, Option, none, some, List, [],
  ◌∷◌, ◌++◌, contains, add, leb, nat_beq, ◌==◌, string_eq, if◌then◌else◌,
}
use turning_good_agent.Prelude.Dict.{Dict, get, put}
use turning_good_agent.Prelude.Result.{Result, ok}
use turning_good_agent.Prelude.Action.{Action, done, ◌>>=◌, ◌>>◌, current, modify}
use turning_good_agent.Hooks.{truthy}
use turning_good_agent.MultiAgent.{
  Strategy, Status, running, cancelled, failed, timed_out, MultiAgentTask, WorkerResult,
  MultiAgentNode, MultiAgentRun, is_completed, is_terminal, Key, key_eq,
}
use turning_good_agent.MultiAgent.Nodes.{
  unsuccessful, node_of, cancelled_node, timed_out_node, event_failure_node, running_node,
  WorkerAnswer, worker_result, successful_content, safe_task_label, safe_error,
  normalize_worker_result,
}

pub record MultiAgentEventPayload : Type 0 where
  pub event_type : String
  pub run_id : String
  pub node_id : Option String
  pub task_label : String
  pub strategy : Strategy
  pub status : Status
  pub error_code : Option String
  pub error : Option String
  pub content : Option String

pub data Slot : Type 0 where
  run_slot global_slot : Slot

-- How a worker's task ends.
pub data Ending : Type 0 where
  returned : WorkerAnswer → Ending
  task_cancelled task_raised : Ending

pub data Polled (B : Type 0) : Type 0 where
  stopped expired : Polled B
  got : B → Polled B

-- The parent's stop flag, none where reading it raises, is one of the functions on `W`.
pub record Surroundings (W : Type 0) : Type 0 where
  pub time : W → ℕ
  pub is_stop_requested : W → Option Bool
  pub new_run_id : W → String
  pub wait_acquire : Slot → ℕ → W → Option (Unit {0}) × W
  pub release : Slot → W → W
  pub start_worker : MultiAgentTask → Option String → String → String → W → W
  pub wait_worker : String → ℕ → W → Option Ending × W
  pub cancel_worker : String → W → W
  pub release_run : String → W → W
  pub event_sink : Option (MultiAgentEventPayload → W → Bool × W)
  pub sanitize_content : String → String
  pub encoded_length : String → ℕ
  pub is_alnum : ℕ → Bool
  pub run_timeout : ℕ
  pub worker_timeout : ℕ
  pub worker_result_token_limit : ℕ
  pub parent_result_token_limit : ℕ
  pub max_context_tokens : ℕ

pub record MultiAgentCoordinator (W : Type 0) : Type 0 where
  pub runs_by_request : Dict Key MultiAgentRun
  pub run_keys : Dict String Key
  pub run_deadlines : Dict String ℕ
  pub event_errors : Dict String String
  pub terminal_nodes : List Key
  pub terminal_runs : List String
  pub world : W
  pub sent : List MultiAgentEventPayload

abbrev pub Act : Type 0 → Type 0 → Type 0
Act W = Action (MultiAgentCoordinator W) String

abbrev pub new_coordinator : {W : Type 0} → W → MultiAgentCoordinator W
new_coordinator w = record {
  runs_by_request = [];
  run_keys = [];
  run_deadlines = [];
  event_errors = [];
  terminal_nodes = [];
  terminal_runs = [];
  world = w;
  sent = [];
}

module _ {W : Type 0} (env : Surroundings W) where
  -- A call that changes the rest of the world.
  unfoldable pub outside : {B : Type 0} → (W → B × W) → Act W B
  outside f s = done (f s.world).0 (record s { world = (f s.world).1 })

  abbrev pub stop_requested : W → Bool
  stop_requested w = elim (env.is_stop_requested w) [ none ↦ true | some stop ↦ stop ]

  -- An attempt that has got something, or the next poll.
  abbrev pub or_again : {B : Type 0} → Option B × W → (W → Polled B × W) → Polled B × W
  or_again (some b, w) again = (got b, w)
  or_again (none, w) again = again w

  unfoldable pub poll : {B : Type 0} → ℕ → ℕ → (ℕ → W → Option B × W) → W → Polled B × W
  poll zero deadline attempt w = (expired, w)
  poll (suc n) deadline attempt w =
      if stop_requested w
      then (stopped, w)
      else if leb deadline (env.time w)
      then (expired, w)
      else or_again (attempt (deadline - env.time w) w) (poll n deadline attempt)

  abbrev pub polls_until : ℕ → W → ℕ
  polls_until deadline w = suc (deadline - env.time w)

  abbrev pub is_got : {B : Type 0} → Polled B × W → Bool × W
  is_got (got b, w) = (true, w)
  is_got (stopped, w) = (false, w)
  is_got (expired, w) = (false, w)

  unfoldable pub acquire : Slot → ℕ → W → Bool × W
  acquire slot deadline w =
      is_got (poll (polls_until deadline w) deadline (env.wait_acquire slot) w)

  -- The end of the wait for a worker.
  abbrev pub settle_worker : String → Polled Ending × W → WorkerAnswer × W
  settle_worker node_id (stopped, w) =
      (worker_result (unsuccessful cancelled "用户已停止协作"), env.cancel_worker node_id w)
  settle_worker node_id (expired, w) =
      (worker_result (unsuccessful timed_out "Worker 执行超时"), env.cancel_worker node_id w)
  settle_worker node_id (got (returned answer), w) = (answer, w)
  settle_worker node_id (got task_cancelled, w) =
      (worker_result (unsuccessful cancelled "Worker 已取消"), w)
  settle_worker node_id (got task_raised, w) =
      (worker_result (unsuccessful failed "Worker 执行失败"), w)

  unfoldable pub await_worker_result :
      String → MultiAgentTask → String → Option String → ℕ → W → WorkerAnswer × W
  await_worker_result run_id task node_id dependency timeout w =
      let started = env.start_worker task dependency run_id node_id w in
      let deadline = env.time started + timeout in
      settle_worker node_id
        (poll (polls_until deadline started) deadline (env.wait_worker node_id) started)

  abbrev pub safe_text : Option String → Option String
  safe_text error = elim (truthy error) [
    | none ↦ none
    | some text ↦ some (safe_error env.sanitize_content (some text))
  ]

  unfoldable pub payload_of :
      String → MultiAgentRun → Option MultiAgentNode → MultiAgentEventPayload
  payload_of event_type run none = record {
    event_type = event_type;
    run_id = run.run_id;
    node_id = none;
    task_label = safe_task_label env.is_alnum "multi_agent";
    strategy = run.strategy;
    status = run.status;
    error_code = run.error_code;
    error = safe_text run.error;
    content = none;
  }
  payload_of event_type run (some node) = record {
    event_type = event_type;
    run_id = run.run_id;
    node_id = some node.node_id;
    task_label = safe_task_label env.is_alnum node.role;
    strategy = run.strategy;
    status = node.status;
    error_code = node.error_code;
    error = safe_text node.error;
    content = successful_content node;
  }

  -- Whether the end of the node or the run has been sent before.
  abbrev pub is_repeated : MultiAgentRun → Option MultiAgentNode → MultiAgentCoordinator W → Bool
  is_repeated run none s = is_terminal run.status && contains run.run_id s.terminal_runs
  is_repeated run (some node) s =
      is_terminal node.status && contains (run.run_id, node.node_id) s.terminal_nodes

  abbrev pub mark :
      MultiAgentRun → Option MultiAgentNode → MultiAgentCoordinator W → MultiAgentCoordinator W
  mark run none s =
      if is_terminal run.status
      then record s { terminal_runs = add run.run_id s.terminal_runs }
      else s
  mark run (some node) s =
      if is_terminal node.status
      then record s { terminal_nodes = add (run.run_id, node.node_id) s.terminal_nodes }
      else s

  -- `dict.setdefault`
  abbrev pub set_default : String → String → Dict String String → Dict String String
  set_default k v d = elim (get k d) [ some w ↦ d | none ↦ put k v d ]

  abbrev pub record_sent :
      MultiAgentEventPayload
      → MultiAgentRun
      → Option MultiAgentNode
      → MultiAgentCoordinator W
      → Bool × W
      → Bool × MultiAgentCoordinator W
  record_sent payload run subject s (true, w) =
      (true, mark run subject (record s { world = w; sent = s.sent ++ payload ∷ [] }))
  record_sent payload run subject s (false, w) = (
    false,
    record s {
      world = w;
      event_errors = set_default run.run_id "Multi-Agent 事件持久化失败" s.event_errors;
    },
  )

  unfoldable pub emit_with :
      Option (MultiAgentEventPayload → W → Bool × W)
      → String
      → MultiAgentRun
      → Option MultiAgentNode
      → MultiAgentCoordinator W
      → Bool × MultiAgentCoordinator W
  emit_with none event_type run subject s = (true, s)
  emit_with (some event_sink) event_type run subject s =
      if is_repeated run subject s
      then (true, s)
      else record_sent (payload_of event_type run subject) run subject s
          (event_sink (payload_of event_type run subject) s.world)

  abbrev pub returned_from :
      {B : Type 0} → B × MultiAgentCoordinator W → Result String B × MultiAgentCoordinator W
  returned_from (b, s) = (ok b, s)

  -- The event's type is one of the five by construction.
  unfoldable pub emit : String → MultiAgentRun → Option MultiAgentNode → Act W Bool
  emit event_type run subject s = returned_from (emit_with env.event_sink event_type run subject s)

  unfoldable pub emit_node : MultiAgentRun → MultiAgentNode → Act W MultiAgentNode
  emit_node run node = emit "multi_agent.node.updated" run (some node) >>= λ sent. done node
