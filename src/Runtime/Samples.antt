-- ===== src/Runtime/Samples.antt =====
-- The theorems on tool calls at three calls, and those on turns at a message of the CLI.
use mathlib.Core.Option
use turning_good_agent.Prelude.{
  ℕ, ◌≡◌, refl, ◌⊎◌, String, Bool, true, false, none, some, List, [], ◌∷◌, map,
}
use turning_good_agent.Prelude.Text.{append_text}
use turning_good_agent.Sessions.{MessageRecord, Session}
use turning_good_agent.Hooks.{ToolCall, returned, raised, AgentHook}
use turning_good_agent.Tools.{Tool, empty_registry, register}
use turning_good_agent.Runtime.ToolCalls.{ToolCallRunner, Finished, prepare, execute_calls}
use turning_good_agent.Runtime.ToolCalls.Batches.{
  concat, AreCallBatches, call_batches, call_batches-AreCallBatches,
}
use turning_good_agent.Runtime.ToolCalls.{PreparedToolCall}
use turning_good_agent.Runtime.ToolCalls.Permission.{may_run, execute_calls-ran}
use turning_good_agent.Runtime.Turn.{
  TurnState, in_command, in_session, in_build, in_run, in_compact, Event, ok, returns, raises,
  invoked, completed_reply, TurnContext, Attempt, Environment, im_command_rejection, reply_of,
  run_turn,
}
use turning_good_agent.Runtime.Turn.Path.{IsPath, run_turn-finishes, run_turn-saved}
use turning_good_agent.Runtime.Turn.Silent.{silent_failure}

abbrev tool : ℕ → String → Bool → Tool ℕ
tool identity name parallel_safe = record {
  identity = identity;
  name = name;
  description = "";
  input_schema = 0;
  parallel_safe = parallel_safe;
}

-- A hook that raises, which stops nothing.
abbrev hook : AgentHook ℕ
hook = record { before_tool_call = λ call. raised; after_tool_call = λ call fields. returned none }

abbrev runner : ToolCallRunner ℕ
runner = record {
  tools = register (tool 1 "read" true) (register (tool 2 "edit" false) empty_registry);
  checks = record {
    empty_object = 0;
    cast_args = λ args schema. args;
    validate_args = λ args schema. [];
  };
  hooks = hook ∷ [];
  parallel_tool_calls_enabled = true;
  precheck = λ t args. none;
  executor_run = λ t args. [];
}

abbrev tool_call : String → String → ToolCall ℕ
tool_call id name = record { id = id; name = name; args = 0 }

abbrev tool_calls : List (ToolCall ℕ)
tool_calls =
    tool_call "1" "read" ∷ tool_call "2" "read" ∷ tool_call "3" "edit" ∷ tool_call "4" "rm" ∷ []

call_batches-AreCallBatches_example :
    (bs : List (List (PreparedToolCall ℕ))) × (call_batches runner none tool_calls ≡ some bs)
    × (concat bs ≡ map (prepare runner none) tool_calls)
    × AreCallBatches runner bs
call_batches-AreCallBatches_example = call_batches-AreCallBatches runner none tool_calls

execute_calls-ran_example :
    Option.map (map (λ (f : Finished ℕ). f.ran)) (execute_calls runner none tool_calls)
    ≡ some (map (may_run runner none) tool_calls)
execute_calls-ran_example = execute_calls-ran runner none tool_calls

abbrev stored : Session
stored = record {
  id = "s";
  user_id = "u";
  channel = "cli";
  title = "title";
  summary = "";
  pinned = false;
  archived = false;
  uncompacted_history = [];
  created_at = "";
  updated_at = "";
  principal_id = "u";
  conversation_id = "c";
}

abbrev message : String → String → MessageRecord
message role content = record {
  id = "m";
  session_id = "s";
  role = role;
  content = content;
  name = none;
  tool_call_id = none;
  token_count = 1;
  created_at = "";
  metadata = [];
}

-- A model that answers, behind a cleaning of the sessions.
abbrev environment : Attempt (Unit {0}) → Environment
environment cleanup = record {
  handle_command = returns none;
  cleanup = cleanup;
  load = returns stored;
  all_messages = returns [];
  provisional = invoked;
  current_context_tokens = λ history. returns 10;
  max_context_tokens = 100;
  has_images = false;
  supports_vision = false;
  invocation = returns tt;
  build_messages = returns tt;
  agent_loop = returns (record {
    final_content = "hello";
    consumed_guidance = [];
    usage = some 5;
    cancelled = false;
  });
  memory = record { recent_window_token_limit = 10; compact_token_threshold = 50 };
  compact_context_tokens = λ history. returns 10;
  summarise = λ source. returns ("", 0);
  record_usage = returns tt;
  write = λ w. returns tt;
  short_title = λ content. content;
  message = message;
}

run_turn-finishes_example :
    (final : TurnContext) × (run_turn (environment (returns tt)) "cli" "hi" ≡ some final)
    × IsPath in_command final.trace
    × (final.outbound ≡ some (reply_of final))
run_turn-finishes_example = run_turn-finishes (environment (returns tt)) "cli" "hi"

finishes :
    (final : TurnContext) × (run_turn (environment (returns tt)) "cli" "hi" ≡ some final)
    × IsPath in_command final.trace
    × (final.outbound ≡ some (reply_of final))
finishes = run_turn-finishes (environment (returns tt)) "cli" "hi"

-- The context that the turn ends with.
abbrev ended : TurnContext
ended = finishes.0

run_turn-saved_example :
    (ended.saved ≡ [])
    ⊎ ((rest : List (TurnState × Event)) × (ended.trace
          ≡ (in_command, ok)
            ∷ (in_session, ok)
            ∷ (in_build, ok)
            ∷ (in_run, ok)
            ∷ (in_compact, ok)
            ∷ rest))
run_turn-saved_example = run_turn-saved (environment (returns tt)) "cli" "hi" ended finishes.1

silent_failure_example :
    Option.map (λ (c : TurnContext). c.outbound) (run_turn (environment (raises "")) "cli" "hi")
    ≡ some (some (completed_reply (append_text "请求失败：" "") false))
unfolding im_command_rejection
silent_failure_example = silent_failure (environment (raises "")) "cli" "hi" refl refl refl
