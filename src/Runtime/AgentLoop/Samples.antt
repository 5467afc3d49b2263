-- ===== src/Runtime/AgentLoop/Samples.antt =====
-- The theorems on the loop at a turn that reads, delegates, is guided and answers in its second
-- round, and those on attachments at a skill that is loaded.
use turning_good_agent.Prelude.{
  ℕ, suc, refl, ◌≤◌, String, true, false, none, some, List, [], ◌∷◌, All, length, ltb,
  if◌then◌else◌,
}
use turning_good_agent.Prelude.Result.{ok}
use turning_good_agent.Hooks.{ToolCall}
use turning_good_agent.Llm.{LlmResponse}
use turning_good_agent.Tools.{empty_registry}
use turning_good_agent.Runtime.Attachments.{
  Message, text_message, ContextAttachment, context_attachment, CallRecord, Limits,
}
use turning_good_agent.Runtime.Attachments.Spent.{
  Offer, IsSpent, fresh_manager, commit_all, commit_all-IsSpent,
}
use turning_good_agent.Runtime.AgentLoop.{Delegation, Surroundings}
use turning_good_agent.Runtime.AgentLoop.Run.{run}
use turning_good_agent.Runtime.AgentLoop.Shapes.{Answered}
use turning_good_agent.Runtime.AgentLoop.Invariant.{requests}
use turning_good_agent.Runtime.AgentLoop.Protocol.{FinishesParent, run-requests, run-FinishesParent}

abbrev limits : Limits
limits = record {
  max_context_tokens = 100;
  mcp_token_limit = 10;
  max_loaded_skills_per_turn = 1;
  max_skill_tokens = 20;
  max_loaded_skill_tokens_per_turn = 20;
}

abbrev call : String → String → ToolCall ℕ
call id name = record { id = id; name = name; args = 0 }

abbrev answer_at : ℕ → LlmResponse ℕ
answer_at time =
    if ltb time 2
    then record {
      content = "";
      tool_calls = call "1" "read" ∷ call "2" "delegate_multi_agent" ∷ [];
      usage = none;
      protocol_error = none;
      reasoning_content = none;
    }
    else record {
      content = "done";
      tool_calls = [];
      usage = none;
      protocol_error = none;
      reasoning_content = none;
    }

abbrev read_record : CallRecord ℕ
read_record = record {
  tool_name = "read";
  args = 0;
  content = "text";
  error = none;
  tool_call_id = "1";
  metadata = none;
  attachment = none;
}

-- The state is the number of calls that were awaited.
abbrev delegation : Delegation ℕ ℕ (Unit {0})
delegation = record {
  deadline_monotonic = λ w. if ltb w 4 then none else some 50;
  is_schema_visible = λ w. ltb w 4;
  openai_schema = record { name = "delegate_multi_agent"; description = ""; parameters = 0 };
  invoke = λ args w. (ok "{}", suc w);
  check_parent_synthesis = λ messages tools w. (ok none, w);
  finish_parent_turn = λ outcome w. (ok tt, suc w);
  wrap_parent_approval = λ w adapter. adapter;
}

abbrev surroundings : Surroundings ℕ ℕ (Unit {0})
surroundings = record {
  time = λ w. w;
  times_out = λ remaining w. none;
  is_stop_requested = λ adapter w. false;
  consume_guidance = λ adapter w. (ok ("faster" ∷ []), suc w);
  on_delta = λ adapter text w. (ok tt, suc w);
  complete = λ messages tools w. (ok (answer_at w), suc w);
  stream = none;
  execute_calls = λ calls adapter w. (ok (read_record ∷ []), suc w);
  invocation = some delegation;
  encoded_length = λ text. 1;
  schema_tokens = λ tools. 1;
  max_tool_rounds = 2;
  max_tool_calls_per_round = 4;
  limits = limits;
  streaming_enabled = false;
  persist_tool_calls = true;
  allowed_tool_names = none;
}

abbrev conversation : List (Message ℕ)
conversation = text_message (record { role = "user"; content = "hello" }) ∷ []

run-requests_example :
    All Answered (requests (run surroundings conversation tt empty_registry 0).1.log)
    × (length (requests (run surroundings conversation tt empty_registry 0).1.log) ≤ 3)
run-requests_example = run-requests surroundings conversation tt empty_registry 0 refl

run-FinishesParent_example :
    FinishesParent surroundings conversation tt empty_registry 0
      (run surroundings conversation tt empty_registry 0)
run-FinishesParent_example = run-FinishesParent surroundings conversation tt empty_registry 0 refl

abbrev skill : ContextAttachment
skill = record {
  source = "skill:plan";
  messages = record { role = "system"; content = "steps" } ∷ [];
  token_count = some 1;
  kind = "skill";
  verified = true;
}

abbrev loaded_record : CallRecord ℕ
loaded_record = record {
  tool_name = "load_skill";
  args = 0;
  content = "";
  error = none;
  tool_call_id = "1";
  metadata = some (record { loaded_skill_name = some "plan"; loaded_skill_token_count = some 7 });
  attachment = some (context_attachment skill);
}

-- Two Skills are offered; no more than one may be loaded.
abbrev offer : Offer ℕ
offer = record {
  attachment = some (context_attachment skill);
  call = loaded_record;
  working = conversation;
}

commit_all-IsSpent_example :
    IsSpent
      (λ text. 1)
      limits
      (fresh_manager 5)
      (commit_all (λ text. 1) limits (fresh_manager 5) (offer ∷ offer ∷ []))
commit_all-IsSpent_example = commit_all-IsSpent (λ text. 1) limits 5 (offer ∷ offer ∷ [])
