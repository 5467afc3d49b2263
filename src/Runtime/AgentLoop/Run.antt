-- ===== src/Runtime/AgentLoop/Run.antt =====
-- runtime/agent_loop.py, `run`: what a round does with the answer of the model, the rounds, and the
-- answer that is asked for when they are used up. `tool_records` shares its records with the messages
-- of the round, so a refused attachment shows in both.
use turning_good_agent.Prelude.{
  ℕ, zero, suc, String, Bool, true, false, not, ◌&&◌, ◌||◌, Option, none, some, List, [], ◌∷◌, ◌++◌,
  length, take, ltb, nat_beq, if◌then◌else◌,
}
use turning_good_agent.Prelude.Result.{Result}
use turning_good_agent.Prelude.Text.{append_text, is_empty, strip}
use turning_good_agent.Prelude.Action.{done, throw, ◌>>=◌, ◌>>◌, current, modify}
use turning_good_agent.Sessions.{is_nonempty}
use turning_good_agent.Hooks.{ToolCall}
use turning_good_agent.Llm.{no_usage, add_usage, LlmResponse}
use turning_good_agent.Tools.{ToolRegistry}
use turning_good_agent.Runtime.Attachments.{
  Message, text_message, CallRecord, AttachmentManager, check, commit,
}
use turning_good_agent.Runtime.AgentLoop.{
  Raised, exception, Surroundings, asked, AgentLoopResult, LoopState, Step, Round,
}
use turning_good_agent.Runtime.AgentLoop.Complete.{
  await, await_multi_agent_deadline, multi_agent_deadline_expired, complete,
}
use turning_good_agent.Runtime.AgentLoop.ParentCalls.{
  assistant_message, tool_result_message, refresh_openai_tools, execute_parent_calls,
}
use turning_good_agent.Runtime.AgentLoop.Rounds.{
  replace_at, tool_round_limit_summary_prompt, tool_round_limit_fallback, finish_multi_agent, ends,
  cancels, times_out, trying, apply_turn_control, safe_point, stop_or,
}

-- The attachments of a round: the index of the message whose attachment is next, and the records so
-- far.
pub record Attached (J : Type 0) : Type 0 where
  pub index : ℕ
  pub manager : AttachmentManager
  pub working : List (Message J)
  pub records : List (CallRecord J × Bool)

-- `record.pop("context_attachment", None)`
abbrev pub stripped : {J : Type 0} → CallRecord J → CallRecord J
stripped r = record r { attachment = none }

abbrev pub refused : {J : Type 0} → CallRecord J → String → CallRecord J
refused r attachment_error = record r {
  attachment = none;
  error = some attachment_error;
  content = append_text "本轮上下文附件被拒绝：" attachment_error;
}

abbrev pub with_record :
    {J : Type 0} → Attached J → CallRecord J → Bool → List (CallRecord J × Bool)
with_record a r persist = a.records ++ (r, persist) ∷ []

-- A refused attachment changes its record and its message, another one is committed.
unfoldable pub attach_one :
    {J : Type 0} → ToolCall J → CallRecord J → Bool → Option String → Attached J → Attached J
attach_one call r persist (some attachment_error) a = record {
  index = suc a.index;
  manager = a.manager;
  working = replace_at a.index (tool_result_message call (refused r attachment_error)) a.working;
  records = with_record a (refused r attachment_error) persist;
}
attach_one call r persist none a = record {
  index = suc a.index;
  manager = (commit a.manager r.attachment r a.working).0;
  working = (commit a.manager r.attachment r a.working).1;
  records = with_record a (stripped r) persist;
}

abbrev pub result_messages :
    {J : Type 0} → List (ToolCall J) → List (CallRecord J × Bool) → List (Message J)
result_messages [] executed = []
result_messages (call ∷ calls) [] = []
result_messages (call ∷ calls) ((r, persist) ∷ executed) =
    tool_result_message call r ∷ result_messages calls executed

-- The records of a round that are kept.
unfoldable pub persisted : {J : Type 0} → Bool → List (CallRecord J × Bool) → List (CallRecord J)
persisted persist_tool_calls [] = []
persisted persist_tool_calls ((r, persist) ∷ executed) =
    let rest = persisted persist_tool_calls executed in
    if persist_tool_calls && persist then r ∷ rest else rest

abbrev pub strip_all :
    {J : Type 0} → List (ToolCall J) → List (CallRecord J × Bool) → List (CallRecord J × Bool)
strip_all [] executed = []
strip_all (call ∷ calls) [] = []
strip_all (call ∷ calls) ((r, persist) ∷ executed) =
    (stripped r, persist) ∷ strip_all calls executed

-- `zip(calls, executed, strict=True)` raises at the end of the shorter list.
abbrev pub zip_error : Bool → Raised
zip_error true = exception "zip() argument 2 is shorter than argument 1"
zip_error false = exception "zip() argument 2 is longer than argument 1"

abbrev has_text : Option String → Bool
has_text none = false
has_text (some text) = not (is_empty text)

module _ {W J A : Type 0} (env : Surroundings W J A) where
  unfoldable pub attach : List (ToolCall J) → List (CallRecord J × Bool) → Attached J → Attached J
  attach [] executed a = a
  attach (call ∷ calls) [] a = a
  attach (call ∷ calls) ((r, persist) ∷ executed) a = attach calls executed (
      attach_one call r persist
        (check env.encoded_length env.limits a.manager r.attachment (stripped r) a.working) a)

  abbrev pub settle_attached : Attached J → LoopState W J A → LoopState W J A
  settle_attached a s = record s {
    working = a.working;
    attachments = a.manager;
    tool_records = s.tool_records ++ persisted env.persist_tool_calls a.records;
  }

  unfoldable pub record_results :
      List (ToolCall J) → List (CallRecord J × Bool) → LoopState W J A → LoopState W J A
  record_results calls executed s =
      settle_attached
        (attach calls executed (record {
          index = length s.working;
          manager = s.attachments;
          working = s.working ++ result_messages calls executed;
          records = [];
        }))
        s

  abbrev pub keep_records :
      List (ToolCall J) → List (CallRecord J × Bool) → LoopState W J A → LoopState W J A
  keep_records calls executed s = record s {
    tool_records = s.tool_records ++ persisted env.persist_tool_calls (strip_all calls executed);
  }

  -- What follows the run of a round's calls.
  unfoldable pub after_calls :
      String → List (ToolCall J) → List (CallRecord J × Bool) × A → Round W J A
  after_calls content calls (executed, adapter) =
      modify (λ (s : LoopState W J A). record s { channel_adapter = adapter })
      >> (if not (nat_beq (length calls) (length executed))
          then modify (keep_records calls executed)
            >> throw (zip_error (ltb (length executed) (length calls)))
          else modify (record_results calls executed)
            >> (apply_turn_control env
                >>= stop_or env content
                    (modify (refresh_openai_tools env) >> safe_point env (done none))))

  abbrev pub ask_tools : LlmResponse J → List (ToolCall J) → LoopState W J A → LoopState W J A
  ask_tools response calls s = record s {
    working = s.working ++ assistant_message response.content calls response.reasoning_content ∷ [];
  }

  unfoldable pub run_calls : LlmResponse J → List (ToolCall J) → Round W J A
  run_calls response calls =
      modify (ask_tools response calls)
      >> (current >>= λ (s : LoopState W J A).
          if env.is_stop_requested s.channel_adapter s.world
          then cancels env response.content
          else trying env (execute_parent_calls env calls s.channel_adapter)
              (after_calls response.content calls))

  unfoldable pub answer_with : LlmResponse J → Round W J A
  answer_with response = current >>= λ (s : LoopState W J A).
      if env.is_stop_requested s.channel_adapter s.world
      then cancels env response.content
      else if is_empty (strip response.content)
      then finish_multi_agent env "failed" >> throw (exception "模型返回了空响应。")
      else ends env response.content false "completed"

  abbrev pub add_response : LlmResponse J → LoopState W J A → LoopState W J A
  add_response response s = record s { usage = add_usage s.usage response.usage }

  unfoldable pub after_response : LlmResponse J → Round W J A
  after_response response =
      modify (add_response response)
      >> (if is_nonempty response.tool_calls
          then run_calls response (take env.max_tool_calls_per_round response.tool_calls)
          else answer_with response)

  unfoldable pub ask : Bool → Bool → Step W J A (LlmResponse J)
  ask emit_deltas with_tools = current >>= λ (s : LoopState W J A).
      let tools = if with_tools then s.openai_tools else [] in
      await_multi_agent_deadline env (asked s.working tools)
        (complete env emit_deltas s.working tools s.channel_adapter)

  unfoldable pub round : Round W J A
  round =
      apply_turn_control env
      >>= stop_or env "" (safe_point env (trying env (ask true true) after_response))

  abbrev pub summary_text : LlmResponse J → LoopState W J A → String
  summary_text summary s =
      let content = strip summary.content in
      if is_nonempty summary.tool_calls || is_empty content || has_text summary.protocol_error
      then tool_round_limit_fallback s.tool_records
      else content

  unfoldable pub after_summary : LlmResponse J → Round W J A
  after_summary summary =
      modify (add_response summary)
      >> (current >>= λ (s : LoopState W J A).
          if env.is_stop_requested s.channel_adapter s.world
          then cancels env ""
          else await env (env.on_delta s.channel_adapter (summary_text summary s))
            >> ends env (summary_text summary s) false "completed")

  abbrev pub ask_summary : LoopState W J A → LoopState W J A
  ask_summary s = record s {
    working =
        s.working
        ++ text_message (record { role = "system"; content = tool_round_limit_summary_prompt })
          ∷ [];
  }

  unfoldable pub summarise : Round W J A
  summarise =
      modify ask_summary
      >> (current >>= λ (s : LoopState W J A).
          if multi_agent_deadline_expired env s.world
          then times_out env
          else trying env (ask false false) after_summary)

  abbrev pub or_next_round : Round W J A → Option (AgentLoopResult J) → Round W J A
  or_next_round next (some result) = done (some result)
  or_next_round next none = next

  unfoldable pub rounds : ℕ → Round W J A
  rounds zero = summarise
  rounds (suc n) = round >>= or_next_round (rounds n)

  -- The start of `run`, with the schemas of the registry it is given.
  unfoldable pub start : List (Message J) → A → ToolRegistry J → W → LoopState W J A
  unfolding refresh_openai_tools
  start messages adapter active_tools w =
      let s = refresh_openai_tools env (record {
        working = messages;
        channel_adapter = adapter;
        active_tools = active_tools;
        openai_tools = [];
        attachments = record {
          tool_schema_tokens = 0;
          mcp_tokens = 0;
          skill_names = [];
          skill_tokens = 0;
        };
        tool_records = [];
        usage = no_usage;
        consumed_guidance = [];
        invocation_finished = false;
        world = w;
        log = [];
      }) in
      record s {
        attachments = record {
          tool_schema_tokens = env.schema_tokens s.openai_tools;
          mcp_tokens = 0;
          skill_names = [];
          skill_tokens = 0;
        };
      }

  unfoldable pub run :
      List (Message J)
      → A
      → ToolRegistry J
      → W
      → Result Raised (Option (AgentLoopResult J)) × LoopState W J A
  run messages adapter active_tools w =
      rounds env.max_tool_rounds (start messages adapter active_tools w)
