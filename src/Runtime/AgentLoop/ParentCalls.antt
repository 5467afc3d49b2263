-- ===== src/Runtime/AgentLoop/ParentCalls.antt =====
-- runtime/agent_loop.py, `_openai_tools`, `_execute_parent_calls` and the messages it makes.
-- The durations of the records are left out.
use turning_good_agent.Prelude.{
  String, Bool, true, false, not, ◌&&◌, Option, none, some, List, [], ◌∷◌, ◌++◌, map, contains,
  ◌==◌, string_eq, if◌then◌else◌,
}
use turning_good_agent.Prelude.Action.{done, ◌>>=◌, ◌>>◌, current, modify}
use turning_good_agent.Hooks.{ToolCall, truthy}
use turning_good_agent.Tools.{ToolSchema, openai_tools}
use turning_good_agent.Runtime.Attachments.{
  Message, assistant_tool_message, tool_message, CallRecord,
}
use turning_good_agent.Runtime.AgentLoop.{Delegation, Surroundings, ran, delegated, LoopState, Step}
use turning_good_agent.Runtime.AgentLoop.Complete.{await, await_multi_agent_deadline, note}

abbrev pub delegate_multi_agent_name : String
delegate_multi_agent_name = "delegate_multi_agent"

-- The variables of `_execute_parent_calls`.
pub record ParentCalls (J A : Type 0) : Type 0 where
  pub results : List (CallRecord J × Bool)
  pub ordinary : List (ToolCall J)
  pub active_adapter : A
  pub approval_wrapped : Bool

abbrev pub no_calls : {J A : Type 0} → A → ParentCalls J A
no_calls adapter = record {
  results = [];
  ordinary = [];
  active_adapter = adapter;
  approval_wrapped = false;
}

unfoldable pub delegate_record : {J : Type 0} → ToolCall J → String → Option String → CallRecord J
delegate_record call content error = record {
  tool_name = call.name;
  args = call.args;
  content = content;
  error = error;
  tool_call_id = call.id;
  metadata = none;
  attachment = none;
}

-- An empty reasoning text is dropped.
unfoldable pub assistant_message :
    {J : Type 0} → String → List (ToolCall J) → Option String → Message J
assistant_message content calls reasoning_content =
    assistant_tool_message content calls (truthy reasoning_content)

unfoldable pub tool_result_message : {J : Type 0} → ToolCall J → CallRecord J → Message J
tool_result_message call tool_record = tool_message call.id call.name tool_record.content

module _ {W J A : Type 0} (env : Surroundings W J A) where
  abbrev pub is_visible : Option (Delegation W J A) → W → Bool
  is_visible none w = false
  is_visible (some invocation) w = invocation.is_schema_visible w

  -- The schemas of the registry, with that of the delegation.
  unfoldable pub with_delegation :
      Option (Delegation W J A) → W → List (ToolSchema J) → List (ToolSchema J)
  with_delegation none w schemas = schemas
  with_delegation (some invocation) w schemas =
      if invocation.is_schema_visible w
        && not (contains delegate_multi_agent_name (map (λ (s : ToolSchema J). s.name) schemas))
      then schemas ++ invocation.openai_schema ∷ []
      else schemas

  unfoldable pub refresh_openai_tools : LoopState W J A → LoopState W J A
  unfolding openai_tools
  refresh_openai_tools s =
      let (schemas, active_tools) = openai_tools env.allowed_tool_names s.active_tools in
      record s {
        active_tools = active_tools;
        openai_tools = with_delegation env.invocation s.world schemas;
      }

  abbrev pub flushed : ParentCalls J A → List (CallRecord J) → ParentCalls J A
  flushed b records = record b {
    results = b.results ++ map (λ call_record. (call_record, true)) records;
    ordinary = [];
  }

  unfoldable pub flush_ordinary : ParentCalls J A → List (ToolCall J) → Step W J A (ParentCalls J A)
  flush_ordinary b [] = done b
  flush_ordinary b (call ∷ calls) =
      await_multi_agent_deadline env (ran (call ∷ calls))
        (env.execute_calls (call ∷ calls) b.active_adapter)
      >>= λ records. done (flushed b records)

  abbrev pub answered : ToolCall J → String → Option String → ParentCalls J A → ParentCalls J A
  answered call content error b = record b {
    results = b.results ++ (delegate_record call content error, false) ∷ [];
  }

  -- The adapter that projects approvals, once the delegation is accepted.
  unfoldable pub wrap : Delegation W J A → W → ParentCalls J A → ParentCalls J A
  wrap invocation w b =
      if not (invocation.is_schema_visible w) && not b.approval_wrapped
      then record b {
        active_adapter = invocation.wrap_parent_approval w b.active_adapter;
        approval_wrapped = true;
      }
      else b

  abbrev pub delegated_result :
      Delegation W J A → ToolCall J → ParentCalls J A → String → Step W J A (ParentCalls J A)
  delegated_result invocation call b content = current >>= λ (s : LoopState W J A).
      done (wrap invocation s.world (answered call content none b))

  -- A call of the delegation, which is refused where the turn may not make one.
  unfoldable pub delegate_call :
      Option (Delegation W J A)
      → ToolCall J
      → ParentCalls J A
      → LoopState W J A
      → Step W J A (ParentCalls J A)
  delegate_call none call b s =
      done (answered call "当前父回合不允许 delegate_multi_agent 调用。" (some "当前父回合不允许委派") b)
  delegate_call (some invocation) call b s =
      if invocation.is_schema_visible s.world
      then modify (note env (delegated call.args))
        >> (await env (invocation.invoke call.args) >>= delegated_result invocation call b)
      else done (answered call "当前父回合不允许 delegate_multi_agent 调用。" (some "当前父回合不允许委派") b)

  unfoldable pub dispatch : ToolCall J → ParentCalls J A → Step W J A (ParentCalls J A)
  dispatch call b =
      if not (call.name == delegate_multi_agent_name)
      then done (record b { ordinary = b.ordinary ++ call ∷ [] })
      else flush_ordinary b b.ordinary >>= λ b'.
          current >>= λ (s : LoopState W J A). delegate_call env.invocation call b' s

  unfoldable pub dispatch_all : List (ToolCall J) → ParentCalls J A → Step W J A (ParentCalls J A)
  dispatch_all [] b = flush_ordinary b b.ordinary
  dispatch_all (call ∷ calls) b = dispatch call b >>= dispatch_all calls

  unfoldable pub execute_parent_calls :
      List (ToolCall J) → A → Step W J A (List (CallRecord J × Bool) × A)
  execute_parent_calls calls adapter =
      dispatch_all calls (no_calls adapter) >>= λ b. done (b.results, b.active_adapter)
