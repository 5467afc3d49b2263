-- ===== src/Runtime/ToolCalls.antt =====
-- Turning-Good-Agent/runtime/tool_call_runner.py: `ToolCallRunner`, which runs the calls of one
-- model answer. `J` is the type of JSON objects. What a tool's run records
-- (`ToolExecutor.run`) and the security check before it (`ToolExecutor.precheck`) are parameters:
-- functions of the tool and the call, its id included. A theorem holds for all of them, so what a run
-- answers may depend on whatever other runs did before. `gather` gives the results of a batch in the
-- order of its calls, as `asyncio.gather` documents; when the runs of a batch begin and end, and the
-- semaphore that bounds how many run at once, are not modelled. None as a result is the
-- `AssertionError`.
pub mod Batches
pub mod Order
pub mod Permission
use turning_good_agent.Prelude.{
  String, Bool, true, false, not, ◌&&◌, Option, none, some, List, [], ◌∷◌, ◌++◌, contains, ◌==◌,
  string_eq, if◌then◌else◌,
}
use turning_good_agent.Prelude.Dict.{Dict, put}
use turning_good_agent.Prelude.Text.{append_text}
use turning_good_agent.Hooks.{
  ToolCall, Field, none_field, text_field, args_field, duration_field, ToolRecord, AgentHook,
  truthy, run_before_tool_call, run_after_tool_call,
}
use turning_good_agent.Tools.{Tool, ToolRegistry, ArgumentChecks, object, prepare_call}

pub record PreparedToolCall (J : Type 0) : Type 0 where
  pub call : ToolCall J
  pub tool : Option (Tool J)
  pub validation_error : Option String
  pub blocked_reason : Option String

pub record ToolCallRunner (J : Type 0) : Type 0 where
  pub tools : ToolRegistry J
  pub checks : ArgumentChecks J
  pub hooks : List (AgentHook J)
  pub parallel_tool_calls_enabled : Bool
  pub precheck : Tool J → ToolCall J → Option String
  pub executor_run : Tool J → ToolCall J → ToolRecord J

-- A finished call: its record, and whether the executor ran the tool.
pub record Finished (J : Type 0) : Type 0 where
  pub tool_record : ToolRecord J
  pub ran : Bool

-- `xs.get` of a policy: none allows every name.
abbrev pub is_allowed : Option (List String) → String → Bool
is_allowed none name = true
is_allowed (some names) name = contains name names

module _ {J : Type 0} (self : ToolCallRunner J) where
  -- `_prepare_call`
  unfoldable pub prepare : Option (List String) → ToolCall J → PreparedToolCall J
  prepare allowed call =
      if not (is_allowed allowed call.name)
      then record {
        call = call;
        tool = none;
        validation_error = none;
        blocked_reason = some "当前 Channel 不允许调用该工具";
      }
      else (let (tool, args, validation_error) =
            prepare_call self.checks self.tools call.name (object call.args) in
          record {
            call = record call { args = args };
            tool = tool;
            validation_error = validation_error;
            blocked_reason = none;
          })

  abbrev pub is_safe_tool : Option (Tool J) → Option String → Bool
  is_safe_tool (some tool) none = tool.parallel_safe
  is_safe_tool _ _ = false

  unfoldable pub is_parallel_safe : PreparedToolCall J → Bool
  is_parallel_safe prepared =
      self.parallel_tool_calls_enabled && is_safe_tool prepared.tool prepared.validation_error

  unfoldable pub finalize : ToolCall J → ToolRecord J → ToolRecord J
  finalize call fields =
      run_after_tool_call self.hooks call (put "tool_call_id" (text_field call.id) fields)

  unfoldable pub error_record : ToolCall J → String → String → ToolRecord J
  error_record call content error =
      ("tool_name", text_field call.name)
      ∷ ("args", args_field call.args)
      ∷ ("content", text_field content)
      ∷ ("duration_ms", duration_field)
      ∷ ("error", text_field error)
      ∷ []

  -- `工具 <name><what><reason>`
  abbrev pub refusal_text : ToolCall J → String → String → String
  refusal_text call what reason =
      append_text "工具 " (append_text call.name (append_text what reason))

  abbrev pub refused : ToolCall J → String → String → Option (Finished J)
  refused call what reason = some (record {
    tool_record = finalize call (error_record call (refusal_text call what reason) reason);
    ran = false;
  })

  -- The hooks and the run, once the security check has answered.
  unfoldable pub execute_checked : Tool J → ToolCall J → Option String → Option (Finished J)
  execute_checked tool call (some security_error) = refused call " 安全检查失败：" security_error
  execute_checked tool call none = elim (run_before_tool_call self.hooks call) [
    | some block_reason ↦ refused call " 被 Hook 阻止：" block_reason
    | none ↦ some (record { tool_record = finalize call (self.executor_run tool call); ran = true })
  ]

  -- The checks after the policy and the arguments.
  unfoldable pub execute_valid : PreparedToolCall J → Option (Tool J) → Option (Finished J)
  execute_valid prepared none = none
  execute_valid prepared (some tool) =
      execute_checked tool prepared.call (truthy (self.precheck tool prepared.call))

  unfoldable pub execute_prepared : PreparedToolCall J → Option (Finished J)
  execute_prepared prepared = elim (truthy prepared.blocked_reason) [
    | some reason ↦ refused prepared.call " 被当前 Channel 策略阻止：" reason
    | none ↦ elim (truthy prepared.validation_error) [
      | some error ↦ refused prepared.call " 参数错误：" error
      | none ↦ execute_valid prepared prepared.tool
    ]
  ]

  abbrev pub cons_some : {A : Type 0} → Option A → Option (List A) → Option (List A)
  cons_some (some a) (some rest) = some (a ∷ rest)
  cons_some _ _ = none

  abbrev pub append_some : {A : Type 0} → Option (List A) → Option (List A) → Option (List A)
  append_some (some front) (some back) = some (front ++ back)
  append_some _ _ = none

  -- `asyncio.gather` over the calls.
  unfoldable pub gather : List (PreparedToolCall J) → Option (List (Finished J))
  gather [] = some []
  gather (prepared ∷ rest) = cons_some (execute_prepared prepared) (gather rest)

  unfoldable pub execute_parallel_batch : List (PreparedToolCall J) → Option (List (Finished J))
  unfolding gather
  execute_parallel_batch [] = some []
  execute_parallel_batch (prepared ∷ []) = cons_some (execute_prepared prepared) (some [])
  execute_parallel_batch (prepared ∷ next ∷ rest) = gather (prepared ∷ next ∷ rest)

  -- The `for` loop of `execute_calls`, with `records` and `parallel_batch`. What executes a batch
  -- and a call that is alone are arguments.
  unfoldable pub execute_loop :
      {R : Type 0}
      → (List (PreparedToolCall J) → Option (List R))
      → (PreparedToolCall J → Option R)
      → Option (List String)
      → List (ToolCall J)
      → Option (List R)
      → List (PreparedToolCall J)
      → Option (List R)
  execute_loop run_batch run_alone allowed [] records batch = append_some records (run_batch batch)
  execute_loop run_batch run_alone allowed (call ∷ calls) records batch =
      let prepared = prepare allowed call in
      let batched =
        execute_loop run_batch run_alone allowed calls records (batch ++ prepared ∷ []) in
      let alone =
        execute_loop run_batch run_alone allowed calls
          (append_some (append_some records (run_batch batch))
            (cons_some (run_alone prepared) (some [])))
          [] in
      if is_parallel_safe prepared then batched else alone

  unfoldable pub execute_calls :
      Option (List String) → List (ToolCall J) → Option (List (Finished J))
  unfolding execute_loop
  execute_calls allowed calls =
      execute_loop execute_parallel_batch execute_prepared allowed calls (some []) []
