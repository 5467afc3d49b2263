-- ===== src/Runtime/ToolCalls/Permission.antt =====
-- runtime/tool_call_runner.py: which calls reach the executor.
use text.Mathlib.TextLemmas.{cons-append}
use mathlib.Core.Option
use turning_good_agent.Prelude.{
  ◌≡◌, refl, String, Bool, true, false, ◌&&◌, Option, none, some, List, [], ◌∷◌, map, Bool-cases,
  inl, inr, if◌then◌else◌, string_eq,
}
use turning_good_agent.Prelude.Dict.{get}
use turning_good_agent.Prelude.Text.{append_text, is_empty}
use turning_good_agent.Sessions.{is_nonempty}
use turning_good_agent.Hooks.{ToolCall, truthy, run_before_tool_call}
use turning_good_agent.Tools.{Tool, join, tool_names, prepare_call}
use turning_good_agent.Runtime.ToolCalls.{
  PreparedToolCall, ToolCallRunner, Finished, is_allowed, prepare, execute_prepared, execute_valid,
  execute_checked, cons_some, gather, execute_calls,
}
use turning_good_agent.Runtime.ToolCalls.Order.{execute_calls-in_order}

abbrev pub is_none : {A : Type 0} → Option A → Bool
is_none none = true
is_none (some a) = false

is_empty-append : (s t : String) → is_empty s ≡ false → is_empty (append_text s t) ≡ false
unfolding is_empty append_text
is_empty-append String.[] t h = cc
is_empty-append (String.◌∷◌ c s) t h = rw (cons-append c s t) refl

unknown_tool_text : (more : String) → is_empty (append_text "未知工具：" more) ≡ false
unfolding is_empty
unknown_tool_text more = is_empty-append "未知工具：" more refl

module _ {J : Type 0} (self : ToolCallRunner J) where
  -- The tool's arguments are valid, the security check passes, and no hook blocks the call.
  abbrev pub lets_through : ToolCall J → Option (Tool J) → Bool
  lets_through call none = false
  lets_through call (some tool) =
      let args = self.checks.cast_args call.args tool.input_schema in
      let errors = self.checks.validate_args args tool.input_schema in
      is_none (truthy (if is_nonempty errors then some (join "；" errors) else none))
      && is_none (truthy (self.precheck tool (record call { args = args })))
      && is_none (run_before_tool_call self.hooks (record call { args = args }))

  -- The policy allows the name, and the tool of that name lets the call through.
  abbrev pub may_run : Option (List String) → ToolCall J → Bool
  may_run allowed call =
      is_allowed allowed call.name && lets_through call (get call.name self.tools.tools)

  abbrev ran_of : Option (Finished J) → Option Bool
  ran_of = Option.map (λ (f : Finished J). f.ran)

  checked-ran :
      (tool : Tool J) (call : ToolCall J) (security : Option String)
      → ran_of (execute_checked self tool call security)
        ≡ some (is_none security && is_none (run_before_tool_call self.hooks call))
  unfolding execute_checked
  checked-ran tool call (some e) = refl
  checked-ran tool call none = on (run_before_tool_call self.hooks call) refl
    where
      on :
          (reason : Option String)
          → run_before_tool_call self.hooks call ≡ reason
          → ran_of (execute_checked self tool call none)
            ≡ some (is_none (run_before_tool_call self.hooks call))
      on none e = rw (e, execute_checked) refl
      on (some reason) e = rw (e, execute_checked) refl

  prepared-ran :
      (tool : Tool J) (call : ToolCall J) (error : Option String)
      → ran_of (
          execute_prepared self (record {
            call = call;
            tool = some tool;
            validation_error = error;
            blocked_reason = none;
          }))
        ≡ some (
            is_none (truthy error)
            && is_none (truthy (self.precheck tool call))
            && is_none (run_before_tool_call self.hooks call))
  unfolding execute_prepared execute_valid truthy
  prepared-ran tool call error = on (truthy error) refl
    where
      on :
          (reason : Option String)
          → truthy error ≡ reason
          → ran_of (
              execute_prepared self (record {
                call = call;
                tool = some tool;
                validation_error = error;
                blocked_reason = none;
              }))
            ≡ some (
                is_none (truthy error)
                && is_none (truthy (self.precheck tool call))
                && is_none (run_before_tool_call self.hooks call))
      on none e =
          rw (e, execute_prepared) (checked-ran tool call (truthy (self.precheck tool call)))
      on (some reason) e = rw (e, execute_prepared) refl

  blocked-ran :
      (call : ToolCall J) (more : String)
      → ran_of (
          execute_prepared self (record {
            call = call;
            tool = none;
            validation_error = some (append_text "未知工具：" more);
            blocked_reason = none;
          }))
        ≡ some false
  unfolding execute_prepared truthy
  blocked-ran call more = rw (unknown_tool_text more, execute_prepared) refl

  -- What `prepare` gives a call of an allowed name, by what is registered under the name.
  abbrev prepared_of : ToolCall J → Option (Tool J) → PreparedToolCall J
  prepared_of call none = record {
    call = call;
    tool = none;
    validation_error = some (
        append_text "未知工具："
          (append_text call.name (append_text "。可用工具：" (join ", " (tool_names self.tools)))));
    blocked_reason = none;
  }
  prepared_of call (some tool) =
      let args = self.checks.cast_args call.args tool.input_schema in
      let errors = self.checks.validate_args args tool.input_schema in
      record {
        call = record call { args = args };
        tool = some tool;
        validation_error = if is_nonempty errors then some (join "；" errors) else none;
        blocked_reason = none;
      }

  prepare-eq :
      (call : ToolCall J) (found : Option (Tool J))
      → get call.name self.tools.tools ≡ found
      → prepare self none call ≡ prepared_of call found
  unfolding prepare prepare_call
  prepare-eq call none e = rw (e, prepare, prepare_call) refl
  prepare-eq call (some tool) e = rw (e, prepare, prepare_call) refl

  known-ran :
      (call : ToolCall J) (found : Option (Tool J))
      → ran_of (execute_prepared self (prepared_of call found)) ≡ some (lets_through call found)
  known-ran call none = blocked-ran call _
  known-ran call (some tool) = prepared-ran tool _ _

  denied-ran :
      (allowed : Option (List String)) (call : ToolCall J)
      → is_allowed allowed call.name ≡ false
      → ran_of (execute_prepared self (prepare self allowed call)) ≡ some false
  unfolding prepare execute_prepared truthy is_empty
  denied-ran allowed call shut = rw shut refl

  prepare-allowed :
      (allowed : Option (List String)) (call : ToolCall J)
      → is_allowed allowed call.name ≡ true
      → prepare self allowed call ≡ prepare self none call
  unfolding prepare
  prepare-allowed allowed call fine = rw fine refl

  call-ran :
      (allowed : Option (List String)) (call : ToolCall J)
      → ran_of (execute_prepared self (prepare self allowed call)) ≡ some (may_run allowed call)
  call-ran allowed call = elim (Bool-cases (is_allowed allowed call.name)) [
    | inr shut ↦ rw shut (denied-ran allowed call shut)
    | inl fine ↦
        rw (prepare-allowed allowed call fine, prepare-eq call _ refl, fine) (known-ran call _)
  ]

  abbrev all_ran : Option (List (Finished J)) → Option (List Bool)
  all_ran = Option.map (map (λ (f : Finished J). f.ran))

  cons-ran :
      (a : Option (Finished J)) (l : Option (List (Finished J))) (b : Bool) (bs : List Bool)
      → ran_of a ≡ some b
      → all_ran l ≡ some bs
      → all_ran (cons_some self a l) ≡ some (b ∷ bs)
  cons-ran none l b bs e e' = cc
  cons-ran (some a) none b bs e e' = cc
  cons-ran (some a) (some l) b bs e e' = cc

  gather-ran :
      (allowed : Option (List String)) (calls : List (ToolCall J))
      → all_ran (gather self (map (prepare self allowed) calls))
        ≡ some (map (may_run allowed) calls)
  unfolding gather
  gather-ran allowed [] = refl
  gather-ran allowed (call ∷ calls) =
      cons-ran _ _ _ _ (call-ran allowed call) (gather-ran allowed calls)

  -- `execute_calls` always finishes every call, its assertion never fails, and the executor runs
  -- exactly the calls whose name the policy allows and is registered, whose arguments are valid,
  -- which the security check passes and no hook blocks.
  pub execute_calls-ran :
      (allowed : Option (List String)) (calls : List (ToolCall J))
      → Option.map (map (λ (f : Finished J). f.ran)) (execute_calls self allowed calls)
        ≡ some (map (may_run allowed) calls)
  execute_calls-ran allowed calls =
      rw (execute_calls-in_order self allowed calls) (gather-ran allowed calls)
