-- ===== src/Runtime/AgentLoop/Rounds.antt =====
-- runtime/agent_loop.py, `run`: the rounds of a turn. Of what comes before the rounds, the registry
-- with an added tool is `scoped_tools`; the choice of the model and the runner is the caller's.
-- `tool_records` shares its records with the messages of the round, so a refused attachment shows in
-- both.
use turning_good_agent.Prelude.{
  ℕ, zero, suc, String, string_eq, Bool, true, false, Option, none, some, List, [], ◌∷◌, ◌++◌, map,
  length, if◌then◌else◌,
}
use turning_good_agent.Prelude.Result.{Result, ok, raise}
use turning_good_agent.Prelude.Text.{append_text, is_empty, strip, show}
use turning_good_agent.Prelude.Action.{done, throw, ◌>>=◌, ◌>>◌, current, modify}
use turning_good_agent.Tools.{Tool, ToolRegistry, empty_registry, register, tool_names, join}
use turning_good_agent.Prelude.Dict.{get}
use turning_good_agent.Runtime.Attachments.{text_message, CallRecord}
use turning_good_agent.Runtime.AgentLoop.{
  Raised, cancelled_error, timeout_error, exception, Delegation, Surroundings, parent_finished,
  AgentLoopResult, LoopState, Step, Round,
}
use turning_good_agent.Runtime.AgentLoop.Complete.{await, multi_agent_deadline_expired, note}

-- The registry with one more tool, which only this turn sees.
unfoldable pub register_all :
    {J : Type 0} → List String → ToolRegistry J → ToolRegistry J → ToolRegistry J
unfolding register
register_all [] source scoped = scoped
register_all (name ∷ names) source scoped =
    register_all names source
      (elim (get name source.tools) [ some tool ↦ register tool scoped | none ↦ scoped ])

unfoldable pub scoped_tools : {J : Type 0} → ToolRegistry J → Tool J → ToolRegistry J
unfolding register_all register tool_names
scoped_tools active_tools attachment_tool =
    register attachment_tool (register_all (tool_names active_tools) active_tools empty_registry)

abbrev pub replace_at : {X : Type 0} → ℕ → X → List X → List X
replace_at n x [] = []
replace_at zero x (y ∷ ys) = x ∷ ys
replace_at (suc n) x (y ∷ ys) = y ∷ replace_at n x ys

abbrev pub guidance_text : String → String
guidance_text text =
    append_text "【用户正在引导当前任务】\n用户在任务执行中补充了以下方向。请在系统约束和安全审批不变的前提下调整后续计划；不要重复已经完成的操作。\n\n" text

abbrev pub tool_round_limit_summary_prompt : String
tool_round_limit_summary_prompt =
    "工具调用轮数已达到上限。请基于当前对话和已有工具结果，总结本次任务已经完成的处理结果。不要继续调用工具，不要只说明达到上限。只能输出自然语言最终答案。"

abbrev pub timed_out_text : String
timed_out_text = "Multi-Agent 协作已超时。"

unfoldable pub tool_round_limit_fallback : {J : Type 0} → List (CallRecord J) → String
unfolding join show
tool_round_limit_fallback {J} tool_records =
    let names = join ", " (map (λ (r : CallRecord J). r.tool_name) tool_records) in
    append_text "工具调用轮数已达到上限，已完成 " (
      append_text (show (length tool_records)) (
        append_text " 次工具调用（" (
          append_text (if is_empty names then "无" else names)
            "）。模型未能生成最终总结，可使用 /tools 查看本轮完整工具结果。")))

module _ {W J A : Type 0} (env : Surroundings W J A) where
  -- `finish_multi_agent`
  unfoldable pub finish_parent : Option (Delegation W J A) → String → Bool → Step W J A (Unit {0})
  finish_parent none outcome finished = done tt
  finish_parent (some invocation) outcome true = done tt
  finish_parent (some invocation) outcome false =
      modify (λ (s : LoopState W J A).
        note env (parent_finished outcome) (record s { invocation_finished = true }))
      >> await env (invocation.finish_parent_turn outcome)

  unfoldable pub finish_multi_agent : String → Step W J A (Unit {0})
  finish_multi_agent outcome = current >>= λ (s : LoopState W J A).
      finish_parent env.invocation outcome s.invocation_finished

  abbrev pub result_of : String → Bool → LoopState W J A → AgentLoopResult J
  result_of final_content is_cancelled s = record {
    final_content = final_content;
    messages = s.working;
    tool_calls = s.tool_records;
    usage = s.usage;
    loaded_skill_names = s.attachments.skill_names;
    loaded_skill_token_count = s.attachments.skill_tokens;
    consumed_guidance = s.consumed_guidance;
    cancelled = is_cancelled;
  }

  unfoldable pub finish : String → Bool → String → Step W J A (AgentLoopResult J)
  finish final_content is_cancelled outcome =
      finish_multi_agent outcome
      >> (current >>= λ (s : LoopState W J A). done (result_of final_content is_cancelled s))

  unfoldable pub ends : String → Bool → String → Round W J A
  ends final_content is_cancelled outcome =
      finish final_content is_cancelled outcome >>= λ r. done (some r)

  abbrev pub cancels : String → Round W J A
  cancels final_content = ends final_content true "cancelled"

  abbrev pub times_out : Round W J A
  times_out = ends timed_out_text false "timed_out"

  -- The handlers of the three `except` clauses.
  unfoldable pub fail_with : Raised → Round W J A
  fail_with cancelled_error = finish_multi_agent "cancelled" >> throw cancelled_error
  fail_with timeout_error = times_out
  fail_with (exception text) = finish_multi_agent "failed" >> throw (exception text)

  abbrev pub or_fail :
      {B : Type 0}
      → Result Raised B × LoopState W J A
      → (B → Round W J A)
      → Result Raised (Option (AgentLoopResult J)) × LoopState W J A
  or_fail (ok b, s) next = next b s
  or_fail (raise e, s) next = fail_with e s

  -- `try: b = await m`, then the rest of the round.
  unfoldable pub trying : {B : Type 0} → Step W J A B → (B → Round W J A) → Round W J A
  trying m next s = or_fail (m s) next

  -- The texts of the guidance, without the empty ones.
  unfoldable pub guide : List String → LoopState W J A → LoopState W J A
  unfolding strip is_empty
  guide [] s = s
  guide (content ∷ guidance) s =
      let text = strip content in
      guide guidance (
        if is_empty text then s else record s {
          consumed_guidance = s.consumed_guidance ++ text ∷ [];
          working =
              s.working
              ++ text_message (record { role = "user"; content = guidance_text text }) ∷ [];
        })

  -- `_apply_turn_control`: whether the turn is to stop.
  unfoldable pub apply_turn_control : Step W J A Bool
  apply_turn_control = current >>= λ (s : LoopState W J A).
      if env.is_stop_requested s.channel_adapter s.world
      then done true
      else (await env (env.consume_guidance s.channel_adapter) >>= λ guidance.
          modify (guide guidance) >> done false)

  abbrev pub check_invocation :
      Option (Delegation W J A) → LoopState W J A → Step W J A (Option String)
  check_invocation none s = done none
  check_invocation (some invocation) s =
      await env (invocation.check_parent_synthesis s.working s.openai_tools)

  abbrev pub go_on : Round W J A → Option String → Round W J A
  go_on next (some context_error) = ends context_error false "failed"
  go_on next none = next

  -- The checks of the delegation, before and after the calls of a round.
  unfoldable pub safe_point : Round W J A → Round W J A
  safe_point next = current >>= λ (s : LoopState W J A).
      if multi_agent_deadline_expired env s.world
      then times_out
      else check_invocation env.invocation s >>= go_on next

  abbrev pub stop_or : String → Round W J A → Bool → Round W J A
  stop_or final_content next true = cancels final_content
  stop_or final_content next false = next
