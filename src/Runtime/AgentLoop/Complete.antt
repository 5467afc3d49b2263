-- ===== src/Runtime/AgentLoop/Complete.antt =====
-- runtime/agent_loop.py, `_complete` and `await_multi_agent_deadline`: one answer of the model,
-- streamed or not, and the deadline on what is awaited.
use turning_good_agent.Prelude.{
  ℕ, ◌-◌, String, Bool, false, not, ◌&&◌, Option, none, some, List, [], ◌∷◌, ◌++◌, leb, nat_beq,
  if◌then◌else◌,
}
use turning_good_agent.Prelude.Result.{Result, ok, raise}
use turning_good_agent.Prelude.Text.{is_empty}
use turning_good_agent.Prelude.Action.{and_then, done}
use turning_good_agent.Sessions.{is_nonempty}
use turning_good_agent.Hooks.{ToolCall, truthy}
use turning_good_agent.Llm.{LlmUsage, no_usage, add_usage, LlmResponse, LlmChunk}
use turning_good_agent.Tools.{ToolSchema, join}
use turning_good_agent.Runtime.Attachments.{Message}
use turning_good_agent.Runtime.AgentLoop.{
  Raised, timeout_error, exception, Call, Stream, ended, broken, yields, Delegation, Surroundings,
  Effect, LoopState, Step,
}

-- The variables of `_complete`.
pub record Collected (J : Type 0) : Type 0 where
  pub content_parts : List String
  pub tool_calls : List (ToolCall J)
  pub usage : LlmUsage
  pub protocol_error : Option String

abbrev pub or_keep : Option String → Option String → Option String
or_keep (some new) old = some new
or_keep none old = old

unfoldable pub add_chunk : {J : Type 0} → LlmChunk J → Collected J → Collected J
unfolding is_empty
add_chunk chunk c = record {
  content_parts =
      if is_empty chunk.delta_text
      then c.content_parts
      else c.content_parts ++ chunk.delta_text ∷ [];
  tool_calls = if is_nonempty chunk.tool_calls then chunk.tool_calls else c.tool_calls;
  usage = add_usage c.usage chunk.usage;
  protocol_error = or_keep (truthy chunk.protocol_error) c.protocol_error;
}

unfoldable pub response_of : {J : Type 0} → Collected J → Result Raised (LlmResponse J)
unfolding join
response_of c =
    if nat_beq c.usage.total_tokens 0
    then raise (exception "流式 LLM 响应缺少 usage，无法保存本轮结果。")
    else ok (record {
      content = join "" c.content_parts;
      tool_calls = c.tool_calls;
      usage = some c.usage;
      protocol_error = c.protocol_error;
      reasoning_content = none;
    })

module _ {W J A : Type 0} (env : Surroundings W J A) where
  -- The delta of one chunk, to the channel.
  abbrev pub send : Bool → A → LlmChunk J → Call W (Unit {0})
  send emit_deltas adapter chunk =
      if not (is_empty chunk.delta_text) && emit_deltas
      then env.on_delta adapter chunk.delta_text
      else done tt

  unfoldable pub collect : Bool → A → Collected J → Stream W J → Result Raised (Collected J) × W
  collect emit_deltas adapter c (ended w) = (ok c, w)
  collect emit_deltas adapter c (broken e w) = (raise e, w)
  collect emit_deltas adapter c (yields chunk w rest) =
      and_then (send emit_deltas adapter chunk w)
        (λ u w'. collect emit_deltas adapter (add_chunk chunk c) (rest w'))

  abbrev pub respond : Collected J → Call W (LlmResponse J)
  respond c w = (response_of c, w)

  unfoldable pub complete_streamed :
      Bool
      → A
      → Option (List (Message J) → List (ToolSchema J) → W → Stream W J)
      → List (Message J)
      → List (ToolSchema J)
      → Call W (LlmResponse J)
  unfolding collect
  complete_streamed emit_deltas adapter none messages tools w = env.complete messages tools w
  complete_streamed emit_deltas adapter (some stream) messages tools w =
      and_then
        (collect emit_deltas adapter
          (record { content_parts = []; tool_calls = []; usage = no_usage; protocol_error = none })
          (stream messages tools w))
        respond

  unfoldable pub complete :
      Bool → List (Message J) → List (ToolSchema J) → A → Call W (LlmResponse J)
  complete emit_deltas messages tools adapter =
      if not env.streaming_enabled
      then env.complete messages tools
      else complete_streamed emit_deltas adapter env.stream messages tools

  -- What an awaited call leaves.
  abbrev pub settled :
      {B : Type 0} → LoopState W J A → Result Raised B × W → Result Raised B × LoopState W J A
  settled s r = (r.0, record s { world = r.1 })

  abbrev pub note : Effect J → LoopState W J A → LoopState W J A
  note effect s = record s { log = s.log ++ effect ∷ [] }

  unfoldable pub await : {B : Type 0} → Call W B → Step W J A B
  await m s = settled s (m s.world)

  -- `asyncio.wait_for`
  unfoldable pub wait_for : {B : Type 0} → ℕ → Call W B → Call W B
  wait_for remaining m w = elim (env.times_out remaining w) [
    | some w' ↦ (raise timeout_error, w')
    | none ↦ m w
  ]

  abbrev pub deadline_of : Option (Delegation W J A) → W → Option ℕ
  deadline_of none w = none
  deadline_of (some invocation) w = invocation.deadline_monotonic w

  -- A call under the deadline; the effect is noted when the call is started.
  unfoldable pub await_until : {B : Type 0} → Option ℕ → Effect J → Call W B → Step W J A B
  await_until none effect m s = await m (note effect s)
  await_until (some deadline) effect m s =
      if leb deadline (env.time s.world)
      then (raise timeout_error, s)
      else await (wait_for (deadline - env.time s.world) m) (note effect s)

  unfoldable pub await_multi_agent_deadline : {B : Type 0} → Effect J → Call W B → Step W J A B
  await_multi_agent_deadline effect m s =
      await_until (deadline_of env.invocation s.world) effect m s

  unfoldable pub multi_agent_deadline_expired : W → Bool
  multi_agent_deadline_expired w = elim (deadline_of env.invocation w) [
    | none ↦ false
    | some deadline ↦ leb deadline (env.time w)
  ]
