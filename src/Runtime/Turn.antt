-- ===== src/Runtime/Turn.antt =====
-- Turning-Good-Agent/runtime/state.py and `_run_turn_bound` of runtime/runtime.py: one turn as a
-- state machine, with `im_command_rejection` of channels/policy.py. What the handlers await is the
-- environment's: each call returns a value or raises an exception with a text. A handler that
-- raises keeps what it has changed. The handlers' contexts, stores and hooks beyond what is kept
-- here, and the durations in the trace, are not modelled. `save_remaining_traces` is left out.
pub mod Frames
pub mod Path
pub mod Silent
use text.Mathlib.Text.{starts_with}
use turning_good_agent.Prelude.{
  ℕ, zero, suc, ◌+◌, String, Bool, true, false, not, ◌&&◌, ◌||◌, Option, none, some, List, [], ◌∷◌,
  ◌++◌, ltb, ◌==◌, string_eq, if◌then◌else◌,
}
use turning_good_agent.Prelude.Text.{append_text, is_empty, strip}
use turning_good_agent.Sessions.{
  MessageRecord, Session, is_nonempty, count_content_tokens, build_session_context,
}
use turning_good_agent.Memory.{ShortTermMemory, CompactionPlan, plan_compaction}

pub data TurnState : Type 0 where
  in_command in_session in_build in_run in_compact in_save in_respond : TurnState

pub data Event : Type 0 where
  ok shortcut rejected error : Event

-- None for the pairs that `_TRANSITIONS` lacks, where Python raises a `KeyError`.
unfoldable pub next_state : TurnState → Event → Option (Option TurnState)
next_state in_respond error = some none
next_state _ error = some (some in_respond)
next_state in_command ok = some (some in_session)
next_state in_command shortcut = some (some in_respond)
next_state in_session ok = some (some in_build)
next_state in_build ok = some (some in_run)
next_state in_build rejected = some (some in_respond)
next_state in_run ok = some (some in_compact)
next_state in_compact ok = some (some in_save)
next_state in_save ok = some (some in_respond)
next_state in_respond ok = some none
next_state _ _ = none

-- `str(exc)` of an exception is its text.
pub data Attempt (A : Type 0) : Type 0 where
  returns : A → Attempt A
  raises : String → Attempt A

-- What SAVE hands to the stores and the event bus.
pub data Write : Type 0 where
  session_title : String → Write
  user_message : String → Write
  assistant_message : String → Bool → Write
  session_summary : String → Write
  session_history : List MessageRecord → Write
  tool_calls token_usage : Write
  conversation_completed : Bool → Write

pub data Reply : Type 0 where
  error_reply : String → Reply
  completed_reply : String → Bool → Reply

pub record TurnContext : Type 0 where
  pub state : TurnState
  pub channel : String
  pub content : String
  pub session : Option Session
  pub uncompacted_history : List MessageRecord
  pub final_content : String
  pub shortcut_response : Option String
  pub consumed_guidance : List String
  pub cancelled : Bool
  pub llm_usage : Option ℕ
  pub true_token_usage : Bool
  pub error : Option String
  pub outbound : Option Reply
  pub trace : List (TurnState × Event)
  pub saved : List Write

unfoldable pub new_turn : String → String → TurnContext
new_turn channel content = record {
  state = in_command;
  channel = channel;
  content = content;
  session = none;
  uncompacted_history = [];
  final_content = "";
  shortcut_response = none;
  consumed_guidance = [];
  cancelled = false;
  llm_usage = none;
  true_token_usage = false;
  error = none;
  outbound = none;
  trace = [];
  saved = [];
}

pub record AgentLoopResult : Type 0 where
  pub final_content : String
  pub consumed_guidance : List String
  pub usage : Option ℕ
  pub cancelled : Bool

-- How `_multi_agent_invocation` ends: with a `ValueError`, which BUILD catches, or another one.
pub data Invocation : Type 0 where
  invoked : Invocation
  value_error : String → Invocation
  other_error : String → Invocation

pub record Environment : Type 0 where
  pub handle_command : Attempt (Option String)
  pub cleanup : Attempt (Unit {0})
  pub load : Attempt Session
  pub all_messages : Attempt (List MessageRecord)
  pub provisional : Invocation
  pub current_context_tokens : List MessageRecord → Attempt ℕ
  pub max_context_tokens : ℕ
  pub has_images : Bool
  pub supports_vision : Bool
  pub invocation : Attempt (Unit {0})
  pub build_messages : Attempt (Unit {0})
  pub agent_loop : Attempt AgentLoopResult
  pub memory : ShortTermMemory
  pub compact_context_tokens : List MessageRecord → Attempt ℕ
  pub summarise : List MessageRecord → Attempt (String × ℕ)
  pub record_usage : Attempt (Unit {0})
  pub write : Write → Attempt (Unit {0})
  pub short_title : String → String
  pub message : String → String → MessageRecord

-- A piece of a handler: it reads and changes the context, and returns or raises.
abbrev pub Handler : Type 0 → Type 0
Handler A = TurnContext → Attempt A × TurnContext

abbrev pub and_then :
    {A B : Type 0} → Attempt A × TurnContext → (A → Handler B) → Attempt B × TurnContext
and_then (returns a, ctx) f = f a ctx
and_then (raises e, ctx) f = (raises e, ctx)

infixl 5 ◌>>=◌ ◌>>◌
unfoldable pub ◌>>=◌ : {A B : Type 0} → Handler A → (A → Handler B) → Handler B
(h >>= f) ctx = and_then (h ctx) f

unfoldable pub ◌>>◌ : {B : Type 0} → Handler (Unit {0}) → Handler B → Handler B
(h >> k) ctx = and_then (h ctx) (λ _. k)

unfoldable pub done : {A : Type 0} → A → Handler A
done a ctx = (returns a, ctx)

-- An awaited call of the environment.
unfoldable pub call : {A : Type 0} → Attempt A → Handler A
call attempt ctx = (attempt, ctx)

unfoldable pub modify : (TurnContext → TurnContext) → Handler (Unit {0})
modify f ctx = (returns tt, f ctx)

unfoldable pub current : Handler TurnContext
current ctx = (returns ctx, ctx)

unfoldable pub when : Bool → Handler (Unit {0}) → Handler (Unit {0})
when b h ctx = if b then h ctx else (returns tt, ctx)

abbrev pub is_none : {A : Type 0} → Option A → Bool
is_none none = true
is_none (some a) = false

abbrev pub is_im_channel : String → Bool
is_im_channel channel = channel == "feishu" || channel == "weixin"

unfoldable pub im_command_rejection : String → String → Option String
unfolding strip
im_command_rejection channel content =
    let command = strip content in
    if not (is_im_channel channel)
    then none
    else if command == "/new"
    then some "当前 IM 渠道不支持 /new。如需清空当前话题，请发送 /clear。"
    else if command == "/exit"
    then some "当前 IM 渠道不支持 /exit。"
    else if starts_with command "/approve"
    then some "当前 IM 渠道不支持工具审批。请在 Web 或 CLI 中操作。"
    else if command == "/multi" || starts_with command "/multi "
    then some "当前 IM 渠道不支持 /multi 命令。请在 Web 或 CLI 中操作。"
    else none

-- A reply without the model.
abbrev pub answer : Option String → Handler Event
answer none = done ok
answer (some text) =
    modify (λ (c : TurnContext). record c { shortcut_response = some text; final_content = text })
    >> done shortcut

-- COMMAND, once the channel's rejection is known.
unfoldable pub command_after : Environment → Option String → Handler Event
command_after env (some rejection) = answer (some rejection)
command_after env none = call env.handle_command >>= answer

unfoldable pub command : Environment → Handler Event
command env = do ctx ← current; command_after env (im_command_rejection ctx.channel ctx.content)

unfoldable pub session : Environment → Handler Event
session env = do
  u ← call env.cleanup
  loaded ← call env.load
  u' ← modify (λ (c : TurnContext). record c { session = some loaded })
  done ok

-- `ctx.error = error`, with the reply that says so.
abbrev pub reject : String → Handler Event
reject reason =
    modify (λ (c : TurnContext). record c {
      error = some reason;
      final_content = append_text "请求失败：" reason;
    })
    >> done rejected

-- BUILD behind the check of the invocation.
unfoldable pub build_checked : Environment → Handler Event
build_checked env = do
  ctx ← current
  tokens ← call (env.current_context_tokens ctx.uncompacted_history)
  if ltb env.max_context_tokens tokens
      then reject "上下文过大，已拒绝本轮请求。请先清理会话或提高 max_context_tokens。"
      else if env.has_images && not env.supports_vision
      then reject "当前 active LLM 不支持图片理解，请移除图片或切换支持视觉的模型。"
      else (call env.invocation >> call env.build_messages >> done ok)

unfoldable pub build_session : Environment → Session → Handler Event
build_session env loaded = do
  messages ← call env.all_messages
  u ← modify (λ (c : TurnContext). record c {
    uncompacted_history = (build_session_context loaded messages).uncompacted_history;
  })
  elim env.provisional [
    | invoked ↦ build_checked env
    | value_error reason ↦ reject reason
    | other_error reason ↦ call (raises reason)
  ]

unfoldable pub build : Environment → Handler Event
build env = do
  ctx ← current
  elim ctx.session [
    | none ↦ call (raises "BUILD 缺少已加载的 session。")
    | some loaded ↦ build_session env loaded
  ]

unfoldable pub run : Environment → Handler Event
run env = do
  ctx ← current
  u ← when (is_none ctx.session) (call (raises "RUN 缺少已加载的 session。"))
  result ← call env.agent_loop
  u' ← modify (λ (c : TurnContext). record c {
    final_content = result.final_content;
    llm_usage = result.usage;
    consumed_guidance = result.consumed_guidance;
    cancelled = result.cancelled;
  })
  done ok

abbrev pub user_records : Environment → List String → List MessageRecord
user_records env [] = []
user_records env (content ∷ contents) = env.message "user" content ∷ user_records env contents

-- Whether the turn has an assistant message: a cancelled turn without text has none.
abbrev pub has_reply : TurnContext → Bool
has_reply ctx = not (is_empty ctx.final_content) || not ctx.cancelled

unfoldable pub build_virtual_history : Environment → TurnContext → Attempt (List MessageRecord)
build_virtual_history env ctx = elim ctx.llm_usage [
  | none ↦ raises "本轮 LLM 响应缺少 usage，无法执行 COMPACT。"
  | some usage ↦ returns (
      ctx.uncompacted_history
      ++ user_records env (ctx.content ∷ ctx.consumed_guidance)
      ++ (if has_reply ctx then env.message "assistant" ctx.final_content ∷ [] else []))
]

abbrev pub used_tokens : Option ℕ → ℕ
used_tokens none = 0
used_tokens (some n) = n

-- `ctx.true_token_usage = await build_true_token_usage(...)`, unless nothing was used.
unfoldable pub note_usage : Environment → Handler (Unit {0})
note_usage env = do
  ctx ← current
  when (not ctx.cancelled || ltb 0 (used_tokens ctx.llm_usage)) (do
    u ← call env.record_usage
    modify (λ (c : TurnContext). record c { true_token_usage = true }))

abbrev pub with_history : Session → List MessageRecord → TurnContext → TurnContext
with_history loaded history c = record c {
  session = some (record loaded { uncompacted_history = history });
}

abbrev pub with_summary : Session → String → List MessageRecord → ℕ → TurnContext → TurnContext
with_summary loaded summary window usage c = record c {
  llm_usage = some (used_tokens c.llm_usage + usage);
  session = some (record loaded { summary = summary; uncompacted_history = window });
}

unfoldable pub compact_session : Environment → Session → Handler Event
compact_session env loaded = do
  ctx ← current
  history ← call (build_virtual_history env ctx)
  tokens ← call (env.compact_context_tokens history)
  let plan = plan_compaction env.memory history (ltb env.max_context_tokens tokens) in
      if not plan.should_compact || not (is_nonempty plan.compact_source)
      then (modify (with_history loaded history) >> note_usage env >> done ok)
      else (do
        made ← call (env.summarise plan.compact_source)
        u ← modify (with_summary loaded made.0 plan.recent_window made.1)
        u' ← note_usage env
        done ok)

unfoldable pub compact : Environment → Handler Event
compact env = do
  ctx ← current
  elim ctx.session [ none ↦ done ok | some loaded ↦ compact_session env loaded ]

-- One write: it is made, or it raises and is not.
abbrev pub save_write : Environment → Write → Handler (Unit {0})
save_write env w =
    call (env.write w) >> modify (λ (c : TurnContext). record c { saved = c.saved ++ w ∷ [] })

unfoldable pub save_guidance : Environment → List String → Handler (Unit {0})
save_guidance env [] = done tt
save_guidance env (guidance ∷ rest) =
    save_write env (user_message guidance) >> save_guidance env rest

abbrev pub save_title : Environment → Option Session → String → Handler (Unit {0})
save_title env none content = done tt
save_title env (some loaded) content =
    let title = env.short_title content in
    when (loaded.title == loaded.id && not (is_empty title)) (save_write env (session_title title))

abbrev pub save_session : Environment → Option Session → Handler (Unit {0})
save_session env none = done tt
save_session env (some loaded) =
    save_write env (session_summary loaded.summary)
    >> save_write env (session_history loaded.uncompacted_history)

-- The writes of SAVE, for the context that it begins with.
unfoldable pub save_all : Environment → TurnContext → Handler Event
save_all env ctx = do
  u ← save_title env ctx.session ctx.content
  u ← save_write env (user_message ctx.content)
  u ← save_guidance env ctx.consumed_guidance
  u ← when (has_reply ctx) (save_write env (assistant_message ctx.final_content ctx.cancelled))
  u ← save_session env ctx.session
  u ← save_write env tool_calls
  u ← when ctx.true_token_usage (save_write env token_usage)
  u ← save_write env (conversation_completed (not ctx.cancelled))
  done ok

unfoldable pub save : Environment → Handler Event
save env = do
  ctx ← current
  u ← when (is_none ctx.llm_usage) (call (raises "本轮 LLM 响应缺少 usage，无法写入 true_token_usage.jsonl。"))
  u ←
      when (not ctx.true_token_usage && not ctx.cancelled)
        (call (raises "本轮缺少 true_token_usage，无法执行 SAVE。"))
  save_all env ctx

-- `if ctx.error`: none and the empty text are false.
abbrev pub has_error : Option String → Bool
has_error none = false
has_error (some text) = not (is_empty text)

abbrev pub reply_of : TurnContext → Reply
reply_of ctx =
    if has_error ctx.error
    then error_reply ctx.final_content
    else completed_reply ctx.final_content ctx.cancelled

unfoldable pub respond : Handler Event
respond = modify (λ (c : TurnContext). record c { outbound = some (reply_of c) }) >> done ok

-- `run_state`
unfoldable pub run_state : Environment → TurnState → Handler Event
run_state env in_command = command env
run_state env in_session = session env
run_state env in_build = build env
run_state env in_run = run env
run_state env in_compact = compact env
run_state env in_save = save env
run_state env in_respond = respond

-- The `try` of the loop: an exception becomes the event `error`.
unfoldable pub settle : Attempt Event × TurnContext → Event × TurnContext
settle (returns event, ctx) = (event, ctx)
settle (raises text, ctx) =
    (error, record ctx { error = some text; final_content = append_text "请求失败：" text })

abbrev pub traced : Event → TurnContext → TurnContext
traced event ctx = record ctx { trace = ctx.trace ++ (ctx.state, event) ∷ [] }

abbrev pub move : TurnState → TurnContext → TurnContext
move state ctx = record ctx { state = state }

-- The `while` loop. None when the fuel ends, or where `next_state` raises.
unfoldable pub turn_loop : ℕ → Environment → TurnContext → Option TurnContext
turn_loop zero env ctx = none
turn_loop (suc fuel) env ctx =
    let (event, after) = settle (run_state env ctx.state ctx) in
    elim (next_state after.state event) [
      | none ↦ none
      | some none ↦ some (traced event after)
      | some (some state) ↦ turn_loop fuel env (move state (traced event after))
    ]

unfoldable pub run_turn : Environment → String → String → Option TurnContext
run_turn env channel content = turn_loop 7 env (new_turn channel content)
