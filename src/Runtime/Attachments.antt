-- ===== src/Runtime/Attachments.antt =====
-- Turning-Good-Agent/tools/context_attachment.py and runtime/attachment_manager.py: the messages that
-- a tool adds to the context of one turn, and their budgets. A message of an attachment is its role
-- and its content. Fields have the type that the source expects, but for the numbers, where none
-- stands for what is no natural number, and for an attachment that is another object.
pub mod Budgets
pub mod Spent
use text.Mathlib.Text.{starts_with}
use turning_good_agent.Prelude.{
  ℕ, ◌+◌, String, Bool, true, false, not, ◌&&◌, ◌||◌, Option, none, some, List, [], ◌∷◌, ◌++◌, map,
  length, any, total, contains, ltb, leb, nat_beq, ◌==◌, string_eq, if◌then◌else◌,
}
use turning_good_agent.Prelude.Text.{append_text, show}
use turning_good_agent.Sessions.{count_content_tokens}
use turning_good_agent.Hooks.{ToolCall}

pub record Spoken : Type 0 where
  pub role : String
  pub content : String

pub record ContextAttachment : Type 0 where
  pub source : String
  pub messages : List Spoken
  pub token_count : Option ℕ
  pub kind : String
  pub verified : Bool

-- What stands under "context_attachment": an attachment, or an object of another class.
pub data ContextObject : Type 0 where
  context_attachment : ContextAttachment → ContextObject
  other_object : ContextObject

pub record Metadata : Type 0 where
  pub loaded_skill_name : Option String
  pub loaded_skill_token_count : Option ℕ

-- The record of a finished call, as the loop reads it.
pub record CallRecord (J : Type 0) : Type 0 where
  pub tool_name : String
  pub args : J
  pub content : String
  pub error : Option String
  pub tool_call_id : String
  pub metadata : Option Metadata
  pub attachment : Option ContextObject

-- A message of the conversation with the model.
pub data Message (J : Type 0) : Type 0 where
  text_message : Spoken → Message J
  assistant_tool_message : String → List (ToolCall J) → Option String → Message J
  tool_message : String → String → String → Message J

pub record Limits : Type 0 where
  pub max_context_tokens : ℕ
  pub mcp_token_limit : ℕ
  pub max_loaded_skills_per_turn : ℕ
  pub max_skill_tokens : ℕ
  pub max_loaded_skill_tokens_per_turn : ℕ

pub record AttachmentManager : Type 0 where
  pub tool_schema_tokens : ℕ
  pub mcp_tokens : ℕ
  pub skill_names : List String
  pub skill_tokens : ℕ

abbrev pub limit_text : String → ℕ → String → String
limit_text front limit back = append_text front (append_text (show limit) back)

abbrev pub skill_role : ContextAttachment → Bool
skill_role a = a.kind == "skill" && a.verified && starts_with a.source "skill:"

abbrev pub allowed_roles : ContextAttachment → List String
allowed_roles a =
    if skill_role a then "system" ∷ "user" ∷ "assistant" ∷ [] else "user" ∷ "assistant" ∷ []

unfoldable pub validate_loaded :
    Limits → AttachmentManager → ContextAttachment → Option String → Option ℕ → Option String
validate_loaded limits self a none body = some "Skill 附件来源无效"
validate_loaded limits self a (some name) none =
    if not (a.source == append_text "skill:" name)
    then some "Skill 附件来源无效"
    else some "Skill 附件 token 元数据无效"
validate_loaded limits self a (some name) (some body_tokens) =
    if not (a.source == append_text "skill:" name)
    then some "Skill 附件来源无效"
    else if leb limits.max_loaded_skills_per_turn (length self.skill_names)
    then some (limit_text "本轮最多加载 " limits.max_loaded_skills_per_turn " 个 Skill")
    else if ltb limits.max_skill_tokens body_tokens
    then some (limit_text "单个 Skill 超过 " limits.max_skill_tokens " tokens 限制")
    else if ltb limits.max_loaded_skill_tokens_per_turn (self.skill_tokens + body_tokens)
    then some (limit_text "本轮已加载 Skill 总量超过 " limits.max_loaded_skill_tokens_per_turn " tokens 限制")
    else none

unfoldable pub validate_skill :
    Limits → AttachmentManager → ContextAttachment → Option Metadata → Option String
validate_skill limits self a none = some "Skill 附件缺少加载元数据"
validate_skill limits self a (some m) =
    validate_loaded limits self a m.loaded_skill_name m.loaded_skill_token_count

-- The first error, as `if error is not None: return error` chains them.
abbrev pub or_next : Option String → Option String → Option String
or_next (some error) next = some error
or_next none next = next

-- `message.get("content", "")`
abbrev pub content_of : {J : Type 0} → Message J → String
content_of (text_message m) = m.content
content_of (assistant_tool_message content calls reasoning) = content
content_of (tool_message id name content) = content

-- `attachment.token_count`, which the checks before have found to be a number.
abbrev pub counted : ContextAttachment → ℕ
counted a = elim a.token_count [ some n ↦ n | none ↦ 0 ]

abbrev pub loaded_name : Option Metadata → String
loaded_name none = ""
loaded_name (some m) = elim m.loaded_skill_name [ some name ↦ name | none ↦ "" ]

abbrev pub loaded_tokens : Option Metadata → ℕ
loaded_tokens none = 0
loaded_tokens (some m) = elim m.loaded_skill_token_count [ some n ↦ n | none ↦ 0 ]

-- Only what `check` let pass is committed, so the numbers and the names are there.
unfoldable pub commit :
    {J : Type 0}
    → AttachmentManager
    → Option ContextObject
    → CallRecord J
    → List (Message J)
    → AttachmentManager × List (Message J)
commit self none call_record working = (self, working)
commit self (some other_object) call_record working = (self, working)
commit self (some (context_attachment a)) call_record working = (
  if a.kind == "mcp"
      then record self { mcp_tokens = self.mcp_tokens + counted a }
      else record self {
        skill_names = self.skill_names ++ loaded_name call_record.metadata ∷ [];
        skill_tokens = self.skill_tokens + loaded_tokens call_record.metadata;
      },
  working ++ map text_message a.messages,
)

module _ (encoded_length : String → ℕ) where
  abbrev pub spoken_tokens : Spoken → ℕ
  spoken_tokens m = count_content_tokens encoded_length m.content

  -- The checks from the declared count on.
  unfoldable pub validate_count : ContextAttachment → ℕ → ℕ → Option ℕ → Option String
  validate_count a used_tokens token_limit none = some "本轮上下文附件格式无效"
  validate_count a used_tokens token_limit (some token_count) =
      if any (λ (m : Spoken). not (contains m.role (allowed_roles a))) a.messages
      then some "本轮上下文附件只允许 user 或 assistant 文本消息"
      else if not (nat_beq (total spoken_tokens a.messages) token_count)
      then some "本轮上下文附件 token 计数不一致"
      else if ltb token_limit (used_tokens + token_count)
      then some (limit_text "本轮上下文附件总量超过 " token_limit " tokens 限制")
      else none

  unfoldable pub validate_context_attachment : ContextObject → ℕ → ℕ → Option String
  validate_context_attachment other_object used_tokens token_limit = some "本轮上下文附件格式无效"
  validate_context_attachment (context_attachment a) used_tokens token_limit =
      if not (a.kind == "mcp" || a.kind == "skill")
      then some "本轮上下文附件类型无效"
      else validate_count a used_tokens token_limit a.token_count

  abbrev pub message_tokens : {J : Type 0} → List (Message J) → ℕ
  message_tokens = total (λ m. count_content_tokens encoded_length (content_of m))

  unfoldable pub validate_context_budget :
      {J : Type 0}
      → Limits
      → AttachmentManager
      → ContextAttachment
      → List (Message J)
      → Option String
  validate_context_budget limits self a working =
      if ltb limits.max_context_tokens
        (message_tokens working + self.tool_schema_tokens + counted a)
      then some (limit_text "追加附件后上下文超过 " limits.max_context_tokens " tokens 限制")
      else none

  -- `_validate` of an attachment of either class; another object counts as "mcp".
  unfoldable pub check :
      {J : Type 0}
      → Limits
      → AttachmentManager
      → Option ContextObject
      → CallRecord J
      → List (Message J)
      → Option String
  check limits self none call_record working = none
  check limits self (some other_object) call_record working =
      validate_context_attachment other_object self.mcp_tokens limits.mcp_token_limit
  check limits self (some (context_attachment a)) call_record working =
      or_next
        (validate_context_attachment (context_attachment a)
          (if a.kind == "mcp" then self.mcp_tokens else 0)
          (if a.kind == "mcp" then limits.mcp_token_limit else limits.max_context_tokens))
        (or_next
          (if a.kind == "skill" then validate_skill limits self a call_record.metadata else none)
          (validate_context_budget limits self a working))
