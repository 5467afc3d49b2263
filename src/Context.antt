-- ===== src/Context.antt =====
-- Turning-Good-Agent/context/token_budget.py: the breakdown of the tokens of a context. The texts
-- that other modules render (the system prompt, the catalogue of skills, the profile and the JSON
-- of the tool schemas) are arguments, and so is the length of the tokenizer's encoding.
pub mod Budget
mod Samples
use mathlib.Core.Option
use turning_good_agent.Prelude.{
  ℕ, ◌+◌, String, Bool, true, false, ◌&&◌, Option, none, some, List, [], ◌∷◌, total, ◌==◌,
  string_eq, if◌then◌else◌,
}
use turning_good_agent.Prelude.Text.{append_text, is_empty}
use turning_good_agent.Sessions.{MessageRecord, count_content_tokens, count_message_tokens}

-- What a context holds beside the history and the current turn.
pub record Surroundings : Type 0 where
  pub skill_catalog : String
  pub system_prompt : String
  pub profile_memory : List String
  pub summary : String
  pub tool_schemas : Option String

pub record ContextTokens : Type 0 where
  pub system_tokens : ℕ
  pub skill_catalog_tokens : ℕ
  pub profile_memory_tokens : ℕ
  pub summary_tokens : ℕ
  pub history_tokens : ℕ
  pub current_input_tokens : ℕ
  pub output_tokens : ℕ
  pub tool_schema_tokens : ℕ
  pub current_context_tokens : ℕ

abbrev pub prepend :
    MessageRecord
    → List MessageRecord × MessageRecord × MessageRecord
    → List MessageRecord × MessageRecord × MessageRecord
prepend m (front, user, assistant) = (m ∷ front, user, assistant)

-- `history[:-2]` and the two messages of `history[-2:]`; none below two messages.
unfoldable pub split_last_two :
    List MessageRecord → Option (List MessageRecord × MessageRecord × MessageRecord)
split_last_two [] = none
split_last_two (a ∷ []) = none
split_last_two (a ∷ b ∷ []) = some ([], a, b)
split_last_two (a ∷ b ∷ c ∷ rest) = Option.map (prepend a) (split_last_two (b ∷ c ∷ rest))

-- The comparison of `_has_current_turn`.
abbrev pub is_current_turn : MessageRecord → MessageRecord → String → String → Bool
is_current_turn user assistant current_input output =
    user.role == "user"
    && user.content == current_input
    && assistant.role == "assistant"
    && assistant.content == output

module _ (encoded_length : String → ℕ) where
  abbrev tokens_of : String → ℕ
  tokens_of = count_content_tokens encoded_length

  abbrev pub summary_tokens_of : String → ℕ
  summary_tokens_of summary =
      if is_empty summary then 0 else tokens_of (append_text "会话摘要：" summary)

  abbrev pub schema_tokens_of : Option String → ℕ
  schema_tokens_of none = 0
  schema_tokens_of (some json) = tokens_of json

  unfoldable pub build_context_token_breakdown :
      Surroundings → List MessageRecord → String → String → Bool → ContextTokens
  build_context_token_breakdown around history current_input output include_current_turn =
      let base =
        tokens_of around.system_prompt
        + tokens_of around.skill_catalog
        + total tokens_of around.profile_memory
        + summary_tokens_of around.summary
        + count_message_tokens history
        + schema_tokens_of around.tool_schemas in
      record {
        system_tokens = tokens_of around.system_prompt;
        skill_catalog_tokens = tokens_of around.skill_catalog;
        profile_memory_tokens = total tokens_of around.profile_memory;
        summary_tokens = summary_tokens_of around.summary;
        history_tokens = count_message_tokens history;
        current_input_tokens = tokens_of current_input;
        output_tokens = tokens_of output;
        tool_schema_tokens = schema_tokens_of around.tool_schemas;
        current_context_tokens =
            if include_current_turn
            then base + (tokens_of current_input + tokens_of output)
            else base;
      }

  -- `build_save_context_token_breakdown`, by the last two messages.
  unfoldable pub save_breakdown_of :
      Surroundings
      → List MessageRecord
      → String
      → String
      → Option (List MessageRecord × MessageRecord × MessageRecord)
      → ContextTokens
  unfolding build_context_token_breakdown
  save_breakdown_of around history current_input output none =
      build_context_token_breakdown around history current_input output false
  save_breakdown_of around history current_input output (some (front, user, assistant)) =
      if is_current_turn user assistant current_input output
      then build_context_token_breakdown around front current_input output true
      else build_context_token_breakdown around history current_input output false

  -- The count of the tools, which the source adds under its own key, is left out.
  unfoldable pub build_save_context_token_breakdown :
      Surroundings → List MessageRecord → String → String → ContextTokens
  unfolding split_last_two save_breakdown_of
  build_save_context_token_breakdown around history current_input output =
      save_breakdown_of around history current_input output (split_last_two history)
