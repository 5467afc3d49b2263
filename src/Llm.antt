-- ===== src/Llm.antt =====
-- Turning-Good-Agent/llm/types.py: what a model call gives, with the type of the calls in Hooks.antt.
-- `J` is the type of JSON objects. The token counts are natural numbers; a chunk's `finish_reason`,
-- which nothing here reads, is left out.
use turning_good_agent.Prelude.{ℕ, ◌+◌, String, Option, none, some, List}
use turning_good_agent.Hooks.{ToolCall}

pub record LlmUsage : Type 0 where
  pub input_tokens : ℕ
  pub output_tokens : ℕ
  pub total_tokens : ℕ

abbrev pub no_usage : LlmUsage
no_usage = record { input_tokens = 0; output_tokens = 0; total_tokens = 0 }

unfoldable pub add_usage : LlmUsage → Option LlmUsage → LlmUsage
add_usage self none = self
add_usage self (some other) = record {
  input_tokens = self.input_tokens + other.input_tokens;
  output_tokens = self.output_tokens + other.output_tokens;
  total_tokens = self.total_tokens + other.total_tokens;
}

pub record LlmResponse (J : Type 0) : Type 0 where
  pub content : String
  pub tool_calls : List (ToolCall J)
  pub usage : Option LlmUsage
  pub protocol_error : Option String
  pub reasoning_content : Option String

pub record LlmChunk (J : Type 0) : Type 0 where
  pub delta_text : String
  pub tool_calls : List (ToolCall J)
  pub usage : Option LlmUsage
  pub protocol_error : Option String
