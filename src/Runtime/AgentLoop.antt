-- ===== src/Runtime/AgentLoop.antt =====
-- Turning-Good-Agent/runtime/agent_loop.py: what the loop over the model's answers reads and keeps.
-- `W` is the state of everything outside the loop, which each awaited call may change and which the
-- tests that await nothing only read; `J` is the type of JSON objects and `A` that of channel
-- adapters. Model, tool runner, channel and coordinator are functions on `W`, so that what they
-- answer may depend on all that was done before. `log` notes what the loop asks of them, in order;
-- the code keeps no such list. Times are natural numbers. `asyncio.wait_for` either runs its call
-- or raises the timeout, as `times_out` says.
pub mod Complete
pub mod ParentCalls
pub mod Rounds
pub mod Run
pub mod Shapes
mod Triples
mod Invariant
mod Ends
pub mod Protocol
pub mod Delegated
mod Samples
use turning_good_agent.Prelude.{ℕ, String, Bool, Option, none, some, List}
use turning_good_agent.Prelude.Result.{Result, ok, raise}
use turning_good_agent.Prelude.Action.{Action}
use turning_good_agent.Hooks.{ToolCall}
use turning_good_agent.Llm.{LlmUsage, LlmResponse, LlmChunk}
use turning_good_agent.Tools.{ToolSchema, ToolRegistry}
use turning_good_agent.Runtime.Attachments.{Message, CallRecord, Limits, AttachmentManager}

-- `asyncio.CancelledError`, `TimeoutError`, and any other `Exception` by its text.
pub data Raised : Type 0 where
  cancelled_error timeout_error : Raised
  exception : String → Raised

-- An awaited call of something outside the loop.
abbrev pub Call : Type 0 → Type 0 → Type 0
Call W = Action W Raised

-- A stream of chunks, each with the state in which it arrives.
pub data Stream (W J : Type 0) : Type 0 where
  ended : W → Stream W J
  broken : Raised → W → Stream W J
  yields : LlmChunk J → W → (W → Stream W J) → Stream W J

-- `DelegateMultiAgentInvocation`, the one delegation that a turn may make.
pub record Delegation (W J A : Type 0) : Type 0 where
  pub deadline_monotonic : W → Option ℕ
  pub is_schema_visible : W → Bool
  pub openai_schema : ToolSchema J
  pub invoke : J → Call W String
  pub check_parent_synthesis : List (Message J) → List (ToolSchema J) → Call W (Option String)
  pub finish_parent_turn : String → Call W (Unit {0})
  pub wrap_parent_approval : W → A → A

pub record Surroundings (W J A : Type 0) : Type 0 where
  pub time : W → ℕ
  pub times_out : ℕ → W → Option W
  pub is_stop_requested : A → W → Bool
  pub consume_guidance : A → Call W (List String)
  pub on_delta : A → String → Call W (Unit {0})
  pub complete : List (Message J) → List (ToolSchema J) → Call W (LlmResponse J)
  pub stream : Option (List (Message J) → List (ToolSchema J) → W → Stream W J)
  pub execute_calls : List (ToolCall J) → A → Call W (List (CallRecord J))
  pub invocation : Option (Delegation W J A)
  pub encoded_length : String → ℕ
  pub schema_tokens : List (ToolSchema J) → ℕ
  pub max_tool_rounds : ℕ
  pub max_tool_calls_per_round : ℕ
  pub limits : Limits
  pub streaming_enabled : Bool
  pub persist_tool_calls : Bool
  pub allowed_tool_names : Option (List String)

-- What the loop asks for: an answer of the model, a run of tools, a delegation, and that the
-- invocation finish the parent's turn: a call of `finish_parent_turn`, which itself does nothing for an
-- invocation whose delegation was not accepted.
pub data Effect (J : Type 0) : Type 0 where
  asked : List (Message J) → List (ToolSchema J) → Effect J
  ran : List (ToolCall J) → Effect J
  delegated : J → Effect J
  parent_finished : String → Effect J

pub record AgentLoopResult (J : Type 0) : Type 0 where
  pub final_content : String
  pub messages : List (Message J)
  pub tool_calls : List (CallRecord J)
  pub usage : LlmUsage
  pub loaded_skill_names : List String
  pub loaded_skill_token_count : ℕ
  pub consumed_guidance : List String
  pub cancelled : Bool

-- The variables of `run`.
pub record LoopState (W J A : Type 0) : Type 0 where
  pub working : List (Message J)
  pub channel_adapter : A
  pub active_tools : ToolRegistry J
  pub openai_tools : List (ToolSchema J)
  pub attachments : AttachmentManager
  pub tool_records : List (CallRecord J)
  pub usage : LlmUsage
  pub consumed_guidance : List String
  pub invocation_finished : Bool
  pub world : W
  pub log : List (Effect J)

-- A piece of `run`.
abbrev pub Step : Type 0 → Type 0 → Type 0 → Type 0 → Type 0
Step W J A B = Action (LoopState W J A) Raised B

-- A round either ends the turn with a result, or goes on.
abbrev pub Round : Type 0 → Type 0 → Type 0 → Type 0
Round W J A = Step W J A (Option (AgentLoopResult J))
