-- ===== src/Runtime.antt =====
-- Turning-Good-Agent/runtime: the tool calls of a turn, what tools add to its context, the loop over
-- the model's answers, and the turn itself.
pub mod ToolCalls
pub mod Attachments
pub mod AgentLoop
pub mod Turn
mod Samples
