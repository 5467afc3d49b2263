-- ===== src/Lib.antt =====
-- Turning-Good-Agent: a model of the core of the agent, with the theorems that make it correct.
--
-- The program is a Python service. Channels (CLI, web, Feishu, Weixin) put inbound messages on a
-- bus; the gateway takes them off, one turn at a time for each conversation, and hands each to the
-- Runtime in use; the Runtime runs the turn as a state machine, which builds a context, loops over
-- model answers and tool calls, compacts the history and saves; the answer goes out over the bus.
-- A proactive service reviews conversations and watches for incidents. Paths are from the root of
-- the repository; names are those of the source, in snake_case.
--
-- Prelude       Shared names: tests, lists, keys with equality, Python's `dict`, texts, results.
-- Sessions      Turning-Good-Agent/sessions/types.py, sessions/token_counter.py,
--               context/session_context.py: message records, sessions, token weights.
-- Bus           bus/messages.py, bus/queue.py: routes, messages, the checks of the constructors.
-- Gateway.Turns gateway/turns.py: `GatewayTurnCoordinator`. A function is one critical section under
--               the lock; Turns.Reach has the interleavings of the coroutines as a step relation, with
--               the requests that a close leaves behind.
-- Gateway.Supervisor
--               gateway/runtime_supervisor.py: `RuntimeSupervisor`, whose `_reload` lets other
--               coroutines request and stop at every await, and may be cancelled at each.
-- Runtime.Turn  runtime/state.py, `_run_turn_bound` of runtime/runtime.py: the state machine of a
--               turn. What the handlers await is the record `Environment`. Of the writes to disk
--               only those of SAVE are recorded.
-- Runtime.ToolCalls
--               runtime/tool_call_runner.py: the calls of one model answer. A tool's run is a function of
--               its call, so what the runs of a batch do to one another is not followed.
-- Runtime.AgentLoop
--               runtime/agent_loop.py: the loop over the model's answers. Complete has one answer,
--               ParentCalls the calls of an answer, Rounds the pieces of a round, Run the rounds.
-- Runtime.Attachments
--               runtime/attachment_manager.py, tools/context_attachment.py: what tools add to the
--               context of a turn.
-- Llm           llm/types.py: answers, chunks and token usage of the model.
-- MultiAgent    multi_agent/types.py. Requests is multi_agent/schema.py; the other children are
--               multi_agent/coordinator.py: Nodes the results of workers, Coordinator its state and
--               events, Workers one worker, Stages a pipeline, Runs a delegation, Endings its end.
--               Invocation is multi_agent/delegate_tool.py, which Runtime.AgentLoop.Delegated puts
--               into the loop.
-- Hooks         hooks/manager.py: the hooks around a tool call.
-- Tools         tools/registry.py: the registered tools and the caches of their schemas.
-- Context       context/token_budget.py: the breakdown of the tokens of a context.
-- Memory        memory/short_term.py: the recent window and the plan of a compaction.
-- Proactive.ReviewWindow
--               proactive/review_window.py: the unread messages, their batches and the cursor.
-- Proactive.Incidents
--               proactive/incidents.py: incidents, one for a fingerprint.
-- Proactive.Scheduler
--               proactive/scheduler.py: cron expressions and the next minute that fires.
--
-- Time, fresh ids, the tokenizer, the model, the tools, the stores and the publisher are arguments
-- of the definitions. Text methods are modelled over the characters of native texts.
-- Bounds and fuel: the loop of a turn runs on fuel 7, one step for each state; the cache of
-- terminal messages is the source's 2048 entries; the loop of `_dispatch` runs on fuel, one step for
-- each waiting message. The rounds of the agent loop recurse on `max_tool_rounds`, the search of a
-- cron expression on the source's number of minutes, and the polls of a worker or a slot on the time
-- left, which is enough where a poll that gets nothing takes time (MultiAgent.Coordinator.Polls).
-- Not modelled: transports, the web backend, files and databases, the model client, MCP, skills,
-- settings, the texts of a context, the interleaving of the workers of a fan-out, the proactive
-- service and its jobs. The agent loop that a turn calls between BUILD and COMPACT is a parameter of
-- the turn.
pub mod Prelude
pub mod Sessions
pub mod Bus
pub mod Gateway
pub mod Context
pub mod Memory
pub mod Proactive
pub mod Hooks
pub mod Llm
pub mod Tools
pub mod MultiAgent
pub mod Runtime
