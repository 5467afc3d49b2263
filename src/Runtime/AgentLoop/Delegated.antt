-- ===== src/Runtime/AgentLoop/Delegated.antt =====
-- multi_agent/delegate_tool.py as the delegation of the agent loop (runtime/agent_loop.py): the
-- operations of `DelegateMultiAgentInvocation` on the invocation and the coordinator it shares. The
-- JSON text of a result, the tokens of messages and schemas, the schema and the adapter around the
-- channel are arguments.
use turning_good_agent.Prelude.{ℕ, String, List}
use turning_good_agent.Prelude.Result.{Result, ok, raise}
use turning_good_agent.Tools.{ToolSchema}
use turning_good_agent.MultiAgent.Requests.{Value}
use turning_good_agent.MultiAgent.Coordinator.{Surroundings}
use turning_good_agent.MultiAgent.Runs.{DelegateParentTurn, Collect}
use turning_good_agent.MultiAgent.Invocation.{
  DelegateResult, Invocation, invoke, check_parent_synthesis, finish_parent_turn,
  deadline_monotonic,
}
use turning_good_agent.Runtime.Attachments.{Message}
use turning_good_agent.Runtime.AgentLoop.{Raised, exception, Delegation}

-- An exception of the coordinator, as the loop sees it.
abbrev pub as_raised : {S B C : Type 0} → (B → C) → Result String B × S → Result Raised C × S
as_raised f (ok b, s) = (ok (f b), s)
as_raised f (raise e, s) = (raise (exception e), s)

module _ {W A : Type 0} (env : Surroundings W) (run_fanout : Collect env)
    (parent : DelegateParentTurn) (max_workers_per_run : ℕ) (dump : DelegateResult → String)
    (context_tokens : List (Message Value) → List (ToolSchema Value) → ℕ)
    (schema : ToolSchema Value) (wrap : Invocation W → A → A) where
  unfoldable pub delegation_of : Delegation (Invocation W) Value A
  delegation_of = record {
    deadline_monotonic = deadline_monotonic env run_fanout parent max_workers_per_run;
    is_schema_visible = λ (i : Invocation W). i.schema_visible;
    openai_schema = schema;
    invoke = λ args i. as_raised dump (invoke env run_fanout parent max_workers_per_run args i);
    check_parent_synthesis = λ messages tools i.
        as_raised (λ error. error)
          (check_parent_synthesis env run_fanout parent max_workers_per_run
            (context_tokens messages tools) i);
    finish_parent_turn = λ outcome i.
        as_raised (λ u. u) (finish_parent_turn env run_fanout parent max_workers_per_run outcome i);
    wrap_parent_approval = wrap;
  }
