-- ===== src/Hooks.antt =====
-- Turning-Good-Agent/hooks/manager.py and llm/types.py: a tool call, the record of its result, and
-- the hooks around it. `J` is the type of a tool's arguments, JSON objects. A hook either answers
-- or raises an `Exception`; a cancellation, which ends the whole batch, is not modelled, nor are
-- the hooks that return nothing (`on_tool_started`, `before_compact`, `after_compact`).
use turning_good_agent.Prelude.{String, Option, none, some, List, [], ◌∷◌, string_eq, if◌then◌else◌}
use turning_good_agent.Prelude.Dict.{Dict, put}
use turning_good_agent.Prelude.Text.{is_empty}

pub record ToolCall (J : Type 0) : Type 0 where
  pub id : String
  pub name : String
  pub args : J

-- A value under a key of a record.
pub data Field (J : Type 0) : Type 0 where
  none_field : Field J
  text_field : String → Field J
  args_field : J → Field J
  duration_field : Field J

abbrev pub ToolRecord : Type 0 → Type 0
ToolRecord J = Dict String (Field J)

pub data Answer (A : Type 0) : Type 0 where
  returned : A → Answer A
  raised : Answer A

-- `after_tool_call` answers none where it returns no `Mapping`.
pub record AgentHook (J : Type 0) : Type 0 where
  pub before_tool_call : ToolCall J → Answer (Option String)
  pub after_tool_call : ToolCall J → ToolRecord J → Answer (Option (ToolRecord J))

-- `if reason`: none and the empty text are false.
unfoldable pub truthy : Option String → Option String
unfolding is_empty
truthy none = none
truthy (some reason) = if is_empty reason then none else some reason

-- `dict.update`
unfoldable pub update : {V : Type 0} → Dict String V → Dict String V → Dict String V
update current [] = current
update current ((k, v) ∷ updated) = update (put k v current) updated

-- The first reason to block, past the hooks that raise.
unfoldable pub run_before_tool_call : {J : Type 0} → List (AgentHook J) → ToolCall J → Option String
run_before_tool_call [] call = none
run_before_tool_call (hook ∷ hooks) call =
    let rest = run_before_tool_call hooks call in
    elim (hook.before_tool_call call) [
      | raised ↦ rest
      | returned reason ↦ elim (truthy reason) [ some text ↦ some text | none ↦ rest ]
    ]

unfoldable pub run_after_tool_call :
    {J : Type 0} → List (AgentHook J) → ToolCall J → ToolRecord J → ToolRecord J
run_after_tool_call [] call current = current
run_after_tool_call (hook ∷ hooks) call current = elim (hook.after_tool_call call current) [
  | raised ↦ run_after_tool_call hooks call current
  | returned none ↦ run_after_tool_call hooks call current
  | returned (some updated) ↦ run_after_tool_call hooks call (update current updated)
]
