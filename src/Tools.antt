-- ===== src/Tools.antt =====
-- Turning-Good-Agent/tools/registry.py: the registered tools, with the two cached lists of schemas.
-- `J` is the type of JSON objects. A tool's object is known by its `identity`. What
-- tools/base.py does with arguments, and the security checks of tools/executor.py, are parameters.
pub mod Caches
mod Samples
use Prim.Native.String.{compare}
use text.Mathlib.Text.{is_le, starts_with}
use turning_good_agent.Prelude.{
  ℕ, String, Bool, true, false, not, ◌&&◌, Option, none, some, List, [], ◌∷◌, map, keep, contains,
  nat_beq, ◌==◌, string_eq, if◌then◌else◌,
}
use turning_good_agent.Prelude.Dict.{Dict, get, put, remove}
use turning_good_agent.Prelude.Text.{append_text}
use turning_good_agent.Sessions.{is_nonempty}

-- What `prepare_call` is given as arguments: an object, or a value of another type, known by the
-- type's name.
pub data CallArguments (J : Type 0) : Type 0 where
  object : J → CallArguments J
  not_object : String → CallArguments J

pub record Tool (J : Type 0) : Type 0 where
  pub identity : ℕ
  pub name : String
  pub description : String
  pub input_schema : J
  pub parallel_safe : Bool

-- A schema as the model sees it, in either of the two formats.
pub record ToolSchema (J : Type 0) : Type 0 where
  pub name : String
  pub description : String
  pub parameters : J

pub record ToolRegistry (J : Type 0) : Type 0 where
  pub tools : Dict String (Tool J)
  pub schemas_cache : Option (List (ToolSchema J))
  pub openai_tools_cache : Option (List (ToolSchema J))

-- The functions of tools/base.py that prepare arguments: the empty object, `cast_args` and
-- `validate_args`.
pub record ArgumentChecks (J : Type 0) : Type 0 where
  pub empty_object : J
  pub cast_args : J → J → J
  pub validate_args : J → J → List String

abbrev pub empty_registry : {J : Type 0} → ToolRegistry J
empty_registry = record { tools = []; schemas_cache = none; openai_tools_cache = none }

-- Insertion sort by a test on keys: `sorted` on a list.
unfoldable pub insert_by : {A : Type 0} → (A → A → Bool) → A → List A → List A
insert_by le a [] = a ∷ []
insert_by le a (b ∷ rest) =
    let later = insert_by le a rest in if le a b then a ∷ b ∷ rest else b ∷ later

unfoldable pub sort_by : {A : Type 0} → (A → A → Bool) → List A → List A
sort_by le [] = []
sort_by le (a ∷ rest) = insert_by le a (sort_by le rest)

abbrev pub text_le : String → String → Bool
text_le s t = is_le (compare s t)

abbrev pub keys : {V : Type 0} → Dict String V → List String
keys [] = []
keys ((k, v) ∷ d) = k ∷ keys d

abbrev pub values : {V : Type 0} → Dict String V → List V
values [] = []
values ((k, v) ∷ d) = v ∷ values d

-- `separator.join(texts)`
unfoldable pub join : String → List String → String
join separator [] = ""
join separator (text ∷ []) = text
join separator (text ∷ next ∷ texts) =
    append_text text (append_text separator (join separator (next ∷ texts)))

module _ {J : Type 0} where
  -- Tools of MCP servers stand behind the others; among themselves both are sorted by name.
  abbrev pub source_le : Tool J → Tool J → Bool
  source_le a b =
      if starts_with a.name "mcp_"
      then starts_with b.name "mcp_" && text_le a.name b.name
      else if starts_with b.name "mcp_"
      then true
      else text_le a.name b.name

  unfoldable pub register : Tool J → ToolRegistry J → ToolRegistry J
  register tool r = record {
    tools = put tool.name tool r.tools;
    schemas_cache = none;
    openai_tools_cache = none;
  }

  abbrev pub is_same_tool : Tool J → Option (Tool J) → Bool
  is_same_tool tool none = false
  is_same_tool tool (some registered) = nat_beq registered.identity tool.identity

  unfoldable pub unregister : Tool J → ToolRegistry J → Bool × ToolRegistry J
  unregister tool r =
      if is_same_tool tool (get tool.name r.tools)
      then (
        true,
        record {
          tools = remove tool.name r.tools;
          schemas_cache = none;
          openai_tools_cache = none;
        },
      )
      else (false, r)

  unfoldable pub remove_all : List String → Dict String (Tool J) → Dict String (Tool J)
  remove_all [] tools = tools
  remove_all (name ∷ names) tools = remove_all names (remove name tools)

  unfoldable pub unregister_prefix : String → ToolRegistry J → List String × ToolRegistry J
  unregister_prefix prefix r =
      let removed = keep (λ name. starts_with name prefix) (keys r.tools) in
      (
        removed,
        if is_nonempty removed
            then record {
              tools = remove_all removed r.tools;
              schemas_cache = none;
              openai_tools_cache = none;
            }
            else r,
      )

  unfoldable pub tool_names : ToolRegistry J → List String
  tool_names r = sort_by text_le (keys r.tools)

  unfoldable pub sorted_tools : ToolRegistry J → List (Tool J)
  sorted_tools r = sort_by source_le (values r.tools)

  abbrev pub schema_of : Tool J → ToolSchema J
  schema_of tool = record {
    name = tool.name;
    description = tool.description;
    parameters = tool.input_schema;
  }

  -- The list that a cold cache computes.
  unfoldable pub fresh_schemas : ToolRegistry J → List (ToolSchema J)
  unfolding sorted_tools
  fresh_schemas r = map schema_of (sorted_tools r)

  abbrev pub or_fresh : Option (List (ToolSchema J)) → List (ToolSchema J) → List (ToolSchema J)
  or_fresh none fresh = fresh
  or_fresh (some cached) fresh = cached

  unfoldable pub schemas : ToolRegistry J → List (ToolSchema J) × ToolRegistry J
  schemas r =
      let current = or_fresh r.schemas_cache (fresh_schemas r) in
      (current, record r { schemas_cache = some current })

  -- The schemas of the allowed tools, or all of them.
  unfoldable pub visible : Option (List String) → List (ToolSchema J) → List (ToolSchema J)
  visible none schemas = schemas
  visible (some allowed) schemas = keep (λ (s : ToolSchema J). contains s.name allowed) schemas

  unfoldable pub openai_tools :
      Option (List String) → ToolRegistry J → List (ToolSchema J) × ToolRegistry J
  openai_tools allowed r =
      let current = or_fresh r.openai_tools_cache (fresh_schemas r) in
      (visible allowed current, record r { openai_tools_cache = some current })

  -- A call that can be looked at: the tool, the arguments, and the error's text.
  unfoldable pub prepare_call :
      ArgumentChecks J
      → ToolRegistry J
      → String
      → CallArguments J
      → Option (Tool J) × J × Option String
  prepare_call checks r name (not_object type_name) = (
    none,
    checks.empty_object,
    some (append_text "工具 " (append_text name (append_text " 参数必须是 object，实际是 " type_name))),
  )
  prepare_call checks r name (object args) = elim (get name r.tools) [
    | none ↦ (
      none,
      args,
      some (
          append_text "未知工具：" (append_text name (append_text "。可用工具：" (join ", " (tool_names r))))),
    )
    | some tool ↦
        (let normalized = checks.cast_args args tool.input_schema in
          let errors = checks.validate_args normalized tool.input_schema in
          (some tool, normalized, if is_nonempty errors then some (join "；" errors) else none))
  ]
