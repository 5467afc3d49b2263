-- ===== src/Tools/Samples.antt =====
-- The theorem on the caches at a registry that is read, changed and read again.
use turning_good_agent.Prelude.{ℕ, ◌≡◌, String, true, none, some, List, [], ◌∷◌}
use turning_good_agent.Tools.{Tool, empty_registry, fresh_schemas, schemas, visible, openai_tools}
use turning_good_agent.Tools.Caches.{
  Operation, registers, unregisters, shows_schemas, shows_openai_tools, apply_all,
  openai_tools-fresh,
}

abbrev tool : ℕ → String → Tool ℕ
tool identity name = record {
  identity = identity;
  name = name;
  description = "";
  input_schema = 0;
  parallel_safe = true;
}

abbrev operations : List (Operation ℕ)
operations =
    registers (tool 1 "read")
    ∷ shows_schemas
    ∷ shows_openai_tools none
    ∷ registers (tool 2 "edit")
    ∷ unregisters (tool 3 "read")
    ∷ []

abbrev allowed : List String
allowed = "edit" ∷ []

openai_tools-fresh_example :
    ((openai_tools (some allowed) (apply_all operations empty_registry)).0
      ≡ visible (some allowed) (fresh_schemas (apply_all operations empty_registry)))
    × ((schemas (apply_all operations empty_registry)).0
        ≡ fresh_schemas (apply_all operations empty_registry))
openai_tools-fresh_example = openai_tools-fresh operations (some allowed)
