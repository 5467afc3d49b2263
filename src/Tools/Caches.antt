-- ===== src/Tools/Caches.antt =====
-- tools/registry.py: the caches of the schemas over sequences of operations.
use turning_good_agent.Prelude.{
  ◌≡◌, refl, String, Option, none, some, List, [], ◌∷◌, inl, inr, keep, if◌then◌else◌, ap,
  Bool-cases, string_eq,
}
use text.Mathlib.Text.{starts_with}
use turning_good_agent.Sessions.{is_nonempty}
use turning_good_agent.Prelude.Dict.{get}
use turning_good_agent.Tools.{
  Tool, ToolSchema, ToolRegistry, empty_registry, register, unregister, unregister_prefix,
  remove_all, fresh_schemas, or_fresh, schemas, visible, openai_tools, keys, is_same_tool,
}

pub data Operation (J : Type 0) : Type 0 where
  registers : Tool J → Operation J
  unregisters : Tool J → Operation J
  unregisters_prefix : String → Operation J
  shows_schemas : Operation J
  shows_openai_tools : Option (List String) → Operation J

module _ {J : Type 0} where
  -- A cache is empty or holds the list that the tools give.
  abbrev pub IsFresh : Option (List (ToolSchema J)) → List (ToolSchema J) → Type 0
  IsFresh none fresh = Unit
  IsFresh (some cached) fresh = cached ≡ fresh

  abbrev pub IsCoherent : ToolRegistry J → Type 0
  IsCoherent r =
      IsFresh r.schemas_cache (fresh_schemas r) × IsFresh r.openai_tools_cache (fresh_schemas r)

  or_fresh-IsFresh :
      (cache : Option (List (ToolSchema J))) (fresh : List (ToolSchema J))
      → IsFresh cache fresh
      → or_fresh cache fresh ≡ fresh
  or_fresh-IsFresh none fresh h = refl
  or_fresh-IsFresh (some cached) fresh h = h

  unfoldable pub apply : Operation J → ToolRegistry J → ToolRegistry J
  apply (registers tool) r = register tool r
  apply (unregisters tool) r = (unregister tool r).1
  apply (unregisters_prefix prefix) r = (unregister_prefix prefix r).1
  apply shows_schemas r = (schemas r).1
  apply (shows_openai_tools allowed) r = (openai_tools allowed r).1

  unfoldable pub apply_all : List (Operation J) → ToolRegistry J → ToolRegistry J
  apply_all [] r = r
  apply_all (op ∷ ops) r = apply_all ops (apply op r)

  unregister-IsCoherent :
      (tool : Tool J) (r : ToolRegistry J) → IsCoherent r → IsCoherent (unregister tool r).1
  unfolding unregister
  unregister-IsCoherent tool r h = elim (Bool-cases (is_same_tool tool (get tool.name r.tools))) [
    | inl same ↦ rw (same, unregister) (tt, tt)
    | inr other ↦ rw (other, unregister) h
  ]

  unregister_prefix-IsCoherent :
      (prefix : String) (r : ToolRegistry J)
      → IsCoherent r
      → IsCoherent (unregister_prefix prefix r).1
  unfolding unregister_prefix
  unregister_prefix-IsCoherent prefix r h =
      on (keep (λ name. starts_with name prefix) (keys r.tools))
    where
      on :
          (removed : List String)
          → IsCoherent (
              if is_nonempty removed
              then record {
                tools = remove_all removed r.tools;
                schemas_cache = none;
                openai_tools_cache = none;
              }
              else r)
      on [] = h
      on (name ∷ names) = (tt, tt)

  schemas-IsCoherent : (r : ToolRegistry J) → IsCoherent r → IsCoherent (schemas r).1
  unfolding schemas fresh_schemas
  schemas-IsCoherent r h = (or_fresh-IsFresh r.schemas_cache (fresh_schemas r) h.0, h.1)

  openai_tools-IsCoherent :
      (allowed : Option (List String)) (r : ToolRegistry J)
      → IsCoherent r
      → IsCoherent (openai_tools allowed r).1
  unfolding openai_tools fresh_schemas
  openai_tools-IsCoherent allowed r h =
      (h.0, or_fresh-IsFresh r.openai_tools_cache (fresh_schemas r) h.1)

  apply-IsCoherent :
      (op : Operation J) (r : ToolRegistry J) → IsCoherent r → IsCoherent (apply op r)
  unfolding apply register
  apply-IsCoherent (registers tool) r h = (tt, tt)
  apply-IsCoherent (unregisters tool) r h = unregister-IsCoherent tool r h
  apply-IsCoherent (unregisters_prefix prefix) r h = unregister_prefix-IsCoherent prefix r h
  apply-IsCoherent shows_schemas r h = schemas-IsCoherent r h
  apply-IsCoherent (shows_openai_tools allowed) r h = openai_tools-IsCoherent allowed r h

  apply_all-IsCoherent :
      (ops : List (Operation J)) (r : ToolRegistry J) → IsCoherent r → IsCoherent (apply_all ops r)
  unfolding apply_all
  apply_all-IsCoherent [] r h = h
  apply_all-IsCoherent (op ∷ ops) r h =
      apply_all-IsCoherent ops (apply op r) (apply-IsCoherent op r h)

  -- After any sequence of registrations, removals and readings, `schemas` and `openai_tools`
  -- return what the tools registered now give, sorted, the latter restricted to the allowed names:
  -- no stale cache is ever shown.
  pub openai_tools-fresh :
      (ops : List (Operation J)) (allowed : Option (List String))
      → ((openai_tools allowed (apply_all ops empty_registry)).0
          ≡ visible allowed (fresh_schemas (apply_all ops empty_registry)))
        × ((schemas (apply_all ops empty_registry)).0
            ≡ fresh_schemas (apply_all ops empty_registry))
  unfolding openai_tools schemas
  openai_tools-fresh ops allowed =
      let h = apply_all-IsCoherent ops empty_registry (tt, tt) in
      (ap (visible allowed) (or_fresh-IsFresh _ _ h.1), or_fresh-IsFresh _ _ h.0)
