-- ===== src/Context/Budget.antt =====
-- context/token_budget.py: what the breakdown of SAVE counts of the history.
use mathlib.Core.Option
use turning_good_agent.Prelude.{
  ℕ, ◌+◌, ◌≡◌, refl, ap, ◌∙◌, String, true, Option, none, some, List, [], ◌∷◌, ◌++◌, total,
  total-append, All, arith, Bool-cases, inl, inr, string_eq, eq_iff, subst,
}
use turning_good_agent.Sessions.{MessageRecord, count_content_tokens, count_message_tokens}
use turning_good_agent.Context.{
  Surroundings, summary_tokens_of, schema_tokens_of, build_context_token_breakdown, split_last_two,
  prepend, is_current_turn, save_breakdown_of, build_save_context_token_breakdown,
}

-- What a split says of the history.
abbrev Joins :
    List MessageRecord → Option (List MessageRecord × MessageRecord × MessageRecord) → Type 0
Joins history none = Unit
Joins history (some (front, user, assistant)) = history ≡ front ++ user ∷ assistant ∷ []

prepend-Joins :
    (m : MessageRecord) (history : List MessageRecord)
    (split : Option (List MessageRecord × MessageRecord × MessageRecord))
    → Joins history split
    → Joins (m ∷ history) (Option.map (prepend m) split)
prepend-Joins m history none h = tt
prepend-Joins m history (some (front, user, assistant)) h = ap (λ (l : List MessageRecord). m ∷ l) h

split_last_two-Joins : (history : List MessageRecord) → Joins history (split_last_two history)
unfolding split_last_two
split_last_two-Joins [] = tt
split_last_two-Joins (a ∷ []) = tt
split_last_two-Joins (a ∷ b ∷ []) = refl
split_last_two-Joins (a ∷ b ∷ c ∷ rest) =
    prepend-Joins a (b ∷ c ∷ rest) (split_last_two (b ∷ c ∷ rest))
      (split_last_two-Joins (b ∷ c ∷ rest))

module _ (encoded_length : String → ℕ) where
  abbrev tokens_of : String → ℕ
  tokens_of = count_content_tokens encoded_length

  -- The tokens of everything but the history and the current turn.
  abbrev pub fixed_tokens : Surroundings → ℕ
  fixed_tokens around =
      tokens_of around.system_prompt
      + tokens_of around.skill_catalog
      + total tokens_of around.profile_memory
      + summary_tokens_of encoded_length around.summary
      + schema_tokens_of encoded_length around.tool_schemas

  -- A stored message has the count of its content.
  abbrev pub IsCounted : MessageRecord → Type 0
  IsCounted m = m.token_count ≡ tokens_of m.content

  current_turn_tokens :
      (user assistant : MessageRecord) (current_input output : String)
      → is_current_turn user assistant current_input output ≡ true
      → (user.content ≡ current_input) × (assistant.content ≡ output)
  current_turn_tokens user assistant current_input output h =
      ground (arith, eq_iff user.content current_input, eq_iff assistant.content output)

  IsCounted-append :
      (front : List MessageRecord) (user assistant : MessageRecord)
      → All IsCounted (front ++ user ∷ assistant ∷ [])
      → IsCounted user × IsCounted assistant
  IsCounted-append [] user assistant h = (h.0, h.1.0)
  IsCounted-append (m ∷ front) user assistant h = IsCounted-append front user assistant h.1

  save_breakdown_of-counts :
      (around : Surroundings) (history : List MessageRecord) (current_input output : String)
      (split : Option (List MessageRecord × MessageRecord × MessageRecord))
      → Joins history split
      → All IsCounted history
      → (save_breakdown_of encoded_length around history current_input output
          split).current_context_tokens
        ≡ fixed_tokens around + count_message_tokens history
  unfolding save_breakdown_of build_context_token_breakdown count_message_tokens
  save_breakdown_of-counts around history current_input output none joins counted = omega arith
  save_breakdown_of-counts around history current_input output (some (front, user, assistant)) joins
        counted =
      elim (Bool-cases (is_current_turn user assistant current_input output)) [
        | inr other ↦ rw other (omega arith)
        | inl current ↦
            (let (user_counted, assistant_counted) =
                IsCounted-append front user assistant (subst (All IsCounted) joins counted) in
              let (input_same, output_same) =
                current_turn_tokens user assistant current_input output current in
              rw (current, joins)
                (omega (
                  arith,
                  total-append (λ (m : MessageRecord). m.token_count) front (user ∷ assistant ∷ []),
                  user_counted ∙ ap tokens_of input_same,
                  assistant_counted ∙ ap tokens_of output_same,
                )))
      ]

  -- If every message of the history has the token count of its content, the breakdown of SAVE
  -- counts the history whole and each of its messages once, also where it ends with the current
  -- turn, which is then counted by its texts.
  pub build_save-counts :
      (around : Surroundings) (history : List MessageRecord) (current_input output : String)
      → All IsCounted history
      → (build_save_context_token_breakdown encoded_length around history current_input
          output).current_context_tokens
        ≡ fixed_tokens around + count_message_tokens history
  unfolding build_save_context_token_breakdown
  build_save-counts around history current_input output =
      save_breakdown_of-counts around history current_input output (split_last_two history)
        (split_last_two-Joins history)
