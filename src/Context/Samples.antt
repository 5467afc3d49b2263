-- ===== src/Context/Samples.antt =====
-- The theorem on the budget at a history that ends with the current turn.
use turning_good_agent.Prelude.{ℕ, ◌+◌, ◌≡◌, refl, String, none, List, [], ◌∷◌}
use turning_good_agent.Prelude.Text.{is_empty}
use turning_good_agent.Sessions.{MessageRecord, count_content_tokens, count_message_tokens}
use turning_good_agent.Context.{Surroundings, build_save_context_token_breakdown}
use turning_good_agent.Context.Budget.{fixed_tokens, build_save-counts}

abbrev message : String → String → MessageRecord
message role content = record {
  id = content;
  session_id = "s";
  role = role;
  content = content;
  name = none;
  tool_call_id = none;
  token_count = 4;
  created_at = "";
  metadata = [];
}

abbrev history : List MessageRecord
history = message "user" "old" ∷ message "user" "hi" ∷ message "assistant" "hello" ∷ []

abbrev around : Surroundings
around = record {
  skill_catalog = "skills";
  system_prompt = "prompt";
  profile_memory = "profile" ∷ [];
  summary = "";
  tool_schemas = none;
}

-- Every text has four tokens.
abbrev four : String → ℕ
four text = 4

build_save-counts_example :
    (build_save_context_token_breakdown four around history "hi" "hello").current_context_tokens
    ≡ fixed_tokens four around + count_message_tokens history
unfolding count_content_tokens is_empty
build_save-counts_example =
    build_save-counts four around history "hi" "hello" (refl, (refl, (refl, tt)))
