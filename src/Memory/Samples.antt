-- ===== src/Memory/Samples.antt =====
-- The theorems on short-term memory at a history of five messages.
use turning_good_agent.Prelude.{ℕ, ◌≡◌, refl, String, false, true, none, List, [], ◌∷◌}
use turning_good_agent.Sessions.{MessageRecord}
use turning_good_agent.Memory.{
  ShortTermMemory, complete_turns, recent_window, select_turns, outside, ids, should_compact,
  plan_compaction,
}
use turning_good_agent.Memory.Window.{IsNewest, recent_window-IsNewest}
use turning_good_agent.Memory.Partition.{
  IsDivided, IsAccounted, plan_compaction-IsDivided, plan_compaction-IsAccounted,
}

abbrev message : String → String → ℕ → MessageRecord
message id role tokens = record {
  id = id;
  session_id = "s";
  role = role;
  content = "text";
  name = none;
  tool_call_id = none;
  token_count = tokens;
  created_at = "";
  metadata = [];
}

abbrev history : List MessageRecord
history =
    message "a" "user" 5
    ∷ message "b" "assistant" 6
    ∷ message "c" "user" 2
    ∷ message "d" "user" 3
    ∷ message "e" "assistant" 4
    ∷ []

abbrev memory : ShortTermMemory
memory = record { recent_window_token_limit = 8; compact_token_threshold = 10 }

-- The first turn was reloaded, so its ids are lost, like those of the last.
abbrev reloaded : List MessageRecord
reloaded =
    message "" "user" 5
    ∷ message "" "assistant" 6
    ∷ message "c" "user" 2
    ∷ message "" "user" 3
    ∷ message "" "assistant" 4
    ∷ []

recent_window-IsNewest_example : IsNewest 8 (complete_turns history) (recent_window memory history)
recent_window-IsNewest_example = recent_window-IsNewest memory history

plan_compaction-IsDivided_example : IsDivided reloaded (plan_compaction memory reloaded false)
plan_compaction-IsDivided_example = plan_compaction-IsDivided memory reloaded false

-- Only "c" is summarised: the first turn is lost.
reloaded_test : ids (plan_compaction memory reloaded false).compact_source ≡ "c" ∷ []
unfolding plan_compaction should_compact recent_window outside complete_turns select_turns
reloaded_test = refl

plan_compaction-IsAccounted_example :
    IsAccounted memory history true (plan_compaction memory history true)
plan_compaction-IsAccounted_example = plan_compaction-IsAccounted memory history true
