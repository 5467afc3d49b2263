-- ===== src/Proactive/ReviewWindow/Samples.antt =====
-- The theorems on reviews at a history of three messages.
use turning_good_agent.Prelude.{
  ℕ, ◌≡◌, refl, String, true, false, Option, none, some, List, [], ◌∷◌, arith, any,
}
use turning_good_agent.Prelude.Result.{ok, raise, OnOk}
use turning_good_agent.Sessions.{MessageRecord}
use turning_good_agent.Proactive.ReviewWindow.{
  ReviewSelection, Timed, oversized_message, eligible, sort_by_key, unread_start, batches_of,
  select_from, select_review_window, first_at_or_after,
}
use turning_good_agent.Proactive.ReviewWindow.Batches.{
  AreBatches, is_oversized, batches_of-AreBatches, batches_of_total,
}
use turning_good_agent.Proactive.ReviewWindow.Coverage.{Covers, select_from-Covers}
use turning_good_agent.Proactive.ReviewWindow.Cursor.{reviewed_once}

-- Every text names the same instant.
abbrev parse_time : String → Option ℕ
parse_time text = some 7

abbrev message : String → String → ℕ → MessageRecord
message id role tokens = record {
  id = id;
  session_id = "s";
  role = role;
  content = "text";
  name = none;
  tool_call_id = none;
  token_count = tokens;
  created_at = "7";
  metadata = [];
}

abbrev history : List MessageRecord
history = message "a" "user" 5 ∷ message "b" "assistant" 6 ∷ message "c" "tool" 2 ∷ []

abbrev source : List Timed
source =
    record { time = 7; message = message "a" "user" 5 }
    ∷ record { time = 7; message = message "b" "assistant" 6 }
    ∷ []

abbrev selection : ReviewSelection
selection = record {
  batches =
      record { messages = message "a" "user" 5 ∷ [] }
      ∷ record { messages = message "b" "assistant" 6 ∷ [] }
      ∷ [];
  advance_cursor = some (record { message_id = "b"; created_at = "7" });
  skipped_before = false;
}

batches_of-AreBatches_example : OnOk (AreBatches 8 history) (batches_of history 8)
batches_of-AreBatches_example = batches_of-AreBatches 8 history

batches_of_total_example :
    (any (is_oversized 5) history ≡ true → batches_of history 5 ≡ raise oversized_message)
    × (any (is_oversized 5) history ≡ false
        → (result : List (List MessageRecord)) × (batches_of history 5 ≡ ok result))
batches_of_total_example = batches_of_total 5 history

select_from-Covers_example : OnOk (Covers source 0 5 8) (select_from parse_time source none 9 4 8)
unfolding unread_start
select_from-Covers_example = select_from-Covers parse_time source none 9 4 8 0 refl (omega arith)

reviewed_once_example :
    select_review_window parse_time history selection.advance_cursor 9 2 3
    ≡ ok
        (record { batches = []; advance_cursor = selection.advance_cursor; skipped_before = false })
unfolding unread_start eligible sort_by_key select_review_window first_at_or_after
reviewed_once_example =
    reviewed_once parse_time history none 9 4 8 2 3 0 source selection refl (refl, (refl, tt)) refl
      (omega arith) refl (omega arith) (omega arith)
