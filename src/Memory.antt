-- ===== src/Memory.antt =====
-- Turning-Good-Agent/memory/short_term.py: what of a history stays verbatim in the recent window
-- and what is handed to the summariser. The proofs are in the children.
pub mod Window
pub mod Partition
mod Samples
use mathlib.Core.List.{reverse}
use turning_good_agent.Prelude.{
  ℕ, ◌+◌, String, Bool, true, false, not, ◌&&◌, ◌||◌, List, [], ◌∷◌, ◌++◌, map, ltb, length, total,
  keep, contains, ◌==◌, string_eq, if◌then◌else◌,
}
use turning_good_agent.Sessions.{MessageRecord}

pub record CompactionPlan : Type 0 where
  pub should_compact : Bool
  pub compact_source : List MessageRecord
  pub recent_window : List MessageRecord
  pub compacted_message_count : ℕ
  pub compacted_token_count : ℕ
  pub raw_window_message_count : ℕ
  pub raw_window_token_count : ℕ

pub record ShortTermMemory : Type 0 where
  pub recent_window_token_limit : ℕ
  pub compact_token_threshold : ℕ

abbrev pub count_tokens : List MessageRecord → ℕ
count_tokens messages = total (λ (m : MessageRecord). m.token_count) messages

unfoldable pub should_compact : ShortTermMemory → List MessageRecord → Bool
should_compact self messages = ltb self.compact_token_threshold (count_tokens messages)

-- A user message that an assistant message follows.
abbrev pub is_turn : MessageRecord → MessageRecord → Bool
is_turn current following = current.role == "user" && following.role == "assistant"

-- The `while` loop, on the messages from `index` on.
unfoldable pub complete_turns : List MessageRecord → List (List MessageRecord)
complete_turns [] = []
complete_turns (current ∷ []) = []
complete_turns (current ∷ following ∷ rest) =
    let after_turn = complete_turns rest in
    let after_one = complete_turns (following ∷ rest) in
    if is_turn current following then (current ∷ following ∷ []) ∷ after_turn else after_one

-- The `for` loop of `recent_window`, over the turns from the newest to the oldest.
unfoldable pub select_turns :
    ℕ → List (List MessageRecord) → List MessageRecord → ℕ → List MessageRecord
select_turns limit [] selected total = selected
select_turns limit (turn ∷ older) selected total =
    let next = select_turns limit older (turn ++ selected) (total + count_tokens turn) in
    if ltb limit (count_tokens turn)
    then selected
    else if ltb limit (total + count_tokens turn)
    then selected
    else next

unfoldable pub recent_window : ShortTermMemory → List MessageRecord → List MessageRecord
recent_window self messages =
    select_turns self.recent_window_token_limit (reverse (complete_turns messages)) [] 0

abbrev pub ids : List MessageRecord → List String
ids = map (λ (m : MessageRecord). m.id)

-- `[item for item in messages if item.id not in recent_ids]`
unfoldable pub outside : List String → List MessageRecord → List MessageRecord
outside recent_ids messages = keep (λ (m : MessageRecord). not (contains m.id recent_ids)) messages

unfoldable pub plan_compaction : ShortTermMemory → List MessageRecord → Bool → CompactionPlan
plan_compaction self messages force =
    if not force && not (should_compact self messages)
    then (record {
      should_compact = false;
      compact_source = [];
      recent_window = messages;
      compacted_message_count = 0;
      compacted_token_count = 0;
      raw_window_message_count = length messages;
      raw_window_token_count = count_tokens messages;
    })
    else (let window = recent_window self messages in
        let source = outside (ids window) messages in
        record {
          should_compact = true;
          compact_source = source;
          recent_window = window;
          compacted_message_count = length source;
          compacted_token_count = count_tokens source;
          raw_window_message_count = length window;
          raw_window_token_count = count_tokens window;
        })
