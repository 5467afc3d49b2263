-- ===== src/Proactive/ReviewWindow.antt =====
-- Turning-Good-Agent/proactive/review_window.py: which messages a proactive review reads, in
-- which batches, and where its cursor stands afterwards. `parse_time` stands for
-- `datetime.fromisoformat` with the conversion to UTC: the instant of a text, in microseconds,
-- or none where Python raises. `token_limit` and `refresh` are numbers, so what the source
-- refuses as negative is refused at 0.
pub mod Batches
pub mod Ordering
pub mod Coverage
pub mod Cursor
mod Samples
use Prim.Native.Nat.{max}
use Prim.Native.String.{compare}
use text.Mathlib.Text.{is_le}
use mathlib.Core.Option
use turning_good_agent.Prelude.{
  ℕ, suc, ◌+◌, ◌-◌, String, Bool, true, false, ◌&&◌, ◌||◌, Option, none, some, List, [], ◌∷◌, ◌++◌,
  map, ltb, leb, nat_beq, length, drop, last?, ◌==◌, string_eq, if◌then◌else◌,
}
use turning_good_agent.Prelude.Result.{Result, ok, raise, raise_if, or_raise, ◌>>=◌, ◌>>◌}
use turning_good_agent.Sessions.{MessageRecord, is_nonempty}

pub record ReviewCursor : Type 0 where
  pub message_id : String
  pub created_at : String

pub record ReviewBatch : Type 0 where
  pub messages : List MessageRecord

pub record ReviewSelection : Type 0 where
  pub batches : List ReviewBatch
  pub advance_cursor : Option ReviewCursor
  pub skipped_before : Bool

-- The `ValueError`s.
pub data ReviewError : Type 0 where
  bad_token_limit bad_refresh bad_time oversized_message : ReviewError

-- A message beside its parsed time.
pub record Timed : Type 0 where
  pub time : ℕ
  pub message : MessageRecord

abbrev pub messages_of : List Timed → List MessageRecord
messages_of = map (λ (t : Timed). t.message)

-- The generator in `sorted(...)`: user and assistant messages up to the snapshot.
unfoldable pub eligible :
    (String → Option ℕ) → ℕ → List MessageRecord → Result ReviewError (List Timed)
eligible parse_time snapshot_time [] = ok []
eligible parse_time snapshot_time (message ∷ messages) =
    let rest = eligible parse_time snapshot_time messages in
    if message.role == "user" || message.role == "assistant"
    then (do
      time ← or_raise (parse_time message.created_at) bad_time
      later ← rest
      ok (
          if leb time snapshot_time
          then record { time = time; message = message } ∷ later
          else later))
    else rest

-- The sort key `(time, id)`, compared as Python compares tuples.
abbrev pub key_le : Timed → Timed → Bool
key_le a b =
    if ltb a.time b.time
    then true
    else (nat_beq a.time b.time && is_le (compare a.message.id b.message.id))

unfoldable pub insert_by_key : Timed → List Timed → List Timed
insert_by_key a [] = a ∷ []
insert_by_key a (b ∷ rest) =
    let later = insert_by_key a rest in if key_le a b then a ∷ b ∷ rest else b ∷ later

-- `sorted` is stable: an element is put before its equals, which stood behind it.
unfoldable pub sort_by_key : List Timed → List Timed
unfolding insert_by_key
sort_by_key [] = []
sort_by_key (a ∷ rest) = insert_by_key a (sort_by_key rest)

-- The index of the first message at or after the threshold, or strictly after it.
unfoldable pub first_at_or_after : List Timed → ℕ → Bool → ℕ
first_at_or_after [] threshold strict = 0
first_at_or_after (m ∷ rest) threshold strict =
    let later = first_at_or_after rest threshold strict in
    if (if strict then ltb threshold m.time else leb threshold m.time) then 0 else suc later

-- The `for` loop of `_unread_start`: the index behind the message that the cursor names.
unfoldable pub index_after_id : String → List Timed → Option ℕ
index_after_id id [] = none
index_after_id id (m ∷ rest) =
    let later = Option.map suc (index_after_id id rest) in
    if m.message.id == id then some 1 else later

unfoldable pub unread_start :
    (String → Option ℕ) → List Timed → Option ReviewCursor → Result ReviewError ℕ
unread_start parse_time messages none = ok 0
unread_start parse_time messages (some cursor) = elim (index_after_id cursor.message_id messages) [
  | some index ↦ ok index
  | none ↦ do
    cursor_time ← or_raise (parse_time cursor.created_at) bad_time
    ok (first_at_or_after messages cursor_time true)
]

abbrev pub cursor_for : MessageRecord → ReviewCursor
cursor_for message = record { message_id = message.id; created_at = message.created_at }

-- The `for` loop of `_batches`, with its local variables.
unfoldable pub batch_loop :
    ℕ
    → List MessageRecord
    → List (List MessageRecord)
    → List MessageRecord
    → ℕ
    → Result ReviewError (List (List MessageRecord))
batch_loop token_limit [] batches current current_tokens =
    ok (if is_nonempty current then batches ++ current ∷ [] else batches)
batch_loop token_limit (message ∷ rest) batches current current_tokens =
    let fresh =
      batch_loop token_limit rest (batches ++ current ∷ []) (message ∷ []) message.token_count in
    let grown =
      batch_loop token_limit rest batches (current ++ message ∷ [])
        (current_tokens + message.token_count) in
    if ltb token_limit message.token_count
    then raise oversized_message
    else if is_nonempty current && ltb token_limit (current_tokens + message.token_count)
    then fresh
    else grown

unfoldable pub batches_of : List MessageRecord → ℕ → Result ReviewError (List (List MessageRecord))
unfolding batch_loop
batches_of messages token_limit = batch_loop token_limit messages [] [] 0

-- Whether the cursor's time is at or after the start of the window.
unfoldable pub cursor_is_fresh :
    (String → Option ℕ) → ℕ → Option ReviewCursor → Result ReviewError Bool
cursor_is_fresh parse_time window_start none = ok false
cursor_is_fresh parse_time window_start (some cursor) = do
  cursor_time ← or_raise (parse_time cursor.created_at) bad_time
  ok (leb window_start cursor_time)

-- `_cursor_for(xs[-1])`; the source calls it on nonempty lists only.
abbrev pub last_cursor : List Timed → Option ReviewCursor
last_cursor messages = Option.map (λ (m : Timed). cursor_for m.message) (last? messages)

-- Where the selected messages begin.
abbrev pub selected_start : Bool → ℕ → List Timed → ℕ → ℕ
selected_start fresh start source window_start =
    if fresh then start else max start (first_at_or_after source window_start false)

-- From `if not selected` on.
unfoldable pub finish_selection :
    List Timed → List Timed → Bool → Bool → ℕ → Result ReviewError ReviewSelection
unfolding batches_of
finish_selection source [] fresh skipped_before token_limit = ok (record {
  batches = [];
  advance_cursor = last_cursor source;
  skipped_before = if fresh then false else true;
})
finish_selection source selected fresh skipped_before token_limit = do
  batches ← batches_of (messages_of selected) token_limit
  ok (record {
    batches = map (λ batch. record { messages = batch }) batches;
    advance_cursor = if skipped_before then last_cursor source else last_cursor selected;
    skipped_before = skipped_before;
  })

-- From the sorted source on.
unfoldable pub select_from :
    (String → Option ℕ)
    → List Timed
    → Option ReviewCursor
    → ℕ
    → ℕ
    → ℕ
    → Result ReviewError ReviewSelection
unfolding unread_start cursor_is_fresh finish_selection
select_from parse_time [] cursor snapshot_time refresh token_limit =
    ok (record { batches = []; advance_cursor = cursor; skipped_before = false })
select_from parse_time source cursor snapshot_time refresh token_limit = do
  start ← unread_start parse_time source cursor
  if leb (length source) start
      then ok (record { batches = []; advance_cursor = cursor; skipped_before = false })
      else (do
        let window_start = snapshot_time - refresh
        fresh ← cursor_is_fresh parse_time window_start cursor
        let from = selected_start fresh start source window_start
        finish_selection source (drop from source) fresh (if fresh then false else ltb start from)
            token_limit)

unfoldable pub select_review_window :
    (String → Option ℕ)
    → List MessageRecord
    → Option ReviewCursor
    → ℕ
    → ℕ
    → ℕ
    → Result ReviewError ReviewSelection
unfolding eligible sort_by_key select_from
select_review_window parse_time messages cursor now refresh token_limit = do
  raise_if (nat_beq token_limit 0) bad_token_limit
  raise_if (nat_beq refresh 0) bad_refresh
  source ← eligible parse_time now messages
  select_from parse_time (sort_by_key source) cursor now refresh token_limit
