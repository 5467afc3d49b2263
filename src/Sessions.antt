-- ===== src/Sessions.antt =====
-- Turning-Good-Agent/sessions/types.py, sessions/token_counter.py and context/session_context.py:
-- the records of a conversation, token weights, and the history that a turn starts from.
use Prim.Native.Nat.{max}
use turning_good_agent.Prelude.{
  ℕ, String, Bool, true, false, not, ◌||◌, Option, List, [], ◌∷◌, total, if◌then◌else◌,
}
use turning_good_agent.Prelude.Text.{is_empty}

-- The values of `metadata` are texts here; no modelled operation reads them.
pub record MessageRecord : Type 0 where
  pub id : String
  pub session_id : String
  pub role : String
  pub content : String
  pub name : Option String
  pub tool_call_id : Option String
  pub token_count : ℕ
  pub created_at : String
  pub metadata : List (String × String)

pub record Session : Type 0 where
  pub id : String
  pub user_id : String
  pub channel : String
  pub title : String
  pub summary : String
  pub pinned : Bool
  pub archived : Bool
  pub uncompacted_history : List MessageRecord
  pub created_at : String
  pub updated_at : String
  pub principal_id : String
  pub conversation_id : String

pub record SessionContext : Type 0 where
  pub session : Session
  pub full_history : List MessageRecord
  pub uncompacted_history : List MessageRecord
  pub summary : String

-- `bool(xs)` of a list.
abbrev pub is_nonempty {ℓ} : {A : Type ℓ} → List A → Bool
is_nonempty [] = false
is_nonempty (x ∷ xs) = true

unfoldable pub build_session_context : Session → List MessageRecord → SessionContext
build_session_context session full_history = record {
  session = session;
  full_history = full_history;
  uncompacted_history =
      if is_nonempty session.uncompacted_history || not (is_empty session.summary)
      then session.uncompacted_history
      else full_history;
  summary = session.summary;
}

unfoldable pub count_message_tokens : List MessageRecord → ℕ
count_message_tokens messages = total (λ (m : MessageRecord). m.token_count) messages

-- The tokenizer is a parameter: the length of its encoding of a text.
unfoldable pub count_content_tokens : (String → ℕ) → String → ℕ
unfolding is_empty
count_content_tokens encoded_length content =
    if is_empty content then 0 else max 1 (encoded_length content)
