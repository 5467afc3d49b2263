-- ===== src/Bus.antt =====
-- Turning-Good-Agent/bus/messages.py and bus/queue.py: routes, recipients, the messages that
-- travel on the bus with the checks of their constructors, and the two FIFO queues. A call
-- to `uuid4` or `utc_now_iso` is an argument, `fresh_id` or `now`.
pub mod Normal
mod Samples
use turning_good_agent.Prelude.{
  ℕ, String, Bool, true, false, not, ◌&&◌, ◌||◌, ◌≡◌, ◌↔◌, Option, none, some, List, [], ◌∷◌, ◌++◌,
  arith, Eq, ◌==◌, string_eq, eq_iff, if◌then◌else◌,
}
use turning_good_agent.Prelude.Dict.{Dict}
use turning_good_agent.Prelude.Text.{is_empty}
use turning_good_agent.Prelude.Result.{Result, ok, raise, raise_if, or_raise, ◌>>=◌, ◌>>◌}

-- A value under a metadata key: what `isinstance` tells apart where the program asks.
pub data MetadataValue : Type 0 where
  null : MetadataValue
  text : String → MetadataValue
  boolean : Bool → MetadataValue
  integer : ℕ → MetadataValue
  negative : ℕ → MetadataValue
  other : MetadataValue

abbrev pub Metadata : Type 0
Metadata = Dict String MetadataValue

pub record ChannelRoute : Type 0 where
  pub principal_id : String
  pub channel : String
  pub conversation_id : String
  pub session_id : String

pub record Recipient : Type 0 where
  pub principal_id : String
  pub channel : String
  pub conversation_id : String

pub record InboundMessage : Type 0 where
  pub id : String
  pub session_id : String
  pub route : ChannelRoute
  pub content : String
  pub attachments : List Metadata
  pub metadata : Metadata
  pub created_at : String

pub record OutboundMessage : Type 0 where
  pub id : String
  pub session_id : String
  pub recipient : Recipient
  pub content : String
  pub event_type : String
  pub event_id : String
  pub disposition : String
  pub metadata : Metadata
  pub created_at : String

-- The `TypeError`s and `ValueError`s of the constructors.
pub data MessageError : Type 0 where
  missing_route session_mismatch user_mismatch channel_mismatch : MessageError
  missing_recipient recipient_mismatch target_mismatch unknown_disposition : MessageError

-- `x is not None and x != y`
abbrev pub differs : Option String → String → Bool
differs none y = false
differs (some x) y = not (x == y)

-- The route of a message: given, and then the old fields must agree with it, or built from them.
unfoldable pub normal_route :
    Option ChannelRoute
    → Option String
    → Option String
    → Option String
    → Result MessageError ChannelRoute
normal_route none session_id user_id channel = do
  session ← or_raise session_id missing_route
  user ← or_raise user_id missing_route
  name ← or_raise channel missing_route
  ok (record {
    principal_id = user;
    channel = name;
    conversation_id = session;
    session_id = session;
  })
normal_route (some route) session_id user_id channel = do
  raise_if (differs session_id route.session_id) session_mismatch
  raise_if (differs user_id route.principal_id) user_mismatch
  raise_if (differs channel route.channel) channel_mismatch
  ok route

-- `x or y` on texts.
abbrev pub or_else : Option String → String → String
or_else none y = y
or_else (some x) y = if is_empty x then y else x

-- `InboundMessage.__init__`
unfoldable pub make_inbound :
    String
    → Option String
    → Option String
    → Option String
    → String
    → List Metadata
    → Metadata
    → Option String
    → Option ChannelRoute
    → String
    → Result MessageError InboundMessage
unfolding normal_route
make_inbound id session_id user_id channel content attachments metadata created_at route now = do
  normal ← normal_route route session_id user_id channel
  ok (record {
    id = id;
    session_id = normal.session_id;
    route = normal;
    content = content;
    attachments = attachments;
    metadata = metadata;
    created_at = or_else created_at now;
  })

-- `target_channel`: an old channel name or a recipient.
pub data Target : Type 0 where
  channel_name : String → Target
  recipient_of : Recipient → Target

unfoldable pub recipient_beq : Recipient → Recipient → Bool
recipient_beq a b =
    a.principal_id == b.principal_id
    && a.channel == b.channel
    && a.conversation_id == b.conversation_id

unfoldable pub normal_recipient :
    Option Target → Option Recipient → String → Result MessageError Recipient
unfolding recipient_beq
normal_recipient none none session_id = raise missing_recipient
normal_recipient none (some recipient) session_id = ok recipient
normal_recipient (some (channel_name name)) none session_id =
    ok (record { principal_id = "legacy"; channel = name; conversation_id = session_id })
normal_recipient (some (channel_name name)) (some recipient) session_id =
    if name == recipient.channel then ok recipient else raise target_mismatch
normal_recipient (some (recipient_of target)) none session_id = ok target
normal_recipient (some (recipient_of target)) (some recipient) session_id =
    if recipient_beq recipient target then ok target else raise recipient_mismatch

-- `OutboundMessage.__init__`
unfoldable pub make_outbound :
    String
    → String
    → Option Target
    → String
    → String
    → Metadata
    → Option String
    → Option Recipient
    → Option String
    → String
    → String
    → Result MessageError OutboundMessage
unfolding normal_recipient
make_outbound id session_id target content event_type metadata created_at recipient event_id
      disposition now =
    do
      normal ← normal_recipient target recipient session_id
      raise_if (not (disposition == "chat_reply" || disposition == "proactive_notification"))
          unknown_disposition
      ok (record {
        id = id;
        session_id = session_id;
        recipient = normal;
        content = content;
        event_type = event_type;
        event_id = or_else event_id id;
        disposition = disposition;
        metadata = metadata;
        created_at = or_else created_at now;
      })

-- `OutboundMessage.new`, which `completed` calls.
unfoldable pub new_outbound :
    String
    → Target
    → String
    → Option String
    → String
    → String
    → String
    → Result MessageError OutboundMessage
unfolding make_outbound
new_outbound session_id target content event_id disposition fresh_id now =
    make_outbound fresh_id session_id (some target) content "response.completed" [] none none
      event_id disposition now

-- `started`, `delta` and `error`, which differ in the event type and the content.
unfoldable pub event_message :
    String → Target → String → String → String → String → Result MessageError OutboundMessage
unfolding make_outbound
event_message session_id target content event_type fresh_id now =
    make_outbound fresh_id session_id (some target) content event_type [] none none none
      "chat_reply" now

-- The two unbounded queues of `AsyncMessageBus`. A consumer of an empty queue waits: none.
pub record AsyncMessageBus : Type 0 where
  pub inbound : List InboundMessage
  pub outbound : List OutboundMessage

unfoldable pub publish_inbound : InboundMessage → AsyncMessageBus → AsyncMessageBus
publish_inbound m bus = record bus { inbound = bus.inbound ++ m ∷ [] }

unfoldable pub publish_outbound : OutboundMessage → AsyncMessageBus → AsyncMessageBus
publish_outbound m bus = record bus { outbound = bus.outbound ++ m ∷ [] }

abbrev pub pop_front {ℓ} : {A : Type ℓ} → List A → Option (A × List A)
pop_front [] = none
pop_front (x ∷ xs) = some (x, xs)

unfoldable pub consume_inbound : AsyncMessageBus → Option (InboundMessage × AsyncMessageBus)
consume_inbound bus = elim (pop_front bus.inbound) [
  | none ↦ none
  | some (m, rest) ↦ some (m, record bus { inbound = rest })
]

unfoldable pub consume_outbound : AsyncMessageBus → Option (OutboundMessage × AsyncMessageBus)
consume_outbound bus = elim (pop_front bus.outbound) [
  | none ↦ none
  | some (m, rest) ↦ some (m, record bus { outbound = rest })
]
