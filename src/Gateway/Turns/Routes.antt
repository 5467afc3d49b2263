-- ===== src/Gateway/Turns/Routes.antt =====
-- `RouteKey` of Turning-Good-Agent/gateway/turns.py: the tuple that names a conversation.
use turning_good_agent.Prelude.{
  String, Bool, true, ◌&&◌, ◌≡◌, ◌↔◌, arith, Eq, ◌==◌, string_eq, eq_iff,
}

pub record RouteKey : Type 0 where
  pub principal_id : String
  pub channel : String
  pub conversation_id : String

unfoldable pub route_beq : RouteKey → RouteKey → Bool
route_beq a b =
    a.principal_id == b.principal_id
    && a.channel == b.channel
    && a.conversation_id == b.conversation_id

pub route_iff : (a b : RouteKey) → (route_beq a b ≡ true) ↔ (a ≡ b)
unfolding route_beq
route_iff a b = ground (
  arith,
  eq_iff a.principal_id b.principal_id,
  eq_iff a.channel b.channel,
  eq_iff a.conversation_id b.conversation_id,
)

instance abbrev pub route_eq : Eq RouteKey
route_eq = record { beq = route_beq; beq_iff = route_iff }
