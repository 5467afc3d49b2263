-- ===== src/Bus/Normal.antt =====
-- bus/messages.py: what a constructed message has to agree with.
use turning_good_agent.Prelude.{
  String, false, ◌≡◌, refl, inl, inr, Bool-cases, Option, none, some, List, arith, string_eq,
  eq_iff,
}
use turning_good_agent.Prelude.Result.{ok, OnOk, ok-injective, >>=-eq-ok}
use turning_good_agent.Bus.{
  Metadata, ChannelRoute, InboundMessage, differs, normal_route, make_inbound,
}

-- An accepted field is absent or the route's.
abbrev pub Agrees : Option String → String → Type 0
Agrees none y = Unit
Agrees (some x) y = x ≡ y

differs-Agrees : (o : Option String) (y : String) → differs o y ≡ false → Agrees o y
differs-Agrees none y h = tt
differs-Agrees (some x) y h = ground (arith, eq_iff x y)

-- The normalised route agrees with every old field that was given.
abbrev RouteAgrees : Option String → Option String → Option String → ChannelRoute → Type 0
RouteAgrees session_id user_id channel n =
    Agrees session_id n.session_id × Agrees user_id n.principal_id × Agrees channel n.channel

given-RouteAgrees :
    (s u c : Option String) (r : ChannelRoute)
    → OnOk (RouteAgrees s u c) (normal_route (some r) s u c)
unfolding normal_route
given-RouteAgrees s u c r = elim (Bool-cases (differs s r.session_id)) [
  | inl bad ↦ rw bad tt
  | inr good ↦ elim (Bool-cases (differs u r.principal_id)) [
    | inl bad' ↦ rw (good, bad') tt
    | inr good' ↦ elim (Bool-cases (differs c r.channel)) [
      | inl bad'' ↦ rw (good, good', bad'') tt
      | inr good'' ↦
          rw (good, good', good'')
            (
              differs-Agrees s r.session_id good,
              differs-Agrees u r.principal_id good',
              differs-Agrees c r.channel good'',
            )
    ]
  ]
]

normal_route-RouteAgrees :
    (r : Option ChannelRoute) (s u c : Option String)
    → OnOk (RouteAgrees s u c) (normal_route r s u c)
unfolding normal_route
normal_route-RouteAgrees none none u c = tt
normal_route-RouteAgrees none (some s) none c = tt
normal_route-RouteAgrees none (some s) (some u) none = tt
normal_route-RouteAgrees none (some s) (some u) (some c) = (refl, refl, refl)
normal_route-RouteAgrees (some r) s u c = given-RouteAgrees s u c r

-- What `InboundMessage` promises of its fields.
pub record IsNormal (session_id user_id channel : Option String) (m : InboundMessage) : Type 0 where
  pub session : m.session_id ≡ m.route.session_id
  pub session_agrees : Agrees session_id m.session_id
  pub user_agrees : Agrees user_id m.route.principal_id
  pub channel_agrees : Agrees channel m.route.channel

-- Whichever way a message is built, by a route or by the old fields, if the constructor does not
-- raise, its session is its route's and every old field that was given agrees with the route.
pub make_inbound-IsNormal :
    (id : String) (session_id user_id channel : Option String) (content : String)
    (attachments : List Metadata) (metadata : Metadata) (created_at : Option String)
    (route : Option ChannelRoute) (now : String) (m : InboundMessage)
    → make_inbound id session_id user_id channel content attachments metadata created_at route now
      ≡ ok m
    → IsNormal session_id user_id channel m
unfolding make_inbound
make_inbound-IsNormal id s u c content files md created route now m h =
    let (n, e, made) = >>=-eq-ok (normal_route route s u c) _ h in
    let (s_ok, u_ok, c_ok) = rw e at (normal_route-RouteAgrees route s u c) in
    let is_made = ok-injective made in
    rw (← is_made)
      (record { session = refl; session_agrees = s_ok; user_agrees = u_ok; channel_agrees = c_ok })
