-- ===== src/Gateway/Turns/Waits.antt =====
-- gateway/turns.py: the routes with waiting messages and the active routes, in every reachable
-- state.
use turning_good_agent.Prelude.{
  String, Bool, true, false, Bool-cases, ◌≡◌, refl, inl, inr, List, [], ◌∷◌, ◌++◌, arith, any,
  contains, count, discard, string_eq, ◌⊎◌,
}
use turning_good_agent.Prelude.Dict.{get-put, get-remove, get-nil}
use turning_good_agent.Bus.{ChannelRoute, InboundMessage}
use turning_good_agent.Gateway.Turns.Routes.{RouteKey, route_eq, route_iff}
use turning_good_agent.Gateway.Turns.{
  GatewayTurnCoordinator, TurnDispatch, Pending, route_key, is_active, pending_of, submit,
  complete_route_turn, advance_route, rollback_section, drop_route, discard_pending_route,
  finish_message, notify_if_idle, stop_consuming, clear_work, start, start_task, is_globally_idle,
  reserve_matching_routes_if_idle, release_route_block,
}
use turning_good_agent.Gateway.Turns.Queues.{WaitsBehind}
use turning_good_agent.Gateway.Turns.Invariant.{System, waiting, still}
use turning_good_agent.Gateway.Turns.Reach.{
  Step, Reach, here, next, initial, Reach-IsBalanced, submitted, completed, rolled_back, finished,
  discarded, reserved, released, notified, consumed, started, stopped, cleared,
}

submit-WaitsBehind :
    (c : GatewayTurnCoordinator) (m : InboundMessage) (d : TurnDispatch)
    → WaitsBehind c
    → WaitsBehind (submit c m d).1
unfolding submit
submit-WaitsBehind c m d w key = ground (
  arith,
  get-put (route_key m.route) key m.id c.active_routes,
  get-put (route_key m.route) key
      (pending_of (route_key m.route) c ++ (record { message = m; dispatch = d }) ∷ [])
      c.pending_routes,
  route_iff (route_key m.route) key,
  w key,
)

advance_route-WaitsBehind :
    (at : RouteKey) (q : List Pending) (c : GatewayTurnCoordinator)
    → WaitsBehind c
    → WaitsBehind (advance_route at q c).0
unfolding advance_route
advance_route-WaitsBehind at [] c w key =
    ground (arith, get-remove at key c.active_routes, get-remove at key c.pending_routes, w key)
advance_route-WaitsBehind at (p ∷ []) c w key =
    ground (
      arith,
      get-put at key p.message.id c.active_routes,
      get-remove at key c.pending_routes,
      w key,
    )
advance_route-WaitsBehind at (p ∷ q ∷ rest) c w key = ground (
  arith,
  get-put at key p.message.id c.active_routes,
  get-put at key (q ∷ rest) c.pending_routes,
  w key,
)

complete_route_turn-WaitsBehind :
    (c : GatewayTurnCoordinator) (route : ChannelRoute) (id : String)
    → WaitsBehind c
    → WaitsBehind (complete_route_turn c route id).0
unfolding complete_route_turn
complete_route_turn-WaitsBehind c route id w =
    let at = route_key route in
    elim (Bool-cases (is_active at id c)) [
      | inr other ↦ rw other w
      | inl mine ↦ rw mine (advance_route-WaitsBehind at (pending_of at c) c w)
    ]

drop_route-WaitsBehind :
    (at : RouteKey) (c : GatewayTurnCoordinator) → WaitsBehind c → WaitsBehind (drop_route at c)
unfolding drop_route
drop_route-WaitsBehind at c w key =
    ground (arith, get-remove at key c.active_routes, get-remove at key c.pending_routes, w key)

rollback_section-WaitsBehind :
    (c : GatewayTurnCoordinator) (route : ChannelRoute) (id : String) (advance : Bool)
    → WaitsBehind c
    → WaitsBehind (rollback_section c route id advance).0
unfolding rollback_section
rollback_section-WaitsBehind c route id true w =
    let at = route_key route in
    elim (Bool-cases (is_active at id c)) [
      | inr other ↦ rw other w
      | inl mine ↦ rw mine (
          advance_route-WaitsBehind at (pending_of at c)
            (record c { inflight = discard id c.inflight }) w)
    ]
rollback_section-WaitsBehind c route id false w =
    let at = route_key route in
    elim (Bool-cases (is_active at id c)) [
      | inr other ↦ rw other w
      | inl mine ↦
          rw mine (drop_route-WaitsBehind at (record c { inflight = discard id c.inflight }) w)
    ]

discard_pending_route-WaitsBehind :
    (c : GatewayTurnCoordinator) (route : ChannelRoute)
    → WaitsBehind c
    → WaitsBehind (discard_pending_route c route)
unfolding discard_pending_route
discard_pending_route-WaitsBehind c route w key =
    ground (arith, get-remove (route_key route) key c.pending_routes, w key)

notify_if_idle-WaitsBehind :
    (c : GatewayTurnCoordinator) → WaitsBehind c → WaitsBehind (notify_if_idle c)
unfolding notify_if_idle
notify_if_idle-WaitsBehind c w key = ground (arith, w key)

start-WaitsBehind : (c : GatewayTurnCoordinator) → WaitsBehind c → WaitsBehind (start c)
unfolding start
start-WaitsBehind c w key = ground (arith, w key)

reserve-WaitsBehind :
    (c : GatewayTurnCoordinator) (matcher : RouteKey → Bool) (token : String)
    → WaitsBehind c
    → WaitsBehind (reserve_matching_routes_if_idle c matcher token).1
unfolding reserve_matching_routes_if_idle
reserve-WaitsBehind c matcher token w key = ground (arith, w key)

Step-WaitsBehind : {s t : System} → Step s t → WaitsBehind s.coordinator → WaitsBehind t.coordinator
Step-WaitsBehind (submitted c w l m d) h = submit-WaitsBehind c m d h
Step-WaitsBehind (completed c w l route id) h = complete_route_turn-WaitsBehind c route id h
Step-WaitsBehind (rolled_back c w l route id advance p) h =
    rollback_section-WaitsBehind c route id advance h
Step-WaitsBehind (finished c w l task m r p) h =
    unfold finish_message in notify_if_idle-WaitsBehind _ h
Step-WaitsBehind (discarded c w l route) h = discard_pending_route-WaitsBehind c route h
Step-WaitsBehind (reserved c w l matcher token) h = reserve-WaitsBehind c matcher token h
Step-WaitsBehind (released c w l token) h = unfold release_route_block in h
Step-WaitsBehind (notified c w l) h = notify_if_idle-WaitsBehind c h
Step-WaitsBehind (consumed c w l task) h = unfold start_task in h
Step-WaitsBehind (started c w l) h = start-WaitsBehind c h
Step-WaitsBehind (stopped c w l) h = unfold stop_consuming in h
Step-WaitsBehind (cleared c w l kept p) h = unfold clear_work in λ key e. get-nil key

-- In every reachable state a message waits only behind an active turn of its route.
pub Reach-WaitsBehind : (t : System) → Reach initial t → WaitsBehind t.coordinator
Reach-WaitsBehind t here = λ key h. get-nil key
Reach-WaitsBehind t (next {t = u} r step) = Step-WaitsBehind step (Reach-WaitsBehind u r)

none_in_flight : (xs : List String) → any (λ _. true) xs ≡ false → xs ≡ []
none_in_flight [] h = refl
none_in_flight (x ∷ xs) h = cc

idle-inflight : (c : GatewayTurnCoordinator) → is_globally_idle c ≡ true → c.inflight ≡ []
unfolding is_globally_idle
idle-inflight c h = none_in_flight c.inflight (ground arith)

-- A coordinator that reports itself idle, closes and restarts included, has no waiting message and no
-- work left of any request, but for those that a close has left on the bus or with a callback.
pub idle_has_no_work :
    (t : System) (id : String)
    → Reach initial t
    → is_globally_idle t.coordinator ≡ true
    → (contains id t.abandoned ≡ true) ⊎ ((waiting id t.coordinator ≡ 0) × (count id t.working ≡ 0))
idle_has_no_work t id r h =
    still id t.abandoned _ _
      (λ once.
        let none_left = rw (idle-inflight t.coordinator h) at once in
        (omega (arith, none_left), omega (arith, none_left)))
      ((Reach-IsBalanced t r).once id)
