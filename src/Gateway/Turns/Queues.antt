-- ===== src/Gateway/Turns/Queues.antt =====
-- gateway/turns.py: the abstract view, one FIFO queue of request ids for each route. The head is
-- the turn that runs, and what stands behind it waits.
use turning_good_agent.Prelude.{
  ◌&&◌, String, Bool, true, false, Bool-cases, ◌≡◌, refl, ap, inl, inr, Option, none, some, List,
  [], ◌∷◌, ◌++◌, arith, discard, ◌==◌, if◌then◌else◌, eq_iff, string_eq,
}
use turning_good_agent.Prelude.Dict
use turning_good_agent.Prelude.Dict.{Dict, get-put, get-remove}
use turning_good_agent.Prelude.Result.{ok}
use turning_good_agent.Bus.{ChannelRoute, InboundMessage}
use turning_good_agent.Gateway.Turns.Routes.{RouteKey, route_eq, route_iff}
use turning_good_agent.Gateway.Turns.{
  GatewayTurnCoordinator, TurnDispatch, Pending, Admission, refused, queued, dispatching, route_key,
  holds, is_active, pending_of, pending_ids, submit, complete_route_turn, advance_route,
  rollback_section, drop_route, discard_pending_route,
}

-- The abstract view: the request ids of a route, in the order in which they are served.
abbrev pub queue : RouteKey → GatewayTurnCoordinator → List String
queue key c = elim (Dict.get key c.active_routes) [
  | none ↦ []
  | some id ↦ id ∷ pending_ids (pending_of key c)
]

-- A message waits only behind an active turn.
abbrev pub WaitsBehind : GatewayTurnCoordinator → Type 0
WaitsBehind c =
    (key : RouteKey) → Dict.get key c.active_routes ≡ none → Dict.get key c.pending_routes ≡ none

-- The queues after a decision of `submit`.
abbrev pub enqueue : Admission → RouteKey → String → RouteKey → List String → List String
enqueue refused at id key ids = ids
enqueue queued at id key ids = if at == key then ids ++ id ∷ [] else ids
enqueue (dispatching item) at id key ids = if at == key then ids ++ id ∷ [] else ids

pending_ids-append :
    (xs : List Pending) (p : Pending)
    → pending_ids (xs ++ p ∷ []) ≡ pending_ids xs ++ p.message.id ∷ []
pending_ids-append [] p = refl
pending_ids-append (x ∷ xs) p = rw (pending_ids-append xs p)

-- Where messages wait only behind active turns and `submit` does not raise, an accepted message
-- goes to the end of its route's queue, and no other queue changes; a refused one changes none.
pub submit-queue :
    (c : GatewayTurnCoordinator) (m : InboundMessage) (d : TurnDispatch) (a : Admission)
    (key : RouteKey)
    → WaitsBehind c
    → (submit c m d).0 ≡ ok a
    → queue key (submit c m d).1 ≡ enqueue a (route_key m.route) m.id key (queue key c)
unfolding submit
submit-queue c m d a key w h = ground (
  arith,
  get-put (route_key m.route) key m.id c.active_routes,
  get-put (route_key m.route) key
      (pending_of (route_key m.route) c ++ (record { message = m; dispatch = d }) ∷ [])
      c.pending_routes,
  pending_ids-append (pending_of (route_key m.route) c) (record { message = m; dispatch = d }),
  route_iff (route_key m.route) key,
  w key,
)

-- The head that a dispatch is made for.
abbrev pub head_id : List Pending → Option String
head_id [] = none
head_id (p ∷ rest) = some p.message.id

-- The queue of a route whose turn has ended.
abbrev pub tail_of : List String → List String
tail_of [] = []
tail_of (id ∷ ids) = ids

abbrev pub first_of : List String → Option String
first_of [] = none
first_of (id ∷ ids) = some id

abbrev pub next_id : Option Pending → Option String
next_id none = none
next_id (some p) = some p.message.id

module _ (at : RouteKey) (c : GatewayTurnCoordinator) where
  advance_route-queue :
      (waiting : List Pending) (key : RouteKey)
      → queue key (advance_route at waiting c).0
        ≡ (if at == key then pending_ids waiting else queue key c)
  unfolding advance_route
  advance_route-queue [] key = ground (
    arith,
    get-remove at key c.active_routes,
    get-remove at key c.pending_routes,
    route_iff at key,
  )
  advance_route-queue (p ∷ []) key = ground (
    arith,
    get-put at key p.message.id c.active_routes,
    get-remove at key c.pending_routes,
    route_iff at key,
  )
  advance_route-queue (p ∷ q ∷ rest) key = ground (
    arith,
    get-put at key p.message.id c.active_routes,
    get-put at key (q ∷ rest) c.pending_routes,
    route_iff at key,
  )

  advance_route-next :
      (waiting : List Pending)
      → next_id (advance_route at waiting c).1 ≡ first_of (pending_ids waiting)
  unfolding advance_route
  advance_route-next [] = refl
  advance_route-next (p ∷ rest) = refl

  drop_route-queue :
      (key : RouteKey) → queue key (drop_route at c) ≡ (if at == key then [] else queue key c)
  unfolding drop_route
  drop_route-queue key = ground (
    arith,
    get-remove at key c.active_routes,
    get-remove at key c.pending_routes,
    route_iff at key,
  )

holds-some : (o : Option String) (id : String) → holds o id ≡ true → o ≡ some id
holds-some none id h = cc
holds-some (some a) id h = ap some ((eq_iff a id).0 h)

-- The active request is the head of its queue.
is_active-queue :
    (key : RouteKey) (id : String) (c : GatewayTurnCoordinator)
    → is_active key id c ≡ true
    → queue key c ≡ id ∷ pending_ids (pending_of key c)
is_active-queue key id c h = ground (arith, holds-some (Dict.get key c.active_routes) id h)

-- What the end of a turn does to the queues: its route's queue loses the head.
abbrev pub dequeue : Bool → RouteKey → RouteKey → List String → List String
dequeue false at key ids = ids
dequeue true at key ids = if at == key then tail_of ids else ids

-- Completing the active request of a route takes it off the queue, dispatches the new head, if
-- there is one, and leaves every other route alone; any other request changes nothing.
pub complete_route_turn-queue :
    (c : GatewayTurnCoordinator) (route : ChannelRoute) (id : String) (key : RouteKey)
    → (queue key (complete_route_turn c route id).0
        ≡ dequeue (is_active (route_key route) id c) (route_key route) key (queue key c))
      × (next_id (complete_route_turn c route id).1 ≡ (
          if is_active (route_key route) id c
          then first_of (tail_of (queue (route_key route) c))
          else none))
unfolding complete_route_turn
complete_route_turn-queue c route id key =
    let at = route_key route in
    elim (Bool-cases (is_active at id c)) [
      | inr other ↦ rw other (refl, refl)
      | inl mine ↦ rw mine (
        ground (
          arith,
          advance_route-queue at c (pending_of at c) key,
          is_active-queue at id c mine,
          route_iff at key,
        ),
        rw (is_active-queue at id c mine) (advance_route-next at c (pending_of at c)),
      )
    ]

rollback_section-queue :
    (c : GatewayTurnCoordinator) (route : ChannelRoute) (id : String) (key : RouteKey)
    → queue key (rollback_section c route id true).0
      ≡ dequeue (is_active (route_key route) id c) (route_key route) key (queue key c)
unfolding rollback_section
rollback_section-queue c route id key =
    let at = route_key route in
    let cleared = record c { inflight = discard id c.inflight } in
    elim (Bool-cases (is_active at id c)) [
      | inr other ↦ rw other refl
      | inl mine ↦ rw mine (
          ground (
            arith,
            advance_route-queue at cleared (pending_of at c) key,
            is_active-queue at id c mine,
            route_iff at key,
          ))
    ]

rollback_section-other :
    (c : GatewayTurnCoordinator) (route : ChannelRoute) (id : String) (key : RouteKey)
    → is_active (route_key route) id c ≡ false
    → queue key (rollback_section c route id false).0 ≡ queue key c
unfolding rollback_section
rollback_section-other c route id key other = rw other refl

rollback_section-cancelled :
    (c : GatewayTurnCoordinator) (route : ChannelRoute) (id : String) (key : RouteKey)
    → is_active (route_key route) id c ≡ true
    → queue key (rollback_section c route id false).0
      ≡ (if route_key route == key then [] else queue key c)
unfolding rollback_section
rollback_section-cancelled c route id key mine =
    rw mine (drop_route-queue (route_key route) (record c { inflight = discard id c.inflight }) key)

-- Rolling back a dispatch that failed takes the request off the queue of its route, if it is the
-- active one there; rolling back a cancelled one, if it is, empties that queue; and every other
-- queue is left alone.
pub rollback_section-queues :
    (c : GatewayTurnCoordinator) (route : ChannelRoute) (id : String) (key : RouteKey)
    (advance : Bool)
    → queue key (rollback_section c route id advance).0 ≡ (
        if advance
        then dequeue (is_active (route_key route) id c) (route_key route) key (queue key c)
        else if is_active (route_key route) id c && route_key route == key
        then []
        else queue key c)
rollback_section-queues c route id key true = rollback_section-queue c route id key
rollback_section-queues c route id key false =
    elim (Bool-cases (is_active (route_key route) id c)) [
      | inl mine ↦ rw mine (rollback_section-cancelled c route id key mine)
      | inr other ↦ rw other (rollback_section-other c route id key other)
    ]

abbrev pub head_only : List String → List String
head_only [] = []
head_only (id ∷ ids) = id ∷ []

-- Discarding what waits on a route leaves at most the head of its queue, the running turn, and
-- keeps every other queue.
pub discard_pending_route-queue :
    (c : GatewayTurnCoordinator) (route : ChannelRoute) (key : RouteKey)
    → queue key (discard_pending_route c route)
      ≡ (if route_key route == key then head_only (queue key c) else queue key c)
unfolding discard_pending_route
discard_pending_route-queue c route key =
    ground
      (arith, get-remove (route_key route) key c.pending_routes, route_iff (route_key route) key)
