-- ===== src/Gateway/Turns/Reach.antt =====
-- The system as a transition relation: any coroutine may run its next critical section, and the
-- environment chooses messages, callbacks and the results of turns.
use turning_good_agent.Prelude.{
  ℕ, String, Bool, true, ◌≡◌, refl, List, [], arith, contains, count, inr, ◌++◌, ◌≤◌, string_eq,
}
use turning_good_agent.Bus.{ChannelRoute, InboundMessage}
use turning_good_agent.Gateway.Turns.Routes.{RouteKey, route_eq}
use turning_good_agent.Gateway.Turns.{
  GatewayTurnCoordinator, TurnDispatch, TurnResult, submit, complete_route_turn, rollback_section,
  discard_pending_route, finish_message, notify_if_idle, start, stop_consuming, clear_work,
  reserve_matching_routes_if_idle, release_route_block, start_task, new_coordinator,
}
use turning_good_agent.Gateway.Turns.Invariant.{
  System, IsBalanced, still, drop_one, clear_work-IsBalanced, take_up, admitted_work, submit_unique,
  submit-once, complete_route_turn-IsBalanced, rollback_section-IsBalanced,
  discard_pending_route-IsBalanced, release-once,
}

abbrev at : GatewayTurnCoordinator → List String → List String → System
at c working abandoned = record { coordinator = c; working = working; abandoned = abandoned }

-- A request that is rolled back or finished is being worked on. When a close clears the coordinator,
-- any of the requests that are worked on may be left, on the bus or with a callback; they may still
-- be rolled back, or run when the coordinator is started again.
pub data Step : System → System → Type 0 where
  submitted :
      (c : GatewayTurnCoordinator) (w l : List String) (m : InboundMessage) (d : TurnDispatch)
      → Step (at c w l) (at (submit c m d).1 (admitted_work (submit c m d).0 w) l)
  completed :
      (c : GatewayTurnCoordinator) (w l : List String) (route : ChannelRoute) (id : String)
      → Step
          (at c w l)
          (at (complete_route_turn c route id).0 (take_up (complete_route_turn c route id).1 w) l)
  rolled_back :
      (c : GatewayTurnCoordinator) (w l : List String) (route : ChannelRoute) (id : String)
      (advance : Bool)
      → contains id w ≡ true
      → Step (at c w l) (
          at
            (rollback_section c route id advance).0
            (take_up (rollback_section c route id advance).1 (drop_one id w))
            l)
  finished :
      (c : GatewayTurnCoordinator) (w l : List String) (task : ℕ) (m : InboundMessage)
      (r : TurnResult)
      → contains m.id w ≡ true
      → Step (at c w l) (at (finish_message c task m r).1 (drop_one m.id w) l)
  discarded :
      (c : GatewayTurnCoordinator) (w l : List String) (route : ChannelRoute)
      → Step (at c w l) (at (discard_pending_route c route) w l)
  reserved :
      (c : GatewayTurnCoordinator) (w l : List String) (matcher : RouteKey → Bool) (token : String)
      → Step (at c w l) (at (reserve_matching_routes_if_idle c matcher token).1 w l)
  released :
      (c : GatewayTurnCoordinator) (w l : List String) (token : String)
      → Step (at c w l) (at (release_route_block c token) w l)
  notified :
      (c : GatewayTurnCoordinator) (w l : List String) → Step (at c w l) (at (notify_if_idle c) w l)
  consumed :
      (c : GatewayTurnCoordinator) (w l : List String) (task : ℕ)
      → Step (at c w l) (at (start_task c task) w l)
  started : (c : GatewayTurnCoordinator) (w l : List String) → Step (at c w l) (at (start c) w l)
  stopped :
      (c : GatewayTurnCoordinator) (w l : List String) → Step (at c w l) (at (stop_consuming c) w l)
  cleared :
      (c : GatewayTurnCoordinator) (w l kept : List String)
      → ((id : String) → count id kept ≤ count id w)
      → Step (at c w l) (at (clear_work c) kept (kept ++ l))

pub data Reach (s : System) : System → Type 0 where
  here : Reach s s
  next : {t u : System} → Reach s t → Step t u → Reach s u

-- What the balance reads.
record SameWork (c c' : GatewayTurnCoordinator) : Type 0 where
  pending : c'.pending_routes ≡ c.pending_routes
  inflight : c'.inflight ≡ c.inflight

SameWork-IsBalanced :
    (c c' : GatewayTurnCoordinator) (w l : List String)
    → SameWork c c'
    → IsBalanced (at c w l)
    → IsBalanced (at c' w l)
SameWork-IsBalanced c c' w l same b = record {
  unique = rw same.pending b.unique;
  once = λ id. still id l _ _ (λ h. rw (same.pending, same.inflight) h) (b.once id);
}

notify_if_idle-SameWork : (c : GatewayTurnCoordinator) → SameWork c (notify_if_idle c)
unfolding notify_if_idle
notify_if_idle-SameWork c = ground arith

reserve-SameWork :
    (c : GatewayTurnCoordinator) (matcher : RouteKey → Bool) (token : String)
    → SameWork c (reserve_matching_routes_if_idle c matcher token).1
unfolding reserve_matching_routes_if_idle
reserve-SameWork c matcher token = ground arith

start-SameWork : (c : GatewayTurnCoordinator) → SameWork c (start c)
unfolding start
start-SameWork c = ground arith

finish_message-IsBalanced :
    (c : GatewayTurnCoordinator) (w l : List String) (task : ℕ) (m : InboundMessage)
    (r : TurnResult)
    → contains m.id w ≡ true
    → IsBalanced (at c w l)
    → IsBalanced (at (finish_message c task m r).1 (drop_one m.id w) l)
unfolding finish_message
finish_message-IsBalanced c w l task m r in_work b =
    SameWork-IsBalanced _ _ _ l (notify_if_idle-SameWork _) (record {
      unique = b.unique;
      once = λ id. still id l _ _ (release-once c w m.id id in_work) (b.once id);
    })

pub Step-IsBalanced : {s t : System} → Step s t → IsBalanced s → IsBalanced t
Step-IsBalanced (submitted c w l m d) b = record {
  unique = submit_unique c m d b.unique;
  once = λ id. still id l _ _ (submit-once c w m d id) (b.once id);
}
Step-IsBalanced (completed c w l route id) b = complete_route_turn-IsBalanced c w l route id b
Step-IsBalanced (rolled_back c w l route id advance h) b =
    rollback_section-IsBalanced c w l route id advance h b
Step-IsBalanced (finished c w l task m r h) b = finish_message-IsBalanced c w l task m r h b
Step-IsBalanced (discarded c w l route) b = discard_pending_route-IsBalanced c w l route b
Step-IsBalanced (reserved c w l matcher token) b =
    SameWork-IsBalanced _ _ w l (reserve-SameWork c matcher token) b
Step-IsBalanced (released c w l token) b =
    unfold release_route_block in record { unique = b.unique; once = b.once }
Step-IsBalanced (notified c w l) b = SameWork-IsBalanced _ _ w l (notify_if_idle-SameWork c) b
Step-IsBalanced (consumed c w l task) b =
    unfold start_task in record { unique = b.unique; once = b.once }
Step-IsBalanced (started c w l) b = SameWork-IsBalanced _ _ w l (start-SameWork c) b
Step-IsBalanced (stopped c w l) b =
    unfold stop_consuming in record { unique = b.unique; once = b.once }
Step-IsBalanced (cleared c w l kept h) b = clear_work-IsBalanced c kept l

-- A new coordinator, with no work.
abbrev pub initial : System
initial = at new_coordinator [] []

initial-IsBalanced : IsBalanced initial
initial-IsBalanced = record { unique = tt; once = λ id. inr refl }

-- In every reachable state, closes and restarts included, each request that no close has left on
-- the bus or with a callback is in exactly one place if it is accepted: it waits once, or it is
-- worked on once; and if it is not accepted it is nowhere.
pub Reach-IsBalanced : (t : System) → Reach initial t → IsBalanced t
Reach-IsBalanced t here = initial-IsBalanced
Reach-IsBalanced t (next {t = u} r step) = Step-IsBalanced step (Reach-IsBalanced u r)
