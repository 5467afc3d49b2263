-- ===== src/Gateway/Turns/Samples.antt =====
-- The theorems on the coordinator at a conversation with two requests.
use turning_good_agent.Prelude.{
  ◌&&◌, ◌≤◌, ◌≡◌, ◌≢◌, refl, eq_iff, String, true, false, none, some, List, [], ◌∷◌, arith, length,
  contains, count, string_eq, ◌⊎◌, if◌then◌else◌, ◌==◌,
}
use turning_good_agent.Prelude.Dict.{get, put}
use turning_good_agent.Prelude.Result.{ok}
use turning_good_agent.Bus.{ChannelRoute, InboundMessage}
use turning_good_agent.Gateway.Turns.Routes.{route_beq, route_eq}
use turning_good_agent.Gateway.Turns.{
  TurnDispatch, Outcome, raised, GatewayTurnCoordinator, queued, refused, TurnResult, failed,
  new_coordinator, route_key, is_blocked, submit, complete_route_turn, rollback_section,
  discard_pending_route, is_active, is_globally_idle, terminal_cache_limit, final_outbound,
  finish_message, notify_if_idle, resync,
}
use turning_good_agent.Gateway.Turns.Queues.{
  WaitsBehind, queue, enqueue, dequeue, first_of, tail_of, head_only, next_id, submit-queue,
  complete_route_turn-queue, rollback_section-queues, discard_pending_route-queue,
}
use turning_good_agent.Gateway.Turns.Invariant.{IsBalanced, waiting}
use turning_good_agent.Gateway.Turns.Reach.{
  submitted, finished, Reach, here, next, initial, Reach-IsBalanced,
}
use turning_good_agent.Gateway.Turns.Waits.{Reach-WaitsBehind, idle_has_no_work}
use turning_good_agent.Gateway.Turns.Terminal.{
  Finished, finish_all, resync-finish_all, submit-finish_all, finish_message-bounded,
}

abbrev route : ChannelRoute
route = record { principal_id = "u"; channel = "cli"; conversation_id = "c"; session_id = "s" }

abbrev message : String → InboundMessage
message id = record {
  id = id;
  session_id = "s";
  route = route;
  content = "hi";
  attachments = [];
  metadata = [];
  created_at = "";
}

-- The first request is dispatched, the second waits for it.
abbrev one : GatewayTurnCoordinator
one = (submit new_coordinator (message "a") 1).1

abbrev two : GatewayTurnCoordinator
two = (submit one (message "b") 2).1

first_step : Reach initial (record { coordinator = one; working = "a" ∷ []; abandoned = [] })
unfolding submit is_blocked get
first_step = next here (submitted new_coordinator [] [] (message "a") 1)

second_step : Reach initial (record { coordinator = two; working = "a" ∷ []; abandoned = [] })
unfolding submit is_blocked get put route_beq
second_step = next first_step (submitted one ("a" ∷ []) [] (message "b") 2)

Reach-IsBalanced_example :
    IsBalanced (record { coordinator = two; working = "a" ∷ []; abandoned = [] })
Reach-IsBalanced_example =
    Reach-IsBalanced (record { coordinator = two; working = "a" ∷ []; abandoned = [] }) second_step

Reach-WaitsBehind_example : WaitsBehind two
Reach-WaitsBehind_example =
    Reach-WaitsBehind (record { coordinator = two; working = "a" ∷ []; abandoned = [] }) second_step

-- The first request alone, answered.
abbrev answer : TurnResult
answer = failed "boom" "o" "now"

abbrev answered_one : GatewayTurnCoordinator
answered_one = (finish_message one 1 (message "a") answer).1

finish_step : Reach initial (record { coordinator = answered_one; working = []; abandoned = [] })
finish_step = next first_step (finished one ("a" ∷ []) [] 1 (message "a") answer refl)

idle_has_no_work_example :
    (contains {A = String} "b" [] ≡ true)
    ⊎ ((waiting "b" answered_one ≡ 0) × (count {A = String} "b" [] ≡ 0))
unfolding is_globally_idle submit is_blocked get finish_message notify_if_idle
idle_has_no_work_example =
    idle_has_no_work (record { coordinator = answered_one; working = []; abandoned = [] }) "b"
      finish_step refl

waits : WaitsBehind two
waits =
    Reach-WaitsBehind (record { coordinator = two; working = "a" ∷ []; abandoned = [] }) second_step

submit-queue_example :
    queue (route_key route) (submit two (message "c") 3).1
    ≡ enqueue queued (route_key route) "c" (route_key route) (queue (route_key route) two)
unfolding submit is_blocked get put route_beq
submit-queue_example = submit-queue two (message "c") 3 queued (route_key route) waits refl

complete_route_turn-queue_example :
    (queue (route_key route) (complete_route_turn two route "a").0
      ≡ dequeue
          (is_active (route_key route) "a" two)
          (route_key route)
          (route_key route)
          (queue (route_key route) two))
    × (next_id (complete_route_turn two route "a").1 ≡ (
        if is_active (route_key route) "a" two
        then first_of (tail_of (queue (route_key route) two))
        else none))
complete_route_turn-queue_example = complete_route_turn-queue two route "a" (route_key route)

rollback_section-queues_example :
    queue (route_key route) (rollback_section two route "a" false).0 ≡ (
      if false
      then dequeue
          (is_active (route_key route) "a" two)
          (route_key route)
          (route_key route)
          (queue (route_key route) two)
      else if is_active (route_key route) "a" two && route_key route == route_key route
      then []
      else queue (route_key route) two)
rollback_section-queues_example = rollback_section-queues two route "a" (route_key route) false

discard_pending_route-queue_example : queue (route_key route) (discard_pending_route two route) ≡ (
    if route_key route == route_key route
    then head_only (queue (route_key route) two)
    else queue (route_key route) two)
discard_pending_route-queue_example = discard_pending_route-queue two route (route_key route)

abbrev others : List Finished
others = record { task = 2; message = message "b"; result = answer } ∷ []

absurd_test : false ≢ true
absurd_test e = cc

other_id : ◌≢◌ {A = String} "b" "a"
other_id e = absurd_test ((eq_iff "b" "a").1 e)

resync-finish_all_example :
    resync (finish_all (finish_message one 1 (message "a") answer).1 others) "a"
    ≡ some (final_outbound (message "a") answer)
resync-finish_all_example =
    resync-finish_all one 1 (message "a") answer others (other_id, tt) (omega arith)

submit-finish_all_example :
    submit (finish_all (finish_message one 1 (message "a") answer).1 others) (message "a") 4
    ≡ (ok refused, finish_all (finish_message one 1 (message "a") answer).1 others)
unfolding finish_all finish_message notify_if_idle submit is_blocked get is_globally_idle
submit-finish_all_example =
    submit-finish_all one 1 (message "a") (message "a") answer others 4 refl (other_id, tt)
      (omega arith) refl

finish_message-bounded_example :
    length (finish_message one 1 (message "a") answer).1.terminal ≤ terminal_cache_limit
finish_message-bounded_example = finish_message-bounded one 1 (message "a") answer

-- Every callback raises.
abbrev raising : TurnDispatch → InboundMessage → Outcome
raising dispatch m = raised
