-- ===== src/Gateway/Turns.antt =====
-- Turning-Good-Agent/gateway/turns.py: `GatewayTurnCoordinator`. Each function is one critical
-- section, the code between two awaits under `_lock`, so an interleaving of coroutines is a
-- sequence of calls (Turns/Reach). A dispatch callback of an adapter is known by a number. The
-- calls of `on_idle` are counted in `idle_calls`. A task of `_running` is known by a number.
pub mod Routes
pub mod Queues
pub mod Invariant
pub mod Reach
pub mod Waits
pub mod Terminal
pub mod Dispatch
mod Samples
use mathlib.Core.Option
use turning_good_agent.Prelude.{
  ℕ, suc, ◌+◌, String, Bool, true, false, not, ◌&&◌, ◌||◌, ◌≡◌, Option, none, some, List, [], ◌∷◌,
  ◌++◌, map, ltb, leb, length, any, contains, discard, add, keep, ◌==◌, string_eq, nat_eq,
  if◌then◌else◌,
}
use turning_good_agent.Prelude.Dict
use turning_good_agent.Prelude.Dict.{Dict}
use turning_good_agent.Prelude.Text.{append_text}
use turning_good_agent.Prelude.Result.{Result, ok, raise}
use turning_good_agent.Bus.{
  ChannelRoute, InboundMessage, OutboundMessage, MetadataValue, boolean, text, integer, or_else,
}
use turning_good_agent.Gateway.Turns.Routes.{RouteKey, route_eq}

abbrev pub terminal_cache_limit : ℕ
terminal_cache_limit = 2048

-- `TurnDispatch`
abbrev pub TurnDispatch : Type 0
TurnDispatch = ℕ

-- A message that waits for its route, with the callback that dispatches it.
pub record Pending : Type 0 where
  pub message : InboundMessage
  pub dispatch : TurnDispatch

pub record GatewayTurnCoordinator : Type 0 where
  pub closed : Bool
  pub dispatcher : Bool
  pub running : List ℕ
  pub inflight : List String
  pub terminal : List (String × OutboundMessage)
  pub active_routes : Dict RouteKey String
  pub pending_routes : Dict RouteKey (List Pending)
  pub route_blocks : Dict String (RouteKey → Bool)
  pub idle_calls : ℕ

pub data TurnError : Type 0 where
  gateway_closed bad_concurrency : TurnError

abbrev pub route_key : ChannelRoute → RouteKey
route_key route = record {
  principal_id = route.principal_id;
  channel = route.channel;
  conversation_id = route.conversation_id;
}

-- The state after `__init__`.
abbrev pub new_coordinator : GatewayTurnCoordinator
new_coordinator = record {
  closed = false;
  dispatcher = false;
  running = [];
  inflight = [];
  terminal = [];
  active_routes = [];
  pending_routes = [];
  route_blocks = [];
  idle_calls = 0;
}

-- `GatewayTurnCoordinator(...)`
unfoldable pub make_coordinator : ℕ → Result TurnError GatewayTurnCoordinator
make_coordinator max_concurrent_turns =
    if ltb 0 max_concurrent_turns then ok new_coordinator else raise bad_concurrency

unfoldable pub start : GatewayTurnCoordinator → GatewayTurnCoordinator
start c = if c.dispatcher then c else record c { closed = false; dispatcher = true }

-- The first part of `close`: the consumer is stopped, and the tasks of `_running` are cancelled.
unfoldable pub stop_consuming : GatewayTurnCoordinator → GatewayTurnCoordinator
stop_consuming c = record c { closed = true; dispatcher = false }

-- The critical section of `close`, after the cancelled tasks have ended. Messages on the bus and
-- dispatch callbacks that wait are not touched.
unfoldable pub clear_work : GatewayTurnCoordinator → GatewayTurnCoordinator
clear_work c = record c {
  running = [];
  inflight = [];
  active_routes = [];
  pending_routes = [];
  route_blocks = [];
}

-- `close`, where no other coroutine runs between its parts.
unfoldable pub close : GatewayTurnCoordinator → GatewayTurnCoordinator
unfolding stop_consuming clear_work
close c = clear_work (stop_consuming c)

-- `key in d` on a dict.
abbrev pub has_key : {K V : Type 0} → K → Dict K V → (K → Dict K V → Option V) → Bool
has_key k d get = elim (get k d) [ none ↦ false | some v ↦ true ]

abbrev pub keys : {K V : Type 0} → Dict K V → List K
keys = map (λ p. p.0)

-- Some installed block matches the route.
unfoldable pub is_blocked : RouteKey → GatewayTurnCoordinator → Bool
is_blocked key c = any (λ (b : String × (RouteKey → Bool)). b.1 key) c.route_blocks

abbrev pub is_terminal : String → GatewayTurnCoordinator → Bool
is_terminal id c = has_key id c.terminal Dict.get

-- The waiting messages of a route: `_pending_routes.get(key, ())`.
abbrev pub pending_of : RouteKey → GatewayTurnCoordinator → List Pending
pending_of key c = elim (Dict.get key c.pending_routes) [ none ↦ [] | some q ↦ q ]

-- What the critical section of `submit` decided.
pub data Admission : Type 0 where
  refused queued : Admission
  dispatching : Pending → Admission

-- `submit`, up to the release of the lock.
unfoldable pub submit :
    GatewayTurnCoordinator
    → InboundMessage
    → TurnDispatch
    → Result TurnError Admission × GatewayTurnCoordinator
submit c message dispatch =
    let key = route_key message.route in
    let item : Pending = record { message = message; dispatch = dispatch } in
    let admitted = add message.id c.inflight in
    if c.closed
    then (raise gateway_closed, c)
    else if is_blocked key c
    then (ok refused, c)
    else if contains message.id c.inflight || is_terminal message.id c
    then (ok refused, c)
    else if has_key key c.active_routes Dict.get
    then (
      ok queued,
      record c {
        inflight = admitted;
        pending_routes = Dict.put key (pending_of key c ++ item ∷ []) c.pending_routes;
      },
    )
    else (
      ok (dispatching item),
      record c { inflight = admitted; active_routes = Dict.put key message.id c.active_routes },
    )

-- `reserve_matching_routes_if_idle`: the token of the block, or none where a route is in use.
unfoldable pub reserve_matching_routes_if_idle :
    GatewayTurnCoordinator
    → (RouteKey → Bool)
    → String
    → Result TurnError (Option String) × GatewayTurnCoordinator
reserve_matching_routes_if_idle c matcher token =
    if c.closed
    then (raise gateway_closed, c)
    else if any matcher (keys c.active_routes ++ keys c.pending_routes)
    then (ok none, c)
    else (ok (some token), record c { route_blocks = Dict.put token matcher c.route_blocks })

unfoldable pub release_route_block : GatewayTurnCoordinator → String → GatewayTurnCoordinator
release_route_block c token = record c { route_blocks = Dict.remove token c.route_blocks }

-- `_active_routes.get(key) == request_id`
abbrev pub holds : Option String → String → Bool
holds none request_id = false
holds (some id) request_id = id == request_id

abbrev pub is_active : RouteKey → String → GatewayTurnCoordinator → Bool
is_active key request_id c = holds (Dict.get key c.active_routes) request_id

-- The queue behind a popped head: an empty deque is dropped from the dict.
abbrev pub store_rest :
    RouteKey → List Pending → Dict RouteKey (List Pending) → Dict RouteKey (List Pending)
store_rest key [] d = Dict.remove key d
store_rest key (p ∷ rest) d = Dict.put key (p ∷ rest) d

-- Hands the route to the head of its queue, and returns it for dispatch.
unfoldable pub advance_route :
    RouteKey → List Pending → GatewayTurnCoordinator → GatewayTurnCoordinator × Option Pending
advance_route key [] c = (
  record c {
    active_routes = Dict.remove key c.active_routes;
    pending_routes = Dict.remove key c.pending_routes;
  },
  none,
)
advance_route key (next ∷ rest) c = (
  record c {
    active_routes = Dict.put key next.message.id c.active_routes;
    pending_routes = store_rest key rest c.pending_routes;
  },
  some next,
)

-- `complete_route_turn`, up to the release of the lock; what it returns is dispatched next.
unfoldable pub complete_route_turn :
    GatewayTurnCoordinator → ChannelRoute → String → GatewayTurnCoordinator × Option Pending
complete_route_turn c route request_id =
    let key = route_key route in
    if not (is_active key request_id c) then (c, none) else advance_route key (pending_of key c) c

abbrev pub pending_ids : List Pending → List String
pending_ids = map (λ (p : Pending). p.message.id)

-- `for m in pending: inflight.discard(m.id)`
unfoldable pub discard_all : List String → List String → List String
discard_all [] inflight = inflight
discard_all (id ∷ ids) inflight = discard_all ids (discard id inflight)

-- The route is given up with everything that waits for it.
unfoldable pub drop_route : RouteKey → GatewayTurnCoordinator → GatewayTurnCoordinator
drop_route key c = record c {
  inflight = discard_all (pending_ids (pending_of key c)) c.inflight;
  active_routes = Dict.remove key c.active_routes;
  pending_routes = Dict.remove key c.pending_routes;
}

-- The critical section of `_rollback_dispatch`. The second component is what is dispatched next;
-- where the section returns early, the idle test behind it is skipped: the third is false.
unfoldable pub rollback_section :
    GatewayTurnCoordinator
    → ChannelRoute
    → String
    → Bool
    → GatewayTurnCoordinator × Option Pending × Bool
rollback_section c route request_id advance =
    let key = route_key route in
    let cleared = record c { inflight = discard request_id c.inflight } in
    if not (is_active key request_id c)
    then (cleared, none, false)
    else if advance
    then (let (c', next) = advance_route key (pending_of key c) cleared in (c', next, true))
    else (drop_route key cleared, none, true)

unfoldable pub is_globally_idle : GatewayTurnCoordinator → Bool
is_globally_idle c = not (any (λ _. true) c.inflight) && not (any (λ _. true) c.running)

-- `if self._on_idle is not None and self.is_globally_idle(): await self._on_idle()`
unfoldable pub notify_if_idle : GatewayTurnCoordinator → GatewayTurnCoordinator
unfolding is_globally_idle
notify_if_idle c = if is_globally_idle c then record c { idle_calls = suc c.idle_calls } else c

-- How a dispatch callback ends.
pub data Outcome : Type 0 where
  returned raised cancelled : Outcome

-- An exception of the nested dispatch takes the place of the first.
abbrev pub after_failure : Outcome → Outcome
after_failure cancelled = cancelled
after_failure _ = raised

-- `_dispatch` and `_rollback_dispatch`, which call one another while callbacks raise. Each round
-- takes a waiting message; none is out of fuel.
unfoldable pub dispatch_loop :
    (TurnDispatch → InboundMessage → Outcome)
    → ℕ
    → GatewayTurnCoordinator
    → Pending
    → Option (Outcome × GatewayTurnCoordinator)
unfolding rollback_section notify_if_idle
dispatch_loop callback ℕ.zero c item = none
dispatch_loop callback (suc fuel) c item = elim (callback item.dispatch item.message) [
  | returned ↦ some (returned, c)
  | cancelled ↦
      let (c', next, reached) = rollback_section c item.message.route item.message.id false in
      some (cancelled, if reached then notify_if_idle c' else c')
  | raised ↦
      let (c', next, reached) = rollback_section c item.message.route item.message.id true in
      elim next [
        | none ↦ some (raised, if reached then notify_if_idle c' else c')
        | some item' ↦
            Option.map (λ (r : Outcome × GatewayTurnCoordinator). (after_failure r.0, r.1))
              (dispatch_loop callback fuel c' item')
      ]
]

unfoldable pub discard_pending_route :
    GatewayTurnCoordinator → ChannelRoute → GatewayTurnCoordinator
discard_pending_route c route =
    let key = route_key route in
    record c {
      inflight = discard_all (pending_ids (pending_of key c)) c.inflight;
      pending_routes = Dict.remove key c.pending_routes;
    }

unfoldable pub resync : GatewayTurnCoordinator → String → Option OutboundMessage
resync c request_id = Dict.get request_id c.terminal

-- `_consume_inbound` starts a task for each message it takes off the bus.
unfoldable pub start_task : GatewayTurnCoordinator → ℕ → GatewayTurnCoordinator
start_task c task = record c { running = add task c.running }

-- `isinstance(v, int) and v >= 0`, where a Python bool is an int.
abbrev pub is_epoch : MetadataValue → Bool
is_epoch (integer n) = true
is_epoch (boolean b) = true
is_epoch _ = false

-- What `run_turn` of the Runtime ends with, other than a cancellation.
pub data TurnResult : Type 0 where
  answered : OutboundMessage → TurnResult
  failed : (error fresh_id now : String) → TurnResult

-- The error message of a turn that raised.
abbrev pub failure_message : InboundMessage → String → String → String → OutboundMessage
failure_message message error fresh_id now = record {
  id = fresh_id;
  session_id = message.session_id;
  recipient = record {
    principal_id = message.route.principal_id;
    channel = message.route.channel;
    conversation_id = message.route.conversation_id;
  };
  content = append_text "请求失败：" error;
  event_type = "response.error";
  event_id = or_else (some message.id) fresh_id;
  disposition = "chat_reply";
  metadata = [];
  created_at = now;
}

-- The outbound message of a turn, with the fields that `_run_message` writes.
unfoldable pub final_outbound : InboundMessage → TurnResult → OutboundMessage
final_outbound message result =
    let named : OutboundMessage = elim result [
      | answered o ↦ record o { event_id = message.id }
      | failed error fresh_id now ↦ failure_message message error fresh_id now
    ] in
    let asked = Dict.put "request_id" (text message.id) named.metadata in
    record named {
      metadata = elim (Dict.get "binding_epoch" message.metadata) [
        | none ↦ asked
        | some v ↦ if is_epoch v then Dict.put "binding_epoch" v asked else asked
      ];
    }

-- `while len(terminal) > LIMIT: terminal.popitem(last=False)`
unfoldable pub trim : {A : Type 0} → ℕ → List A → List A
trim limit [] = []
trim limit (x ∷ xs) =
    let shorter = trim limit xs in if ltb limit (length (x ∷ xs)) then shorter else x ∷ xs

-- The write and `move_to_end` of the `OrderedDict`, and the trimming behind it.
unfoldable pub remember :
    String → OutboundMessage → List (String × OutboundMessage) → List (String × OutboundMessage)
unfolding trim
remember id outbound terminal =
    trim terminal_cache_limit (Dict.remove id terminal ++ (id, outbound) ∷ [])

-- `_run_message` from the outcome of `run_turn` on: the terminal message that is published on the
-- bus, and the coordinator.
unfoldable pub finish_message :
    GatewayTurnCoordinator
    → ℕ
    → InboundMessage
    → TurnResult
    → OutboundMessage × GatewayTurnCoordinator
unfolding final_outbound remember notify_if_idle
finish_message c task message result =
    let outbound = final_outbound message result in
    (
      outbound,
      notify_if_idle (record c {
        inflight = discard message.id c.inflight;
        terminal = remember message.id outbound c.terminal;
        running = discard task c.running;
      }),
    )
