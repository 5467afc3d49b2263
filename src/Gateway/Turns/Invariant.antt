-- ===== src/Gateway/Turns/Invariant.antt =====
-- gateway/turns.py: where a request stands, waiting or worked on, and the critical sections.
use turning_good_agent.Prelude.{
  ℕ, ◌+◌, String, Bool, true, false, Bool-cases, ◌≡◌, refl, sym, ap, ◌∙◌, inl, inr, Option, none,
  some, List, [], ◌∷◌, ◌++◌, ◌⊎◌, arith, contains, contains-discard, contains-add, contains-pos,
  contains-zero, discard, count, member, ◌==◌, count-append, if◌then◌else◌, eq_iff, string_eq,
}
use turning_good_agent.Prelude.Dict
use turning_good_agent.Prelude.Dict.{
  Dict, UniqueKeys, put-UniqueKeys, remove-UniqueKeys, weight, weight_at, weight-put, weight-remove,
}
use turning_good_agent.Prelude.Result.{Result, ok}
use turning_good_agent.Bus.{ChannelRoute, InboundMessage}
use turning_good_agent.Gateway.Turns.Routes.{RouteKey, route_eq}
use turning_good_agent.Gateway.Turns.{
  GatewayTurnCoordinator, TurnDispatch, Pending, Admission, TurnError, dispatching, route_key,
  is_active, pending_of, pending_ids, submit, complete_route_turn, advance_route, rollback_section,
  drop_route, discard_all, store_rest, discard_pending_route, clear_work,
}

-- How often a request waits.
abbrev pub waiting : String → GatewayTurnCoordinator → ℕ
waiting id c = weight (λ (q : List Pending). count id (pending_ids q)) c.pending_routes

-- The coordinator; the ids of the requests that are with a callback, on the bus or running, each as
-- often as it is worked on; and the ids of those that a close left on the bus or with a callback.
pub record System : Type 0 where
  pub coordinator : GatewayTurnCoordinator
  pub working : List String
  pub abandoned : List String

-- How often a request waits and is worked on is whether it is in `_inflight`.
abbrev pub Once : String → GatewayTurnCoordinator → List String → Type 0
Once id c working = waiting id c + count id working ≡ member id c.inflight

pub record IsBalanced (s : System) : Type 0 where
  pub unique : UniqueKeys s.coordinator.pending_routes
  pub once : (id : String) → (contains id s.abandoned ≡ true) ⊎ Once id s.coordinator s.working

-- What a step does to the requests that no close abandoned.
pub still :
    (id : String) (abandoned : List String) (P Q : Type 0)
    → (P → Q)
    → (contains id abandoned ≡ true) ⊎ P
    → (contains id abandoned ≡ true) ⊎ Q
still id abandoned P Q f (inl left) = inl left
still id abandoned P Q f (inr p) = inr (f p)

-- One piece of work on a request ends.
abbrev pub drop_one : String → List String → List String
drop_one a [] = []
drop_one a (x ∷ xs) = let rest = drop_one a xs in if x == a then xs else x ∷ rest

count-drop_one :
    (a b : String) (xs : List String)
    → contains a xs ≡ true
    → count b (drop_one a xs) + (if a == b then 1 else 0) ≡ count b xs
count-drop_one a b [] h = cc
count-drop_one a b (x ∷ xs) h =
    ground (arith, count-drop_one a b xs, eq_iff x a, eq_iff x b, eq_iff a b)

-- The request that a section hands to a callback joins the work.
abbrev pub take_up : Option Pending → List String → List String
take_up none working = working
take_up (some p) working = p.message.id ∷ working

abbrev pub admitted_work : Result TurnError Admission → List String → List String
admitted_work (ok (dispatching p)) working = p.message.id ∷ working
admitted_work _ working = working

abbrev ids_weight : String → List Pending → ℕ
ids_weight id q = count id (pending_ids q)

pending_ids-append :
    (xs : List Pending) (p : Pending)
    → pending_ids (xs ++ p ∷ []) ≡ pending_ids xs ++ p.message.id ∷ []
pending_ids-append [] p = refl
pending_ids-append (x ∷ xs) p = rw (pending_ids-append xs p)

-- The weight that a route's queue has in the dict.
ids_weight-pending_of :
    (id : String) (key : RouteKey) (c : GatewayTurnCoordinator)
    → weight_at (ids_weight id) (Dict.get key c.pending_routes) ≡ ids_weight id (pending_of key c)
ids_weight-pending_of id key c = at (Dict.get key c.pending_routes)
  where
    at :
        (o : Option (List Pending))
        → weight_at (ids_weight id) o ≡ ids_weight id (elim o [ none ↦ [] | some q ↦ q ])
    at none = refl
    at (some q) = refl

store_rest-weight :
    (id : String) (key : RouteKey) (rest : List Pending) (d : Dict RouteKey (List Pending))
    → UniqueKeys d
    → weight (ids_weight id) (store_rest key rest d) + weight_at (ids_weight id) (Dict.get key d)
      ≡ weight (ids_weight id) d + ids_weight id rest
store_rest-weight id key [] d u = omega (arith, weight-remove (ids_weight id) key d u)
store_rest-weight id key (p ∷ rest) d u = weight-put (ids_weight id) key (p ∷ rest) d

store_rest-UniqueKeys :
    (key : RouteKey) (rest : List Pending) (d : Dict RouteKey (List Pending))
    → UniqueKeys d
    → UniqueKeys (store_rest key rest d)
store_rest-UniqueKeys key [] d u = remove-UniqueKeys key d u
store_rest-UniqueKeys key (p ∷ rest) d u = put-UniqueKeys key (p ∷ rest) d u

pub submit_unique :
    (c : GatewayTurnCoordinator) (m : InboundMessage) (d : TurnDispatch)
    → UniqueKeys c.pending_routes
    → UniqueKeys (submit c m d).1.pending_routes
unfolding submit
submit_unique c m d u = ground (
  arith,
  put-UniqueKeys (route_key m.route)
      (pending_of (route_key m.route) c ++ (record { message = m; dispatch = d }) ∷ [])
      c.pending_routes u,
)

pub submit-once :
    (c : GatewayTurnCoordinator) (working : List String) (m : InboundMessage) (d : TurnDispatch)
    (id : String)
    → waiting id c + count id working ≡ member id c.inflight
    → waiting id (submit c m d).1 + count id (admitted_work (submit c m d).0 working)
      ≡ member id (submit c m d).1.inflight
unfolding submit
submit-once c working m d id h =
    let at = route_key m.route in
    let item : Pending = record { message = m; dispatch = d } in
    ground (
      arith,
      weight-put (ids_weight id) at (pending_of at c ++ item ∷ []) c.pending_routes,
      ids_weight-pending_of id at c,
      pending_ids-append (pending_of at c) item,
      count-append id (pending_ids (pending_of at c)) (m.id ∷ []),
      contains-add m.id id c.inflight,
      eq_iff m.id id,
    )

pub advance_route_unique :
    (at : RouteKey) (q : List Pending) (c : GatewayTurnCoordinator)
    → UniqueKeys c.pending_routes
    → UniqueKeys (advance_route at q c).0.pending_routes
unfolding advance_route
advance_route_unique at [] c u = remove-UniqueKeys at c.pending_routes u
advance_route_unique at (p ∷ rest) c u = store_rest-UniqueKeys at rest c.pending_routes u

-- What a route gives up waiting is what is dispatched.
advance_route-once :
    (at : RouteKey) (q : List Pending) (c : GatewayTurnCoordinator) (working : List String)
    (id : String)
    → UniqueKeys c.pending_routes
    → weight_at (ids_weight id) (Dict.get at c.pending_routes) ≡ ids_weight id q
    → waiting id (advance_route at q c).0 + count id (take_up (advance_route at q c).1 working)
      ≡ waiting id c + count id working
unfolding advance_route
advance_route-once at [] c working id u e =
    omega (arith, weight-remove (ids_weight id) at c.pending_routes u)
advance_route-once at (p ∷ rest) c working id u e =
    omega (arith, store_rest-weight id at rest c.pending_routes u)

advance_route-inflight :
    (at : RouteKey) (q : List Pending) (c : GatewayTurnCoordinator)
    → (advance_route at q c).0.inflight ≡ c.inflight
unfolding advance_route
advance_route-inflight at [] c = refl
advance_route-inflight at (p ∷ rest) c = refl

contains-discard_all :
    (ids inflight : List String) (id : String)
    → contains id (discard_all ids inflight)
      ≡ (if contains id ids then false else contains id inflight)
unfolding discard_all
contains-discard_all [] inflight id = refl
contains-discard_all (a ∷ ids) inflight id = ground (
  arith,
  contains-discard_all ids (discard a inflight) id,
  contains-discard a id inflight,
  eq_iff a id,
)

-- Giving a route's queue up takes its ids out of `_inflight`.
module _ (at : RouteKey) (c : GatewayTurnCoordinator) (working inflight : List String)
    (id : String) where
  remove-once :
      UniqueKeys c.pending_routes
      → waiting id c + count id working ≡ member id inflight
      → weight (ids_weight id) (Dict.remove at c.pending_routes) + count id working
        ≡ member id (discard_all (pending_ids (pending_of at c)) inflight)
  remove-once u h = ground (
    arith,
    weight-remove (ids_weight id) at c.pending_routes u,
    ids_weight-pending_of id at c,
    contains-discard_all (pending_ids (pending_of at c)) inflight id,
    contains-pos id (pending_ids (pending_of at c)),
    contains-zero id (pending_ids (pending_of at c)),
  )

-- Taking a request out of the work and out of `_inflight` keeps the balance.
module _ (c : GatewayTurnCoordinator) (working : List String) (rid id : String) where
  pub release-once :
      contains rid working ≡ true
      → waiting id c + count id working ≡ member id c.inflight
      → waiting id c + count id (drop_one rid working) ≡ member id (discard rid c.inflight)
  release-once w h = ground (
    arith,
    contains-pos rid working w,
    count-drop_one rid id working w,
    contains-discard rid id c.inflight,
    eq_iff rid id,
  )

pub complete_route_turn-IsBalanced :
    (c : GatewayTurnCoordinator) (working abandoned : List String) (route : ChannelRoute)
    (rid : String)
    → IsBalanced (record { coordinator = c; working = working; abandoned = abandoned })
    → IsBalanced (record {
      coordinator = (complete_route_turn c route rid).0;
      working = take_up (complete_route_turn c route rid).1 working;
      abandoned = abandoned;
    })
unfolding complete_route_turn
complete_route_turn-IsBalanced c working abandoned route rid b =
    let at = route_key route in
    elim (Bool-cases (is_active at rid c)) [
      | inr other ↦ rw other b
      | inl mine ↦ rw mine (record {
        unique = advance_route_unique at (pending_of at c) c b.unique;
        once = λ id.
            still id abandoned _ _
              (λ h.
                advance_route-once at (pending_of at c) c working id b.unique
                  (ids_weight-pending_of id at c)
                ∙ h
                ∙ sym (ap (member id) (advance_route-inflight at (pending_of at c) c)))
              (b.once id);
      })
    ]

-- The request leaves `_inflight` and the work.
release-IsBalanced :
    (c : GatewayTurnCoordinator) (working abandoned : List String) (rid : String)
    → contains rid working ≡ true
    → IsBalanced (record { coordinator = c; working = working; abandoned = abandoned })
    → IsBalanced (record {
      coordinator = record c { inflight = discard rid c.inflight };
      working = drop_one rid working;
      abandoned = abandoned;
    })
release-IsBalanced c working abandoned rid w b = record {
  unique = b.unique;
  once = λ id. still id abandoned _ _ (release-once c working rid id w) (b.once id);
}

pub rollback_section-IsBalanced :
    (c : GatewayTurnCoordinator) (working abandoned : List String) (route : ChannelRoute)
    (rid : String) (advance : Bool)
    → contains rid working ≡ true
    → IsBalanced (record { coordinator = c; working = working; abandoned = abandoned })
    → IsBalanced (record {
      coordinator = (rollback_section c route rid advance).0;
      working = take_up (rollback_section c route rid advance).1 (drop_one rid working);
      abandoned = abandoned;
    })
unfolding rollback_section
rollback_section-IsBalanced c working abandoned route rid true w b =
    let at = route_key route in
    let cleared = record c { inflight = discard rid c.inflight } in
    let released = release-IsBalanced c working abandoned rid w b in
    elim (Bool-cases (is_active at rid c)) [
      | inr other ↦ rw other released
      | inl mine ↦ rw mine (record {
        unique = advance_route_unique at (pending_of at c) cleared b.unique;
        once = λ id.
            still id abandoned _ _
              (λ h.
                advance_route-once at (pending_of at c) cleared (drop_one rid working) id b.unique
                  (ids_weight-pending_of id at c)
                ∙ h
                ∙ sym (ap (member id) (advance_route-inflight at (pending_of at c) cleared)))
              (released.once id);
      })
    ]
rollback_section-IsBalanced c working abandoned route rid false w b =
    let at = route_key route in
    let released = release-IsBalanced c working abandoned rid w b in
    elim (Bool-cases (is_active at rid c)) [
      | inr other ↦ rw other released
      | inl mine ↦ rw mine (
          unfold drop_route in
          record {
            unique = remove-UniqueKeys at c.pending_routes b.unique;
            once = λ id.
                still id abandoned _ _
                  (remove-once at c (drop_one rid working) (discard rid c.inflight) id b.unique)
                  (released.once id);
          })
    ]

pub discard_pending_route-IsBalanced :
    (c : GatewayTurnCoordinator) (working abandoned : List String) (route : ChannelRoute)
    → IsBalanced (record { coordinator = c; working = working; abandoned = abandoned })
    → IsBalanced (record {
      coordinator = discard_pending_route c route;
      working = working;
      abandoned = abandoned;
    })
unfolding discard_pending_route
discard_pending_route-IsBalanced c working abandoned route b = record {
  unique = remove-UniqueKeys (route_key route) c.pending_routes b.unique;
  once = λ id.
      still id abandoned _ _ (remove-once (route_key route) c working c.inflight id b.unique)
        (b.once id);
}

-- Closing leaves what is abandoned, and nothing else.
pub clear_work-IsBalanced :
    (c : GatewayTurnCoordinator) (kept abandoned : List String)
    → IsBalanced
        (record { coordinator = clear_work c; working = kept; abandoned = kept ++ abandoned })
unfolding clear_work
clear_work-IsBalanced c kept abandoned = record {
  unique = tt;
  once = λ id. elim (Bool-cases (contains id (kept ++ abandoned))) [
    | inl left ↦ inl left
    | inr other ↦
        inr (
          omega (arith, contains-zero id (kept ++ abandoned) other, count-append id kept abandoned))
  ];
}
