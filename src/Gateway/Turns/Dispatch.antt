-- ===== src/Gateway/Turns/Dispatch.antt =====
-- gateway/turns.py, `_dispatch` and `_rollback_dispatch`: the rounds while callbacks raise.
use mathlib.Core.Option
use turning_good_agent.Prelude.{ℕ, ◌<◌, Bool, Option, none, some, List, length, string_eq}
use turning_good_agent.Prelude.Dict
use turning_good_agent.Prelude.Dict.{Dict, UniqueKeys, weight}
use turning_good_agent.Gateway.Turns.Routes.{RouteKey, route_eq}
use turning_good_agent.Gateway.Turns.{GatewayTurnCoordinator, Pending}

-- How many messages wait, on all routes.
abbrev pub waiting_total : GatewayTurnCoordinator → ℕ
waiting_total c = weight {K = RouteKey} (λ (q : List Pending). length q) c.pending_routes

-- What a round that goes on leaves: one message fewer.
abbrev Fewer : GatewayTurnCoordinator → GatewayTurnCoordinator × Option Pending → Type 0
Fewer c (c', none) = Unit
Fewer c (c', some item) = waiting_total c' < waiting_total c

-- A round of the rollback.
record Round (c : GatewayTurnCoordinator) (r : GatewayTurnCoordinator × Option Pending × Bool)
    : Type 0 where
  fewer : Fewer c (r.0, r.1)
  unique : UniqueKeys r.0.pending_routes

abbrev Ends : {A : Type 0} → Option A → Type 0
Ends none = ⊥
Ends (some a) = Unit
