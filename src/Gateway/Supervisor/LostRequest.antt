-- ===== src/Gateway/Supervisor/LostRequest.antt =====
-- gateway/runtime_supervisor.py: a request that comes in while an earlier one is being applied.
use turning_good_agent.Prelude.{ap, String, Bool, true, false, ◌≡◌, ◌≢◌, refl, none, [], ◌∷◌, arith}
use turning_good_agent.Gateway.Supervisor.{
  RuntimeSupervisor, Environment, raises, requests, interfere, interfere_all, note_request,
  make_candidate, reload_body, handle, reload, notify_idle, making, failed, raised, applying,
}
use turning_good_agent.Gateway.Supervisor.Replacement.{reload-begun}

-- The factory of the revision being applied raises, and while it ran a newer revision was
-- requested, with a turn running.
pub record Overtaken (env : Environment) (newer error : String) : Type 0 where
  pub begins : env.idle_at_entry ≡ true
  pub fails : env.factory ≡ raises error
  pub request : env.others making ≡ requests newer false ∷ []

noted :
    (newer : String) (t : RuntimeSupervisor)
    → t.closing ≡ false
    → interfere_all (requests newer false ∷ []) t ≡ note_request newer false t
unfolding interfere_all interfere
noted newer t e = ground (arith, e)

module _ (env : Environment) (newer error : String) (s : RuntimeSupervisor)
    (o : Overtaken env newer error) (is_open : s.closing ≡ false) where
  overtaken_candidate :
      (t : RuntimeSupervisor)
      → t.closing ≡ false
      → make_candidate env t ≡ raised error none false (note_request newer false t)
  unfolding make_candidate
  overtaken_candidate t h =
      rw (o.fails, o.request)
        (ap (λ (u : RuntimeSupervisor). raised error none false u) (noted newer t h))

  overtaken_body :
      (revision : String) (t : RuntimeSupervisor)
      → t.closing ≡ false
      → reload_body env revision t ≡ raised error none false (note_request newer false t)
  unfolding reload_body
  overtaken_body revision t h = rw (overtaken_candidate t h) refl

  -- The reload ends in `failed`, with the newer revision desired and the old one active.
  pub reload-failed :
      ((reload env s).1.state ≡ failed)
      × ((reload env s).1.desired_revision ≡ newer)
      × ((reload env s).1.active_revision ≡ s.active_revision)
      × ((reload env s).1.closing ≡ false)
  unfolding handle note_request
  reload-failed =
      let body =
        overtaken_body s.desired_revision (record s { state = applying; ready = false }) is_open in
      rw (reload-begun env s (is_open, o.begins)) (rw body (refl, refl, refl, is_open))

-- If a newer revision is requested, with a turn running, while the factory of a reload runs, and
-- the factory raises, then an idle notice after the reload applies nothing, whatever the
-- environment: the newer revision stays desired and is not active.
pub notify_idle-Overtaken :
    (env env' : Environment) (newer error : String) (s : RuntimeSupervisor) (idle : Bool)
    → Overtaken env newer error
    → s.closing ≡ false
    → newer ≢ s.active_revision
    → (notify_idle env' idle (reload env s).1 ≡ (reload env s).1)
      × ((reload env s).1.desired_revision ≢ (reload env s).1.active_revision)
unfolding notify_idle
notify_idle-Overtaken env env' newer error s idle o is_open other =
    let (st, desired, current, open_) = reload-failed env newer error s o is_open in
    (simp (st, open_), rw (desired, current) other)
