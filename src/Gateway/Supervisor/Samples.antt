-- ===== src/Gateway/Supervisor/Samples.antt =====
-- The theorems on the supervisor at a reload that succeeds and at one that is overtaken.
use turning_good_agent.Prelude.{ℕ, ◌≡◌, ◌≢◌, refl, eq_iff, String, true, false, List, [], ◌∷◌}
use turning_good_agent.Gateway.Supervisor.{
  RuntimeSupervisor, Environment, done, raises, Attempt, Point, making, Interference, requests,
  make_supervisor, note_request, reload, notify_idle,
}
use turning_good_agent.Gateway.Supervisor.Replacement.{Outcome, reload-Outcome, reload-ready}
use turning_good_agent.Gateway.Supervisor.LostRequest.{notify_idle-Overtaken}

-- Runtime 1 serves revision "r1"; "r2" is requested.
abbrev supervisor : RuntimeSupervisor
supervisor = note_request "r2" true (make_supervisor 1 "r1")

abbrev quiet : Point → List Interference
quiet point = []

abbrev environment : Attempt ℕ → (Point → List Interference) → Environment
environment factory others = record {
  idle_at_entry = true;
  idle_when_made = true;
  idle_when_started = true;
  factory = factory;
  prepare = done tt;
  start_candidate = done tt;
  activate = done tt;
  closing_cancelled = λ point. false;
  others = others;
}

reload-Outcome_example :
    Outcome
      (environment (done 2) quiet)
      supervisor.desired_revision
      supervisor
      (reload (environment (done 2) quiet) supervisor).1
unfolding note_request make_supervisor
reload-Outcome_example = reload-Outcome (environment (done 2) quiet) supervisor (refl, refl)

reload-ready_example : (reload (environment (done 2) quiet) supervisor).1.ready ≡ true
unfolding note_request make_supervisor
reload-ready_example = reload-ready (environment (done 2) quiet) supervisor refl

-- "r3" is requested while the factory of "r2" runs, and the factory fails.
abbrev while_making : Point → List Interference
while_making making = requests "r3" false ∷ []
while_making point = []

abbrev overtaken : Environment
overtaken = environment (raises "boom") while_making

absurd_test : false ≢ true
absurd_test e = cc

newer : ◌≢◌ {A = String} "r3" "r1"
newer e = absurd_test ((eq_iff "r3" "r1").1 e)

notify_idle-Overtaken_example :
    (notify_idle (environment (done 2) quiet) true (reload overtaken supervisor).1
      ≡ (reload overtaken supervisor).1)
    × ((reload overtaken supervisor).1.desired_revision
        ≢ (reload overtaken supervisor).1.active_revision)
unfolding note_request make_supervisor
notify_idle-Overtaken_example =
    notify_idle-Overtaken overtaken (environment (done 2) quiet) "r3" "boom" supervisor true
      (record { begins = refl; fails = refl; request = refl }) refl newer
