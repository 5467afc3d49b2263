-- ===== src/Proactive/Incidents/Samples.antt =====
-- The theorems on incidents at two failures of one source.
use turning_good_agent.Prelude.{◌≡◌, refl, String, true, none, List, [], ◌∷◌, ◌++◌}
use turning_good_agent.Prelude.Result.{ok}
use turning_good_agent.Proactive.Incidents.{Report, load_incidents, find_incident, all_distinct}
use turning_good_agent.Proactive.Incidents.Consistency.{IsConsistent}
use turning_good_agent.Proactive.Incidents.Runs.{
  Operation, fails, recovers, deletes, apply_all, empty, monitor-IsConsistent,
}
use turning_good_agent.Proactive.Incidents.Edges.{
  opened_notification, report_failures, report_failures-once,
}

abbrev report : String → Report
report message = record {
  fingerprint = "mcp";
  source = "mcp";
  message = message;
  notify = true;
  now = "now";
  fresh_id = "incident_1";
  publisher_error = none;
}

abbrev operations : List Operation
operations = fails (report "x") ∷ recovers (report "y") ∷ fails (report "z") ∷ deletes "other" ∷ []

monitor-IsConsistent_example :
    IsConsistent (apply_all operations (empty none)).incidents
    × (load_incidents (apply_all operations (empty none)).incidents
        ≡ ok (apply_all operations (empty none)).incidents)
monitor-IsConsistent_example = monitor-IsConsistent none operations

report_failures-once_example :
    (report_failures (report "x" ∷ report "y" ∷ []) (empty none)).published
    ≡ [] ++ opened_notification (report "x") (empty none)
unfolding find_incident all_distinct
report_failures-once_example =
    report_failures-once (report "x") (report "y" ∷ []) (empty none) (refl, tt) refl (refl, tt)
