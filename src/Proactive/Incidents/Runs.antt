-- ===== src/Proactive/Incidents/Runs.antt =====
-- `IncidentMonitor` over any sequence of reports, confirmations and deletions.
use turning_good_agent.Prelude.{
  ◌+◌, ◌≡◌, refl, String, Bool, true, false, Option, none, some, List, [], ◌∷◌, ◌++◌, All-append,
  string_eq, if◌then◌else◌, arith, Bool-cases, inl, inr,
}
use turning_good_agent.Prelude.Text.{append_text}
use turning_good_agent.Prelude.Result.{ok}
use turning_good_agent.Proactive.Incidents.{
  IncidentState, open_state, resolved, is_open_state, Incident, IncidentMonitor, fingerprints,
  all_distinct, load_incidents, find_incident, update_incident, Report, opened_incident,
  detect_again, reopen, recover, mark_resolved, open_edge, failure_of, report_failure, recovery_of,
  report_recovery, resolution_of, resolve_by_fingerprint, other_than, delete_by_fingerprint,
  save_incidents, publish, notify_state_changed,
}
use turning_good_agent.Proactive.Incidents.Consistency.{
  follows, IsSound, IsConsistent, Leads-append, load_incidents-IsConsistent, update-IsConsistent,
  absent_of_none, all_distinct-append, fingerprints-append, keep-IsConsistent,
}

pub data Operation : Type 0 where
  fails : Report → Operation
  recovers : Report → Operation
  resolves : String → String → Operation
  deletes : String → Operation

unfoldable pub apply : Operation → IncidentMonitor → IncidentMonitor
apply (fails r) m = (report_failure r m).1
apply (recovers r) m = (report_recovery r m).1
apply (resolves fingerprint now) m = (resolve_by_fingerprint fingerprint now m).1
apply (deletes fingerprint) m = (delete_by_fingerprint fingerprint m).1

unfoldable pub apply_all : List Operation → IncidentMonitor → IncidentMonitor
apply_all [] m = m
apply_all (op ∷ ops) m = apply_all ops (apply op m)

abbrev pub empty : Option String → IncidentMonitor
empty principal_id = record {
  principal_id = principal_id;
  incidents = [];
  published = [];
  changes = 0;
}

open_edge-incidents :
    (r : Report) (is : List Incident) (m : IncidentMonitor) → (open_edge r is m).1.incidents ≡ is
unfolding open_edge publish save_incidents notify_state_changed
open_edge-incidents r is m = ground arith

opened-IsSound : (r : Report) → IsSound (opened_incident r)
unfolding opened_incident
opened-IsSound r = (omega arith, (refl, refl))

append-IsConsistent :
    (r : Report) (is : List Incident)
    → IsConsistent is
    → find_incident r.fingerprint is ≡ none
    → IsConsistent (is ++ opened_incident r ∷ [])
unfolding opened_incident
append-IsConsistent r is h absent = (
  rw (fingerprints-append is _) (
      all_distinct-append r.fingerprint (fingerprints is) h.0
        (absent_of_none r.fingerprint is absent)),
  All-append IsSound is _ h.1 (opened-IsSound r, tt),
)

detect_again-IsSound : (r : Report) (i : Incident) → IsSound i → IsSound (detect_again r i)
unfolding detect_again
detect_again-IsSound r i h = (omega (arith, h.0), h.1)

reopen-IsSound :
    (r : Report) (i : Incident) → is_open_state i.state ≡ false → IsSound i → IsSound (reopen r i)
unfolding reopen
reopen-IsSound r i shut h =
    (omega (arith, h.0), Leads-append none i.history i.state _ h.1 (next i.state shut))
  where
    next : (s : IncidentState) → is_open_state s ≡ false → follows (some s) open_state ≡ true
    next resolved e = refl
    next open_state e = cc

close-IsSound : (s : IncidentState) → is_open_state s ≡ true → follows (some s) resolved ≡ true
close-IsSound open_state e = refl
close-IsSound resolved e = cc

recover-IsSound :
    (r : Report) (i : Incident) → is_open_state i.state ≡ true → IsSound i → IsSound (recover r i)
unfolding recover
recover-IsSound r i open_ h =
    (h.0, Leads-append none i.history i.state _ h.1 (close-IsSound i.state open_))

mark_resolved-IsSound :
    (now : String) (i : Incident)
    → is_open_state i.state ≡ true
    → IsSound i
    → IsSound (mark_resolved now i)
unfolding mark_resolved
mark_resolved-IsSound now i open_ h =
    (h.0, Leads-append none i.history i.state _ h.1 (close-IsSound i.state open_))

detect_again-fingerprint :
    (r : Report) (i : Incident) → (detect_again r i).fingerprint ≡ i.fingerprint
unfolding detect_again
detect_again-fingerprint r i = refl

reopen-fingerprint : (r : Report) (i : Incident) → (reopen r i).fingerprint ≡ i.fingerprint
unfolding reopen
reopen-fingerprint r i = refl

recover-fingerprint : (r : Report) (i : Incident) → (recover r i).fingerprint ≡ i.fingerprint
unfolding recover
recover-fingerprint r i = refl

mark_resolved-fingerprint :
    (now : String) (i : Incident) → (mark_resolved now i).fingerprint ≡ i.fingerprint
unfolding mark_resolved
mark_resolved-fingerprint now i = refl

published-incidents :
    (r : Report) (is : List Incident) (m : IncidentMonitor)
    → (notify_state_changed (
        publish r.notify "proactive.incident.resolved"
          (append_text "系统已恢复：" r.message)
          r.fingerprint
          (save_incidents is m))).incidents
      ≡ is
unfolding publish save_incidents notify_state_changed
published-incidents r is m = ground arith

module _ (m : IncidentMonitor) (h : IsConsistent m.incidents) where
  failure_of-IsConsistent :
      (r : Report) (found : Option Incident)
      → find_incident r.fingerprint m.incidents ≡ found
      → IsConsistent (failure_of r found m).1.incidents
  unfolding failure_of save_incidents notify_state_changed
  failure_of-IsConsistent r none e =
      rw (open_edge-incidents r _ m) (append-IsConsistent r m.incidents h e)
  failure_of-IsConsistent r (some i) e = elim (Bool-cases (is_open_state i.state)) [
    | inl open_ ↦ rw open_ (
        update-IsConsistent r.fingerprint (detect_again r) m.incidents i h e
          (detect_again-fingerprint r) (detect_again-IsSound r i))
    | inr shut ↦
        rw (shut, open_edge-incidents r (update_incident r.fingerprint (reopen r) m.incidents) m)
          (update-IsConsistent r.fingerprint (reopen r) m.incidents i h e (reopen-fingerprint r)
            (reopen-IsSound r i shut))
  ]

  recovery_of-IsConsistent :
      (r : Report) (found : Option Incident)
      → find_incident r.fingerprint m.incidents ≡ found
      → IsConsistent (recovery_of r found m).1.incidents
  unfolding recovery_of
  recovery_of-IsConsistent r none e = h
  recovery_of-IsConsistent r (some i) e = elim (Bool-cases (is_open_state i.state)) [
    | inl open_ ↦
        rw (open_, published-incidents r _ m)
          (update-IsConsistent r.fingerprint (recover r) m.incidents i h e (recover-fingerprint r)
            (recover-IsSound r i open_))
    | inr shut ↦ rw shut h
  ]

  resolution_of-IsConsistent :
      (fingerprint now : String) (found : Option Incident)
      → find_incident fingerprint m.incidents ≡ found
      → IsConsistent (resolution_of fingerprint now found m).1.incidents
  unfolding resolution_of save_incidents notify_state_changed
  resolution_of-IsConsistent fingerprint now none e = h
  resolution_of-IsConsistent fingerprint now (some i) e =
      elim (Bool-cases (is_open_state i.state)) [
        | inl open_ ↦ rw open_ (
            update-IsConsistent fingerprint (mark_resolved now) m.incidents i h e
              (mark_resolved-fingerprint now) (mark_resolved-IsSound now i open_))
        | inr shut ↦ rw shut h
      ]

  deletion-IsConsistent :
      (fingerprint : String) → IsConsistent (delete_by_fingerprint fingerprint m).1.incidents
  unfolding delete_by_fingerprint save_incidents notify_state_changed
  deletion-IsConsistent fingerprint =
      let kept = keep-IsConsistent (other_than fingerprint) m.incidents h in
      rw (load_incidents-IsConsistent m.incidents h, delete_by_fingerprint) (choose _ _ kept)
    where
      choose :
          (b : Bool) (is : List Incident)
          → IsConsistent is
          → IsConsistent
              (if b then m else record m { incidents = is; changes = m.changes + 1 }).incidents
      choose true is k = h
      choose false is k = k

  pub report_failure-IsConsistent : (r : Report) → IsConsistent (report_failure r m).1.incidents
  unfolding report_failure
  report_failure-IsConsistent r =
      rw (load_incidents-IsConsistent m.incidents h, report_failure)
        (failure_of-IsConsistent r _ refl)

  report_recovery-IsConsistent : (r : Report) → IsConsistent (report_recovery r m).1.incidents
  unfolding report_recovery
  report_recovery-IsConsistent r =
      rw (load_incidents-IsConsistent m.incidents h, report_recovery)
        (recovery_of-IsConsistent r _ refl)

  resolve-IsConsistent :
      (fingerprint now : String)
      → IsConsistent (resolve_by_fingerprint fingerprint now m).1.incidents
  unfolding resolve_by_fingerprint
  resolve-IsConsistent fingerprint now =
      rw (load_incidents-IsConsistent m.incidents h, resolve_by_fingerprint)
        (resolution_of-IsConsistent fingerprint now _ refl)

  -- Every operation keeps the store consistent.
  apply-IsConsistent : (op : Operation) → IsConsistent (apply op m).incidents
  unfolding apply
  apply-IsConsistent (fails r) = report_failure-IsConsistent r
  apply-IsConsistent (recovers r) = report_recovery-IsConsistent r
  apply-IsConsistent (resolves fingerprint now) = resolve-IsConsistent fingerprint now
  apply-IsConsistent (deletes fingerprint) = deletion-IsConsistent fingerprint

apply_all-IsConsistent :
    (ops : List Operation) (m : IncidentMonitor)
    → IsConsistent m.incidents
    → IsConsistent (apply_all ops m).incidents
unfolding apply_all
apply_all-IsConsistent [] m h = h
apply_all-IsConsistent (op ∷ ops) m h =
    apply_all-IsConsistent ops (apply op m) (apply-IsConsistent m h op)

-- After any sequence of reports, confirmations and deletions from an empty store, whatever the
-- publisher does, no fingerprint has two records, every count is positive, every history
-- alternates from open and ends in the record's state, and `_load_incidents` accepts the store.
pub monitor-IsConsistent :
    (principal_id : Option String) (ops : List Operation)
    → IsConsistent (apply_all ops (empty principal_id)).incidents
      × (load_incidents (apply_all ops (empty principal_id)).incidents
          ≡ ok (apply_all ops (empty principal_id)).incidents)
unfolding all_distinct
monitor-IsConsistent principal_id ops =
    let h = apply_all-IsConsistent ops (empty principal_id) (refl, tt) in
    (h, load_incidents-IsConsistent _ h)
