-- ===== src/Proactive/Incidents/Edges.antt =====
-- proactive/incidents.py, `report_failure`: what it publishes.
use turning_good_agent.Prelude.{
  ◌≡◌, refl, sym, ◌∙◌, ap, String, Bool, true, false, Option, none, some, List, [], ◌∷◌, ◌++◌,
  string_eq, eq_iff, beq_refl, append-nil, if◌then◌else◌, arith, All, Bool-cases, inl, inr,
}
use turning_good_agent.Prelude.Text.{append_text}
use turning_good_agent.Proactive.Incidents.{
  is_open_state, Incident, IncidentMonitor, find_incident, update_incident, Report, opened_incident,
  detect_again, reopen, open_edge, failure_of, report_failure, save_incidents, publish,
  notify_state_changed, Notification,
}
use turning_good_agent.Proactive.Incidents.Consistency.{IsConsistent, load_incidents-IsConsistent}
use turning_good_agent.Proactive.Incidents.Runs.{report_failure-IsConsistent}

abbrev is_open : Option Incident → Bool
is_open none = false
is_open (some i) = is_open_state i.state

-- Whether the fingerprint has an open incident.
abbrev pub is_open_at : String → IncidentMonitor → Bool
is_open_at fingerprint m = is_open (find_incident fingerprint m.incidents)

find_incident-append :
    (fingerprint : String) (i : Incident) (is : List Incident)
    → i.fingerprint ≡ fingerprint
    → find_incident fingerprint is ≡ none
    → find_incident fingerprint (is ++ i ∷ []) ≡ some i
unfolding find_incident
find_incident-append fingerprint i [] e h = rw (e, beq_refl fingerprint) refl
find_incident-append fingerprint i (j ∷ is) e h =
    ground (arith, find_incident-append fingerprint i is e)

find_incident-update :
    (fingerprint : String) (f : Incident → Incident) (i : Incident) (is : List Incident)
    → (f i).fingerprint ≡ fingerprint
    → find_incident fingerprint is ≡ some i
    → find_incident fingerprint (update_incident fingerprint f is) ≡ some (f i)
unfolding find_incident update_incident
find_incident-update fingerprint f i [] e h = cc
find_incident-update fingerprint f i (j ∷ is) e h =
    ground (arith, find_incident-update fingerprint f i is e, eq_iff (f i).fingerprint fingerprint)

find_incident-fingerprint :
    (fingerprint : String) (i : Incident) (is : List Incident)
    → find_incident fingerprint is ≡ some i
    → i.fingerprint ≡ fingerprint
unfolding find_incident
find_incident-fingerprint fingerprint i [] h = cc
find_incident-fingerprint fingerprint i (j ∷ is) h =
    ground (arith, find_incident-fingerprint fingerprint i is, eq_iff j.fingerprint fingerprint)

-- What the transition of a report publishes.
abbrev pub opened_notification : Report → IncidentMonitor → List Notification
opened_notification r m =
    if r.notify
    then (record {
      event_type = "proactive.incident.opened";
      content = append_text "系统异常：" r.message;
      source_id = r.fingerprint;
      principal_id = m.principal_id;
    })
      ∷ []
    else []

-- The incident is open afterwards, and what is published is the transition's notification, if the
-- incident was not open.
record Effect (r : Report) (was_open : Bool) (m m' : IncidentMonitor) : Type 0 where
  opens : is_open_at r.fingerprint m' ≡ true
  publishes : m'.published ≡ m.published ++ (if was_open then [] else opened_notification r m)
  principal : m'.principal_id ≡ m.principal_id

open_edge-Effect :
    (r : Report) (is : List Incident) (m : IncidentMonitor)
    → is_open (find_incident r.fingerprint is) ≡ true
    → Effect r false m (open_edge r is m).1
unfolding open_edge publish save_incidents notify_state_changed
open_edge-Effect r is m h = on r.notify
  where
    on :
        (notify : Bool)
        → Effect
            (record r { notify = notify })
            false
            m
            (open_edge (record r { notify = notify }) is m).1
    on true = record { opens = h; publishes = refl; principal = refl }
    on false = record { opens = h; publishes = sym (append-nil m.published); principal = refl }

failure_of-Effect :
    (r : Report) (m : IncidentMonitor) (found : Option Incident)
    → find_incident r.fingerprint m.incidents ≡ found
    → Effect r (is_open found) m (failure_of r found m).1
unfolding failure_of save_incidents notify_state_changed opened_incident detect_again reopen
failure_of-Effect r m none e =
    open_edge-Effect r _ m (ap is_open (find_incident-append r.fingerprint _ m.incidents refl e))
failure_of-Effect r m (some i) e = elim (Bool-cases (is_open_state i.state)) [
  | inl open_ ↦ rw open_ (record {
    opens =
        ap is_open (find_incident-update r.fingerprint (detect_again r) i m.incidents same e)
        ∙ open_;
    publishes = sym (append-nil m.published);
    principal = refl;
  })
  | inr shut ↦ rw shut (
      open_edge-Effect r _ m
        (ap is_open (find_incident-update r.fingerprint (reopen r) i m.incidents same e)))
]
  where
    same : i.fingerprint ≡ r.fingerprint
    same = find_incident-fingerprint r.fingerprint i m.incidents e

report_failure-Effect :
    (r : Report) (m : IncidentMonitor)
    → IsConsistent m.incidents
    → Effect r (is_open_at r.fingerprint m) m (report_failure r m).1
unfolding report_failure
report_failure-Effect r m h =
    rw (load_incidents-IsConsistent m.incidents h, report_failure) (failure_of-Effect r m _ refl)

unfoldable pub report_failures : List Report → IncidentMonitor → IncidentMonitor
report_failures [] m = m
report_failures (r ∷ rs) m = report_failures rs (report_failure r m).1

abbrev pub AllAbout : String → List Report → Type 0
AllAbout fingerprint = All (λ (r : Report). r.fingerprint ≡ fingerprint)

-- While the incident is open, failures publish nothing.
pub report_failures-open :
    (fingerprint : String) (rs : List Report) (m : IncidentMonitor)
    → IsConsistent m.incidents
    → is_open_at fingerprint m ≡ true
    → AllAbout fingerprint rs
    → (report_failures rs m).published ≡ m.published
unfolding report_failures
report_failures-open fingerprint [] m h open_ about = refl
report_failures-open fingerprint (r ∷ rs) m h open_ (e, about) =
    let effect = report_failure-Effect r m h in
    let open_' = ap (λ (f : String). is_open_at f m) e ∙ open_ in
    report_failures-open fingerprint rs (report_failure r m).1 (report_failure-IsConsistent m h r)
      (sym (ap (λ (f : String). is_open_at f (report_failure r m).1) e) ∙ effect.opens) about
    ∙ effect.publishes
    ∙ ap (λ (b : Bool). m.published ++ (if b then [] else opened_notification r m)) open_'
    ∙ append-nil m.published

-- However often a failure is reported, it publishes once: from a consistent store with no open
-- incident under the fingerprint, a first report and any further ones about that fingerprint
-- publish exactly the notification of the first, if it asks for one, and nothing else.
pub report_failures-once :
    (r : Report) (rs : List Report) (m : IncidentMonitor)
    → IsConsistent m.incidents
    → is_open_at r.fingerprint m ≡ false
    → AllAbout r.fingerprint rs
    → (report_failures (r ∷ rs) m).published ≡ m.published ++ opened_notification r m
unfolding report_failures
report_failures-once r rs m h shut about =
    let effect = report_failure-Effect r m h in
    report_failures-open r.fingerprint rs (report_failure r m).1 (report_failure-IsConsistent m h r)
      effect.opens about
    ∙ effect.publishes
    ∙ ap (λ (b : Bool). m.published ++ (if b then [] else opened_notification r m)) shut
