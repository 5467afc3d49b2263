-- ===== src/Proactive/Incidents.antt =====
-- Turning-Good-Agent/proactive/incidents.py: `IncidentMonitor`, and the checks that
-- `Incident.from_dict` (proactive/types.py) makes on every load. The store holds the parsed
-- records. `utc_now_iso` and `new_id` are the arguments `now` and `fresh_id`, and `publisher_error`
-- is the exception of `enqueue`, if it raises one. The lock makes each operation one step.
pub mod Edges
pub mod Consistency
pub mod Runs
mod Samples
use turning_good_agent.Prelude.{
  ℕ, ◌+◌, ◌-◌, ◌&&◌, String, Bool, true, false, not, Option, none, some, List, [], ◌∷◌, ◌++◌, map,
  length, keep, contains, ltb, ◌==◌, string_eq, nat_beq, if◌then◌else◌,
}
use turning_good_agent.Prelude.Text.{append_text}
use turning_good_agent.Prelude.Result.{Result, ok, raise}

pub data IncidentState : Type 0 where
  open_state resolved : IncidentState

abbrev pub is_open_state : IncidentState → Bool
is_open_state open_state = true
is_open_state resolved = false

pub record HistoryEntry : Type 0 where
  pub state : IncidentState
  pub occurred_at : String
  pub message : String

pub record Incident : Type 0 where
  pub id : String
  pub fingerprint : String
  pub source : String
  pub state : IncidentState
  pub first_detected_at : String
  pub last_detected_at : String
  pub occurrence_count : ℕ
  pub message : String
  pub history : List HistoryEntry

-- What is handed to the publisher.
pub record Notification : Type 0 where
  pub event_type : String
  pub content : String
  pub source_id : String
  pub principal_id : Option String

-- `published` lists the calls of `enqueue`, `changes` counts those of `state_changed`.
pub record IncidentMonitor : Type 0 where
  pub principal_id : Option String
  pub incidents : List Incident
  pub published : List Notification
  pub changes : ℕ

pub data IncidentError : Type 0 where
  invalid_count duplicate_fingerprint missing_incident already_resolved : IncidentError
  publish_failed : String → IncidentError

abbrev pub fingerprints : List Incident → List String
fingerprints = map (λ (i : Incident). i.fingerprint)

-- `len({...}) != len(parsed)` is false.
unfoldable pub all_distinct : List String → Bool
all_distinct [] = true
all_distinct (x ∷ xs) = let rest = all_distinct xs in if contains x xs then false else rest

unfoldable pub counts_valid : List Incident → Bool
counts_valid [] = true
counts_valid (i ∷ is) =
    let rest = counts_valid is in if ltb i.occurrence_count 1 then false else rest

unfoldable pub load_incidents : List Incident → Result IncidentError (List Incident)
load_incidents stored =
    if not (counts_valid stored)
    then raise invalid_count
    else if all_distinct (fingerprints stored)
    then ok stored
    else raise duplicate_fingerprint

-- The record at `_index_for_fingerprint`.
unfoldable pub find_incident : String → List Incident → Option Incident
find_incident fingerprint [] = none
find_incident fingerprint (i ∷ is) =
    if i.fingerprint == fingerprint then some i else find_incident fingerprint is

-- Changing the record at `_index_for_fingerprint` in place.
unfoldable pub update_incident : String → (Incident → Incident) → List Incident → List Incident
update_incident fingerprint f [] = []
update_incident fingerprint f (i ∷ is) =
    let rest = update_incident fingerprint f is in
    if i.fingerprint == fingerprint then f i ∷ is else i ∷ rest

abbrev pub history_entry : IncidentState → String → String → HistoryEntry
history_entry state occurred_at message = record {
  state = state;
  occurred_at = occurred_at;
  message = message;
}

unfoldable pub save_incidents : List Incident → IncidentMonitor → IncidentMonitor
save_incidents incidents m = record m { incidents = incidents }

-- `if notify: ... enqueue(**payload)`
unfoldable pub publish : Bool → String → String → String → IncidentMonitor → IncidentMonitor
publish notify event_type content fingerprint m =
    if notify
    then record m {
      published =
          m.published
          ++ (record {
            event_type = event_type;
            content = content;
            source_id = fingerprint;
            principal_id = m.principal_id;
          })
            ∷ [];
    }
    else m

unfoldable pub notify_state_changed : IncidentMonitor → IncidentMonitor
notify_state_changed m = record m { changes = m.changes + 1 }

-- The publisher's exception is raised after the state is saved and announced.
unfoldable pub conclude : Bool → Option String → Bool → Result IncidentError Bool
conclude false publisher_error answer = ok answer
conclude true none answer = ok answer
conclude true (some error) answer = raise (publish_failed error)

pub record Report : Type 0 where
  pub fingerprint : String
  pub source : String
  pub message : String
  pub notify : Bool
  pub now : String
  pub fresh_id : String
  pub publisher_error : Option String

unfoldable pub opened_incident : Report → Incident
opened_incident r = record {
  id = r.fresh_id;
  fingerprint = r.fingerprint;
  source = r.source;
  state = open_state;
  first_detected_at = r.now;
  last_detected_at = r.now;
  occurrence_count = 1;
  message = r.message;
  history = history_entry open_state r.now r.message ∷ [];
}

unfoldable pub detect_again : Report → Incident → Incident
detect_again r i = record i { occurrence_count = i.occurrence_count + 1; last_detected_at = r.now }

unfoldable pub reopen : Report → Incident → Incident
reopen r i = record i {
  state = open_state;
  last_detected_at = r.now;
  occurrence_count = i.occurrence_count + 1;
  message = r.message;
  history = i.history ++ history_entry open_state r.now r.message ∷ [];
}

unfoldable pub recover : Report → Incident → Incident
recover r i = record i {
  state = resolved;
  last_detected_at = r.now;
  message = r.message;
  history = i.history ++ history_entry resolved r.now r.message ∷ [];
}

unfoldable pub mark_resolved : String → Incident → Incident
mark_resolved now i = record i {
  state = resolved;
  last_detected_at = now;
  history = i.history ++ history_entry resolved now "用户在 Web 中标记已解决" ∷ [];
}

-- The transition to open: the record is written, published and announced.
unfoldable pub open_edge :
    Report → List Incident → IncidentMonitor → Result IncidentError Bool × IncidentMonitor
open_edge r incidents m = (
  conclude r.notify r.publisher_error true,
  notify_state_changed (
      publish r.notify "proactive.incident.opened" (append_text "系统异常：" r.message) r.fingerprint
        (save_incidents incidents m)),
)

-- `report_failure` on what was loaded: nothing, an open incident or a resolved one.
unfoldable pub failure_of :
    Report → Option Incident → IncidentMonitor → Result IncidentError Bool × IncidentMonitor
failure_of r none m = open_edge r (m.incidents ++ opened_incident r ∷ []) m
failure_of r (some i) m =
    if is_open_state i.state
    then (
      ok false,
      notify_state_changed
          (save_incidents (update_incident r.fingerprint (detect_again r) m.incidents) m),
    )
    else open_edge r (update_incident r.fingerprint (reopen r) m.incidents) m

unfoldable pub report_failure :
    Report → IncidentMonitor → Result IncidentError Bool × IncidentMonitor
report_failure r m = elim (load_incidents m.incidents) [
  | raise e ↦ (raise e, m)
  | ok incidents ↦ failure_of r (find_incident r.fingerprint incidents) m
]

unfoldable pub recovery_of :
    Report → Option Incident → IncidentMonitor → Result IncidentError Bool × IncidentMonitor
recovery_of r none m = (ok false, m)
recovery_of r (some i) m =
    if is_open_state i.state
    then (
      conclude r.notify r.publisher_error true,
      notify_state_changed (
          publish r.notify "proactive.incident.resolved" (append_text "系统已恢复：" r.message)
            r.fingerprint
            (save_incidents (update_incident r.fingerprint (recover r) m.incidents) m)),
    )
    else (ok false, m)

unfoldable pub report_recovery :
    Report → IncidentMonitor → Result IncidentError Bool × IncidentMonitor
report_recovery r m = elim (load_incidents m.incidents) [
  | raise e ↦ (raise e, m)
  | ok incidents ↦ recovery_of r (find_incident r.fingerprint incidents) m
]

unfoldable pub get_by_fingerprint :
    String → IncidentMonitor → Result IncidentError (Option Incident)
get_by_fingerprint fingerprint m = elim (load_incidents m.incidents) [
  | raise e ↦ raise e
  | ok incidents ↦ ok (find_incident fingerprint incidents)
]

unfoldable pub resolution_of :
    String
    → String
    → Option Incident
    → IncidentMonitor
    → Result IncidentError Incident × IncidentMonitor
resolution_of fingerprint now none m = (raise missing_incident, m)
resolution_of fingerprint now (some i) m =
    if is_open_state i.state
    then (
      ok (mark_resolved now i),
      notify_state_changed
          (save_incidents (update_incident fingerprint (mark_resolved now) m.incidents) m),
    )
    else (raise already_resolved, m)

unfoldable pub resolve_by_fingerprint :
    String → String → IncidentMonitor → Result IncidentError Incident × IncidentMonitor
resolve_by_fingerprint fingerprint now m = elim (load_incidents m.incidents) [
  | raise e ↦ (raise e, m)
  | ok incidents ↦ resolution_of fingerprint now (find_incident fingerprint incidents) m
]

abbrev pub other_than : String → Incident → Bool
other_than fingerprint i = not (i.fingerprint == fingerprint)

unfoldable pub delete_by_fingerprint :
    String → IncidentMonitor → Result IncidentError ℕ × IncidentMonitor
delete_by_fingerprint fingerprint m = elim (load_incidents m.incidents) [
  | raise e ↦ (raise e, m)
  | ok incidents ↦
      (let retained = keep (other_than fingerprint) incidents in
        let removed = length incidents - length retained in
        (
          ok removed,
          if nat_beq removed 0 then m else notify_state_changed (save_incidents retained m),
        ))
]
