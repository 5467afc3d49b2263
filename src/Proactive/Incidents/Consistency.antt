-- ===== src/Proactive/Incidents/Consistency.antt =====
-- proactive/incidents.py: what a consistent store is, for `_load_incidents`.
use turning_good_agent.Prelude.{
  ◌<◌, ◌≡◌, refl, String, Bool, true, false, not, Option, none, some, List, [], ◌∷◌, ◌++◌, keep,
  contains, All, ◌==◌, string_eq, eq_iff, if◌then◌else◌, arith, Bool-cases, inl, inr, ap, ◌∙◌, sym,
  subst,
}
use turning_good_agent.Prelude.Result.{ok}
use turning_good_agent.Proactive.Incidents.{
  IncidentState, open_state, resolved, is_open_state, HistoryEntry, Incident, fingerprints,
  all_distinct, counts_valid, load_incidents, find_incident, update_incident,
}

-- The state that an entry may have after one of the state before.
abbrev pub follows : Option IncidentState → IncidentState → Bool
follows none state = is_open_state state
follows (some open_state) state = not (is_open_state state)
follows (some resolved) state = is_open_state state

-- A history alternates from the state before it and ends in a state.
abbrev pub Leads : Option IncidentState → List HistoryEntry → IncidentState → Type 0
Leads before [] after = before ≡ some after
Leads before (e ∷ es) after = (follows before e.state ≡ true) × Leads (some e.state) es after

abbrev pub IsSound : Incident → Type 0
IsSound i = (0 < i.occurrence_count) × Leads none i.history i.state

abbrev pub IsConsistent : List Incident → Type 0
IsConsistent incidents = (all_distinct (fingerprints incidents) ≡ true) × All IsSound incidents

pub Leads-append :
    (before : Option IncidentState) (es : List HistoryEntry) (after : IncidentState)
    (e : HistoryEntry)
    → Leads before es after
    → follows (some after) e.state ≡ true
    → Leads before (es ++ e ∷ []) e.state
Leads-append before [] after e h next = (rw h next, refl)
Leads-append before (x ∷ es) after e h next = (h.0, Leads-append (some x.state) es after e h.1 next)

-- A consistent store loads.
sound_counts : (is : List Incident) → All IsSound is → counts_valid is ≡ true
unfolding counts_valid
sound_counts [] h = refl
sound_counts (i ∷ is) h = ground (arith, sound_counts is h.1, h.0.0)

pub load_incidents-IsConsistent : (is : List Incident) → IsConsistent is → load_incidents is ≡ ok is
unfolding load_incidents
load_incidents-IsConsistent is h = rw (sound_counts is h.1, h.0) refl

fingerprints-update :
    (fingerprint : String) (f : Incident → Incident) (is : List Incident)
    → ((i : Incident) → (f i).fingerprint ≡ i.fingerprint)
    → fingerprints (update_incident fingerprint f is) ≡ fingerprints is
unfolding update_incident
fingerprints-update fingerprint f [] same = refl
fingerprints-update fingerprint f (i ∷ is) same =
    ground (arith, same i, fingerprints-update fingerprint f is same)

find_incident-here :
    (fingerprint : String) (i : Incident) (is : List Incident)
    → (i.fingerprint == fingerprint) ≡ true
    → find_incident fingerprint (i ∷ is) ≡ some i
unfolding find_incident
find_incident-here fingerprint i is h = rw h refl

find_incident-later :
    (fingerprint : String) (i : Incident) (is : List Incident)
    → (i.fingerprint == fingerprint) ≡ false
    → find_incident fingerprint (i ∷ is) ≡ find_incident fingerprint is
unfolding find_incident
find_incident-later fingerprint i is h = rw h refl

update-IsSound :
    (fingerprint : String) (f : Incident → Incident) (is : List Incident)
    → All IsSound is
    → ((i : Incident) → find_incident fingerprint is ≡ some i → IsSound i → IsSound (f i))
    → All IsSound (update_incident fingerprint f is)
unfolding update_incident
update-IsSound fingerprint f [] h keeps = tt
update-IsSound fingerprint f (i ∷ is) h keeps = elim (Bool-cases (i.fingerprint == fingerprint)) [
  | inl here ↦ rw here (keeps i (find_incident-here fingerprint i is here) h.0, h.1)
  | inr later ↦ rw later (
    h.0,
    update-IsSound fingerprint f is h.1
        (λ j found. keeps j (find_incident-later fingerprint i is later ∙ found)),
  )
]

some-injective : {i j : Incident} → some i ≡ some j → i ≡ j
some-injective e = cc

-- Changing the record found, without its fingerprint, keeps the store consistent.
pub update-IsConsistent :
    (fingerprint : String) (f : Incident → Incident) (is : List Incident) (i : Incident)
    → IsConsistent is
    → find_incident fingerprint is ≡ some i
    → ((j : Incident) → (f j).fingerprint ≡ j.fingerprint)
    → (IsSound i → IsSound (f i))
    → IsConsistent (update_incident fingerprint f is)
update-IsConsistent fingerprint f is i h found same keeps = (
  rw (fingerprints-update fingerprint f is same) h.0,
  update-IsSound fingerprint f is h.1 (λ j found'. at j (sym found ∙ found')),
)
  where
    at : (j : Incident) → some i ≡ some j → IsSound j → IsSound (f j)
    at j e sound = subst (λ k. IsSound k → IsSound (f k)) (some-injective e) keeps sound

pub absent_of_none :
    (fingerprint : String) (is : List Incident)
    → find_incident fingerprint is ≡ none
    → contains fingerprint (fingerprints is) ≡ false
unfolding find_incident
absent_of_none fingerprint [] h = refl
absent_of_none fingerprint (i ∷ is) h = ground (arith, absent_of_none fingerprint is)

contains-append :
    (x y : String) (xs : List String)
    → contains x (xs ++ y ∷ []) ≡ (if contains x xs then true else y == x)
contains-append x y [] = ground arith
contains-append x y (z ∷ xs) = ground (arith, contains-append x y xs)

pub all_distinct-append :
    (y : String) (xs : List String)
    → all_distinct xs ≡ true
    → contains y xs ≡ false
    → all_distinct (xs ++ y ∷ []) ≡ true
unfolding all_distinct
all_distinct-append y [] h new = refl
all_distinct-append y (x ∷ xs) h new =
    ground (arith, all_distinct-append y xs, contains-append x y xs, eq_iff x y, eq_iff y x)

pub fingerprints-append :
    (is : List Incident) (i : Incident)
    → fingerprints (is ++ i ∷ []) ≡ fingerprints is ++ i.fingerprint ∷ []
fingerprints-append [] i = refl
fingerprints-append (j ∷ is) i =
    ap (λ (l : List String). j.fingerprint ∷ l) (fingerprints-append is i)

contains-keep :
    (p : Incident → Bool) (x : String) (is : List Incident)
    → contains x (fingerprints is) ≡ false
    → contains x (fingerprints (keep p is)) ≡ false
contains-keep p x [] h = refl
contains-keep p x (i ∷ is) h = ground (arith, contains-keep p x is)

pub keep-IsConsistent :
    (p : Incident → Bool) (is : List Incident) → IsConsistent is → IsConsistent (keep p is)
unfolding all_distinct
keep-IsConsistent p [] h = h
keep-IsConsistent p (i ∷ is) h =
    ground (arith, keep-IsConsistent p is, contains-keep p i.fingerprint is)
