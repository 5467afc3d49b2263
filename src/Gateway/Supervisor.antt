-- ===== src/Gateway/Supervisor.antt =====
-- Turning-Good-Agent/gateway/runtime_supervisor.py: `RuntimeSupervisor`, which replaces the whole
-- Runtime between turns. A Runtime is known by a number. At each await of `_reload` the other
-- coroutines may request another reload or stop the supervisor: `others` says what they did. The
-- factory, the hooks, `start` of the candidate and the idle probe are the environment's.
-- Closing a Runtime swallows its failures; a cancellation that arrives during it goes on, as
-- `closing_cancelled` says.
pub mod Replacement
pub mod LostRequest
mod Samples
use turning_good_agent.Prelude.{
  ℕ, String, Bool, true, false, not, ◌&&◌, ◌≡◌, Option, none, some, List, [], ◌∷◌, ◌++◌, ◌==◌,
  string_eq, if◌then◌else◌,
}
use turning_good_agent.Prelude.Result.{Result, ok, raise}

pub data State : Type 0 where
  active pending applying failed : State

-- `closed` lists the Runtimes whose `close` was awaited.
pub record RuntimeSupervisor : Type 0 where
  pub runtime : ℕ
  pub desired_revision : String
  pub active_revision : String
  pub state : State
  pub last_apply_error : Option String
  pub ready : Bool
  pub closing : Bool
  pub closed : List ℕ

pub record RuntimeStatus : Type 0 where
  pub state : State
  pub desired_revision : String
  pub active_revision : String
  pub last_apply_error : Option String

unfoldable pub make_supervisor : ℕ → String → RuntimeSupervisor
make_supervisor initial_runtime active_revision = record {
  runtime = initial_runtime;
  desired_revision = active_revision;
  active_revision = active_revision;
  state = active;
  last_apply_error = none;
  ready = true;
  closing = false;
  closed = [];
}

unfoldable pub status : RuntimeSupervisor → RuntimeStatus
status s = record {
  state = s.state;
  desired_revision = s.desired_revision;
  active_revision = s.active_revision;
  last_apply_error = s.last_apply_error;
}

unfoldable pub start : RuntimeSupervisor → RuntimeSupervisor
start s = record s { closing = false }

-- `request_reload` up to the idle probe; it goes on to `_reload` where the probe holds.
unfoldable pub note_request : String → Bool → RuntimeSupervisor → RuntimeSupervisor
note_request revision idle s =
    let noted = record s { desired_revision = revision; last_apply_error = none } in
    if idle then noted else record noted { state = pending }

-- What another coroutine does while `_reload` waits.
pub data Interference : Type 0 where
  requests : String → Bool → Interference
  stops : Interference

-- A request to a closing supervisor raises and changes nothing.
unfoldable pub interfere : Interference → RuntimeSupervisor → RuntimeSupervisor
unfolding note_request
interfere (requests revision idle) s = if s.closing then s else note_request revision idle s
interfere stops s = record s { closing = true }

unfoldable pub interfere_all : List Interference → RuntimeSupervisor → RuntimeSupervisor
interfere_all [] s = s
interfere_all (i ∷ is) s = interfere_all is (interfere i s)

-- How an awaited call of the environment ends.
pub data Attempt (A : Type 0) : Type 0 where
  done : A → Attempt A
  raises : String → Attempt A
  is_cancelled : Attempt A

-- The points of `_reload` where it waits.
pub data Point : Type 0 where
  making preparing starting activating discarding committing cleaning : Point

pub record Environment : Type 0 where
  pub idle_at_entry : Bool
  pub idle_when_made : Bool
  pub idle_when_started : Bool
  pub factory : Attempt ℕ
  pub prepare : Attempt (Unit {0})
  pub start_candidate : Attempt (Unit {0})
  pub activate : Attempt (Unit {0})
  pub closing_cancelled : Point → Bool
  pub others : Point → List Interference

-- How far the `try` body came: on, returned, or out by an exception, with the variables
-- `replacement` and `activated`.
pub data Progress : Type 0 where
  goes_on : ℕ → RuntimeSupervisor → Progress
  returns : RuntimeSupervisor → Progress
  raised : String → Option ℕ → Bool → RuntimeSupervisor → Progress
  cancelled : Option ℕ → Bool → RuntimeSupervisor → Progress

-- The next statement runs only if the body goes on.
infixl 5 ◌then◌
abbrev pub ◌then◌ : Progress → (ℕ → RuntimeSupervisor → Progress) → Progress
(goes_on candidate s) then f = f candidate s
(returns s) then f = returns s
(raised e candidate activated s) then f = raised e candidate activated s
(cancelled candidate activated s) then f = cancelled candidate activated s

abbrev pub close_runtime : ℕ → RuntimeSupervisor → RuntimeSupervisor
close_runtime runtime s = record s { closed = s.closed ++ runtime ∷ [] }

-- Awaiting the close of a Runtime, at a point where others may run.
abbrev pub await_close : Environment → Point → ℕ → RuntimeSupervisor → RuntimeSupervisor
await_close env point runtime s = interfere_all (env.others point) (close_runtime runtime s)

-- What follows the close of a candidate, unless the close is cancelled.
abbrev pub after_close : Environment → ℕ → RuntimeSupervisor → RuntimeSupervisor → Progress
after_close env candidate closed_state next =
    if env.closing_cancelled discarding
    then cancelled (some candidate) false closed_state
    else returns next

-- `if await self._discard_if_closing(replacement): return`
unfoldable pub discard_if_closing : Environment → ℕ → RuntimeSupervisor → Progress
discard_if_closing env candidate s =
    if s.closing
    then (let s' = await_close env discarding candidate s in
        after_close env candidate s' (record s' { state = active }))
    else goes_on candidate s

-- `if not self._idle_probe(): ... return`
unfoldable pub defer_if_busy : Environment → Bool → ℕ → RuntimeSupervisor → Progress
defer_if_busy env idle candidate s =
    if idle
    then goes_on candidate s
    else (let s' = await_close env discarding candidate (record s { state = pending }) in
        after_close env candidate s' s')

-- An awaited call about the candidate, at a point where others may run.
unfoldable pub await_call :
    Environment → Point → Attempt (Unit {0}) → ℕ → RuntimeSupervisor → Progress
await_call env point (done u) candidate s = goes_on candidate (interfere_all (env.others point) s)
await_call env point (raises e) candidate s =
    raised e (some candidate) false (interfere_all (env.others point) s)
await_call env point is_cancelled candidate s =
    cancelled (some candidate) false (interfere_all (env.others point) s)

unfoldable pub make_candidate : Environment → RuntimeSupervisor → Progress
make_candidate env s = elim env.factory [
  | done candidate ↦ goes_on candidate (interfere_all (env.others making) s)
  | raises e ↦ raised e none false (interfere_all (env.others making) s)
  | is_cancelled ↦ cancelled none false (interfere_all (env.others making) s)
]

-- The assignments that commit the candidate, and the closing of the Runtime before it.
unfoldable pub commit : Environment → String → ℕ → RuntimeSupervisor → Progress
commit env revision candidate s =
    let installed = record s {
      runtime = candidate;
      active_revision = revision;
      state = if s.desired_revision == revision then active else pending;
    } in
    let s' = await_close env committing s.runtime installed in
    if env.closing_cancelled committing then cancelled (some candidate) true s' else returns s'

-- The body of the `try`.
unfoldable pub reload_body : Environment → String → RuntimeSupervisor → Progress
reload_body env revision s =
    make_candidate env s
    then discard_if_closing env
    then defer_if_busy env env.idle_when_made
    then await_call env preparing env.prepare
    then discard_if_closing env
    then await_call env starting env.start_candidate
    then discard_if_closing env
    then defer_if_busy env env.idle_when_started
    then await_call env activating env.activate
    then discard_if_closing env
    then commit env revision

-- `if replacement is not None and not activated: await _close_failed_candidate(replacement)`, and
-- whether a cancellation leaves the clause here.
abbrev pub close_candidate :
    Environment → Option ℕ → Bool → RuntimeSupervisor → Bool × RuntimeSupervisor
close_candidate env (some candidate) false s =
    (env.closing_cancelled cleaning, await_close env cleaning candidate s)
close_candidate env _ _ s = (false, s)

-- Whether `_reload` returns or a cancellation leaves it.
pub data Exit : Type 0 where
  normal interrupted : Exit

-- The end of `except asyncio.CancelledError`, which a cancelled close of the candidate skips.
abbrev pub note_cancelled : Bool → RuntimeSupervisor → RuntimeSupervisor
note_cancelled left s =
    if left
    then s
    else if s.closing
    then record s { state = active; last_apply_error = none }
    else record s { state = failed; last_apply_error = some "Runtime 替换已取消" }

-- The `except` and `finally` clauses.
unfoldable pub handle : Environment → Progress → Exit × RuntimeSupervisor
handle env (goes_on candidate s) = (normal, record s { ready = true })
handle env (returns s) = (normal, record s { ready = true })
handle env (raised e candidate activated s) =
    let (left, s') =
      close_candidate env candidate activated
        (record s { state = failed; last_apply_error = some e }) in
    (if left then interrupted else normal, record s' { ready = true })
handle env (cancelled candidate activated s) =
    let (left, s') = close_candidate env candidate activated s in
    (interrupted, record (note_cancelled left s') { ready = true })

-- `_reload`, once it holds the lock.
unfoldable pub reload : Environment → RuntimeSupervisor → Exit × RuntimeSupervisor
reload env s =
    if s.closing
    then (normal, s)
    else if not env.idle_at_entry
    then (normal, record s { state = pending })
    else handle env
        (reload_body env s.desired_revision (record s { state = applying; ready = false }))

pub data SupervisorError : Type 0 where
  supervisor_closed : SupervisorError

unfoldable pub request_reload :
    Environment
    → String
    → Bool
    → RuntimeSupervisor
    → Result SupervisorError RuntimeStatus × RuntimeSupervisor
unfolding note_request status
request_reload env revision idle s =
    if s.closing
    then (raise supervisor_closed, s)
    else if idle
    then (let s' = (reload env (note_request revision true s)).1 in (ok (status s'), s'))
    else (let s' = note_request revision false s in (ok (status s'), s'))

abbrev pub is_pending : State → Bool
is_pending pending = true
is_pending _ = false

unfoldable pub notify_idle : Environment → Bool → RuntimeSupervisor → RuntimeSupervisor
notify_idle env idle s = if not s.closing && is_pending s.state && idle then (reload env s).1 else s

-- `stop_reloads` waits for a running replacement; `close` then closes the Runtime.
unfoldable pub stop_reloads : RuntimeSupervisor → RuntimeSupervisor
stop_reloads s = record s { closing = true }

unfoldable pub close : RuntimeSupervisor → RuntimeSupervisor
unfolding stop_reloads
close s = close_runtime s.runtime (stop_reloads s)
