-- ===== src/MultiAgent/Invocation/Once.antt =====
-- multi_agent/delegate_tool.py, `invoke`: the delegations that a turn asks for, one after the other.
use turning_good_agent.Prelude.{ℕ, ◌≡◌, refl, ap, ◌∙◌, String, true, false, List, [], ◌∷◌}
use turning_good_agent.Prelude.Result.{Result, ok, raise}
use turning_good_agent.Prelude.Action.{done, ◌>>=◌, current}
use turning_good_agent.MultiAgent.{MultiAgentRequest, MultiAgentRun}
use turning_good_agent.MultiAgent.Requests.{Value, validate_delegate_request}
use turning_good_agent.MultiAgent.Coordinator.{Surroundings}
use turning_good_agent.MultiAgent.Runs.{DelegateParentTurn, Collect}
use turning_good_agent.MultiAgent.Invocation.{
  DelegateResult, Invocation, duplicate_result, invalid_result, coordinate, after_delegate, accept,
  accept_checked, invoke,
}

-- What a sequence of calls answers.
abbrev pub Answers : Type 0
Answers = List (Result String DelegateResult)

abbrev pub answer_first :
    {W : Type 0}
    → Result String DelegateResult × Invocation W
    → (Invocation W → Answers × Invocation W)
    → Answers × Invocation W
answer_first (r, i) next = (r ∷ (next i).0, (next i).1)

-- A duplicate for each of the calls.
abbrev pub duplicates : List Value → Answers
duplicates [] = []
duplicates (args ∷ calls) = ok duplicate_result ∷ duplicates calls

module _ {W : Type 0} (env : Surroundings W) (run_fanout : Collect env)
    (parent : DelegateParentTurn) (max_workers_per_run : ℕ) where
  abbrev invoke_one : Value → Invocation W → Result String DelegateResult × Invocation W
  invoke_one = invoke env run_fanout parent max_workers_per_run

  -- The calls of a turn, in order.
  unfoldable pub invoke_all : List Value → Invocation W → Answers × Invocation W
  invoke_all [] i = ([], i)
  invoke_all (args ∷ calls) i =
      answer_first (invoke env run_fanout parent max_workers_per_run args i) (invoke_all calls)

  -- One call of those that are left, checked.
  unfoldable pub delegate_valid :
      List Value
      → (Invocation W → Answers × Invocation W)
      → Invocation W
      → Result String MultiAgentRequest
      → Answers × Invocation W
  delegate_valid calls next i (raise text) = answer_first (ok (invalid_result text), i) next
  delegate_valid calls next i (ok request) =
      answer_first (accept env run_fanout parent max_workers_per_run request i)
        (λ j. (duplicates calls, j))

  -- What the calls should do: the first valid request is delegated, and it alone.
  unfoldable pub delegate_first : List Value → Invocation W → Answers × Invocation W
  unfolding delegate_valid
  delegate_first [] i = ([], i)
  delegate_first (args ∷ calls) i =
      delegate_valid calls (delegate_first calls) i
        (validate_delegate_request args max_workers_per_run)

  after_delegate-accepted :
      (r : Result String MultiAgentRun × Invocation W)
      → r.1.accepted ≡ true
      → (after_delegate env run_fanout parent max_workers_per_run r).1.accepted ≡ true
  unfolding after_delegate
  after_delegate-accepted (ok run, i) h = h
  after_delegate-accepted (raise e, i) h = h

  accept-accepted :
      (request : MultiAgentRequest) (i : Invocation W)
      → (accept env run_fanout parent max_workers_per_run request i).1.accepted ≡ true
  unfolding accept coordinate
  accept-accepted request i = after_delegate-accepted _ refl

  invoke-duplicate :
      (args : Value) (i : Invocation W)
      → i.accepted ≡ true
      → invoke_one args i ≡ (ok duplicate_result, i)
  unfolding invoke ◌>>=◌ current done
  invoke-duplicate args i h = rw h refl

  invoke-first :
      (args : Value) (i : Invocation W)
      → i.accepted ≡ false
      → invoke_one args i
        ≡ accept_checked env run_fanout parent max_workers_per_run
            (validate_delegate_request args max_workers_per_run)
            i
  unfolding invoke ◌>>=◌ current done
  invoke-first args i h = rw h refl

  invoke_all-duplicates :
      (calls : List Value) (i : Invocation W)
      → i.accepted ≡ true
      → invoke_all calls i ≡ (duplicates calls, i)
  unfolding invoke_all
  invoke_all-duplicates [] i h = refl
  invoke_all-duplicates (args ∷ calls) i h =
      ap (λ r. answer_first r (invoke_all calls)) (invoke-duplicate args i h)
      ∙ ap (λ (r : Answers × Invocation W). (ok duplicate_result ∷ r.0, r.1))
          (invoke_all-duplicates calls i h)

  checked :
      (calls : List Value) (i : Invocation W) (r : Result String MultiAgentRequest)
      → invoke_all calls i ≡ delegate_first calls i
      → answer_first
          (accept_checked env run_fanout parent max_workers_per_run r i)
          (invoke_all calls)
        ≡ delegate_valid calls (delegate_first calls) i r
  unfolding delegate_valid done
  checked calls i (raise text) e =
      ap (λ (t : Answers × Invocation W). (ok (invalid_result text) ∷ t.0, t.1)) e
  checked calls i (ok request) e =
      let r = accept env run_fanout parent max_workers_per_run request i in
      ap (λ (t : Answers × Invocation W). (r.0 ∷ t.0, t.1))
        (invoke_all-duplicates calls r.1 (accept-accepted request i))

  -- Of the delegations that a turn asks for, one after the other, the first that is valid is run, and
  -- only that one: those before it are answered as invalid and change nothing, and those behind it are
  -- answered as duplicates and change nothing.
  pub invoke_all-delegate_first :
      (calls : List Value) (i : Invocation W)
      → i.accepted ≡ false
      → invoke_all calls i ≡ delegate_first calls i
  unfolding invoke_all delegate_first
  invoke_all-delegate_first [] i h = refl
  invoke_all-delegate_first (args ∷ calls) i h =
      ap (λ r. answer_first r (invoke_all calls)) (invoke-first args i h)
      ∙ checked calls i (validate_delegate_request args max_workers_per_run)
          (invoke_all-delegate_first calls i h)
