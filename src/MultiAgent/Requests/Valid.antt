-- ===== src/MultiAgent/Requests/Valid.antt =====
-- multi_agent/schema.py: what a request that passes is.
use turning_good_agent.Prelude.{
  string_eq, ℕ, ◌≤◌, ◌≡◌, refl, String, false, not, ◌&&◌, Option, none, some, List, [], ◌∷◌, length,
  All, ltb, ltb→le, arith,
}
use turning_good_agent.Prelude.Dict.{get}
use turning_good_agent.Prelude.Text.{is_empty, strip, text_length}
use turning_good_agent.Prelude.Result.{ok, raise, ◌>>=◌, OnOk, OnOk-bind, OnOk-raise_if}
use turning_good_agent.Sessions.{is_nonempty}
use turning_good_agent.MultiAgent.{
  Strategy, fan_out_fan_in, pipeline, MultiAgentTask, MultiAgentRequest,
}
use turning_good_agent.MultiAgent.Requests.{
  Value, text_value, list_value, object_value, other_value, items, entries, Checked, checked_text,
  non_empty_string, role_max_length, brief_max_length, unknown_fields, parse_both, parse_task,
  parse_tasks, parse_strategy, is_pipeline, tasks_of, parse_payload, validate_delegate_request,
  IsTask, IsRequest,
}

abbrev IsShort : ℕ → String → Type 0
IsShort maximum value = (is_empty (strip value) ≡ false) × (text_length value ≤ maximum)

checked_text-IsShort :
    (value field : String) (maximum : ℕ) → OnOk (IsShort maximum) (checked_text value field maximum)
checked_text-IsShort value field maximum =
    OnOk-raise_if (IsShort maximum) (is_empty (strip value)) _ _ (λ filled.
      OnOk-raise_if (IsShort maximum) (ltb maximum (text_length value)) _ (ok value)
        (λ short. (filled, ltb→le maximum (text_length value) short)))

non_empty_string-IsShort :
    (v : Value) (field : String) (maximum : ℕ)
    → OnOk (IsShort maximum) (non_empty_string v field maximum)
unfolding non_empty_string
non_empty_string-IsShort (text_value value) field maximum = checked_text-IsShort value field maximum
non_empty_string-IsShort (list_value vs) field maximum = tt
non_empty_string-IsShort (object_value fs) field maximum = tt
non_empty_string-IsShort other_value field maximum = tt

parse_both-IsTask : (role brief : Option Value) → OnOk IsTask (parse_both role brief)
parse_both-IsTask (some role) (some brief) =
    OnOk-bind _ IsTask (non_empty_string role "role" role_max_length) _
      (non_empty_string-IsShort role "role" role_max_length)
      (λ r hr.
        OnOk-bind _ IsTask (non_empty_string brief "brief" brief_max_length) _
          (non_empty_string-IsShort brief "brief" brief_max_length)
          (λ b hb. record { role = hr; brief = hb }))
parse_both-IsTask (some role) none = tt
parse_both-IsTask none (some brief) = tt
parse_both-IsTask none none = tt

parse_task-IsTask : (v : Value) → OnOk IsTask (parse_task v)
unfolding parse_task
parse_task-IsTask (object_value fields) =
    OnOk-raise_if IsTask (is_nonempty (unknown_fields ("role" ∷ "brief" ∷ []) (entries fields))) _ _
      (λ known. parse_both-IsTask (get "role" (entries fields)) (get "brief" (entries fields)))
parse_task-IsTask (text_value s) = tt
parse_task-IsTask (list_value vs) = tt
parse_task-IsTask other_value = tt

-- The tasks, as many as there are values.
abbrev AreTasks : List Value → List MultiAgentTask → Type 0
AreTasks values tasks = All IsTask tasks × (length tasks ≡ length values)

parse_tasks-AreTasks : (values : List Value) → OnOk (AreTasks values) (parse_tasks values)
unfolding parse_tasks
parse_tasks-AreTasks [] = (tt, refl)
parse_tasks-AreTasks (v ∷ values) =
    OnOk-bind IsTask (AreTasks (v ∷ values)) (parse_task v) _ (parse_task-IsTask v) (λ task h.
      OnOk-bind (AreTasks values) (AreTasks (v ∷ values)) (parse_tasks values) _
        (parse_tasks-AreTasks values) (λ tasks hs. ((h, hs.0), omega (arith, hs.1))))

module _ (max_workers_per_run : ℕ) where
  abbrev Accepted : Checked MultiAgentRequest → Type 0
  Accepted = OnOk (IsRequest max_workers_per_run)

  staged_enough :
      (strategy : Strategy) (n : ℕ)
      → (is_pipeline strategy && ltb n 2) ≡ false
      → strategy ≡ pipeline
      → 2 ≤ n
  staged_enough pipeline n h e = ltb→le n 2 h
  staged_enough fan_out_fan_in n h e = cc

  nonempty-length : {A : Type 0} (l : List A) → not (is_nonempty l) ≡ false → 1 ≤ length l
  nonempty-length [] h = cc
  nonempty-length (x ∷ l) h = omega arith

  tasks_of-Accepted :
      (strategy : Strategy) (v : Value) → Accepted (tasks_of max_workers_per_run strategy v)
  tasks_of-Accepted strategy (list_value values) =
      OnOk-raise_if (IsRequest max_workers_per_run) (not (is_nonempty (items values))) _ _
        (λ filled.
          OnOk-raise_if (IsRequest max_workers_per_run)
            (ltb max_workers_per_run (length (items values))) _ _
            (λ fits.
              OnOk-bind (AreTasks (items values)) (IsRequest max_workers_per_run)
                (parse_tasks (items values)) _ (parse_tasks-AreTasks (items values))
                (λ tasks h.
                  OnOk-raise_if (IsRequest max_workers_per_run)
                    (is_pipeline strategy && ltb (length tasks) 2) _ _
                    (λ enough. record {
                      enough = omega (arith, h.1, nonempty-length (items values) filled);
                      bounded =
                          omega
                            (arith, h.1, ltb→le max_workers_per_run (length (items values)) fits);
                      staged = staged_enough strategy (length tasks) enough;
                      tasks = h.0;
                    }))))
  tasks_of-Accepted strategy (text_value s) = tt
  tasks_of-Accepted strategy (object_value fs) = tt
  tasks_of-Accepted strategy other_value = tt

  parse_payload-Accepted :
      (strategy tasks : Option Value) → Accepted (parse_payload max_workers_per_run strategy tasks)
  parse_payload-Accepted (some strategy) (some tasks) = go (parse_strategy strategy)
    where
      go : (r : Checked Strategy) → Accepted (r >>= λ s. tasks_of max_workers_per_run s tasks)
      go (ok s) = tasks_of-Accepted s tasks
      go (raise e) = tt
  parse_payload-Accepted (some strategy) none = tt
  parse_payload-Accepted none (some tasks) = tt
  parse_payload-Accepted none none = tt

  -- A delegation that passes the checks has at least one worker and at most the allowed number, two
  -- or more in a pipeline, and each worker has a role and a brief that are not blank and within their
  -- lengths.
  pub validate_delegate-IsRequest :
      (payload : Value) → Accepted (validate_delegate_request payload max_workers_per_run)
  unfolding validate_delegate_request
  validate_delegate-IsRequest (object_value fields) =
      OnOk-raise_if (IsRequest max_workers_per_run) (ltb max_workers_per_run 1) _ _ (λ positive.
        OnOk-raise_if (IsRequest max_workers_per_run)
          (is_nonempty (unknown_fields ("strategy" ∷ "tasks" ∷ []) (entries fields))) _ _
          (λ known.
            parse_payload-Accepted (get "strategy" (entries fields))
              (get "tasks" (entries fields))))
  validate_delegate-IsRequest (text_value s) =
      OnOk-raise_if (IsRequest max_workers_per_run) (ltb max_workers_per_run 1) _ (raise _)
        (λ p. tt)
  validate_delegate-IsRequest (list_value vs) =
      OnOk-raise_if (IsRequest max_workers_per_run) (ltb max_workers_per_run 1) _ (raise _)
        (λ p. tt)
  validate_delegate-IsRequest other_value =
      OnOk-raise_if (IsRequest max_workers_per_run) (ltb max_workers_per_run 1) _ (raise _)
        (λ p. tt)
