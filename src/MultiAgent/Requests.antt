-- ===== src/MultiAgent/Requests.antt =====
-- Turning-Good-Agent/multi_agent/schema.py: the request that a parent's call makes, checked.
pub mod Valid
use turning_good_agent.Prelude.{
  ℕ, zero, suc, ◌≤◌, ◌≡◌, refl, String, Bool, true, false, not, ◌&&◌, ◌||◌, Option, none, some,
  List, [], ◌∷◌, length, All, keep, contains, any, ltb, ltb→le, ltb→lt, ◌==◌, string_eq,
  if◌then◌else◌, arith,
}
use turning_good_agent.Prelude.Dict.{Dict, get}
use turning_good_agent.Prelude.Text.{append_text, show, strip, is_empty, text_length}
use turning_good_agent.Prelude.Result.{Result, ok, raise, ◌>>=◌, ◌>>◌, raise_if, OnOk}
use turning_good_agent.Sessions.{is_nonempty}
use turning_good_agent.Tools.{join, sort_by, text_le, keys}
use turning_good_agent.MultiAgent.{
  Strategy, fan_out_fan_in, pipeline, MultiAgentTask, MultiAgentRequest, is_text,
}

-- A value of a payload.
mutual
  pub data Value : Type 0 where
    text_value : String → Value
    list_value : Values → Value
    object_value : Fields → Value
    other_value : Value

  pub data Values : Type 0 where
    no_values : Values
    next_value : Value → Values → Values

  pub data Fields : Type 0 where
    no_fields : Fields
    next_field : String → Value → Fields → Fields

abbrev pub items : Values → List Value
items no_values = []
items (next_value v vs) = v ∷ items vs

-- The entries of an object, whose keys are distinct.
abbrev pub entries : Fields → Dict String Value
entries no_fields = []
entries (next_field k v fs) = (k, v) ∷ entries fs

-- A `DelegateSchemaError` with its text.
abbrev pub Checked : Type 0 → Type 0
Checked = Result String

abbrev pub role_max_length : ℕ
role_max_length = 128

abbrev pub brief_max_length : ℕ
brief_max_length = 12000

unfoldable pub parse_strategy : Value → Checked Strategy
parse_strategy (text_value value) =
    if value == "fan_out_fan_in"
    then ok fan_out_fan_in
    else if value == "pipeline"
    then ok pipeline
    else raise "strategy 不受支持"
parse_strategy _ = raise "strategy 必须是受支持的字符串"

abbrev pub checked_text : String → String → ℕ → Checked String
checked_text value field maximum =
    raise_if (is_empty (strip value)) (append_text field " 必须是非空字符串")
    >> (raise_if (ltb maximum (text_length value))
          (append_text field (append_text " 不能超过 " (append_text (show maximum) " 个字符")))
        >> ok value)

unfoldable pub non_empty_string : Value → String → ℕ → Checked String
non_empty_string (text_value value) field maximum = checked_text value field maximum
non_empty_string _ field maximum = raise (append_text field " 必须是非空字符串")

-- The keys that are not allowed, sorted.
unfoldable pub unknown_fields : List String → Dict String Value → List String
unfolding sort_by
unknown_fields allowed payload =
    sort_by text_le (keep (λ name. not (contains name allowed)) (keys payload))

abbrev pub refuse_unknown : String → List String → Checked (Unit {0})
refuse_unknown text unknown = raise_if (is_nonempty unknown) (append_text text (join ", " unknown))

abbrev pub parse_both : Option Value → Option Value → Checked MultiAgentTask
parse_both (some role_value) (some brief_value) =
    non_empty_string role_value "role" role_max_length >>= λ role.
    non_empty_string brief_value "brief" brief_max_length >>= λ brief.
    ok (record { role = role; brief = brief })
parse_both _ _ = raise "每个 task 必须包含 role 和 brief"

abbrev pub parse_task_fields : Dict String Value → Checked MultiAgentTask
parse_task_fields payload =
    refuse_unknown "不支持的 task 字段：" (unknown_fields ("role" ∷ "brief" ∷ []) payload)
    >> parse_both (get "role" payload) (get "brief" payload)

unfoldable pub parse_task : Value → Checked MultiAgentTask
parse_task (object_value fields) = parse_task_fields (entries fields)
parse_task _ = raise "tasks 的每项必须是 object"

unfoldable pub parse_tasks : List Value → Checked (List MultiAgentTask)
parse_tasks [] = ok []
parse_tasks (value ∷ values) =
    parse_task value >>= λ task. parse_tasks values >>= λ tasks. ok (task ∷ tasks)

abbrev pub is_pipeline : Strategy → Bool
is_pipeline pipeline = true
is_pipeline fan_out_fan_in = false

abbrev pub request_of : Strategy → List MultiAgentTask → Checked MultiAgentRequest
request_of strategy tasks =
    raise_if (is_pipeline strategy && ltb (length tasks) 2) "pipeline 至少需要两个 Worker"
    >> ok (record { strategy = strategy; tasks = tasks })

abbrev pub tasks_of : ℕ → Strategy → Value → Checked MultiAgentRequest
tasks_of max_workers_per_run strategy (list_value values) =
    raise_if (not (is_nonempty (items values))) "tasks 不能为空"
    >> (raise_if (ltb max_workers_per_run (length (items values))) "tasks 不能超过 max_workers_per_run"
        >> (parse_tasks (items values) >>= request_of strategy))
tasks_of max_workers_per_run strategy _ = raise "tasks 必须是数组"

abbrev pub parse_payload : ℕ → Option Value → Option Value → Checked MultiAgentRequest
parse_payload max_workers_per_run (some strategy_value) (some tasks_value) =
    parse_strategy strategy_value >>= λ strategy. tasks_of max_workers_per_run strategy tasks_value
parse_payload max_workers_per_run _ _ = raise "请求必须包含 strategy 和 tasks"

abbrev pub validate_fields : ℕ → Dict String Value → Checked MultiAgentRequest
validate_fields max_workers_per_run payload =
    refuse_unknown "不支持的请求字段：" (unknown_fields ("strategy" ∷ "tasks" ∷ []) payload)
    >> parse_payload max_workers_per_run (get "strategy" payload) (get "tasks" payload)

-- `max_workers_per_run` is positive by its type, but for 0.
unfoldable pub validate_delegate_request : Value → ℕ → Checked MultiAgentRequest
validate_delegate_request (object_value fields) max_workers_per_run =
    raise_if (ltb max_workers_per_run 1) "max_workers_per_run 必须是正整数"
    >> validate_fields max_workers_per_run (entries fields)
validate_delegate_request _ max_workers_per_run =
    raise_if (ltb max_workers_per_run 1) "max_workers_per_run 必须是正整数" >> raise "请求必须是 object"

-- What every worker of a request is given.
pub record IsTask (task : MultiAgentTask) : Type 0 where
  pub role : (is_empty (strip task.role) ≡ false) × (text_length task.role ≤ role_max_length)
  pub brief : (is_empty (strip task.brief) ≡ false) × (text_length task.brief ≤ brief_max_length)

pub record IsRequest (max_workers_per_run : ℕ) (r : MultiAgentRequest) : Type 0 where
  pub enough : 1 ≤ length r.tasks
  pub bounded : length r.tasks ≤ max_workers_per_run
  pub staged : (r.strategy ≡ pipeline) → 2 ≤ length r.tasks
  pub tasks : All IsTask r.tasks
