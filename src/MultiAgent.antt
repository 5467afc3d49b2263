-- ===== src/MultiAgent.antt =====
-- Turning-Good-Agent/multi_agent/types.py: the values of a delegation. The statuses are one type: a
-- node is never waiting, and a worker's result is neither queued, running nor waiting. Times,
-- durations and token usage are left out.
pub mod Requests
pub mod Nodes
pub mod Coordinator
pub mod Workers
pub mod Stages
pub mod Runs
pub mod Endings
pub mod Invocation
pub mod Pipeline
pub mod Events
mod Samples
use turning_good_agent.Prelude.{
  ℕ, String, Bool, true, false, not, ◌&&◌, ◌||◌, Option, none, some, List, [], string_eq, ◌==◌, ◌≡◌,
  ◌↔◌, Eq, eq_iff, arith, if◌then◌else◌,
}
use turning_good_agent.Prelude.Text.{is_empty, strip}
use turning_good_agent.Prelude.Result.{Result, ok, raise}

pub data Strategy : Type 0 where
  fan_out_fan_in pipeline : Strategy

pub data Status : Type 0 where
  queued running waiting completed failed timed_out cancelled interrupted : Status

pub record MultiAgentTask : Type 0 where
  pub role : String
  pub brief : String

pub record MultiAgentRequest : Type 0 where
  pub strategy : Strategy
  pub tasks : List MultiAgentTask

pub record WorkerResult : Type 0 where
  pub status : Status
  pub content : Option String
  pub error : Option String

pub record MultiAgentNode : Type 0 where
  pub node_id : String
  pub role : String
  pub status : Status
  pub result : Option WorkerResult
  pub error : Option String
  pub error_code : Option String

pub record MultiAgentRun : Type 0 where
  pub run_id : String
  pub parent_session_id : String
  pub parent_request_id : String
  pub strategy : Strategy
  pub status : Status
  pub nodes : List MultiAgentNode
  pub error : Option String
  pub error_code : Option String

abbrev pub is_completed : Status → Bool
is_completed completed = true
is_completed _ = false

abbrev pub is_terminal : Status → Bool
is_terminal queued = false
is_terminal running = false
is_terminal waiting = false
is_terminal _ = true

-- A text that is present and not blank.
unfoldable pub is_text : Option String → Bool
unfolding strip is_empty
is_text none = false
is_text (some text) = not (is_empty (strip text))

abbrev is_absent : Option String → Bool
is_absent none = true
is_absent (some text) = false

-- `WorkerResult.__post_init__`
unfoldable pub check_result : WorkerResult → Result String WorkerResult
unfolding is_text
check_result r =
    if not (is_terminal r.status)
    then raise "不支持的 WorkerResult 状态"
    else if is_completed r.status
    then (if is_text r.content && is_absent r.error
        then ok r
        else raise "completed 结果必须包含非空 content 且 error 为 null")
    else if is_absent r.content && is_text r.error
    then ok r
    else raise "失败结果必须 content 为 null 且包含非空 error"

-- A pair of texts as a key.
abbrev pub Key : Type 0
Key = String × String

abbrev pub key_beq : Key → Key → Bool
key_beq a b = a.0 == b.0 && a.1 == b.1

pub key_beq_iff : (a b : Key) → (key_beq a b ≡ true) ↔ (a ≡ b)
key_beq_iff (a, b) (c, d) = ground (arith, eq_iff a c, eq_iff b d)

instance abbrev pub key_eq : Eq Key
key_eq = record { beq = key_beq; beq_iff = key_beq_iff }
