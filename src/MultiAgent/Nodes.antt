-- ===== src/MultiAgent/Nodes.antt =====
-- Turning-Good-Agent/multi_agent/coordinator.py: how a worker's answer becomes a node, and what is
-- derived from nodes. The replacement of credentials (`_sanitize_content`, three regular expressions),
-- the tokenizer and `str.isalnum` of a character are parameters.
use turning_good_agent.Prelude.{
  ℕ, ◌+◌, String, Bool, not, ◌||◌, Option, none, some, List, [], ◌∷◌, ltb, nat_beq, total,
  string_eq, if◌then◌else◌,
}
use turning_good_agent.Prelude.Text.{strip, is_empty, split_words, text_length, take_text, any_char}
use turning_good_agent.Sessions.{count_content_tokens}
use turning_good_agent.Hooks.{truthy}
use turning_good_agent.Tools.{join}
use turning_good_agent.MultiAgent.{
  Status, completed, failed, timed_out, cancelled, MultiAgentTask, WorkerResult, MultiAgentNode,
  is_completed,
}

abbrev pub result_context_exceeded_code : String
result_context_exceeded_code = "result_context_exceeded"

abbrev pub result_context_exceeded_error : String
result_context_exceeded_error = "Worker 结果超出上下文限制"

abbrev pub invalid_result_error : String
invalid_result_error = "Worker 结果格式无效"

abbrev pub worker_dependency_max_chars : ℕ
worker_dependency_max_chars = 12000

abbrev pub worker_dependency_max_tokens : ℕ
worker_dependency_max_tokens = 6000

-- A result that is not a success.
abbrev pub unsuccessful : Status → String → WorkerResult
unsuccessful status error = record { status = status; content = none; error = some error }

unfoldable pub node_of : String → MultiAgentTask → WorkerResult → Option String → MultiAgentNode
node_of node_id task result error_code = record {
  node_id = node_id;
  role = task.role;
  status = result.status;
  result = some result;
  error = result.error;
  error_code = error_code;
}

unfoldable pub cancelled_node : String → MultiAgentTask → String → MultiAgentNode
unfolding node_of
cancelled_node node_id task error = node_of node_id task (unsuccessful cancelled error) none

unfoldable pub failed_node : String → MultiAgentTask → String → String → MultiAgentNode
unfolding node_of
failed_node node_id task error error_code =
    node_of node_id task (unsuccessful failed error) (some error_code)

unfoldable pub timed_out_node : String → MultiAgentTask → MultiAgentNode
unfolding node_of
timed_out_node node_id task = node_of node_id task (unsuccessful timed_out "Worker 执行超时") none

unfoldable pub event_failure_node : String → MultiAgentTask → String → MultiAgentNode
unfolding failed_node
event_failure_node node_id task error = failed_node node_id task error "event_persistence_failed"

abbrev pub running_node : String → MultiAgentTask → Status → MultiAgentNode
running_node node_id task status = record {
  node_id = node_id;
  role = task.role;
  status = status;
  result = none;
  error = none;
  error_code = none;
}

-- What a worker returns: a result, or a value of another class.
pub data WorkerAnswer : Type 0 where
  worker_result : WorkerResult → WorkerAnswer
  other_answer : WorkerAnswer

abbrev pub content_of : MultiAgentNode → Option String
content_of node = elim node.result [ none ↦ none | some result ↦ result.content ]

-- `node.result.content`, where the node has completed.
abbrev pub successful_content : MultiAgentNode → Option String
successful_content node = if is_completed node.status then content_of node else none

-- The first text that is not empty.
unfoldable pub first_text : (MultiAgentNode → Option String) → List MultiAgentNode → Option String
first_text field [] = none
first_text field (node ∷ nodes) =
    let rest = first_text field nodes in
    elim (truthy (field node)) [ some text ↦ some text | none ↦ rest ]

abbrev pub first_error : List MultiAgentNode → String
first_error nodes = elim (first_text (λ node. node.error) nodes) [
  | some error ↦ error
  | none ↦ "Multi-Agent Worker 全部失败"
]

abbrev pub first_error_code : List MultiAgentNode → Option String
first_error_code = first_text (λ node. node.error_code)

-- The label of an event, or a fixed one where the text is not safe to show.
unfoldable pub safe_task_label : (ℕ → Bool) → String → String
unfolding any_char join split_words text_length is_empty
safe_task_label is_alnum raw =
    let text = join " " (split_words raw) in
    if any_char (λ c. ltb c 32 || nat_beq c 127) raw
    then "multi_agent"
    else if ltb 64 (text_length text)
    then "multi_agent"
    else if is_empty text
        || any_char (λ c. not (is_alnum c || nat_beq c 32 || nat_beq c 95 || nat_beq c 45)) text
    then "multi_agent"
    else text

module _ (sanitize_content : String → String) where
  abbrev pub sanitized : Option String → String
  sanitized none = ""
  sanitized (some content) = sanitize_content content

  unfoldable pub safe_error : Option String → String
  unfolding join split_words take_text is_empty
  safe_error error =
      let text = take_text 256 (join " " (split_words (sanitized error))) in
      if is_empty text then "Worker 执行失败" else text

  module _ (encoded_length : String → ℕ) (worker_result_token_limit : ℕ) where
    -- The result and the error code that are kept of a worker's answer.
    unfoldable pub normalize_result : WorkerResult → WorkerResult × Option String
    normalize_result r =
        let content = sanitized r.content in
        if not (is_completed r.status)
        then (unsuccessful r.status (safe_error r.error), none)
        else if is_empty (strip content)
        then (unsuccessful failed invalid_result_error, some result_context_exceeded_code)
        else if ltb worker_result_token_limit (count_content_tokens encoded_length content)
        then (unsuccessful failed result_context_exceeded_error, some result_context_exceeded_code)
        else (record { status = completed; content = some content; error = none }, none)

    unfoldable pub normalize_worker_result : WorkerAnswer → WorkerResult × Option String
    normalize_worker_result other_answer =
        (unsuccessful failed invalid_result_error, some result_context_exceeded_code)
    normalize_worker_result (worker_result r) = normalize_result r

-- What the next worker is given of a node that has completed, none where it is too long.
unfoldable pub build_dependency : (String → ℕ) → String → Option String
build_dependency encoded_length content =
    if ltb worker_dependency_max_chars (text_length content)
      || ltb worker_dependency_max_tokens (count_content_tokens encoded_length content)
    then none
    else some content

abbrev pub content_tokens : (String → ℕ) → MultiAgentNode → ℕ
content_tokens encoded_length node = elim (successful_content node) [
  | none ↦ 0
  | some content ↦ count_content_tokens encoded_length content
]

-- Whether the results of a run are too long for its parent.
unfoldable pub is_over_budget : (String → ℕ) → ℕ → ℕ → ℕ → List MultiAgentNode → Bool
is_over_budget encoded_length parent_result_token_limit max_context_tokens initial_context_tokens
      nodes =
    let result_tokens = total (content_tokens encoded_length) nodes in
    ltb parent_result_token_limit result_tokens
    || ltb max_context_tokens (initial_context_tokens + result_tokens)
