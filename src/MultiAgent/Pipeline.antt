-- ===== src/MultiAgent/Pipeline.antt =====
-- multi_agent/coordinator.py, `_run_sequential`: the nodes of a pipeline.
use turning_good_agent.Prelude.{
  arith, ℕ, suc, ◌≡◌, refl, ap, String, string_eq, Bool, true, false, Option, none, some, List, [],
  ◌∷◌, map, All,
}
use turning_good_agent.Prelude.Action.{◌>>=◌, After}
use turning_good_agent.MultiAgent.{MultiAgentTask, MultiAgentNode, MultiAgentRun, is_completed}
use turning_good_agent.MultiAgent.Nodes.{
  node_of, cancelled_node, failed_node, successful_content, build_dependency,
  result_context_exceeded_code, result_context_exceeded_error,
}
use turning_good_agent.MultiAgent.Coordinator.{Surroundings, MultiAgentCoordinator, Act, emit_node}
use turning_good_agent.MultiAgent.Stages.{
  node_name, then_rest, hand_over, after_worker, run_from, run_sequential,
}
use turning_good_agent.MultiAgent.Workers.Returns.{
  IsFor, Returns, Returns-done, Returns-bind, Anything, anything, Returns-emit_node,
  run_worker-IsFor,
}

abbrev pub HasNotCompleted : MultiAgentNode → Type 0
HasNotCompleted node = is_completed node.status ≡ false

-- The identifiers and the roles of the tasks from an index on.
abbrev pub names : ℕ → List MultiAgentTask → List (String × String)
names index [] = []
names index (task ∷ tasks) = (node_name index, task.role) ∷ names (suc index) tasks

abbrev pub names_of : List MultiAgentNode → List (String × String)
names_of = map (λ (node : MultiAgentNode). (node.node_id, node.role))

-- Behind a node that has not completed none has.
abbrev pub Stops : List MultiAgentNode → Type 0
Stops [] = Unit
Stops (node ∷ nodes) = (HasNotCompleted node → All HasNotCompleted nodes) × Stops nodes

pub record AreStages (index : ℕ) (tasks : List MultiAgentTask) (blocked : Bool)
    (nodes : List MultiAgentNode) : Type 0 where
  pub named : names_of nodes ≡ names index tasks
  pub stops : Stops nodes
  pub none_completes : blocked ≡ true → All HasNotCompleted nodes

-- The nodes of the tasks that are left, the first of which is skipped if it has its node.
abbrev Covers : ℕ → List MultiAgentTask → Bool → Bool → List MultiAgentNode → Type 0
Covers index tasks blocked false nodes = AreStages index tasks blocked nodes
Covers index [] blocked true nodes = nodes ≡ []
Covers index (task ∷ tasks) blocked true nodes = AreStages (suc index) tasks blocked nodes

module _ {W : Type 0} (env : Surroundings W) (run : MultiAgentRun) (deadline : ℕ) where
  blocked-AreStages :
      (index : ℕ) (task : MultiAgentTask) (tasks : List MultiAgentTask) (blocked : Bool)
      (node : MultiAgentNode) (nodes : List MultiAgentNode)
      → IsFor (node_name index) task node
      → (blocked ≡ true → HasNotCompleted node)
      → (HasNotCompleted node → All HasNotCompleted nodes)
      → AreStages (suc index) tasks blocked nodes
      → AreStages index (task ∷ tasks) blocked (node ∷ nodes)
  blocked-AreStages index task tasks blocked node nodes (e, r) first later h = record {
    named = rw (e, r) (ap (λ l. (node_name index, task.role) ∷ l) h.named);
    stops = (later, h.stops);
    none_completes = λ b. (first b, h.none_completes b);
  }

  -- A first worker, and what is known of the others.
  AreStages-after :
      (index : ℕ) (task : MultiAgentTask) (tasks : List MultiAgentTask) (blocked : Bool)
      (node : MultiAgentNode) (nodes : List MultiAgentNode)
      → IsFor (node_name index) task node
      → (HasNotCompleted node → All HasNotCompleted nodes)
      → AreStages (suc index) tasks blocked nodes
      → AreStages index (task ∷ tasks) false (node ∷ nodes)
  AreStages-after index task tasks blocked node nodes (e, r) later h = record {
    named = rw (e, r) (ap (λ l. (node_name index, task.role) ∷ l) h.named);
    stops = (later, h.stops);
    none_completes = λ b. cc;
  }

  Returns-then_rest :
      (P Q : List MultiAgentNode → Type 0) (node : MultiAgentNode)
      (rest : Act W (List MultiAgentNode))
      → Returns env P rest
      → ((nodes : List MultiAgentNode) → P nodes → Q (node ∷ nodes))
      → Returns env Q (then_rest env node rest)
  Returns-then_rest P Q node rest p k =
      Returns-bind env P Q rest _ p (λ nodes h. Returns-done env Q (node ∷ nodes) (k nodes h))

  completes :
      (node : MultiAgentNode) (content : String)
      → successful_content node ≡ some content
      → HasNotCompleted node
      → ⊥
  completes node content e h = ground arith

  failed-IsFor :
      (index : ℕ) (task : MultiAgentTask)
      → IsFor (node_name (suc index)) task (
          failed_node
            (node_name (suc index))
            task
            result_context_exceeded_error
            result_context_exceeded_code)
  unfolding failed_node node_of
  failed-IsFor index task = (refl, refl)

  hand_over-Covers :
      (index : ℕ) (task : MultiAgentTask) (tasks : List MultiAgentTask) (node : MultiAgentNode)
      (content : String) (rest : Option String → Bool → Bool → Act W (List MultiAgentNode))
      → IsFor (node_name index) task node
      → (HasNotCompleted node → ⊥)
      → ((d : Option String) (blocked skip : Bool)
          → Returns env (Covers (suc index) tasks blocked skip) (rest d blocked skip))
      → Returns env
          (AreStages index (task ∷ tasks) false)
          (hand_over env run index node tasks content rest)
  unfolding hand_over failed_node node_of
  hand_over-Covers index task [] node content rest is_for done_well h =
      Returns-then_rest (AreStages (suc index) [] false) _ node _ (h none false false) (λ nodes k.
        AreStages-after index task [] false node nodes is_for (λ n. absurd (done_well n)) k)
  hand_over-Covers index task (next ∷ tasks) node content rest is_for done_well h =
      go (build_dependency env.encoded_length content)
    where
      failed_next : MultiAgentNode
      failed_next =
          failed_node (node_name (suc index)) next result_context_exceeded_error
            result_context_exceeded_code

      go :
          (o : Option String)
          → Returns env (AreStages index (task ∷ next ∷ tasks) false) (elim o [
            | some dependency ↦ then_rest env node (rest (some dependency) false false)
            | none ↦ emit_node env run failed_next >>= λ sent.
                then_rest env node (then_rest env failed_next (rest none true true))
          ])
      go (some dependency) =
          Returns-then_rest (AreStages (suc index) (next ∷ tasks) false) _ node _
            (h (some dependency) false false)
            (λ nodes k.
              AreStages-after index task (next ∷ tasks) false node nodes is_for
                (λ n. absurd (done_well n)) k)
      go none =
          Returns-bind env (Anything env) _ _ _
            (Returns-emit_node env (Anything env) run failed_next (anything env failed_next))
            (λ sent u.
              Returns-then_rest (AreStages (suc index) (next ∷ tasks) true) _ node _
                (Returns-then_rest (AreStages (suc (suc index)) tasks true) _ failed_next _
                  (h none true true)
                  (λ nodes k.
                    blocked-AreStages (suc index) next tasks true failed_next nodes
                      (failed-IsFor index next) (λ b. refl) (λ n. k.none_completes refl) k))
                (λ nodes k.
                  AreStages-after index task (next ∷ tasks) true node nodes is_for
                    (λ n. absurd (done_well n)) k))

  after_worker-Covers :
      (index : ℕ) (task : MultiAgentTask) (tasks : List MultiAgentTask) (node : MultiAgentNode)
      (rest : Option String → Bool → Bool → Act W (List MultiAgentNode))
      → IsFor (node_name index) task node
      → ((d : Option String) (blocked skip : Bool)
          → Returns env (Covers (suc index) tasks blocked skip) (rest d blocked skip))
      → Returns env
          (AreStages index (task ∷ tasks) false)
          (after_worker env run index tasks rest node)
  unfolding after_worker
  after_worker-Covers index task tasks node rest is_for h = go (successful_content node) refl
    where
      go :
          (o : Option String)
          → successful_content node ≡ o
          → Returns env (AreStages index (task ∷ tasks) false) (elim o [
            | none ↦ then_rest env node (rest none true false)
            | some content ↦ hand_over env run index node tasks content rest
          ])
      go none e =
          Returns-then_rest (AreStages (suc index) tasks true) _ node _ (h none true false)
            (λ nodes k.
              AreStages-after index task tasks true node nodes is_for (λ n. k.none_completes refl)
                k)
      go (some content) e =
          hand_over-Covers index task tasks node content rest is_for (completes node content e) h

  cancelled-IsFor :
      (node_id : String) (task : MultiAgentTask) (error : String)
      → IsFor node_id task (cancelled_node node_id task error)
        × HasNotCompleted (cancelled_node node_id task error)
  unfolding cancelled_node node_of
  cancelled-IsFor node_id task error = ((refl, refl), refl)

  run_from-Covers :
      (tasks : List MultiAgentTask) (index : ℕ) (dependency : Option String)
      (blocked skip_next : Bool)
      → Returns env
          (Covers index tasks blocked skip_next)
          (run_from env run deadline index tasks dependency blocked skip_next)
  unfolding run_from
  run_from-Covers [] index dependency blocked true = Returns-done env _ [] refl
  run_from-Covers [] index dependency blocked false =
      Returns-done env _ [] (record { named = refl; stops = tt; none_completes = λ b. tt })
  run_from-Covers (task ∷ tasks) index dependency blocked true =
      run_from-Covers tasks (suc index) dependency blocked false
  run_from-Covers (task ∷ tasks) index dependency true false =
      let cancelled_one = cancelled-IsFor (node_name index) task "前序 Worker 未成功" in
      Returns-bind env (λ n. IsFor (node_name index) task n × HasNotCompleted n) _ _ _
        (Returns-emit_node env _ run _ cancelled_one)
        (λ node k.
          Returns-then_rest (AreStages (suc index) tasks true) _ node _
            (run_from-Covers tasks (suc index) dependency true false)
            (λ nodes h.
              blocked-AreStages index task tasks true node nodes k.0 (λ b. k.1)
                (λ n. h.none_completes refl) h))
  run_from-Covers (task ∷ tasks) index dependency false false =
      Returns-bind env (IsFor (node_name index) task) _ _ _
        (run_worker-IsFor env run task (node_name index) deadline dependency)
        (λ node k.
          after_worker-Covers index task tasks node _ k (run_from-Covers tasks (suc index)))

  -- Whatever the workers, the clock and the store of events do, a pipeline returns one node for each
  -- task, in the order of the tasks and with their roles, and behind a node that has not completed
  -- no node has.
  pub run_sequential-AreStages :
      (tasks : List MultiAgentTask) (s : MultiAgentCoordinator W)
      → After
          (λ nodes t. AreStages 1 tasks false nodes)
          (λ t. ⊥)
          (run_sequential env run deadline tasks s)
  unfolding run_sequential
  run_sequential-AreStages tasks s = (run_from-Covers tasks 1 none false false).at s tt
