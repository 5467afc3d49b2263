-- ===== src/MultiAgent/Events.antt =====
-- multi_agent/coordinator.py, `_emit`: how often the end of a node or a run is sent.
use turning_good_agent.Prelude.{
  ℕ, ◌+◌, ◌≤◌, ◌≡◌, refl, sym, ap, ◌∙◌, subst, String, string_eq, Bool, Bool-cases, inl, inr, true,
  false, ◌&&◌, Option, none, some, List, [], ◌∷◌, ◌++◌, total, total-append, contains, contains-add,
  add, member, Eq, ◌==◌, if◌then◌else◌, arith,
}
use turning_good_agent.MultiAgent.{MultiAgentNode, MultiAgentRun, is_terminal, Key, key_eq}
use turning_good_agent.MultiAgent.Coordinator.{
  MultiAgentEventPayload, Surroundings, MultiAgentCoordinator, new_coordinator, payload_of,
  is_repeated, mark, record_sent, emit_with,
}

-- Whether an event is the end of a node, and of a run.
abbrev pub ends_node : Key → MultiAgentEventPayload → Bool
ends_node key p = elim p.node_id [
  | none ↦ false
  | some node_id ↦ is_terminal p.status && (p.run_id, node_id) == key
]

abbrev pub ends_run : String → MultiAgentEventPayload → Bool
ends_run run_id p = elim p.node_id [
  | none ↦ is_terminal p.status && p.run_id == run_id
  | some node_id ↦ false
]

-- How many of the events sent pass a test.
abbrev pub sent_count : (MultiAgentEventPayload → Bool) → List MultiAgentEventPayload → ℕ
sent_count test = total (λ p. if test p then 1 else 0)

module _ {K : Type 0} ⦃e : Eq K⦄ where
  once_more :
      (k key : K) (marked : List K) (n : ℕ)
      → n ≤ member key marked
      → contains k marked ≡ false
      → n + (if k == key then 1 else 0) ≤ member key (add k marked)
  once_more k key marked n h fresh = elim (Bool-cases (k == key)) [
    | inl same ↦
        let eq : k ≡ key = (e.beq_iff k key).0 same in
        let absent : contains key marked ≡ false =
          subst (λ x. contains x marked ≡ false) eq fresh in
        ground (arith, contains-add k key marked)
    | inr other ↦ ground (arith, contains-add k key marked)
  ]

member-le : {K : Type 0} ⦃e : Eq K⦄ (k : K) (l : List K) → member k l ≤ 1
member-le k l = ground arith

-- One more event, in the count of a test.
more_sent :
    (test : MultiAgentEventPayload → Bool) (sent : List MultiAgentEventPayload)
    (p : MultiAgentEventPayload) (hit : Bool)
    → test p ≡ hit
    → sent_count test (sent ++ p ∷ []) ≡ sent_count test sent + (if hit then 1 else 0)
more_sent test sent p hit e =
    let appended = total-append (λ q. if test q then 1 else 0) sent (p ∷ []) in ground arith

module _ {W : Type 0} where
  -- What has been sent as an end is marked, and only once.
  pub record IsOnce (s : MultiAgentCoordinator W) : Type 0 where
    pub nodes : (key : Key) → sent_count (ends_node key) s.sent ≤ member key s.terminal_nodes
    pub runs :
        (run_id : String) → sent_count (ends_run run_id) s.sent ≤ member run_id s.terminal_runs

  module _ (env : Surroundings W) (event_type : String) (run : MultiAgentRun) where
    sent_node-IsOnce :
        (node : MultiAgentNode) (s : MultiAgentCoordinator W) (w : W)
        → is_repeated env run (some node) s ≡ false
        → IsOnce s
        → IsOnce (
            mark env run (some node) (record s {
              world = w;
              sent = s.sent ++ payload_of env event_type run (some node) ∷ [];
            }))
    unfolding payload_of
    sent_node-IsOnce node s w fresh h =
        let p : MultiAgentEventPayload = payload_of env event_type run (some node) in
        let k : Key = (run.run_id, node.node_id) in
        let runs : (run_id : String)
            → sent_count (ends_run run_id) (s.sent ++ p ∷ []) ≤ member run_id s.terminal_runs =
          λ run_id. omega (arith, h.runs run_id, more_sent (ends_run run_id) s.sent p false refl) in
        elim (Bool-cases (is_terminal node.status)) [
          | inl t ↦ rw t (record {
            nodes = λ key. omega (
              arith,
              more_sent (ends_node key) s.sent p (k == key) (ap (λ b. b && k == key) t),
              once_more k key s.terminal_nodes (sent_count (ends_node key) s.sent) (h.nodes key)
                  (ap (λ b. b && contains k s.terminal_nodes) (sym t) ∙ fresh),
            );
            runs = runs;
          })
          | inr t ↦ rw t (record {
            nodes = λ key. omega (
              arith,
              more_sent (ends_node key) s.sent p false (ap (λ b. b && k == key) t),
              h.nodes key,
            );
            runs = runs;
          })
        ]

    sent_run-IsOnce :
        (s : MultiAgentCoordinator W) (w : W)
        → is_repeated env run none s ≡ false
        → IsOnce s
        → IsOnce (
            mark env run none
              (record s { world = w; sent = s.sent ++ payload_of env event_type run none ∷ [] }))
    unfolding payload_of
    sent_run-IsOnce s w fresh h =
        let p : MultiAgentEventPayload = payload_of env event_type run none in
        let k : String = run.run_id in
        let nodes : (key : Key)
            → sent_count (ends_node key) (s.sent ++ p ∷ []) ≤ member key s.terminal_nodes =
          λ key. omega (arith, h.nodes key, more_sent (ends_node key) s.sent p false refl) in
        elim (Bool-cases (is_terminal run.status)) [
          | inl t ↦ rw t (record {
            runs = λ run_id. omega (
              arith,
              more_sent (ends_run run_id) s.sent p (k == run_id) (ap (λ b. b && k == run_id) t),
              once_more k run_id s.terminal_runs (sent_count (ends_run run_id) s.sent)
                  (h.runs run_id) (ap (λ b. b && contains k s.terminal_runs) (sym t) ∙ fresh),
            );
            nodes = nodes;
          })
          | inr t ↦ rw t (record {
            runs = λ run_id. omega (
              arith,
              more_sent (ends_run run_id) s.sent p false (ap (λ b. b && k == run_id) t),
              h.runs run_id,
            );
            nodes = nodes;
          })
        ]

    sent-IsOnce :
        (subject : Option MultiAgentNode) (s : MultiAgentCoordinator W) (w : W)
        → is_repeated env run subject s ≡ false
        → IsOnce s
        → IsOnce (
            mark env run subject
              (record s { world = w; sent = s.sent ++ payload_of env event_type run subject ∷ [] }))
    sent-IsOnce (some node) s w fresh h = sent_node-IsOnce node s w fresh h
    sent-IsOnce none s w fresh h = sent_run-IsOnce s w fresh h

    record_sent-IsOnce :
        (subject : Option MultiAgentNode) (s : MultiAgentCoordinator W) (r : Bool × W)
        → is_repeated env run subject s ≡ false
        → IsOnce s
        → IsOnce (record_sent env (payload_of env event_type run subject) run subject s r).1
    record_sent-IsOnce subject s (true, w) fresh h = sent-IsOnce subject s w fresh h
    record_sent-IsOnce subject s (false, w) fresh h = record { nodes = h.nodes; runs = h.runs }

    emit_with-IsOnce :
        (sink : Option (MultiAgentEventPayload → W → Bool × W)) (subject : Option MultiAgentNode)
        (s : MultiAgentCoordinator W)
        → IsOnce s
        → IsOnce (emit_with env sink event_type run subject s).1
    unfolding emit_with
    emit_with-IsOnce none subject s h = h
    emit_with-IsOnce (some sink) subject s h = elim (Bool-cases (is_repeated env run subject s)) [
      | inl repeated ↦ rw repeated h
      | inr fresh ↦ rw fresh (
          record_sent-IsOnce subject s (sink (payload_of env event_type run subject) s.world) fresh
            h)
    ]

  module _ (env : Surroundings W) where
    -- A sequence of events that the coordinator emits, each of a run or of one of its nodes.
    unfoldable pub emit_all :
        List (String × MultiAgentRun × Option MultiAgentNode)
        → MultiAgentCoordinator W
        → MultiAgentCoordinator W
    emit_all [] s = s
    emit_all ((event_type, run, subject) ∷ events) s =
        emit_all events (emit_with env env.event_sink event_type run subject s).1

    emit_all-keeps :
        (events : List (String × MultiAgentRun × Option MultiAgentNode))
        (s : MultiAgentCoordinator W)
        → IsOnce s
        → IsOnce (emit_all events s)
    unfolding emit_all
    emit_all-keeps [] s h = h
    emit_all-keeps ((event_type, run, subject) ∷ events) s h =
        emit_all-keeps events _ (emit_with-IsOnce env event_type run env.event_sink subject s h)

    -- Whatever events a coordinator emits, before it forgets a run, and whichever of them the store
    -- refuses: it has the end of each node and of each run sent at most once.
    pub emit_all-once :
        (w : W) (events : List (String × MultiAgentRun × Option MultiAgentNode)) (key : Key)
        → (sent_count (ends_node key) (emit_all events (new_coordinator w)).sent ≤ 1)
          × (sent_count (ends_run key.0) (emit_all events (new_coordinator w)).sent ≤ 1)
    emit_all-once w events key =
        let once =
          emit_all-keeps events (new_coordinator w)
            (record { nodes = λ k. omega arith; runs = λ k. omega arith }) in
        let s = emit_all events (new_coordinator w) in
        (
          omega (arith, once.nodes key, member-le key s.terminal_nodes),
          omega (arith, once.runs key.0, member-le key.0 s.terminal_runs),
        )
