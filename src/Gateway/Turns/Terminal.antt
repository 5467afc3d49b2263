-- ===== src/Gateway/Turns/Terminal.antt =====
-- gateway/turns.py: the cache of terminal messages, `resync` and repeated request ids.
use turning_good_agent.Prelude.{
  ℕ, ◌+◌, ◌≤◌, ◌<◌, String, false, Bool-cases, ◌≡◌, ◌≢◌, refl, ap, ◌∙◌, inl, inr, none, some, List,
  [], ◌∷◌, ◌++◌, arith, ltb, append_assoc, All, length, length-append, string_eq, eq_iff, beq_refl,
}
use turning_good_agent.Prelude.Dict
use turning_good_agent.Prelude.Dict.{Dict, get-remove}
use turning_good_agent.Prelude.Result.{ok}
use turning_good_agent.Bus.{InboundMessage, OutboundMessage}
use turning_good_agent.Gateway.Turns.{
  GatewayTurnCoordinator, TurnDispatch, TurnResult, terminal_cache_limit, trim, remember, submit,
  resync, finish_message, final_outbound, notify_if_idle, refused,
}

abbrev Cache : Type 0
Cache = List (String × OutboundMessage)

length-trim : {A : Type 0} (limit : ℕ) (xs : List A) → length (trim limit xs) ≤ limit
unfolding trim
length-trim limit [] = omega arith
length-trim limit (x ∷ xs) = ground (arith, length-trim limit xs)

trim_all : (limit : ℕ) (xs : Cache) → length xs ≤ limit → trim limit xs ≡ xs
unfolding trim
trim_all limit [] h = refl
trim_all limit (x ∷ xs) h = ground arith

-- The newest entries `ys` stay; of the older ones a suffix stays.
record Trimmed (limit : ℕ) (id : String) (xs ys : Cache) : Type 0 where
  older : Cache
  shape : trim limit (xs ++ ys) ≡ older ++ ys
  absent : Dict.get id xs ≡ none → Dict.get id older ≡ none

get-cons-none :
    (id j : String) (o : OutboundMessage) (xs : Cache)
    → Dict.get id ((j, o) ∷ xs) ≡ none
    → Dict.get id xs ≡ none
unfolding Dict.get
get-cons-none id j o xs h = ground arith

trim-Trimmed :
    (limit : ℕ) (id : String) (xs ys : Cache) → length ys ≤ limit → Trimmed limit id xs ys
unfolding trim
trim-Trimmed limit id [] ys h = record { older = []; shape = trim_all limit ys h; absent = λ e. e }
trim-Trimmed limit id ((j, o) ∷ xs) ys h =
    elim (Bool-cases (ltb limit (length ((j, o) ∷ xs ++ ys)))) [
      | inl over ↦
          let t = trim-Trimmed limit id xs ys h in
          record {
            older = t.older;
            shape = rw over t.shape;
            absent = λ e. t.absent (get-cons-none id j o xs e);
          }
      | inr fits ↦ record { older = (j, o) ∷ xs; shape = rw fits refl; absent = λ e. e }
    ]

-- The entry of `id` stands in the cache, with at most `k` newer ones.
record Recent (k : ℕ) (id : String) (o : OutboundMessage) (l : Cache) : Type 0 where
  older : Cache
  newer : Cache
  shape : l ≡ older ++ (id, o) ∷ newer
  first : Dict.get id older ≡ none
  newest : length newer ≤ k

remove-append :
    (id : String) (xs ys : Cache)
    → Dict.remove id (xs ++ ys) ≡ Dict.remove id xs ++ Dict.remove id ys
unfolding Dict.remove
remove-append id [] ys = refl
remove-append id ((j, o) ∷ xs) ys = ground (arith, remove-append id xs ys)

remove-cons_ne :
    (id j : String) (o : OutboundMessage) (xs : Cache)
    → j ≢ id
    → Dict.remove j ((id, o) ∷ xs) ≡ (id, o) ∷ Dict.remove j xs
unfolding Dict.remove
remove-cons_ne id j o xs other = ground (arith, eq_iff id j)

remove-through :
    (id j : String) (o p : OutboundMessage) (older newer : Cache)
    → j ≢ id
    → Dict.remove j (older ++ (id, o) ∷ newer) ++ (j, p) ∷ []
      ≡ Dict.remove j older ++ (id, o) ∷ (Dict.remove j newer ++ (j, p) ∷ [])
remove-through id j o p older newer other =
    rw (remove-append j older ((id, o) ∷ newer), remove-cons_ne id j o newer other)
      (append_assoc (Dict.remove j older) ((id, o) ∷ Dict.remove j newer) ((j, p) ∷ []))

length-remove : (id : String) (xs : Cache) → length (Dict.remove id xs) ≤ length xs
unfolding Dict.remove
length-remove id [] = omega arith
length-remove id ((j, o) ∷ xs) = ground (arith, length-remove id xs)

get-older :
    (id : String) (o : OutboundMessage) (xs ys : Cache)
    → Dict.get id xs ≡ none
    → Dict.get id (xs ++ (id, o) ∷ ys) ≡ some o
unfolding Dict.get
get-older id o [] ys h = rw (beq_refl id)
get-older id o ((j, p) ∷ xs) ys h = ground (arith, get-older id o xs ys)

Recent-get :
    (k : ℕ) (id : String) (o : OutboundMessage) (l : Cache)
    → Recent k id o l
    → Dict.get id l ≡ some o
Recent-get k id o l r = rw r.shape (get-older id o r.older r.newer r.first)

remember-Recent : (id : String) (o : OutboundMessage) (l : Cache) → Recent 0 id o (remember id o l)
unfolding remember
remember-Recent id o l =
    let t = trim-Trimmed terminal_cache_limit id (Dict.remove id l) ((id, o) ∷ []) (omega arith) in
    record {
      older = t.older;
      newer = [];
      shape = t.shape;
      first = t.absent (ground (arith, get-remove id id l, beq_refl id));
      newest = omega arith;
    }

-- Another entry makes it one older, and does not push it out while there is room.
remember-Recent_ne :
    (k : ℕ) (id j : String) (o p : OutboundMessage) (l : Cache)
    → k + 1 < terminal_cache_limit
    → j ≢ id
    → Recent k id o l
    → Recent (k + 1) id o (remember j p l)
unfolding remember
remember-Recent_ne k id j o p l room other r =
    let newer : Cache = Dict.remove j r.newer ++ (j, p) ∷ [] in
    let few : length newer ≤ k + 1 = omega (
      arith,
      length-append (Dict.remove j r.newer) ((j, p) ∷ []),
      length-remove j r.newer,
      r.newest,
    ) in
    let t =
      trim-Trimmed terminal_cache_limit id (Dict.remove j r.older) ((id, o) ∷ newer)
        (omega arith) in
    record {
      older = t.older;
      newer = newer;
      shape =
          ap (trim terminal_cache_limit) (
            ap (λ (c : Cache). Dict.remove j c ++ (j, p) ∷ []) r.shape
            ∙ remove-through id j o p r.older r.newer other)
          ∙ t.shape;
      first = t.absent (ground (arith, get-remove j id r.older, r.first, eq_iff j id));
      newest = few;
    }

-- One finished turn: its task, its message and its result.
pub record Finished : Type 0 where
  pub task : ℕ
  pub message : InboundMessage
  pub result : TurnResult

-- Turns that finish one after the other.
unfoldable pub finish_all : GatewayTurnCoordinator → List Finished → GatewayTurnCoordinator
finish_all c [] = c
finish_all c (f ∷ later) = finish_all (finish_message c f.task f.message f.result).1 later

notify_if_idle-terminal : (c : GatewayTurnCoordinator) → (notify_if_idle c).terminal ≡ c.terminal
unfolding notify_if_idle
notify_if_idle-terminal c = ground arith

finish_message-terminal :
    (c : GatewayTurnCoordinator) (task : ℕ) (m : InboundMessage) (r : TurnResult)
    → (finish_message c task m r).1.terminal ≡ remember m.id (final_outbound m r) c.terminal
unfolding finish_message
finish_message-terminal c task m r = notify_if_idle-terminal _

finish_all-Recent :
    (later : List Finished) (c : GatewayTurnCoordinator) (k : ℕ) (id : String) (o : OutboundMessage)
    → All (λ (f : Finished). f.message.id ≢ id) later
    → k + length later < terminal_cache_limit
    → Recent k id o c.terminal
    → Dict.get id (finish_all c later).terminal ≡ some o
unfolding finish_all
finish_all-Recent [] c k id o others few r = Recent-get k id o c.terminal r
finish_all-Recent (f ∷ later) c k id o others few r =
    finish_all-Recent later (finish_message c f.task f.message f.result).1 (k + 1) id o others.1
      (omega arith)
      (rw (finish_message-terminal c f.task f.message f.result) (
        remember-Recent_ne k id f.message.id o (final_outbound f.message f.result) c.terminal
          (omega arith) others.0 r))

-- `resync` of a finished request returns the outbound message that was published for it, while
-- fewer other requests than the cache holds have finished since.
pub resync-finish_all :
    (c : GatewayTurnCoordinator) (task : ℕ) (m : InboundMessage) (r : TurnResult)
    (later : List Finished)
    → All (λ (f : Finished). f.message.id ≢ m.id) later
    → length later < terminal_cache_limit
    → resync (finish_all (finish_message c task m r).1 later) m.id ≡ some (final_outbound m r)
unfolding resync
resync-finish_all c task m r later others few =
    finish_all-Recent later (finish_message c task m r).1 0 m.id (final_outbound m r) others
      (omega arith)
      (rw (finish_message-terminal c task m r)
        (remember-Recent m.id (final_outbound m r) c.terminal))

submit-refused :
    (c : GatewayTurnCoordinator) (m : InboundMessage) (d : TurnDispatch) (o : OutboundMessage)
    → c.closed ≡ false
    → Dict.get m.id c.terminal ≡ some o
    → submit c m d ≡ (ok refused, c)
unfolding submit
submit-refused c m d o is_open cached = ground (arith, is_open, cached)

-- While fewer other requests than the cache holds have finished since a request did, and the
-- coordinator is not closed, a message with that request's id is refused and changes nothing: the
-- request is not run again.
pub submit-finish_all :
    (c : GatewayTurnCoordinator) (task : ℕ) (m again : InboundMessage) (r : TurnResult)
    (later : List Finished) (d : TurnDispatch)
    → again.id ≡ m.id
    → All (λ (f : Finished). f.message.id ≢ m.id) later
    → length later < terminal_cache_limit
    → (finish_all (finish_message c task m r).1 later).closed ≡ false
    → submit (finish_all (finish_message c task m r).1 later) again d
      ≡ (ok refused, finish_all (finish_message c task m r).1 later)
submit-finish_all c task m again r later d same others few is_open =
    submit-refused (finish_all (finish_message c task m r).1 later) again d (final_outbound m r)
      is_open (rw same (unfold resync in resync-finish_all c task m r later others few))

remember-bounded :
    (id : String) (o : OutboundMessage) (l : Cache)
    → length (remember id o l) ≤ terminal_cache_limit
unfolding remember
remember-bounded id o l = length-trim terminal_cache_limit (Dict.remove id l ++ (id, o) ∷ [])

-- After a turn has finished, the cache of terminal messages is within its limit.
pub finish_message-bounded :
    (c : GatewayTurnCoordinator) (task : ℕ) (m : InboundMessage) (r : TurnResult)
    → length (finish_message c task m r).1.terminal ≤ terminal_cache_limit
finish_message-bounded c task m r =
    rw (finish_message-terminal c task m r) (remember-bounded m.id (final_outbound m r) c.terminal)
