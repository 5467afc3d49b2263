-- ===== src/Runtime/AgentLoop/Shapes.antt =====
-- runtime/agent_loop.py: the order that a provider requires of tool messages. After an assistant
-- message with calls, the answers to the calls must follow, one each and in order.
use turning_good_agent.Prelude.{
  ℕ, zero, suc, ◌≡◌, refl, sym, ap, ◌∙◌, String, Bool, Option, none, some, List, [], ◌∷◌, ◌++◌, map,
  length, drop, ◌==◌, string_eq, beq_refl, if◌then◌else◌, append_assoc, append-nil, arith,
}
use turning_good_agent.Hooks.{ToolCall}
use turning_good_agent.Runtime.Attachments.{
  Spoken, Message, text_message, assistant_tool_message, tool_message, CallRecord, ContextObject,
  context_attachment, other_object, AttachmentManager, commit, check,
}
use turning_good_agent.Runtime.AgentLoop.{Surroundings, LoopState}
use turning_good_agent.Runtime.AgentLoop.ParentCalls.{tool_result_message}
use turning_good_agent.Runtime.AgentLoop.Rounds.{replace_at}
use turning_good_agent.Runtime.AgentLoop.Run.{
  Attached, stripped, refused, attach_one, result_messages, attach, record_results,
}

pub data Shape : Type 0 where
  spoken : Shape
  asks : List String → Shape
  answers : String → Shape

abbrev pub call_ids : {J : Type 0} → List (ToolCall J) → List String
call_ids = map (λ call. call.id)

abbrev pub shape : {J : Type 0} → Message J → Shape
shape (text_message m) = spoken
shape (assistant_tool_message content calls reasoning) = asks (call_ids calls)
shape (tool_message id name content) = answers id

-- Which answers are still owed after one more message, none where it may not stand there.
abbrev pub owed_next : List String → Shape → Option (List String)
owed_next [] spoken = some []
owed_next [] (asks ids) = some ids
owed_next (id ∷ ids) (answers other) = if other == id then some ids else none
owed_next _ _ = none

abbrev pub owed_after : Option (List String) → List Shape → Option (List String)
owed_after owed [] = owed
owed_after none (x ∷ l) = none
owed_after (some owed) (x ∷ l) = owed_after (owed_next owed x) l

-- No message stands where it may not, and `owed` is still to be answered at the end.
abbrev pub owed_by : {J : Type 0} → List (Message J) → Option (List String)
owed_by messages = owed_after (some []) (map shape messages)

abbrev pub Answered : {J : Type 0} → List (Message J) → Type 0
Answered messages = owed_by messages ≡ some []

owed_after-none : (l : List Shape) → owed_after none l ≡ none
owed_after-none [] = refl
owed_after-none (x ∷ l) = refl

owed_after-append :
    (o : Option (List String)) (l m : List Shape)
    → owed_after o (l ++ m) ≡ owed_after (owed_after o l) m
owed_after-append o [] m = refl
owed_after-append none (x ∷ l) m = sym (owed_after-none m)
owed_after-append (some owed) (x ∷ l) m = owed_after-append (owed_next owed x) l m

map-append : {A B : Type 0} (f : A → B) (l m : List A) → map f (l ++ m) ≡ map f l ++ map f m
map-append f [] m = refl
map-append f (x ∷ l) m = ap (λ r. f x ∷ r) (map-append f l m)

-- What is owed after more messages.
pub owed_by-append :
    {J : Type 0} (l m : List (Message J)) {o : Option (List String)}
    → owed_by l ≡ o
    → owed_by (l ++ m) ≡ owed_after o (map shape m)
owed_by-append l m h = rw (map-append shape l m) (
    owed_after-append (some []) (map shape l) (map shape m)
    ∙ ap (λ o. owed_after o (map shape m)) h)

drop-append :
    {A : Type 0} (n : ℕ) (l m : List A) {x : A} {rest : List A}
    → drop n l ≡ x ∷ rest
    → drop n (l ++ m) ≡ x ∷ (rest ++ m)
drop-append zero (y ∷ l) m h = ap (λ r. r ++ m) h
drop-append zero [] m h = cc
drop-append (suc n) [] m h = cc
drop-append (suc n) (y ∷ l) m h = drop-append n l m h

drop-suc :
    {A : Type 0} (n : ℕ) (l : List A) {x : A} {rest : List A}
    → drop n l ≡ x ∷ rest
    → drop (suc n) l ≡ rest
drop-suc zero [] h = cc
drop-suc zero (y ∷ l) h = cc
drop-suc (suc n) [] h = cc
drop-suc (suc n) (y ∷ l) h = drop-suc n l h

drop-map_self :
    {A B : Type 0} (f : A → B) (l : List A) (m : List B) → drop (length l) (map f l ++ m) ≡ m
drop-map_self f [] m = refl
drop-map_self f (x ∷ l) m = drop-map_self f l m

replace_at-same :
    {J : Type 0} (n : ℕ) (m : Message J) (l : List (Message J)) {rest : List Shape}
    → drop n (map shape l) ≡ shape m ∷ rest
    → map shape (replace_at n m l) ≡ map shape l
replace_at-same zero m [] h = refl
replace_at-same (suc n) m [] h = refl
replace_at-same zero m (x ∷ l) {rest} h = cc
replace_at-same (suc n) m (x ∷ l) h = ap (λ r. shape x ∷ r) (replace_at-same n m l h)

spoken_only :
    (J : Type 0) (ms : List Spoken)
    → owed_after (some []) (map (shape {J = J}) (map text_message ms)) ≡ some []
spoken_only J [] = refl
spoken_only J (m ∷ ms) = spoken_only J ms

-- The messages behind what a commit finds.
committed :
    {J : Type 0} (self : AttachmentManager) (o : Option ContextObject) (r : CallRecord J)
    (working : List (Message J))
    → (ms : List Spoken) × ((commit self o r working).1 ≡ working ++ map text_message ms)
unfolding commit
committed self none r working = ([], sym (append-nil working))
committed self (some other_object) r working = ([], sym (append-nil working))
committed self (some (context_attachment a)) r working = (a.messages, refl)

-- The messages from the index on answer the calls that are left.
Serves : {J : Type 0} → List (ToolCall J) → List (CallRecord J × Bool) → Attached J → Type 0
Serves calls executed a =
    (tail : List Shape) × (drop a.index (map shape a.working)
      ≡ map shape (result_messages calls executed) ++ tail)

module _ {J : Type 0} where
  attach_one-Serves :
      (call : ToolCall J) (r : CallRecord J) (persist : Bool) (o : Option String)
      (calls : List (ToolCall J)) (executed : List (CallRecord J × Bool)) (a : Attached J)
      → Serves (call ∷ calls) ((r, persist) ∷ executed) a
      → Answered a.working
      → Serves calls executed (attach_one call r persist o a)
        × Answered (attach_one call r persist o a).working
  unfolding attach_one tool_result_message Serves
  attach_one-Serves call r persist (some e) calls executed a (tail, h) answered =
      let same = replace_at-same a.index (tool_result_message call (refused r e)) a.working h in
      (
        (tail, ap (drop (suc a.index)) same ∙ drop-suc a.index (map shape a.working) h),
        ap (owed_after (some [])) same ∙ answered,
      )
  attach_one-Serves call r persist none calls executed a (tail, h) answered =
      let (ms, e) = committed a.manager r.attachment r a.working in
      let more = map shape (map text_message ms) in
      let shapes = ap (map shape) e ∙ map-append shape a.working (map text_message ms) in
      (
        (
          tail ++ more,
          ap (drop (suc a.index)) shapes
              ∙ drop-suc a.index (map shape a.working ++ more)
                  (drop-append a.index (map shape a.working) more h)
              ∙ append_assoc (map shape (result_messages calls executed)) tail more,
        ),
        ap owed_by e ∙ owed_by-append a.working (map text_message ms) answered ∙ spoken_only J ms,
      )

  module _ {W A : Type 0} (env : Surroundings W J A) where
    attach-Answered :
        (calls : List (ToolCall J)) (executed : List (CallRecord J × Bool)) (a : Attached J)
        → Serves calls executed a
        → Answered a.working
        → Answered (attach env calls executed a).working
    unfolding attach
    attach-Answered [] executed a serves answered = answered
    attach-Answered (call ∷ calls) [] a serves answered = answered
    attach-Answered (call ∷ calls) ((r, persist) ∷ executed) a serves answered =
        let o = check env.encoded_length env.limits a.manager r.attachment (stripped r) a.working in
        let (serves', answered') =
          attach_one-Serves call r persist o calls executed a serves answered in
        attach-Answered calls executed (attach_one call r persist o a) serves' answered'

  result_messages-answer :
      (calls : List (ToolCall J)) (executed : List (CallRecord J × Bool))
      → length calls ≡ length executed
      → owed_after (some (call_ids calls)) (map shape (result_messages calls executed)) ≡ some []
  unfolding tool_result_message
  result_messages-answer [] [] h = refl
  result_messages-answer [] (x ∷ executed) h = absurd (omega arith)
  result_messages-answer (call ∷ calls) [] h = absurd (omega arith)
  result_messages-answer (call ∷ calls) ((r, persist) ∷ executed) h =
      ap
        (λ b.
          owed_after (if b then some (call_ids calls) else none)
            (map shape (result_messages calls executed)))
        (beq_refl call.id)
      ∙ result_messages-answer calls executed (omega arith)

module _ {W J A : Type 0} (env : Surroundings W J A) where
  -- After a round's records every call of its message is answered.
  pub record_results-Answered :
      (calls : List (ToolCall J)) (executed : List (CallRecord J × Bool)) (s : LoopState W J A)
      → owed_by s.working ≡ some (call_ids calls)
      → length calls ≡ length executed
      → Answered (record_results env calls executed s).working
  unfolding record_results Serves
  record_results-Answered calls executed s owes same =
      let made = result_messages calls executed in
      attach-Answered env calls executed _
        (
          [],
          ap (drop (length s.working)) (map-append shape s.working made)
              ∙ drop-map_self shape s.working (map shape made)
              ∙ sym (append-nil (map shape made)),
        )
        (owed_by-append s.working made owes ∙ result_messages-answer calls executed same)
