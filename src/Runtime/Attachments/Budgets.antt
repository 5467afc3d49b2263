-- ===== src/Runtime/Attachments/Budgets.antt =====
-- runtime/attachment_manager.py: what the budgets hold after a commit.
use turning_good_agent.Prelude.{
  ℕ, suc, ◌+◌, ◌≤◌, ◌≡◌, refl, ap, String, Bool, true, false, Bool-cases, Option, none, some, List,
  [], ◌∷◌, ◌++◌, map, length, length-append, total, total-append, ltb→le, leb→lt, nat_beq_iff, ◌==◌,
  string_eq, if◌then◌else◌, inl, inr, arith,
}
use turning_good_agent.Sessions.{count_content_tokens}
use turning_good_agent.Runtime.Attachments.{
  Spoken, ContextAttachment, ContextObject, context_attachment, other_object, Metadata, CallRecord,
  Message, text_message, Limits, AttachmentManager, spoken_tokens, validate_count,
  validate_context_attachment, validate_loaded, validate_skill, or_next, message_tokens, counted,
  validate_context_budget, content_of, check, loaded_name, loaded_tokens, commit,
}

-- The budgets of one turn are kept.
pub record IsWithin (limits : Limits) (self : AttachmentManager) : Type 0 where
  pub mcp : self.mcp_tokens ≤ limits.mcp_token_limit
  pub names : length self.skill_names ≤ limits.max_loaded_skills_per_turn
  pub tokens : self.skill_tokens ≤ limits.max_loaded_skill_tokens_per_turn

abbrev pub tokens_of : Option ℕ → ℕ
tokens_of c = elim c [ some n ↦ n | none ↦ 0 ]

loaded :
    (limits : Limits) (self : AttachmentManager) (a : ContextAttachment) (name : Option String)
    (body : Option ℕ)
    → validate_loaded limits self a name body ≡ none
    → (suc (length self.skill_names) ≤ limits.max_loaded_skills_per_turn)
      × (self.skill_tokens + tokens_of body ≤ limits.max_loaded_skill_tokens_per_turn)
unfolding validate_loaded
loaded limits self a none body h = cc
loaded limits self a (some name) none h = ground arith
loaded limits self a (some name) (some body) h = ground (
  arith,
  leb→lt limits.max_loaded_skills_per_turn (length self.skill_names),
  ltb→le limits.max_loaded_skill_tokens_per_turn (self.skill_tokens + body),
)

loads :
    (limits : Limits) (self : AttachmentManager) (a : ContextAttachment) (m : Option Metadata)
    → validate_skill limits self a m ≡ none
    → (suc (length self.skill_names) ≤ limits.max_loaded_skills_per_turn)
      × (self.skill_tokens + loaded_tokens m ≤ limits.max_loaded_skill_tokens_per_turn)
unfolding validate_skill
loads limits self a none h = cc
loads limits self a (some m) h =
    loaded limits self a m.loaded_skill_name m.loaded_skill_token_count h

pub or_next-none :
    (first next : Option String) → or_next first next ≡ none → (first ≡ none) × (next ≡ none)
or_next-none none next h = (refl, h)
or_next-none (some e) next h = cc

when_true : (b : Bool) {o : Option String} → b ≡ true → (if b then o else none) ≡ none → o ≡ none
when_true b e h = ground arith

module _ (encoded_length : String → ℕ) where
  pub counts :
      (a : ContextAttachment) (used limit : ℕ) (c : Option ℕ)
      → validate_count encoded_length a used limit c ≡ none
      → (total (spoken_tokens encoded_length) a.messages ≡ tokens_of c)
        × (used + tokens_of c ≤ limit)
  unfolding validate_count
  counts a used limit none h = cc
  counts a used limit (some n) h = ground (
    arith,
    ltb→le limit (used + n),
    nat_beq_iff (total (spoken_tokens encoded_length) a.messages) n,
  )

  pub validated :
      (a : ContextAttachment) (used limit : ℕ)
      → validate_context_attachment encoded_length (context_attachment a) used limit ≡ none
      → validate_count encoded_length a used limit a.token_count ≡ none
  unfolding validate_context_attachment
  validated a used limit h = ground arith

  message_tokens-spoken :
      (J : Type 0) (ms : List Spoken)
      → message_tokens encoded_length {J = J} (map text_message ms)
        ≡ total (spoken_tokens encoded_length) ms
  message_tokens-spoken J [] = refl
  message_tokens-spoken J (m ∷ ms) =
      ap (λ n. spoken_tokens encoded_length m + n) (message_tokens-spoken J ms)

  fits :
      {J : Type 0} (limits : Limits) (self : AttachmentManager) (a : ContextAttachment)
      (working : List (Message J))
      → validate_context_budget encoded_length limits self a working ≡ none
      → total (spoken_tokens encoded_length) a.messages ≡ counted a
      → message_tokens encoded_length (working ++ map text_message a.messages)
          + self.tool_schema_tokens
        ≤ limits.max_context_tokens
  unfolding validate_context_budget
  fits {J} limits self a working h counted_right =
      let appended =
        total-append (λ (m : Message J). count_content_tokens encoded_length (content_of m)) working
          (map text_message a.messages) in
      let spoken = message_tokens-spoken J a.messages in
      ground (
        arith,
        ltb→le limits.max_context_tokens
            (message_tokens encoded_length working + self.tool_schema_tokens + counted a),
      )

  pub other-raises :
      (used limit : ℕ)
      → validate_context_attachment encoded_length other_object used limit ≡ none
      → ⊥
  unfolding validate_context_attachment
  other-raises used limit h = cc

  pub known :
      (a : ContextAttachment) (used limit : ℕ)
      → validate_context_attachment encoded_length (context_attachment a) used limit ≡ none
      → (a.kind == "mcp") ≡ false
      → (a.kind == "skill") ≡ true
  unfolding validate_context_attachment
  known a used limit h other = ground arith

  -- What is committed fits in the context.
  unfoldable pub Fits :
      {J : Type 0} → Limits → Option ContextObject → AttachmentManager × List (Message J) → Type 0
  Fits limits none after = Unit
  Fits limits (some o) after =
      message_tokens encoded_length after.1 + after.0.tool_schema_tokens ≤ limits.max_context_tokens

  -- If the budgets of a turn are kept and an attachment passes the checks, they are kept after its
  -- commit too, and the messages then, with the schemas of the tools, fit in the context.
  pub commit-IsWithin :
      {J : Type 0} (limits : Limits) (self : AttachmentManager) (o : Option ContextObject)
      (r : CallRecord J) (working : List (Message J))
      → IsWithin limits self
      → check encoded_length limits self o r working ≡ none
      → IsWithin limits (commit self o r working).0 × Fits limits o (commit self o r working)
  unfolding check commit Fits
  commit-IsWithin limits self none r working w h = (w, tt)
  commit-IsWithin limits self (some other_object) r working w h =
      absurd (other-raises self.mcp_tokens limits.mcp_token_limit h)
  commit-IsWithin limits self (some (context_attachment a)) r working w h =
      let (valid, later) = or_next-none _ _ h in
      let (skill, budget) = or_next-none _ _ later in
      let (exact, within) = counts a _ _ a.token_count (validated a _ _ valid) in
      let room = fits limits self a working budget exact in
      elim (Bool-cases (a.kind == "mcp")) [
        | inl mcp ↦ rw mcp (record { mcp = ground arith; names = w.names; tokens = w.tokens }, room)
        | inr other ↦
            let is_skill : (a.kind == "skill") ≡ true = known a _ _ valid other in
            let bounds = loads limits self a r.metadata (when_true _ is_skill skill) in
            let one_more = length-append self.skill_names (loaded_name r.metadata ∷ []) in
            rw other (
              record { mcp = w.mcp; names = omega (arith, one_more, bounds.0); tokens = bounds.1 },
              room,
            )
      ]
