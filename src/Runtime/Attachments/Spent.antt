-- ===== src/Runtime/Attachments/Spent.antt =====
-- runtime/attachment_manager.py over a whole turn: what the attachments that are committed add up to,
-- counted by their own messages and records and not by the manager.
use turning_good_agent.Prelude.{
  ℕ, ◌+◌, ◌≤◌, ◌≡◌, refl, String, Bool, true, false, Bool-cases, Option, none, some, List, [], ◌∷◌,
  length, length-append, total, ◌==◌, string_eq, eq_iff, if◌then◌else◌, inl, inr, arith,
}
use turning_good_agent.Runtime.Attachments.{
  ContextObject, context_attachment, other_object, CallRecord, Message, Limits, AttachmentManager,
  spoken_tokens, check, loaded_name, loaded_tokens, commit,
}
use turning_good_agent.Runtime.Attachments.Budgets.{
  IsWithin, commit-IsWithin, or_next-none, counts, validated, known, other-raises,
}

-- An attachment that is offered: its call, and the conversation at that time.
pub record Offer (J : Type 0) : Type 0 where
  pub attachment : Option ContextObject
  pub call : CallRecord J
  pub working : List (Message J)

-- What kind of attachment it is.
abbrev pub is_kind : {J : Type 0} → String → Offer J → Bool
is_kind kind o = elim o.attachment [
  | none ↦ false
  | some a ↦ elim a [ context_attachment c ↦ c.kind == kind | other_object ↦ false ]
]

abbrev pub skill_count : {J : Type 0} → Offer J → ℕ
skill_count o = if is_kind "skill" o then 1 else 0

-- The tokens of the loaded Skill, by the record of its call.
abbrev pub skill_weight : {J : Type 0} → Offer J → ℕ
skill_weight o = if is_kind "skill" o then loaded_tokens o.call.metadata else 0

abbrev pub fresh_manager : ℕ → AttachmentManager
fresh_manager schema_tokens = record {
  tool_schema_tokens = schema_tokens;
  mcp_tokens = 0;
  skill_names = [];
  skill_tokens = 0;
}

not_both : (kind : String) → (kind == "mcp") ≡ true → (kind == "skill") ≡ false
not_both kind h = rw ((eq_iff kind "mcp").0 h) refl

module _ {J : Type 0} (encoded_length : String → ℕ) (limits : Limits) where
  -- The tokens of the messages of an attachment.
  abbrev pub content_weight : Offer J → ℕ
  content_weight o = elim o.attachment [
    | none ↦ 0
    | some a ↦ elim a [
      | context_attachment c ↦ total (spoken_tokens encoded_length) c.messages
      | other_object ↦ 0
    ]
  ]

  abbrev pub mcp_weight : Offer J → ℕ
  mcp_weight o = if is_kind "mcp" o then content_weight o else 0

  -- The attachments of a turn in turn: each is committed if it passes the checks. The committed
  -- ones are returned.
  unfoldable pub commit_all : AttachmentManager → List (Offer J) → List (Offer J)
  commit_all self [] = []
  commit_all self (o ∷ offers) =
      elim (check encoded_length limits self o.attachment o.call o.working) [
        | none ↦ o ∷ commit_all (commit self o.attachment o.call o.working).0 offers
        | some error ↦ commit_all self offers
      ]

  -- The budgets of a turn.
  pub record IsSpent (self : AttachmentManager) (committed : List (Offer J)) : Type 0 where
    pub mcp : self.mcp_tokens + total mcp_weight committed ≤ limits.mcp_token_limit
    pub skills :
        length self.skill_names + total skill_count committed ≤ limits.max_loaded_skills_per_turn
    pub tokens :
        self.skill_tokens + total skill_weight committed ≤ limits.max_loaded_skill_tokens_per_turn

  -- What a commit charges.
  record Charged (self after : AttachmentManager) (o : Offer J) : Type 0 where
    mcp : after.mcp_tokens ≡ self.mcp_tokens + mcp_weight o
    skills : length after.skill_names ≡ length self.skill_names + skill_count o
    tokens : after.skill_tokens ≡ self.skill_tokens + skill_weight o

  commit-Charged :
      (self : AttachmentManager) (attachment : Option ContextObject) (call : CallRecord J)
      (working : List (Message J))
      → check encoded_length limits self attachment call working ≡ none
      → Charged self
          (commit self attachment call working).0
          (record { attachment = attachment; call = call; working = working })
  unfolding check commit
  commit-Charged self none call working h = record {
    mcp = omega arith;
    skills = omega arith;
    tokens = omega arith;
  }
  commit-Charged self (some other_object) call working h =
      absurd (other-raises encoded_length self.mcp_tokens limits.mcp_token_limit h)
  commit-Charged self (some (context_attachment a)) call working h =
      let (valid, later) = or_next-none _ _ h in
      let (exact, within) =
        counts encoded_length a _ _ a.token_count (validated encoded_length a _ _ valid) in
      elim (Bool-cases (a.kind == "mcp")) [
        | inl mcp ↦
            let no_skill = not_both a.kind mcp in
            record {
              mcp = ground (arith, mcp, exact);
              skills = ground (arith, mcp, no_skill);
              tokens = ground (arith, mcp, no_skill);
            }
        | inr other ↦
            let is_skill : (a.kind == "skill") ≡ true = known encoded_length a _ _ valid other in
            let one_more = length-append self.skill_names (loaded_name call.metadata ∷ []) in
            record {
              mcp = ground (arith, other);
              skills = ground (arith, other, is_skill, one_more);
              tokens = ground (arith, other, is_skill);
            }
      ]

  charge :
      (self after : AttachmentManager) (o : Offer J) (committed : List (Offer J))
      → Charged self after o
      → IsSpent after committed
      → IsSpent self (o ∷ committed)
  charge self after o committed c h = record {
    mcp = omega (arith, c.mcp, h.mcp);
    skills = omega (arith, c.skills, h.skills);
    tokens = omega (arith, c.tokens, h.tokens);
  }

  spent :
      (self : AttachmentManager) (offers : List (Offer J))
      → IsWithin limits self
      → IsSpent self (commit_all self offers)
  unfolding commit_all
  spent self [] w = record {
    mcp = omega (arith, w.mcp);
    skills = omega (arith, w.names);
    tokens = omega (arith, w.tokens);
  }
  spent self (o ∷ offers) w =
      at (check encoded_length limits self o.attachment o.call o.working)
        (λ e.
          charge self after o (commit_all after offers)
            (commit-Charged self o.attachment o.call o.working e)
            (spent after offers
              (commit-IsWithin encoded_length limits self o.attachment o.call o.working w e).0))
        (spent self offers w) refl
    where
      after : AttachmentManager
      after = (commit self o.attachment o.call o.working).0

      at :
          (result : Option String)
          → (check encoded_length limits self o.attachment o.call o.working ≡ none
              → IsSpent self (o ∷ commit_all after offers))
          → IsSpent self (commit_all self offers)
          → check encoded_length limits self o.attachment o.call o.working ≡ result
          → IsSpent self (elim result [
            | none ↦ o ∷ commit_all after offers
            | some error ↦ commit_all self offers
          ])
      at none taken refused e = taken e
      at (some error) taken refused e = refused

  -- Whatever attachments the calls of a turn offer, and whatever the conversation is at each: of those
  -- that are committed, the contents of the MCP attachments together hold at most the turn's limit of
  -- MCP tokens, there are at most as many Skills as may be loaded in a turn, and these have together
  -- at most the tokens that loaded Skills may have.
  pub commit_all-IsSpent :
      (schema_tokens : ℕ) (offers : List (Offer J))
      → IsSpent (fresh_manager schema_tokens) (commit_all (fresh_manager schema_tokens) offers)
  commit_all-IsSpent schema_tokens offers =
      spent (fresh_manager schema_tokens) offers
        (record { mcp = omega arith; names = omega arith; tokens = omega arith })
