-- ===== src/Runtime/Turn/Frames.antt =====
-- What each handler of a turn leaves as it is, and which events it may answer.
use turning_good_agent.Prelude.{
  ◌≡◌, refl, ◌∙◌, String, Bool, true, false, not, Option, none, some, List, [], ◌∷◌, if◌then◌else◌,
  ℕ, ltb, ◌&&◌, ◌||◌,
}
use turning_good_agent.Sessions.{Session, MessageRecord, is_nonempty}
use turning_good_agent.Memory.{CompactionPlan, plan_compaction}
use turning_good_agent.Runtime.Turn.{
  TurnState, in_command, in_session, in_build, in_run, in_compact, in_save, in_respond, Event, ok,
  shortcut, rejected, next_state, Attempt, returns, raises, Write, TurnContext, Environment,
  Invocation, invoked, value_error, other_error, user_message, Handler, and_then, ◌>>=◌, ◌>>◌, done,
  call, modify, current, when, is_none, im_command_rejection, answer, command_after, command,
  session, reject, build_checked, build_session, build, run, note_usage, compact_session, compact,
  save_write, save_guidance, save_title, save_session, save_all, save, respond, run_state,
}

-- A quiet step does nothing of SAVE.
abbrev Quiet : Bool → List Write → List Write → Type 0
Quiet true before after = after ≡ before
Quiet false before after = Unit

pub record Frame (quiet : Bool) (c d : TurnContext) : Type 0 where
  pub state : d.state ≡ c.state
  pub trace : d.trace ≡ c.trace
  pub saved : Quiet quiet c.saved d.saved

Quiet-refl : (quiet : Bool) (ws : List Write) → Quiet quiet ws ws
Quiet-refl true ws = refl
Quiet-refl false ws = tt

Quiet-trans :
    (quiet : Bool) (u v w : List Write) → Quiet quiet u v → Quiet quiet v w → Quiet quiet u w
Quiet-trans true u v w p q = q ∙ p
Quiet-trans false u v w p q = tt

Frame-refl : (quiet : Bool) (c : TurnContext) → Frame quiet c c
Frame-refl quiet c = record { state = refl; trace = refl; saved = Quiet-refl quiet c.saved }

Frame-trans :
    (quiet : Bool) (c d e : TurnContext) → Frame quiet c d → Frame quiet d e → Frame quiet c e
Frame-trans quiet c d e p q = record {
  state = q.state ∙ p.state;
  trace = q.trace ∙ p.trace;
  saved = Quiet-trans quiet c.saved d.saved e.saved p.saved q.saved;
}

-- A piece keeps the frame, and what it returns satisfies `P`.
abbrev pub After :
    {A : Type 0} → Bool → (A → Type 0) → TurnContext → Attempt A × TurnContext → Type 0
After quiet P c (returns a, d) = P a × Frame quiet c d
After quiet P c (raises e, d) = Frame quiet c d

pub record Emits {A : Type 0} (quiet : Bool) (P : A → Type 0) (h : Handler A) : Type 0 where
  pub at : (c : TurnContext) → After quiet P c (h c)

abbrev Anything : {A : Type 0} → A → Type 0
Anything a = Unit

After-trans :
    {A : Type 0} (quiet : Bool) (P : A → Type 0) (c d : TurnContext) (r : Attempt A × TurnContext)
    → Frame quiet c d
    → After quiet P d r
    → After quiet P c r
After-trans quiet P c d (returns a, e) p (h, q) = (h, Frame-trans quiet c d e p q)
After-trans quiet P c d (raises x, e) p q = Frame-trans quiet c d e p q

module _ {A : Type 0} (quiet : Bool) where
  Emits-done : (P : A → Type 0) (a : A) → P a → Emits quiet P (done a)
  unfolding done
  Emits-done P a h = record { at = λ c. (h, Frame-refl quiet c) }

  Emits-call : (attempt : Attempt A) → Emits quiet Anything (call attempt)
  unfolding call
  Emits-call (returns a) = record { at = λ c. (tt, Frame-refl quiet c) }
  Emits-call (raises e) = record { at = λ c. Frame-refl quiet c }

  Emits-raises : (P : A → Type 0) (e : String) → Emits quiet P (call (raises e))
  unfolding call
  Emits-raises P e = record { at = λ c. Frame-refl quiet c }

  Emits-if :
      (P : A → Type 0) (b : Bool) (h k : Handler A)
      → Emits quiet P h
      → Emits quiet P k
      → Emits quiet P (if b then h else k)
  Emits-if P true h k p q = p
  Emits-if P false h k p q = q

  bind-After :
      {B : Type 0} (P : B → Type 0) (c : TurnContext) (r : Attempt A × TurnContext)
      (f : A → Handler B)
      → After quiet Anything c r
      → ((a : A) → Emits quiet P (f a))
      → After quiet P c (and_then r f)
  bind-After P c (returns a, d) f p q = After-trans quiet P c d (f a d) p.1 ((q a).at d)
  bind-After P c (raises e, d) f p q = p

  Emits-bind :
      {B : Type 0} (P : B → Type 0) (h : Handler A) (f : A → Handler B)
      → Emits quiet Anything h
      → ((a : A) → Emits quiet P (f a))
      → Emits quiet P (h >>= f)
  unfolding ◌>>=◌
  Emits-bind P h f p q = record { at = λ c. bind-After P c (h c) f (p.at c) q }

Emits-then :
    {B : Type 0} (quiet : Bool) (P : B → Type 0) (h : Handler (Unit {0})) (k : Handler B)
    → Emits quiet Anything h
    → Emits quiet P k
    → Emits quiet P (h >> k)
unfolding ◌>>◌
Emits-then quiet P h k p q = record {
  at = λ c. bind-After quiet P c (h c) (λ _. k) (p.at c) (λ _. q);
}

Emits-current :
    {B : Type 0} (quiet : Bool) (P : B → Type 0) (f : TurnContext → Handler B)
    → ((c : TurnContext) → Emits quiet P (f c))
    → Emits quiet P (current >>= f)
unfolding ◌>>=◌ current
Emits-current quiet P f q = record { at = λ c. (q c).at c }

-- A change that keeps the frame.
Emits-modify :
    (quiet : Bool) (f : TurnContext → TurnContext)
    → ((c : TurnContext) → Frame quiet c (f c))
    → Emits quiet Anything (modify f)
unfolding modify
Emits-modify quiet f h = record { at = λ c. (tt, h c) }

Emits-when :
    (quiet b : Bool) (h : Handler (Unit {0}))
    → Emits quiet Anything h
    → Emits quiet Anything (when b h)
unfolding when
Emits-when quiet true h p = p
Emits-when quiet false h p = record { at = λ c. (tt, Frame-refl quiet c) }

-- The events that a state may answer are those with a transition.
abbrev pub IsLegal : TurnState → Event → Type 0
IsLegal state event = is_none (next_state state event) ≡ false

-- SAVE alone changes `saved`.
abbrev pub is_quiet : TurnState → Bool
is_quiet in_save = false
is_quiet _ = true

abbrev plan : Environment → List MessageRecord → ℕ → CompactionPlan
plan env history tokens = plan_compaction env.memory history (ltb env.max_context_tokens tokens)

module _ (env : Environment) where
  answer-Emits : (text : Option String) → Emits true (IsLegal in_command) (answer text)
  unfolding next_state
  answer-Emits none = Emits-done true _ ok refl
  answer-Emits (some text) =
      Emits-then true _ _ _
        (Emits-modify true _ λ c. record { state = refl; trace = refl; saved = refl })
        (Emits-done true _ shortcut refl)

  command_after-Emits :
      (rejection : Option String) → Emits true (IsLegal in_command) (command_after env rejection)
  unfolding command_after
  command_after-Emits (some text) = answer-Emits (some text)
  command_after-Emits none = Emits-bind true _ _ _ (Emits-call true env.handle_command) answer-Emits

  command-Emits : Emits true (IsLegal in_command) (command env)
  unfolding command
  command-Emits =
      Emits-current true _ _ λ c. command_after-Emits (im_command_rejection c.channel c.content)

  session-Emits : Emits true (IsLegal in_session) (session env)
  unfolding session next_state
  session-Emits = Emits-bind true _ _ _ (Emits-call true env.cleanup) λ u.
      Emits-bind true _ _ _ (Emits-call true env.load) λ loaded.
        Emits-bind true _ _ _
          (Emits-modify true _ λ c. record { state = refl; trace = refl; saved = refl })
          λ u'. Emits-done true _ ok refl

  reject-Emits : (reason : String) → Emits true (IsLegal in_build) (reject reason)
  unfolding next_state
  reject-Emits reason =
      Emits-then true _ _ _
        (Emits-modify true _ λ c. record { state = refl; trace = refl; saved = refl })
        (Emits-done true _ rejected refl)

  build_checked-Emits : Emits true (IsLegal in_build) (build_checked env)
  unfolding build_checked next_state
  build_checked-Emits = Emits-current true _ _ λ c.
      Emits-bind true _ _ _ (Emits-call true _) λ tokens.
        Emits-if true _ (ltb env.max_context_tokens tokens) _ _ (reject-Emits _) (
          Emits-if true _ (env.has_images && not env.supports_vision) _ _ (reject-Emits _) (
            Emits-then true _ _ _
              (Emits-then true _ _ _ (Emits-call true env.invocation)
                (Emits-call true env.build_messages))
              (Emits-done true _ ok refl)))

  build_session-Emits :
      (loaded : Session) → Emits true (IsLegal in_build) (build_session env loaded)
  unfolding build_session
  build_session-Emits loaded = Emits-bind true _ _ _ (Emits-call true env.all_messages) λ messages.
      Emits-bind true _ _ _
        (Emits-modify true _ λ c. record { state = refl; trace = refl; saved = refl })
        λ u. on env.provisional
    where
      on :
          (i : Invocation)
          → Emits true (IsLegal in_build) (elim i [
            | invoked ↦ build_checked env
            | value_error reason ↦ reject reason
            | other_error reason ↦ call (raises reason)
          ])
      on invoked = build_checked-Emits
      on (value_error reason) = reject-Emits reason
      on (other_error reason) = Emits-raises true _ reason

  build-Emits : Emits true (IsLegal in_build) (build env)
  unfolding build
  build-Emits = Emits-current true _ _ λ c. on c.session
    where
      on :
          (found : Option Session)
          → Emits true (IsLegal in_build) (elim found [
            | none ↦ call (raises "BUILD 缺少已加载的 session。")
            | some loaded ↦ build_session env loaded
          ])
      on none = Emits-raises true _ _
      on (some loaded) = build_session-Emits loaded

  run-Emits : Emits true (IsLegal in_run) (run env)
  unfolding run next_state
  run-Emits = Emits-current true _ _ λ c.
      Emits-bind true _ _ _ (Emits-when true _ _ (Emits-raises true _ _)) λ u.
        Emits-bind true _ _ _ (Emits-call true env.agent_loop) λ result.
          Emits-bind true _ _ _
            (Emits-modify true _ λ c. record { state = refl; trace = refl; saved = refl })
            λ u'. Emits-done true _ ok refl

  note_usage-Emits : Emits true Anything (note_usage env)
  unfolding note_usage
  note_usage-Emits = Emits-current true _ _ λ c. Emits-when true _ _ (
      Emits-bind true _ _ _ (Emits-call true env.record_usage)
        λ u. (Emits-modify true _ λ c. record { state = refl; trace = refl; saved = refl }))

  compact_session-Emits :
      (loaded : Session) → Emits true (IsLegal in_compact) (compact_session env loaded)
  unfolding compact_session next_state
  compact_session-Emits loaded = Emits-current true _ _ λ c.
      Emits-bind true _ _ _ (Emits-call true _) λ history.
        Emits-bind true _ _ _ (Emits-call true _) λ tokens.
          Emits-if true _
            (not (plan env history tokens).should_compact
              || not (is_nonempty (plan env history tokens).compact_source))
            _ _
            (Emits-then true _ _ _
              (Emits-then true _ _ _
                (Emits-modify true _ λ c. record { state = refl; trace = refl; saved = refl })
                note_usage-Emits)
              (Emits-done true _ ok refl))
            (Emits-bind true _ _ _ (Emits-call true _) λ made.
              Emits-bind true _ _ _
                (Emits-modify true _ λ c. record { state = refl; trace = refl; saved = refl })
                λ u. Emits-bind true _ _ _ note_usage-Emits λ u'. Emits-done true _ ok refl)

  compact-Emits : Emits true (IsLegal in_compact) (compact env)
  unfolding compact next_state
  compact-Emits = Emits-current true _ _ λ c. on c.session
    where
      on :
          (found : Option Session)
          → Emits true
              (IsLegal in_compact)
              (elim found [ none ↦ done ok | some loaded ↦ compact_session env loaded ])
      on none = Emits-done true _ ok refl
      on (some loaded) = compact_session-Emits loaded

  save_write-Emits : (w : Write) → Emits false Anything (save_write env w)
  save_write-Emits w =
      Emits-then false _ _ _ (Emits-call false (env.write w))
        (Emits-modify false _ λ c. record { state = refl; trace = refl; saved = tt })

  save_guidance-Emits : (guidance : List String) → Emits false Anything (save_guidance env guidance)
  unfolding save_guidance
  save_guidance-Emits [] = Emits-done false _ tt tt
  save_guidance-Emits (g ∷ gs) =
      Emits-then false _ _ _ (save_write-Emits (user_message g)) (save_guidance-Emits gs)

  save_title-Emits :
      (s : Option Session) (content : String) → Emits false Anything (save_title env s content)
  save_title-Emits none content = Emits-done false _ tt tt
  save_title-Emits (some loaded) content = Emits-when false _ _ (save_write-Emits _)

  save_session-Emits : (s : Option Session) → Emits false Anything (save_session env s)
  save_session-Emits none = Emits-done false _ tt tt
  save_session-Emits (some loaded) =
      Emits-then false _ _ _ (save_write-Emits _) (save_write-Emits _)

  save-Emits : Emits false (IsLegal in_save) (save env)
  unfolding save save_all next_state
  save-Emits = Emits-current false _ _ λ ctx.
      Emits-bind false _ _ _ (Emits-when false _ _ (Emits-raises false _ _)) λ u.
        Emits-bind false _ _ _ (Emits-when false _ _ (Emits-raises false _ _)) λ u.
          Emits-bind false _ _ _ (save_title-Emits ctx.session ctx.content) λ u.
            Emits-bind false _ _ _ (save_write-Emits _) λ u.
              Emits-bind false _ _ _ (save_guidance-Emits ctx.consumed_guidance) λ u.
                Emits-bind false _ _ _ (Emits-when false _ _ (save_write-Emits _)) λ u.
                  Emits-bind false _ _ _ (save_session-Emits ctx.session) λ u.
                    Emits-bind false _ _ _ (save_write-Emits _) λ u.
                      Emits-bind false _ _ _ (Emits-when false _ _ (save_write-Emits _)) λ u.
                        Emits-bind false _ _ _ (save_write-Emits _) λ u. Emits-done false _ ok refl

  -- Every handler answers an event that its state has a transition for, or raises, and leaves the
  -- state and the trace; outside SAVE it also leaves `saved`.
  pub run_state-Emits :
      (state : TurnState) → Emits (is_quiet state) (IsLegal state) (run_state env state)
  unfolding run_state respond next_state
  run_state-Emits in_command = command-Emits
  run_state-Emits in_session = session-Emits
  run_state-Emits in_build = build-Emits
  run_state-Emits in_run = run-Emits
  run_state-Emits in_compact = compact-Emits
  run_state-Emits in_save = save-Emits
  run_state-Emits in_respond =
      Emits-then true _ _ _
        (Emits-modify true _ λ c. record { state = refl; trace = refl; saved = refl })
        (Emits-done true _ ok refl)
