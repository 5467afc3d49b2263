-- ===== src/Runtime/Turn/Path.antt =====
-- runtime/runtime.py, the loop of a turn: its states in order, its end, and when it saves.
use turning_good_agent.Prelude.{
  ℕ, zero, suc, ◌<◌, ◌≡◌, ◌≢◌, refl, sym, ap, ◌∙◌, String, Bool, true, false, Option, none, some,
  List, [], ◌∷◌, ◌++◌, append_assoc, arith, ◌⊎◌, inl, inr, subst,
}
use turning_good_agent.Runtime.Turn.{
  TurnState, in_command, in_session, in_build, in_run, in_compact, in_save, in_respond, Event, ok,
  error, next_state, Attempt, returns, raises, Write, TurnContext, Environment, new_turn, is_none,
  run_state, settle, traced, move, turn_loop, run_turn, reply_of, respond, ◌>>◌, modify, done,
}
use turning_good_agent.Runtime.Turn.Frames.{Frame, After, IsLegal, is_quiet, run_state-Emits}

abbrev rank : TurnState → ℕ
rank in_command = 6
rank in_session = 5
rank in_build = 4
rank in_run = 3
rank in_compact = 2
rank in_save = 1
rank in_respond = 0

-- A transition lowers the rank, and only RESPOND has none to go on to.
abbrev Lower : TurnState → Option (Option TurnState) → Type 0
Lower state none = Unit
Lower state (some none) = state ≡ in_respond
Lower state (some (some next)) = rank next < rank state

next_state-Lower : (state : TurnState) (event : Event) → Lower state (next_state state event)
unfolding next_state
next_state-Lower state event = ground arith

some-inj : {c d : TurnContext} → some c ≡ some d → c ≡ d
some-inj e = cc

truth : true ≢ false
truth e = cc

error-IsLegal : (state : TurnState) → IsLegal state error
unfolding next_state
error-IsLegal state = ground arith

settle-Frame :
    (quiet : Bool) (state : TurnState) (c : TurnContext) (r : Attempt Event × TurnContext)
    → After quiet (IsLegal state) c r
    → IsLegal state (settle r).0 × Frame quiet c (settle r).1
unfolding settle
settle-Frame quiet state c (returns event, d) h = h
settle-Frame quiet state c (raises e, d) h =
    (error-IsLegal state, record { state = h.state; trace = h.trace; saved = h.saved })

-- RESPOND composes the reply from the context.
respond-replies :
    (env : Environment) (state : TurnState) (c : TurnContext)
    → state ≡ in_respond
    → (settle (run_state env state c)).1.outbound
      ≡ some (reply_of (settle (run_state env state c)).1)
unfolding settle run_state respond ◌>>◌ modify done
respond-replies env in_respond c e = refl
respond-replies env in_command c e = cc
respond-replies env in_session c e = cc
respond-replies env in_build c e = cc
respond-replies env in_run c e = cc
respond-replies env in_compact c e = cc
respond-replies env in_save c e = cc

-- A trace that begins in a state, follows the table and ends where it says that the turn ends.
abbrev pub IsPath : TurnState → List (TurnState × Event) → Type 0
IsPath state [] = ⊥
IsPath state ((visited, event) ∷ rest) =
    (visited ≡ state)
    × (((next_state state event ≡ some none) × (rest ≡ []))
        ⊎ ((next : TurnState) × (next_state state event ≡ some (some next)) × IsPath next rest))

abbrev pub Visits : TurnState → List (TurnState × Event) → Type 0
Visits state [] = ⊥
Visits state ((visited, event) ∷ rest) = (visited ≡ state) ⊎ Visits state rest

-- What a finished turn has done since a context.
record Finished (c final : TurnContext) : Type 0 where
  rest : List (TurnState × Event)
  extends : final.trace ≡ c.trace ++ rest
  path : IsPath c.state rest
  replied : final.outbound ≡ some (reply_of final)
  wrote : (final.saved ≡ c.saved) ⊎ Visits in_save rest

quiet-wrote :
    (state : TurnState) (c d : TurnContext) (event : Event) (rest : List (TurnState × Event))
    → Frame (is_quiet state) c d
    → (d.saved ≡ c.saved) ⊎ Visits in_save ((state, event) ∷ rest)
quiet-wrote in_save c d event rest f = inr (inl refl)
quiet-wrote in_command c d event rest f = inl f.saved
quiet-wrote in_session c d event rest f = inl f.saved
quiet-wrote in_build c d event rest f = inl f.saved
quiet-wrote in_run c d event rest f = inl f.saved
quiet-wrote in_compact c d event rest f = inl f.saved
quiet-wrote in_respond c d event rest f = inl f.saved

-- The last step.
Finished-last :
    (c d : TurnContext) (event : Event)
    → Frame (is_quiet c.state) c d
    → next_state c.state event ≡ some none
    → d.outbound ≡ some (reply_of d)
    → Finished c (traced event d)
Finished-last c d event f ends replied = record {
  rest = (c.state, event) ∷ [];
  extends = rw (f.trace, f.state) refl;
  path = (refl, inl (ends, refl));
  replied = replied;
  wrote = quiet-wrote c.state c d event [] f;
}

join-wrote :
    (u v w : List Write) (t : TurnState) (e : Event) (rest : List (TurnState × Event))
    → (v ≡ u) ⊎ Visits in_save ((t, e) ∷ rest)
    → (w ≡ v) ⊎ Visits in_save rest
    → (w ≡ u) ⊎ Visits in_save ((t, e) ∷ rest)
join-wrote u v w t e rest (inr p) q = inr p
join-wrote u v w t e rest (inl p) (inr q) = inr (inr q)
join-wrote u v w t e rest (inl p) (inl q) = inl (q ∙ p)

-- A step that goes on.
Finished-step :
    (c d final : TurnContext) (event : Event) (next : TurnState)
    → Frame (is_quiet c.state) c d
    → next_state c.state event ≡ some (some next)
    → Finished (move next (traced event d)) final
    → Finished c final
Finished-step c d final event next f goes h = record {
  rest = (c.state, event) ∷ h.rest;
  extends = h.extends ∙ rw (f.trace, f.state) (append_assoc c.trace ((c.state, event) ∷ []) h.rest);
  path = (refl, inr (next, goes, h.path));
  replied = h.replied;
  wrote =
      join-wrote c.saved d.saved final.saved c.state event h.rest
        (quiet-wrote c.state c d event h.rest f) h.wrote;
}

module _ (env : Environment) where
  abbrev pub settled : TurnContext → Event × TurnContext
  settled c = settle (run_state env c.state c)

  pub turn_loop-suc :
      (fuel : ℕ) (c : TurnContext) (found : Option (Option TurnState))
      → next_state (settled c).1.state (settled c).0 ≡ found
      → turn_loop (suc fuel) env c ≡ elim found [
        | none ↦ none
        | some none ↦ some (traced (settled c).0 (settled c).1)
        | some (some state) ↦ turn_loop fuel env (move state (traced (settled c).0 (settled c).1))
      ]
  unfolding turn_loop
  turn_loop-suc fuel c found e = rw (e, turn_loop) refl

  -- With fuel above the rank, the loop ends.
  loop-Finished :
      (fuel : ℕ) (c : TurnContext)
      → rank c.state < fuel
      → (final : TurnContext) × (turn_loop fuel env c ≡ some final) × Finished c final
  loop-Finished zero c enough = absurd (omega arith)
  loop-Finished (suc fuel) c enough =
      on (loop-Finished fuel) (next_state c.state (settled c).0) refl
    where
      facts : IsLegal c.state (settled c).0 × Frame (is_quiet c.state) c (settled c).1
      facts =
          settle-Frame (is_quiet c.state) c.state c (run_state env c.state c)
            ((run_state-Emits env c.state).at c)

      found_at :
          (found : Option (Option TurnState))
          → next_state c.state (settled c).0 ≡ found
          → next_state (settled c).1.state (settled c).0 ≡ found
      found_at found e = ap (λ s. next_state s (settled c).0) facts.1.state ∙ e

      on :
          ((d : TurnContext)
            → rank d.state < fuel
            → (final : TurnContext) × (turn_loop fuel env d ≡ some final) × Finished d final)
          → (found : Option (Option TurnState)) → next_state c.state (settled c).0 ≡ found
          → (final : TurnContext) × (turn_loop (suc fuel) env c ≡ some final) × Finished c final
      on again none e = absurd (truth (sym (ap is_none e) ∙ facts.0))
      on again (some none) e =
          let last = subst (Lower c.state) e (next_state-Lower c.state (settled c).0) in
          (
            traced (settled c).0 (settled c).1,
            turn_loop-suc fuel c _ (found_at _ e),
            Finished-last c _ _ facts.1 e (respond-replies env c.state c last),
          )
      on again (some (some next)) e =
          let lower = subst (Lower c.state) e (next_state-Lower c.state (settled c).0) in
          let (final, ends, h) =
            again (move next (traced (settled c).0 (settled c).1)) (omega (arith, lower, enough)) in
          (
            final,
            turn_loop-suc fuel c _ (found_at _ e) ∙ ends,
            Finished-step c _ final _ next facts.1 e h,
          )

-- The state after a success.
abbrev succeeding : TurnState → TurnState
succeeding in_command = in_session
succeeding in_session = in_build
succeeding in_build = in_run
succeeding in_run = in_compact
succeeding in_compact = in_save
succeeding in_save = in_respond
succeeding in_respond = in_respond

targets :
    (state : TurnState) (event : Event) (next : TurnState)
    → next_state state event ≡ some (some next)
    → (next ≡ in_respond) ⊎ ((event ≡ ok) × (next ≡ succeeding state))
unfolding next_state
targets state event next e = ground arith

respond_is_last :
    (event : Event) (next : TurnState) → next_state in_respond event ≢ some (some next)
unfolding next_state
respond_is_last event next e = ground arith

no_save_after_respond :
    (trace : List (TurnState × Event)) → IsPath in_respond trace → Visits in_save trace → ⊥
no_save_after_respond [] path visits = path
no_save_after_respond ((t, e) ∷ rest) (at, inl (ends, none_left)) (inl here) = cc
no_save_after_respond ((t, e) ∷ rest) (at, inl (ends, none_left)) (inr later) =
    subst (Visits in_save) none_left later
no_save_after_respond ((t, e) ∷ rest) (at, inr (next, goes, path)) visits =
    respond_is_last e next goes

-- A path that visits SAVE later goes on by a success.
succeeds :
    (state : TurnState) (trace : List (TurnState × Event))
    → state ≢ in_save
    → IsPath state trace
    → Visits in_save trace
    → (rest : List (TurnState × Event)) × (trace ≡ (state, ok) ∷ rest)
      × IsPath (succeeding state) rest
      × Visits in_save rest
succeeds state [] other path visits = absurd path
succeeds state ((t, e) ∷ rest) other (at, step) (inl here) = absurd (other (sym at ∙ here))
succeeds state ((t, e) ∷ rest) other (at, inl (ends, none_left)) (inr later) =
    absurd (subst (Visits in_save) none_left later)
succeeds state ((t, e) ∷ rest) other (at, inr (next, goes, path)) (inr later) =
    elim (targets state e next goes) [
      | inl to_respond ↦
          absurd (no_save_after_respond rest (subst (λ s. IsPath s rest) to_respond path) later)
      | inr (succeeded, to) ↦
          (rest, rw (at, succeeded) refl, subst (λ s. IsPath s rest) to path, later)
    ]

-- A path from COMMAND that visits SAVE begins with five states that succeeded.
before_save :
    (trace : List (TurnState × Event))
    → IsPath in_command trace
    → Visits in_save trace
    → (rest : List (TurnState × Event)) × (trace
        ≡ (in_command, ok)
          ∷ (in_session, ok)
          ∷ (in_build, ok)
          ∷ (in_run, ok)
          ∷ (in_compact, ok)
          ∷ rest)
before_save trace path visits =
    let (r1, e1, p1, v1) = succeeds in_command trace (λ e. cc) path visits in
    let (r2, e2, p2, v2) = succeeds in_session r1 (λ e. cc) p1 v1 in
    let (r3, e3, p3, v3) = succeeds in_build r2 (λ e. cc) p2 v2 in
    let (r4, e4, p4, v4) = succeeds in_run r3 (λ e. cc) p3 v3 in
    let (r5, e5, p5, v5) = succeeds in_compact r4 (λ e. cc) p4 v4 in (r5, cc)

module _ (env : Environment) (channel content : String) where
  -- Whatever the environment does, a turn ends: seven steps are enough and no transition is
  -- missing. Its trace is a path of the transition table from COMMAND to its end, and its outbound
  -- message is composed from the final context.
  pub run_turn-finishes :
      (final : TurnContext) × (run_turn env channel content ≡ some final)
      × IsPath in_command final.trace
      × (final.outbound ≡ some (reply_of final))
  unfolding run_turn new_turn
  run_turn-finishes =
      let (final, ends, h) = loop-Finished env 7 (new_turn channel content) (omega arith) in
      (final, ends, subst (IsPath in_command) (sym h.extends) h.path, h.replied)

  -- Of the writes of SAVE (title, messages, summary, history, tool calls, usage, and the notice of a
  -- completed conversation) a finished turn has made none, or COMMAND, SESSION, BUILD, RUN and
  -- COMPACT all succeeded before: SAVE is not entered by an answered command, a rejected turn or one
  -- that fails before it. What other states store themselves is not among these writes.
  pub run_turn-saved :
      (final : TurnContext)
      → run_turn env channel content ≡ some final
      → (final.saved ≡ [])
        ⊎ ((rest : List (TurnState × Event)) × (final.trace
              ≡ (in_command, ok)
                ∷ (in_session, ok)
                ∷ (in_build, ok)
                ∷ (in_run, ok)
                ∷ (in_compact, ok)
                ∷ rest))
  unfolding run_turn new_turn
  run_turn-saved final ends =
      let (final', ends', h) = loop-Finished env 7 (new_turn channel content) (omega arith) in
      let same : some final ≡ some final' = sym ends ∙ ends' in
      elim h.wrote [
        | inl quiet ↦ inl (ap (λ (c : TurnContext). c.saved) (some-inj same) ∙ quiet)
        | inr visits ↦
            (let (rest, e) = before_save h.rest h.path visits in
              inr (rest, ap (λ (c : TurnContext). c.trace) (some-inj same) ∙ h.extends ∙ e))
      ]
