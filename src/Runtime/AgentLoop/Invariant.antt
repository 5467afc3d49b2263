-- ===== src/Runtime/AgentLoop/Invariant.antt =====
-- runtime/agent_loop.py: what holds between the rounds of a turn.
use turning_good_agent.Prelude.{
  ℕ, suc, ◌+◌, ◌≤◌, ◌≡◌, refl, ap, ◌∙◌, String, false, Option, none, some, List, [], ◌∷◌, ◌++◌,
  append-nil, length, All, All-append, ◌==◌, string_eq, length-append, arith,
}
use turning_good_agent.Runtime.Attachments.{Message}
use turning_good_agent.Runtime.AgentLoop.{
  Surroundings, Delegation, Effect, asked, ran, delegated, parent_finished, AgentLoopResult,
  LoopState,
}
use turning_good_agent.Runtime.AgentLoop.Complete.{note}
use turning_good_agent.Runtime.AgentLoop.Shapes.{owed_by, Answered}

-- The requests that were sent to the model.
abbrev pub requests : {J : Type 0} → List (Effect J) → List (List (Message J))
requests [] = []
requests (asked messages tools ∷ log) = messages ∷ requests log
requests (ran calls ∷ log) = requests log
requests (delegated args ∷ log) = requests log
requests (parent_finished outcome ∷ log) = requests log

-- The outcomes with which `finish_parent_turn` was called.
abbrev pub parent_endings : {J : Type 0} → List (Effect J) → List String
parent_endings [] = []
parent_endings (asked messages tools ∷ log) = parent_endings log
parent_endings (ran calls ∷ log) = parent_endings log
parent_endings (delegated args ∷ log) = parent_endings log
parent_endings (parent_finished outcome ∷ log) = outcome ∷ parent_endings log

module _ {J : Type 0} where
  requests-append : (l m : List (Effect J)) → requests (l ++ m) ≡ requests l ++ requests m
  requests-append [] m = refl
  requests-append (asked ms ts ∷ l) m = ap (λ r. ms ∷ r) (requests-append l m)
  requests-append (ran calls ∷ l) m = requests-append l m
  requests-append (delegated args ∷ l) m = requests-append l m
  requests-append (parent_finished outcome ∷ l) m = requests-append l m

  parent_endings-append :
      (l m : List (Effect J)) → parent_endings (l ++ m) ≡ parent_endings l ++ parent_endings m
  parent_endings-append [] m = refl
  parent_endings-append (asked ms ts ∷ l) m = parent_endings-append l m
  parent_endings-append (ran calls ∷ l) m = parent_endings-append l m
  parent_endings-append (delegated args ∷ l) m = parent_endings-append l m
  parent_endings-append (parent_finished outcome ∷ l) m =
      ap (λ r. outcome ∷ r) (parent_endings-append l m)

-- Every request so far was well formed, and `left` more keep the total.
pub record Asked {J : Type 0} (total left : ℕ) (log : List (Effect J)) : Type 0 where
  pub well_formed : All Answered (requests log)
  pub bounded : length (requests log) + left ≤ total

-- A turn with no invocation calls `finish_parent_turn` never, another one once, with the outcome.
abbrev pub FinishedAs : {W J A : Type 0} → Option (Delegation W J A) → String → List String → Type 0
FinishedAs none outcome outcomes = outcomes ≡ []
FinishedAs (some invocation) outcome outcomes = outcomes ≡ outcome ∷ []

module _ {W J A : Type 0} (env : Surroundings W J A) (total : ℕ) where
  -- While the turn runs: what the last messages still owe, and that `finish_parent_turn` was not called.
  pub record IsOpen (left : ℕ) (owed : List String) (s : LoopState W J A) : Type 0 where
    pub asked_so_far : Asked total left s.log
    pub owes : owed_by s.working ≡ some owed
    pub unfinished_parent : parent_endings s.log ≡ []
    pub unfinished : s.invocation_finished ≡ false

  -- Once `finish_parent_turn` was called.
  pub record IsClosed (outcome : String) (s : LoopState W J A) : Type 0 where
    pub asked_in_all : Asked total 0 s.log
    pub finished_once : FinishedAs env.invocation outcome (parent_endings s.log)

  -- After an exception.
  pub record IsBroken (s : LoopState W J A) : Type 0 where
    pub asked_before : Asked total 0 s.log
    pub finished_at_most_once : length (parent_endings s.log) ≤ 1

  -- With a result.
  pub record IsEnded (r : AgentLoopResult J) (s : LoopState W J A) : Type 0 where
    pub outcome : String
    pub closed : IsClosed outcome s
    pub agrees : r.cancelled ≡ (outcome == "cancelled")

  Asked-less :
      (left : ℕ) (log : List (Effect J)) → Asked total (suc left) log → Asked total left log
  Asked-less left log h = record { well_formed = h.well_formed; bounded = omega (arith, h.bounded) }

  Asked-none : (left : ℕ) (log : List (Effect J)) → Asked total left log → Asked total 0 log
  Asked-none left log h = record { well_formed = h.well_formed; bounded = omega (arith, h.bounded) }

  pub IsOpen-less :
      (left : ℕ) (owed : List String) (s : LoopState W J A)
      → IsOpen (suc left) owed s
      → IsOpen left owed s
  IsOpen-less left owed s h = record {
    asked_so_far = Asked-less left s.log h.asked_so_far;
    owes = h.owes;
    unfinished_parent = h.unfinished_parent;
    unfinished = h.unfinished;
  }

  pub IsOpen-IsBroken :
      (left : ℕ) (owed : List String) (s : LoopState W J A) → IsOpen left owed s → IsBroken s
  IsOpen-IsBroken left owed s h = record {
    asked_before = Asked-none left s.log h.asked_so_far;
    finished_at_most_once = rw h.unfinished_parent (omega arith);
  }

  -- Nothing but a request or a call of `finish_parent_turn` counts.
  pub IsOpen-append :
      (left : ℕ) (owed : List String) (s : LoopState W J A) (effects : List (Effect J))
      → requests effects ≡ []
      → parent_endings effects ≡ []
      → IsOpen left owed s
      → IsOpen left owed (record s { log = s.log ++ effects })
  IsOpen-append left owed s effects no_request no_ending h = record {
    asked_so_far = record {
      well_formed =
          rw (requests-append s.log effects, no_request, append-nil (requests s.log))
            h.asked_so_far.well_formed;
      bounded =
          rw (requests-append s.log effects, no_request, append-nil (requests s.log))
            h.asked_so_far.bounded;
    };
    owes = h.owes;
    unfinished_parent =
        parent_endings-append s.log effects
        ∙ ap (λ l. parent_endings s.log ++ l) no_ending
        ∙ append-nil (parent_endings s.log)
        ∙ h.unfinished_parent;
    unfinished = h.unfinished;
  }

  -- A request takes one of those that are left.
  pub IsOpen-asked :
      (left : ℕ) (s : LoopState W J A) (tools : _)
      → IsOpen (suc left) [] s
      → IsOpen left [] (note env (asked s.working tools) s)
  IsOpen-asked left s tools h = record {
    asked_so_far = record {
      well_formed = rw (requests-append s.log (asked s.working tools ∷ [])) (
          All-append Answered (requests s.log) (s.working ∷ []) h.asked_so_far.well_formed
            (h.owes, tt));
      bounded = omega (
        arith,
        ap length (requests-append s.log (asked s.working tools ∷ [])),
        length-append (requests s.log) (s.working ∷ []),
        h.asked_so_far.bounded,
      );
    };
    owes = h.owes;
    unfinished_parent =
        parent_endings-append s.log (asked s.working tools ∷ [])
        ∙ append-nil (parent_endings s.log)
        ∙ h.unfinished_parent;
    unfinished = h.unfinished;
  }

  -- The call of `finish_parent_turn` ends the turn.
  pub IsOpen-parent_finished :
      (left : ℕ) (owed : List String) (s : LoopState W J A) (outcome : String)
      → IsOpen left owed s
      → Asked total 0 (s.log ++ parent_finished outcome ∷ [])
        × (parent_endings (s.log ++ parent_finished outcome ∷ []) ≡ outcome ∷ [])
  IsOpen-parent_finished left owed s outcome h = (
    record {
      well_formed =
          rw (requests-append s.log (parent_finished outcome ∷ []), append-nil (requests s.log))
            h.asked_so_far.well_formed;
      bounded =
          rw (requests-append s.log (parent_finished outcome ∷ []), append-nil (requests s.log))
            (Asked-none left s.log h.asked_so_far).bounded;
    },
    parent_endings-append s.log (parent_finished outcome ∷ [])
        ∙ ap (λ l. l ++ outcome ∷ []) h.unfinished_parent,
  )
