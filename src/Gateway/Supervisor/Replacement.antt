-- ===== src/Gateway/Supervisor/Replacement.antt =====
-- gateway/runtime_supervisor.py, `_reload`: which Runtime goes on and which are closed, through
-- every statement of the `try` body and its handlers.
use turning_good_agent.Prelude.{
  ℕ, String, Bool, true, false, ◌≡◌, refl, sym, ap, ◌∙◌, ◌⊎◌, inl, inr, Option, none, some, List,
  [], ◌∷◌, ◌++◌, arith, not, append-nil, Bool-cases, ◌==◌, string_eq, if◌then◌else◌,
}
use turning_good_agent.Gateway.Supervisor.{
  RuntimeSupervisor, Environment, Attempt, done, raises, is_cancelled, Point, Progress, goes_on,
  returns, raised, cancelled, ◌then◌, Interference, requests, stops, interfere, interfere_all,
  close_runtime, await_close, after_close, close_candidate, note_cancelled, discard_if_closing,
  defer_if_busy, await_call, make_candidate, commit, reload_body, handle, reload, discarding,
  making, preparing, starting, activating, committing, cleaning, pending, active, failed, applying,
}

-- The Runtime in use, its revision and the closed Runtimes are the same.
pub record Same (s t : RuntimeSupervisor) : Type 0 where
  pub runtime : t.runtime ≡ s.runtime
  pub active_revision : t.active_revision ≡ s.active_revision
  pub closed : t.closed ≡ s.closed

Same-trans : {s t u : RuntimeSupervisor} → Same s t → Same t u → Same s u
Same-trans p q = record {
  runtime = q.runtime ∙ p.runtime;
  active_revision = q.active_revision ∙ p.active_revision;
  closed = q.closed ∙ p.closed;
}

interfere-Same : (i : Interference) (s : RuntimeSupervisor) → Same s (interfere i s)
unfolding interfere
interfere-Same (requests revision idle) s = ground arith
interfere-Same stops s = record { runtime = refl; active_revision = refl; closed = refl }

pub interfere_all-Same :
    (is : List Interference) (s : RuntimeSupervisor) → Same s (interfere_all is s)
unfolding interfere_all
interfere_all-Same [] s = record { runtime = refl; active_revision = refl; closed = refl }
interfere_all-Same (i ∷ is) s =
    Same-trans (interfere-Same i s) (interfere_all-Same is (interfere i s))

-- The candidate that the factory made, if it made one.
abbrev pub made_by : Attempt ℕ → List ℕ
made_by (done candidate) = candidate ∷ []
made_by (raises e) = []
made_by is_cancelled = []

abbrev pub made : Environment → List ℕ
made env = made_by env.factory

abbrev of_candidate : Option ℕ → List ℕ
of_candidate none = []
of_candidate (some candidate) = candidate ∷ []

-- The old Runtime goes on. The candidate is closed: once or, if its close was cancelled, twice.
pub record Discarded (env : Environment) (s t : RuntimeSupervisor) : Type 0 where
  pub runtime : t.runtime ≡ s.runtime
  pub active_revision : t.active_revision ≡ s.active_revision
  pub closed :
      (t.closed ≡ s.closed ++ made env)
      ⊎ ((env.closing_cancelled discarding ≡ true)
          × (t.closed ≡ (s.closed ++ made env) ++ made env))

-- The candidate goes on under the revision that was desired when the reload began, and the old
-- Runtime is closed.
pub record Replaced (env : Environment) (revision : String) (s t : RuntimeSupervisor) : Type 0 where
  pub runtime : made env ≡ t.runtime ∷ []
  pub active_revision : t.active_revision ≡ revision
  pub closed : t.closed ≡ s.closed ++ s.runtime ∷ []

abbrev pub Outcome : Environment → String → RuntimeSupervisor → RuntimeSupervisor → Type 0
Outcome env revision s t = Discarded env s t ⊎ Replaced env revision s t

-- The `try` body is over.
abbrev IsEnd : Progress → Type 0
IsEnd (goes_on candidate t) = ⊥
IsEnd _ = Unit

then-IsEnd :
    (p : Progress) (f : ℕ → RuntimeSupervisor → Progress)
    → ((candidate : ℕ) (t : RuntimeSupervisor) → IsEnd (f candidate t))
    → IsEnd (p then f)
then-IsEnd (goes_on candidate t) f h = h candidate t
then-IsEnd (returns t) f h = tt
then-IsEnd (raised e candidate activated t) f h = tt
then-IsEnd (cancelled candidate activated t) f h = tt

-- The state that the handler of a cancellation writes.
note_cancelled-Same :
    (left : Bool) (t : RuntimeSupervisor) → Same t (record (note_cancelled left t) { ready = true })
note_cancelled-Same left t = ground arith

handle-ready : (env : Environment) (p : Progress) → (handle env p).1.ready ≡ true
unfolding handle
handle-ready env (goes_on c t) = refl
handle-ready env (returns t) = refl
handle-ready env (raised e c activated t) = refl
handle-ready env (cancelled c activated t) = refl

module _ (env : Environment) (revision : String) (s : RuntimeSupervisor) where
  -- The old Runtime goes on; the candidate is not closed, or its close was cancelled.
  record Kept (t : RuntimeSupervisor) : Type 0 where
    runtime : t.runtime ≡ s.runtime
    active_revision : t.active_revision ≡ s.active_revision
    closed :
        (t.closed ≡ s.closed)
        ⊎ ((env.closing_cancelled discarding ≡ true) × (t.closed ≡ s.closed ++ made env))

  -- Out by an exception, before or after the commit.
  abbrev Left : Option ℕ → Bool → RuntimeSupervisor → Type 0
  Left candidate false t = Kept t × (made env ≡ of_candidate candidate)
  Left candidate true t = Replaced env revision s t

  -- What holds of the `try` body at each statement.
  abbrev Invariant : Progress → Type 0
  Invariant (goes_on candidate t) = Same s t × (made env ≡ candidate ∷ [])
  Invariant (returns t) = Outcome env revision s t
  Invariant (raised e candidate activated t) = Left candidate activated t
  Invariant (cancelled candidate activated t) = Left candidate activated t

  then-Invariant :
      (p : Progress) (f : ℕ → RuntimeSupervisor → Progress)
      → Invariant p
      → ((candidate : ℕ) (t : RuntimeSupervisor)
          → Same s t
          → made env ≡ candidate ∷ []
          → Invariant (f candidate t))
      → Invariant (p then f)
  then-Invariant (goes_on candidate t) f h step = step candidate t h.0 h.1
  then-Invariant (returns t) f h step = h
  then-Invariant (raised e candidate activated t) f h step = h
  then-Invariant (cancelled candidate activated t) f h step = h

  Invariant-if :
      (b : Bool) (x y : Progress) → Invariant x → Invariant y → Invariant (if b then x else y)
  Invariant-if true x y h h' = h
  Invariant-if false x y h h' = h'

  Same-Kept : (t : RuntimeSupervisor) → Same s t → Kept t
  Same-Kept t p = record {
    runtime = p.runtime;
    active_revision = p.active_revision;
    closed = inl p.closed;
  }

  Same-Outcome :
      {t u : RuntimeSupervisor} → Same t u → Outcome env revision s t → Outcome env revision s u
  Same-Outcome q (inl d) = inl (record {
    runtime = q.runtime ∙ d.runtime;
    active_revision = q.active_revision ∙ d.active_revision;
    closed = elim d.closed [
      | inl once ↦ inl (q.closed ∙ once)
      | inr (stopped, twice) ↦ inr (stopped, q.closed ∙ twice)
    ];
  })
  Same-Outcome q (inr r) = inr (record {
    runtime = r.runtime ∙ ap (λ c. c ∷ []) (sym q.runtime);
    active_revision = q.active_revision ∙ r.active_revision;
    closed = q.closed ∙ r.closed;
  })

  -- Closing the candidate, with whatever happens meanwhile, discards it.
  discard :
      (candidate : ℕ) (t u : RuntimeSupervisor)
      → Kept t
      → made env ≡ candidate ∷ []
      → Same (close_runtime candidate t) u
      → Outcome env revision s u
  discard candidate t u p e q =
      let after : u.closed ≡ t.closed ++ made env =
        q.closed ∙ ap (λ (l : List ℕ). t.closed ++ l) (sym e) in
      inl (record {
        runtime = q.runtime ∙ p.runtime;
        active_revision = q.active_revision ∙ p.active_revision;
        closed = elim p.closed [
          | inl same ↦ inl (after ∙ ap (λ (l : List ℕ). l ++ made env) same)
          | inr (stopped, once) ↦ inr (stopped, after ∙ ap (λ (l : List ℕ). l ++ made env) once)
        ];
      })

  -- The close of a candidate in the `try` body, cancelled or not.
  after_close-Invariant :
      (candidate : ℕ) (t next : RuntimeSupervisor)
      → Same s t
      → made env ≡ candidate ∷ []
      → Same (await_close env discarding candidate t) next
      → Invariant (after_close env candidate (await_close env discarding candidate t) next)
  after_close-Invariant candidate t next p e n =
      let q = interfere_all-Same (env.others discarding) (close_runtime candidate t) in
      let kept = Same-Kept t p in
      elim (Bool-cases (env.closing_cancelled discarding)) [
        | inr ends ↦ rw ends (discard candidate t next kept e (Same-trans q n))
        | inl stopped ↦ rw stopped (
          record {
            runtime = q.runtime ∙ p.runtime;
            active_revision = q.active_revision ∙ p.active_revision;
            closed = inr (
              stopped,
              q.closed
                  ∙ ap (λ (l : List ℕ). l ++ candidate ∷ []) p.closed
                  ∙ ap (λ (l : List ℕ). s.closed ++ l) (sym e),
            );
          },
          e,
        )
      ]

  discard_if_closing-Invariant :
      (candidate : ℕ) (t : RuntimeSupervisor)
      → Same s t
      → made env ≡ candidate ∷ []
      → Invariant (discard_if_closing env candidate t)
  unfolding discard_if_closing
  discard_if_closing-Invariant candidate t p e =
      let s' = await_close env discarding candidate t in
      Invariant-if t.closing _ _
        (after_close-Invariant candidate t (record s' { state = active }) p e
          (record { runtime = refl; active_revision = refl; closed = refl }))
        (p, e)

  defer_if_busy-Invariant :
      (idle : Bool) (candidate : ℕ) (t : RuntimeSupervisor)
      → Same s t
      → made env ≡ candidate ∷ []
      → Invariant (defer_if_busy env idle candidate t)
  unfolding defer_if_busy
  defer_if_busy-Invariant true candidate t p e = (p, e)
  defer_if_busy-Invariant false candidate t p e =
      let busy = record t { state = pending } in
      after_close-Invariant candidate busy (await_close env discarding candidate busy)
        (record { runtime = p.runtime; active_revision = p.active_revision; closed = p.closed }) e
        (record { runtime = refl; active_revision = refl; closed = refl })

  await_call-Invariant :
      (point : Point) (call : Attempt Unit) (candidate : ℕ) (t : RuntimeSupervisor)
      → Same s t
      → made env ≡ candidate ∷ []
      → Invariant (await_call env point call candidate t)
  unfolding await_call
  await_call-Invariant point (done u) candidate t p e =
      (Same-trans p (interfere_all-Same (env.others point) t), e)
  await_call-Invariant point (raises x) candidate t p e =
      (Same-Kept _ (Same-trans p (interfere_all-Same (env.others point) t)), e)
  await_call-Invariant point is_cancelled candidate t p e =
      (Same-Kept _ (Same-trans p (interfere_all-Same (env.others point) t)), e)

  make_candidate-Invariant : (t : RuntimeSupervisor) → Same s t → Invariant (make_candidate env t)
  unfolding make_candidate
  make_candidate-Invariant t p = at env.factory refl
    where
      after : Same s (interfere_all (env.others making) t)
      after = Same-trans p (interfere_all-Same (env.others making) t)

      at :
          (a : Attempt ℕ)
          → env.factory ≡ a
          → Invariant (elim a [
            | done candidate ↦ goes_on candidate (interfere_all (env.others making) t)
            | raises e ↦ raised e none false (interfere_all (env.others making) t)
            | is_cancelled ↦ cancelled none false (interfere_all (env.others making) t)
          ])
      at (done candidate) e = (after, ap made_by e)
      at (raises x) e = (Same-Kept _ after, ap made_by e)
      at is_cancelled e = (Same-Kept _ after, ap made_by e)

  commit-Invariant :
      (candidate : ℕ) (t : RuntimeSupervisor)
      → Same s t
      → made env ≡ candidate ∷ []
      → Invariant (commit env revision candidate t)
  unfolding commit
  commit-Invariant candidate t p e =
      let q = interfere_all-Same (env.others committing) _ in
      let replaced : Replaced env revision s (
          await_close env committing t.runtime (record t {
            runtime = candidate;
            active_revision = revision;
            state = if t.desired_revision == revision then active else pending;
          })) =
        record {
          runtime = e ∙ ap (λ c. c ∷ []) (sym q.runtime);
          active_revision = q.active_revision;
          closed =
              q.closed
              ∙ ap (λ (l : List ℕ). l ++ t.runtime ∷ []) p.closed
              ∙ ap (λ r. s.closed ++ r ∷ []) p.runtime;
        } in
      elim (Bool-cases (env.closing_cancelled committing)) [
        | inr ends ↦ rw ends (inr replaced)
        | inl stopped ↦ rw stopped replaced
      ]

  reload_body-Invariant :
      (t : RuntimeSupervisor) → Same s t → Invariant (reload_body env revision t)
  unfolding reload_body
  reload_body-Invariant t p =
      then-Invariant _ _
        (then-Invariant _ _
          (then-Invariant _ _
            (then-Invariant _ _
              (then-Invariant _ _
                (then-Invariant _ _
                  (then-Invariant _ _
                    (then-Invariant _ _
                      (then-Invariant _ _
                        (then-Invariant _ _ (make_candidate-Invariant t p)
                          discard_if_closing-Invariant)
                        (defer_if_busy-Invariant env.idle_when_made))
                      (await_call-Invariant preparing env.prepare))
                    discard_if_closing-Invariant)
                  (await_call-Invariant starting env.start_candidate))
                discard_if_closing-Invariant)
              (defer_if_busy-Invariant env.idle_when_started))
            (await_call-Invariant activating env.activate))
          discard_if_closing-Invariant)
        commit-Invariant

  -- No candidate is left to close.
  Kept-none : (t : RuntimeSupervisor) → Kept t → made env ≡ [] → Outcome env revision s t
  Kept-none t p e = inl (record {
    runtime = p.runtime;
    active_revision = p.active_revision;
    closed = elim p.closed [
      | inl same ↦
          inl (same ∙ sym (append-nil s.closed) ∙ ap (λ (l : List ℕ). s.closed ++ l) (sym e))
      | inr (stopped, once) ↦ inl once
    ];
  })

  -- The clause that closes a candidate which is not activated.
  close_candidate-Outcome :
      (candidate : Option ℕ) (activated : Bool) (t : RuntimeSupervisor)
      → Left candidate activated t
      → Outcome env revision s (close_candidate env candidate activated t).1
  close_candidate-Outcome none false t (p, e) = Kept-none t p e
  close_candidate-Outcome (some c) false t (p, e) =
      discard c t _ p e (interfere_all-Same (env.others cleaning) (close_runtime c t))
  close_candidate-Outcome none true t r = inr r
  close_candidate-Outcome (some c) true t r = inr r

  -- The assignments of the handler of an exception.
  Left-failed :
      (x : String) (candidate : Option ℕ) (activated : Bool) (t : RuntimeSupervisor)
      → Left candidate activated t
      → Left candidate activated (record t { state = failed; last_apply_error = some x })
  Left-failed x candidate false t (p, e) =
      (record { runtime = p.runtime; active_revision = p.active_revision; closed = p.closed }, e)
  Left-failed x candidate true t r = record {
    runtime = r.runtime;
    active_revision = r.active_revision;
    closed = r.closed;
  }

  handle-Outcome : (p : Progress) → IsEnd p → Invariant p → Outcome env revision s (handle env p).1
  unfolding handle
  handle-Outcome (goes_on c t) ended h = absurd ended
  handle-Outcome (returns t) ended h =
      Same-Outcome (record { runtime = refl; active_revision = refl; closed = refl }) h
  handle-Outcome (raised x c activated t) ended h =
      Same-Outcome (record { runtime = refl; active_revision = refl; closed = refl })
        (close_candidate-Outcome c activated _ (Left-failed x c activated t h))
  handle-Outcome (cancelled c activated t) ended h =
      let (left, s') = close_candidate env c activated t in
      Same-Outcome (note_cancelled-Same left s') (close_candidate-Outcome c activated t h)

  commit-IsEnd : (candidate : ℕ) (t : RuntimeSupervisor) → IsEnd (commit env revision candidate t)
  unfolding commit
  commit-IsEnd candidate t = elim (Bool-cases (env.closing_cancelled committing)) [
    | inr ends ↦ rw ends tt
    | inl stopped ↦ rw stopped tt
  ]

  reload_body-IsEnd : (t : RuntimeSupervisor) → IsEnd (reload_body env revision t)
  unfolding reload_body
  reload_body-IsEnd t = then-IsEnd _ (commit env revision) commit-IsEnd

-- A reload that is not begun: the supervisor is closing, or a turn runs.
abbrev pub IsBegun : Environment → RuntimeSupervisor → Type 0
IsBegun env s = (s.closing ≡ false) × (env.idle_at_entry ≡ true)

choose_last :
    {A : Type 0} (b c : Bool) (x y z : A)
    → b ≡ false
    → c ≡ true
    → (if b then x else if not c then y else z) ≡ z
choose_last b c x y z e e' = ground (arith, e, e')

pub reload-begun :
    (env : Environment) (s : RuntimeSupervisor)
    → IsBegun env s
    → reload env s
      ≡ handle env
          (reload_body env s.desired_revision (record s { state = applying; ready = false }))
unfolding reload
reload-begun env s (is_open, idle) = choose_last s.closing env.idle_at_entry _ _ _ is_open idle

-- A reload that begins, with the supervisor open and idle, either replaces the Runtime by the
-- candidate, under the revision desired at its beginning, and closes the old one, or keeps the
-- Runtime and its revision and closes the candidate if one was made: once, or twice if a cancellation
-- came during the first close. This is so whatever the environment answers or raises, whatever
-- reloads and stops are requested at each wait, and wherever a cancellation arrives, also while the
-- candidate or the old Runtime is being closed.
pub reload-Outcome :
    (env : Environment) (s : RuntimeSupervisor)
    → IsBegun env s
    → Outcome env s.desired_revision s (reload env s).1
reload-Outcome env s begun =
    let t = record s { state = applying; ready = false } in
    let same : Same s t = record { runtime = refl; active_revision = refl; closed = refl } in
    rw (reload-begun env s begun) (
      handle-Outcome env s.desired_revision s (reload_body env s.desired_revision t)
        (reload_body-IsEnd env s.desired_revision s t)
        (reload_body-Invariant env s.desired_revision s t same))

-- However a reload ends, waiting turns are let on, if they were before it.
pub reload-ready :
    (env : Environment) (s : RuntimeSupervisor) → s.ready ≡ true → (reload env s).1.ready ≡ true
unfolding reload
reload-ready env s h = ground (
  arith,
  handle-ready env
      (reload_body env s.desired_revision (record s { state = applying; ready = false })),
)
