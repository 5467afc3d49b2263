-- ===== src/Proactive/Scheduler/First.antt =====
-- proactive/scheduler.py, `next_cron_fire` and `next_job_fire`: which minute is found.
use turning_good_agent.Prelude.{
  ℕ, zero, suc, ◌+◌, ◌*◌, ◌/◌, ◌≤◌, ◌<◌, ◌≡◌, refl, subst, String, Bool, Bool-cases, inl, inr, true,
  false, Option, none, some, ltb, ltb→lt, ltb→le, arith,
}
use turning_good_agent.Prelude.Result.{ok, raise, ◌>>=◌, OnOk}
use turning_good_agent.Proactive.Scheduler.{
  CronSpec, Moment, Parsed, parse, matches, search_limit, search, next_cron_fire, CronJob,
  later_than, next_recurring, next_once, next_job_fire,
}

module _ (local_time : ℕ → Moment) (spec : CronSpec) where
  abbrev pub fires_at : ℕ → Bool
  fires_at minute = matches spec (local_time minute)

  -- No minute from `start` on and before `end` fires.
  abbrev pub Quiet : ℕ → ℕ → Type 0
  Quiet start end = (u : ℕ) → start ≤ u → u < end → fires_at u ≡ false

  -- A minute that is found fires, and it is the first one; if none is found, none fires among those
  -- that are tried.
  unfoldable pub IsFirst : ℕ → ℕ → Parsed ℕ → Type 0
  IsFirst start tried (ok t) = (start ≤ t) × (fires_at t ≡ true) × Quiet start t
  IsFirst start tried (raise e) = Quiet start (start + tried)

  Quiet-nothing : (start end : ℕ) → end ≤ start → Quiet start end
  Quiet-nothing start end h u from before = absurd (omega arith)

  Quiet-suc : (start end : ℕ) → fires_at start ≡ false → Quiet (suc start) end → Quiet start end
  Quiet-suc start end idle later u from before = elim (Bool-cases (ltb start u)) [
    | inl after ↦ later u (omega (arith, ltb→lt start u after)) before
    | inr at ↦
        let e : start ≡ u = omega (arith, ltb→le start u at) in
        subst (λ v. fires_at v ≡ false) e idle
  ]

  IsFirst-suc :
      (start tried : ℕ) (r : Parsed ℕ)
      → fires_at start ≡ false
      → IsFirst (suc start) tried r
      → IsFirst start (suc tried) r
  unfolding IsFirst
  IsFirst-suc start tried (ok t) idle (from, fires, quiet) =
      (omega (arith, from), fires, Quiet-suc start t idle quiet)
  IsFirst-suc start tried (raise e) idle h =
      Quiet-suc start (start + suc tried) idle (λ u from before. h u from (omega (arith, before)))

  -- The first minute, known to fire or not, and the rest of the search.
  tried-IsFirst :
      (start tried : ℕ) (rest : Parsed ℕ) (fires : Bool)
      → fires_at start ≡ fires
      → IsFirst (suc start) tried rest
      → IsFirst start (suc tried) (elim fires [ true ↦ ok start | false ↦ rest ])
  unfolding IsFirst
  tried-IsFirst start tried rest true e h =
      (omega arith, e, Quiet-nothing start start (omega arith))
  tried-IsFirst start tried rest false e h = IsFirst-suc start tried rest e h

  search-IsFirst : (tried start : ℕ) → IsFirst start tried (search local_time tried spec start)
  unfolding search IsFirst
  search-IsFirst zero start = Quiet-nothing start (start + 0) (omega arith)
  search-IsFirst (suc tried) start =
      tried-IsFirst start tried (search local_time tried spec (suc start)) (fires_at start) refl
        (search-IsFirst tried (suc start))

module _ (local_time : ℕ → Moment) (expression : String) (after : ℕ) where
  -- If a cron expression is well formed, what `next_cron_fire` finds is the first minute behind that
  -- of `after` at which the expression fires; if it raises, the expression fires at none of the
  -- minutes of the two years of 366 days that follow.
  pub next_cron_fire-IsFirst :
      (spec : CronSpec)
      → parse expression ≡ ok spec
      → IsFirst local_time spec
          (suc (after / 60))
          search_limit
          (next_cron_fire local_time expression after)
  unfolding next_cron_fire
  next_cron_fire-IsFirst spec parsed =
      rw parsed (search-IsFirst local_time spec search_limit (suc (after / 60)))

  later_minute : (t : ℕ) → suc (after / 60) ≤ t → after < t * 60
  later_minute t h = omega (arith, h)

  found_later :
      (spec : CronSpec) (r : Parsed ℕ)
      → IsFirst local_time spec (suc (after / 60)) search_limit r
      → OnOk (λ t. after < t * 60) r
  unfolding IsFirst
  found_later spec (ok t) h = later_minute t h.0
  found_later spec (raise e) h = tt

  next_cron_fire-later : OnOk (λ t. after < t * 60) (next_cron_fire local_time expression after)
  unfolding next_cron_fire
  next_cron_fire-later = go (parse expression)
    where
      go :
          (r : Parsed CronSpec)
          → OnOk
              (λ t. after < t * 60)
              (r >>= λ spec. search local_time search_limit spec (suc (after / 60)))
      go (ok spec) =
          found_later spec _ (search-IsFirst local_time spec search_limit (suc (after / 60)))
      go (raise e) = tt

-- What holds of a time, if there is one.
abbrev pub WhenSome : (ℕ → Type 0) → Option ℕ → Type 0
WhenSome P none = Unit
WhenSome P (some t) = P t

module _ (local_time : ℕ → Moment) (from_iso_format : String → Parsed (Option ℕ)) (after : ℕ) where
  abbrev Later : Parsed (Option ℕ) → Type 0
  Later = OnOk (WhenSome (λ t. after < t))

  recurring-Later :
      (cron : Option String) → Later (next_recurring local_time from_iso_format cron after)
  recurring-Later none = tt
  recurring-Later (some cron) = go _ (next_cron_fire-later local_time cron after)
    where
      go :
          (r : Parsed ℕ)
          → OnOk (λ t. after < t * 60) r
          → Later (r >>= λ minute. ok (some (minute * 60)))
      go (ok t) h = h
      go (raise e) h = tt

  once-Later :
      (next_run_at : Option String) → Later (next_once local_time from_iso_format next_run_at after)
  once-Later none = tt
  once-Later (some text) = go (from_iso_format text)
    where
      go : (r : Parsed (Option ℕ)) → Later (r >>= later_than local_time from_iso_format after)
      go (raise e) = tt
      go (ok none) = tt
      go (ok (some t)) = ground (arith, ltb→lt after t)

  -- Whatever a job is, recurring or one-off, the next time that `next_job_fire` gives for it is later
  -- than `after`.
  pub next_job_fire-Later :
      (job : CronJob) → Later (next_job_fire local_time from_iso_format job after)
  unfolding next_job_fire
  next_job_fire-Later job = ground (arith, recurring-Later job.cron, once-Later job.next_run_at)
