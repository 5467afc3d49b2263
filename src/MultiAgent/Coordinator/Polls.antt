-- ===== src/MultiAgent/Coordinator/Polls.antt =====
-- multi_agent/coordinator.py, `_acquire` and `_await_worker_result`: how often they poll.
use turning_good_agent.Prelude.{
  ℕ, zero, suc, ◌-◌, ◌<◌, ◌≡◌, refl, Bool-cases, inl, inr, Option, none, some, leb, leb→lt, arith,
}
use turning_good_agent.MultiAgent.Coordinator.{Surroundings, stop_requested, or_again, poll}

module _ {W B : Type 0} (env : Surroundings W) (deadline : ℕ) (attempt : ℕ → W → Option B × W) where
  -- An attempt that gets nothing takes time.
  abbrev pub Advances : Type 0
  Advances =
      (remaining : ℕ) (w : W)
      → (attempt remaining w).0 ≡ none
      → env.time w < env.time (attempt remaining w).1

  again :
      (n : ℕ) (w : W) (r : Option B × W)
      → ((v : W)
          → deadline - env.time v < n
          → poll env n deadline attempt v ≡ poll env (suc n) deadline attempt v)
      → (r.0 ≡ none → env.time w < env.time r.1)
      → env.time w < deadline
      → deadline - env.time w < suc n
      → or_again env r (poll env n deadline attempt)
        ≡ or_again env r (poll env (suc n) deadline attempt)
  again n w (some b, v) more advances early fits = refl
  again n w (none, v) more advances early fits = more v (omega (arith, advances refl, early, fits))

  -- If an attempt that gets nothing takes time, one poll more than there are units of time left is
  -- enough: more polls change nothing.
  pub poll-enough :
      Advances
      → (n : ℕ) (w : W) → deadline - env.time w < n
      → poll env n deadline attempt w ≡ poll env (suc n) deadline attempt w
  unfolding poll
  poll-enough advances zero w fits = absurd (omega arith)
  poll-enough advances (suc n) w fits = elim (Bool-cases (stop_requested env w)) [
    | inl stop ↦ rw stop refl
    | inr goes ↦ rw goes (elim (Bool-cases (leb deadline (env.time w))) [
      | inl late ↦ rw late refl
      | inr early ↦ rw early (
          again n w (attempt (deadline - env.time w) w) (poll-enough advances n)
            (advances (deadline - env.time w) w) (leb→lt deadline (env.time w) early) fits)
    ])
  ]
