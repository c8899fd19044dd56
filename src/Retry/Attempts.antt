-- ===== src/Retry/Attempts.antt =====
-- An operation under the policy of `BRURetryPolicyBlockWithMaxRetries`
-- (BromiumCoreUtils/BRURetry.m): how often the action runs, and with what it ends.
use bromium_core_utils.Prelude.{
  ℕ, zero, suc, ◌+◌, ◌-◌, ◌^◌, ◌≤◌, ◌<◌, ◌≡◌, ◌⊎◌, inl, inr, Bool, true, false, Option, none, some,
  ◌∷◌, subst, is_some, is_none, is_id, if◌then◌else◌, arith,
}
use bromium_core_utils.Prelude.Outcome.{
  Outcome, done, fatal, ◌>>=◌, Returns, Returns->>=, Returns-weaken, Returns-if_true,
  Returns-if_false,
}
use bromium_core_utils.Retry.{
  transient, idle, delaying, active_waiting, Error, Retry, policy_with_max_retries, continue,
  handle_result, timer_fired, start,
}
use bromium_core_utils.Retry.System.{
  System, Phase, quiet, acting, sleeping, continues, decides, fires, starts, step,
}
use bromium_core_utils.Retry.Safety.{Inv}

module _ {Interval : Type 0} where
  abbrev is_quiet : Phase Interval → Bool
  is_quiet quiet = true
  is_quiet _ = false

  -- A timer is set that carries the identifier of the operation.
  abbrev is_sleeping : Phase Interval → Retry Interval → Bool
  is_sleeping (sleeping t) r = elim t.identifier [ none ↦ false | some i ↦ is_id r.identifier i ]
  is_sleeping _ r = false

  -- An operation whose action is running, with deferred `d`.
  abbrev pub IsActing : ℕ → System Interval → Type 0
  IsActing d s =
      (s.retry.state ≡ active_waiting)
      × (s.retry.timer ≡ none)
      × (s.retry.deferred ≡ some d)
      × (is_some s.retry.identifier ≡ true)
      × (s.phase ≡ acting s.retry.attempt)

  -- What stays of a system once its operation has ended with `result`.
  abbrev pub IsClosed : ℕ → Option Error → System Interval → System Interval → Type 0
  IsClosed d result s t =
      (t.retry.state ≡ idle)
      × (t.phase ≡ quiet)
      × (t.resolved ≡ (d, is_none result, result) ∷ s.resolved)
      × (t.retry.current_delay ≡ s.retry.delay)

  -- Between two attempts of the operation that `s` runs.
  abbrev IsSleeping : ℕ → System Interval → System Interval → Type 0
  IsSleeping d s t =
      (t.retry.state ≡ delaying)
      × (t.retry.deferred ≡ some d)
      × (t.retry.attempt ≡ s.retry.attempt)
      × (t.retry.delay ≡ s.retry.delay)
      × (t.resolved ≡ s.resolved)
      × (is_sleeping t.phase t.retry ≡ true)

  -- The attempt after that of `s`.
  abbrev IsNext : ℕ → System Interval → System Interval → Type 0
  IsNext d s t =
      IsActing d t
      × (t.retry.attempt ≡ suc s.retry.attempt)
      × (t.retry.delay ≡ s.retry.delay)
      × (t.resolved ≡ s.resolved)

  module _ (equals : Interval → Interval → Bool) (delay : Interval) (retries : ℕ)
      (result : ℕ → Option Error) where
    -- What one attempt leads to: it succeeds or reports a transient error, and after an error the
    -- policy is asked. `none` stands for success.
    after_attempt : System Interval → Outcome (System Interval)
    after_attempt s = do
      let r = result s.retry.attempt
      s' ← step equals (continues (is_none r) r transient) s
      if is_quiet s'.phase
          then done s'
          else step equals
              (decides (policy_with_max_retries retries s.retry.attempt) s'.retry.current_delay) s'

    -- Attempts, with timers that fire between them, until the operation ends; with the number of
    -- the last attempt. The fuel bounds the attempts.
    pub attempts : ℕ → System Interval → Outcome (System Interval × ℕ)
    attempts zero s = fatal
    attempts (suc fuel) s = do
      s' ← after_attempt s
      if is_quiet s'.phase
          then done (s', s.retry.attempt)
          else (step equals fires s' >>= attempts fuel)

    attempt_ends :
        (d : ℕ) (s : System Interval)
        → equals s.retry.delay s.retry.delay ≡ true
        → IsActing d s
        → (result s.retry.attempt ≡ none) ⊎ (retries ≤ s.retry.attempt)
        → Returns (IsClosed d (result s.retry.attempt) s) (after_attempt s)
    unfolding after_attempt step continue handle_result policy_with_max_retries
    attempt_ends d s h a e = ground arith

    attempt_sleeps :
        (d : ℕ) (s : System Interval)
        → IsActing d s
        → 0 < s.retry.attempt
        → is_some (result s.retry.attempt) ≡ true
        → s.retry.attempt < retries
        → Returns (IsSleeping d s) (after_attempt s)
    unfolding after_attempt step continue handle_result policy_with_max_retries
    attempt_sleeps d s a z e h = ground arith

    fires_acts :
        (d : ℕ) (s t : System Interval)
        → s.retry.attempt + 1 < 2 ^ 64
        → IsSleeping d s t
        → Returns (IsNext d s) (step equals fires t)
    unfolding step timer_fired
    fires_acts d s t b a = ground arith

    -- The `n` attempts from `a` on failed.
    abbrev pub AllFailed : (a n : ℕ) → Type 0
    AllFailed a zero = Unit
    AllFailed a (suc n) = (is_some (result a) ≡ true) × AllFailed (suc a) n

    AllFailed-none : (a : ℕ) → AllFailed a (a - a)
    AllFailed-none a = let e : 0 ≡ a - a = omega arith in subst (AllFailed a) e tt

    -- The last attempt `m` ended the operation, and the attempts before it failed.
    abbrev IsLast : ℕ → System Interval → System Interval × ℕ → Type 0
    IsLast d s (t, m) =
        IsClosed d (result m) s t
        × (s.retry.attempt ≤ m)
        × ((m ≤ s.retry.attempt) ⊎ (m ≤ retries))
        × ((result m ≡ none) ⊎ (retries ≤ m))
        × AllFailed s.retry.attempt (m - s.retry.attempt)

    this_attempt :
        (d : ℕ) (s t : System Interval)
        → (result s.retry.attempt ≡ none) ⊎ (retries ≤ s.retry.attempt)
        → IsClosed d (result s.retry.attempt) s t
        → IsLast d s (t, s.retry.attempt)
    this_attempt d s t e c = (c, omega arith, inl (omega arith), e, AllFailed-none s.retry.attempt)

    more_attempts :
        (d : ℕ) (s u : System Interval) (r : System Interval × ℕ)
        → is_some (result s.retry.attempt) ≡ true
        → s.retry.attempt < retries
        → IsNext d s u
        → IsLast d u r
        → IsLast d s r
    more_attempts d s u (t, m) failed more n (c, le, bound, e, before) =
        let a = s.retry.attempt in
        let rest : suc (m - suc a) ≡ m - a = omega arith in
        (
          ground arith,
          omega arith,
          ground arith,
          e,
          subst (AllFailed a) rest (failed, subst (λ k. AllFailed k (m - k)) n.1 before),
        )

    -- An attempt ends the operation, or another one follows.
    attempt-cases :
        (a : ℕ)
        → ((result a ≡ none) ⊎ (retries ≤ a)) ⊎ ((is_some (result a) ≡ true) × (a < retries))
    attempt-cases a = ground arith

    attempts-IsLast :
        (fuel d : ℕ) (s : System Interval)
        → equals s.retry.delay s.retry.delay ≡ true
        → IsActing d s
        → 0 < s.retry.attempt
        → retries < fuel + s.retry.attempt
        → 0 < fuel
        → retries < 2 ^ 64
        → Returns (IsLast d s) (attempts fuel s)
    unfolding attempts
    attempts-IsLast zero d s h a z e f b = elim f [ ]
    attempts-IsLast (suc fuel) d s h a z e f b = elim (attempt-cases s.retry.attempt) [
      | inl ends ↦
          Returns->>= (IsClosed d (result s.retry.attempt) s) (IsLast d s) (after_attempt s) _
            (attempt_ends d s h a ends)
            λ t c.
              Returns-if_true (IsLast d s) (is_quiet t.phase) _ _ (ground arith)
                (this_attempt d s t ends c)
      | inr (failed, more) ↦
          Returns->>= (IsSleeping d s) (IsLast d s) (after_attempt s) _
            (attempt_sleeps d s a z failed more)
            λ t c. Returns-if_false (IsLast d s) (is_quiet t.phase) _ _ (ground arith) (
              Returns->>= (IsNext d s) (IsLast d s) (step equals fires t) (attempts fuel)
                (fires_acts d s t (omega arith) c)
                λ u n.
                  Returns-weaken (IsLast d u) (IsLast d s) (attempts fuel u)
                    (attempts-IsLast fuel d u (ground arith) n.0 (omega arith) (omega arith)
                      (omega arith) b)
                    (λ r. more_attempts d s u r failed more n))
    ]

    starts_acts :
        (u d : ℕ) (c : Option ℕ) (s : System Interval)
        → Inv delay s
        → s.retry.state ≡ idle
        → Returns
            (λ t.
              IsActing d t
              × (t.retry.attempt ≡ 1)
              × (t.retry.delay ≡ delay)
              × (t.resolved ≡ s.resolved))
            (step equals (starts u d c) s)
    unfolding step start
    starts_acts u d c s v i = ground arith

    -- An operation started on an idle object, whose policy is that of
    -- `BRURetryPolicyBlockWithMaxRetries` and whose action reports `result k` at its attempt `k`
    -- (`none` for success, else a transient error), always ends, given fuel for one attempt more
    -- than the policy allows: at the first attempt `m` that succeeds or has `m ≥ retries`. So it
    -- makes at least one attempt, and at most `retries` if that is not 0; all attempts before
    -- `m` failed; the object is idle, nothing is owed, and the operation's deferred is resolved
    -- once, with what attempt `m` reported.
    pub operation_ends :
        (fuel u d : ℕ) (c : Option ℕ) (s : System Interval)
        → equals delay delay ≡ true
        → Inv delay s
        → s.retry.state ≡ idle
        → retries < fuel
        → retries < 2 ^ 64
        → Returns
            (λ r.
              (r.0.retry.state ≡ idle)
              × (r.0.phase ≡ quiet)
              × (r.0.resolved ≡ (d, is_none (result r.1), result r.1) ∷ s.resolved)
              × (1 ≤ r.1)
              × ((r.1 ≤ 1) ⊎ (r.1 ≤ retries))
              × ((result r.1 ≡ none) ⊎ (retries ≤ r.1))
              × AllFailed 1 (r.1 - 1))
            (step equals (starts u d c) s >>= attempts fuel)
    operation_ends fuel u d c s h v i f b =
        Returns->>= _ _ (step equals (starts u d c) s) (attempts fuel) (starts_acts u d c s v i)
          λ t a.
            Returns-weaken (IsLast d t) _ (attempts fuel t)
              (attempts-IsLast fuel d t (ground arith) a.0 (omega arith) (omega arith) (omega arith)
                b)
              λ r l. (
                l.0.0,
                l.0.1,
                ground arith,
                omega arith,
                ground arith,
                l.3,
                subst (λ a. AllFailed a (r.1 - a)) a.1 l.4,
              )
