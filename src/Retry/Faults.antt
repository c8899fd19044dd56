-- ===== src/Retry/Faults.antt =====
-- Calls of a BRURetry in unusual states (BromiumCoreUtils/BRURetry.m, BromiumCoreUtils/BRURetry.h).
use bromium_core_utils.Prelude.{ℕ, ◌≡◌, ◌⊎◌, Bool, true, false, Option, some, ◌∷◌, [], arith}
use bromium_core_utils.Prelude.Outcome.{done, fatal, Returns}
use bromium_core_utils.Retry.System.{System}
use bromium_core_utils.Retry.{
  transient, delaying, active_waiting, Error, Retry, Timer, run_policy, init, start, cancel,
  timer_fired, continue,
}

module _ {Interval : Type 0} (equals : Interval → Interval → Bool) where
  -- A start while an operation runs (a timer is set, or the action or the policy is at work)
  -- fails an assertion, whatever the other fields are: its branch leaves `identifier` nil.
  pub start_running_fatal :
      (uuid d : ℕ) (completion : Option ℕ) (r : Retry Interval)
      → (r.state ≡ delaying) ⊎ (r.state ≡ active_waiting)
      → start equals uuid d completion r ≡ fatal
  unfolding start
  start_running_fatal uuid d completion r h = ground arith

  -- On a new object the first start succeeds, and when the first attempt then reports a transient
  -- error, the policy is asked with the delay that the runtime gives an unassigned field, not
  -- with the object's delay.
  pub first_policy_delay :
      (zero_interval delay : Interval) (uuid d a e : ℕ) (completion : Option ℕ)
      → Returns
          (λ s.
            continue equals a false (some (Error.reported e)) transient s.0.0
            ≡ done (s.0.0, run_policy false (some (Error.reported e)) a zero_interval ∷ []))
          (start equals uuid d completion (init zero_interval delay))
  unfolding start continue init
  first_policy_delay z delay u d a e c = ground arith

  -- A cancel with its identifier of an operation that sleeps between two attempts is accepted
  -- (given that the delay is equal to itself under BRUDoubleEquals); a block of its timer that is
  -- on `syncQueue` by then fails an assertion when it runs.
  pub late_timer_fatal :
      (i : ℕ) (t : Timer Interval) (r : Retry Interval)
      → r.state ≡ delaying
      → r.identifier ≡ some i
      → t.identifier ≡ some i
      → equals r.delay r.delay ≡ true
      → Returns (λ s. (s.1 ≡ true) × (timer_fired t s.0.0 ≡ fatal)) (cancel equals i r)
  unfolding cancel timer_fired
  late_timer_fatal i t r w n m e = ground arith
