-- ===== src/Retry/Promise/Calls.antt =====
-- The completion blocks of an operation are called once (BromiumCoreUtils/BRURetry.m with
-- BromiumCoreUtils/BRUDeferred.m).
use bromium_core_utils.Prelude.{ℕ, ◌+◌, ◌≤◌, ◌≡◌, ◌⊎◌, Bool, [], All}
use bromium_core_utils.Prelude.Outcome.{Outcome}
use bromium_core_utils.Retry.System.{System}
use bromium_core_utils.Retry.Safety.{Inv, names}
use bromium_core_utils.Deferred.{Deferred, resolved, init as new_deferred}
use bromium_core_utils.Deferred.System.{
  System as Promise, count, calls, completes as completes_one, start as new_promise,
}
use bromium_core_utils.Retry.Promise.{pairs, result_of, Both, completes}
use bromium_core_utils.Retry.Promise.Tracking.{Track}

module _ {Interval : Type 0} (equals : Interval → Interval → Bool) (delay : Interval) where
  record BothInv (d : ℕ) (w : Both equals) : Type 0 where
    object : Inv delay w.0
    promise : Track d w.0.registered w.0.resolved w.1
    one : count d w.0.opened ≤ 1

  -- Before the operation has ended nothing is called; afterwards all are called with its result.
  abbrev pub CalledOnce : (d b : ℕ) → Both equals → Type 0
  CalledOnce d b (s, q) =
      ((count d (names s.resolved) ≡ 0) × (q.called ≡ []) × (q.completions ≡ []))
      ⊎ ((count d (names s.resolved) ≡ 1)
          × (pairs d b s.registered ≡ calls b q.called + count b q.completions)
          × All (λ c. c.1 ≡ result_of d s.resolved) q.called)
