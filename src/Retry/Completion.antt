-- ===== src/Retry/Completion.antt =====
-- Histories of a BRURetry, and cancellation by identifier (BromiumCoreUtils/BRURetry.m,
-- `startWithCompletionBlock:`, `cancel:`, `handleResult:…`).
use bromium_core_utils.Prelude.{
  ℕ, ◌≡◌, Bool, true, false, Option, none, some, ◌∷◌, ◌++◌, is_none, if◌then◌else◌, arith,
}
use bromium_core_utils.Prelude.Outcome.{done, Returns, Returns-done}
use bromium_core_utils.Retry.{
  is_idle, idle, active_waiting, active_cancelling, cancelled, Retry, Sent, start, cancel, continue,
  handle_result, registering,
}
use bromium_core_utils.Retry.System.{
  System, Event, Phase, quiet, acting, deciding, step, Allowed, initial, starts, cancels, continues,
  decides, rings, fires, fires_late,
}
use bromium_core_utils.Retry.Safety.{Inv, initial-Inv, step-Inv, names, or_nil}

module _ {Interval : Type 0} (equals : Interval → Interval → Bool)
    (zero_interval delay : Interval) where
  -- The states that allowed events lead to.
  pub data Reach : System Interval → Type 0 where
    new : Reach (initial zero_interval delay)
    next :
        {s t : System Interval} (e : Event Interval)
        → Reach s
        → Allowed e s
        → step equals e s ≡ done t
        → Reach t

  pub Reach-Inv : {s : System Interval} → equals delay delay ≡ true → Reach s → Inv delay s
  Reach-Inv h new = initial-Inv zero_interval delay
  Reach-Inv h (next {s} e r a p) =
      Returns-done (Inv delay) p (step-Inv equals delay e s h a (Reach-Inv h r))

  -- In every state that allowed events lead to from a new object, the deferreds of the operations
  -- that were started are those of the resolved ones, in the same order, with the deferred of the
  -- running operation in front: none is resolved twice, and none is forgotten. The object is idle
  -- exactly when there is no such deferred, so then all are resolved. The delay must be equal to
  -- itself under BRUDoubleEquals.
  pub resolved_once :
      {s : System Interval}
      → equals delay delay ≡ true
      → Reach s
      → (s.opened ≡ or_nil s.retry.deferred ++ names s.resolved)
        × (is_idle s.retry.state ≡ is_none s.retry.deferred)
  resolved_once h r = ground (arith, Reach-Inv h r)

module _ {Interval : Type 0} (equals : Interval → Interval → Bool) where
  -- A start after a cancellation that was accepted while the action runs, or while the policy
  -- decides, takes the cancellation back: the object is as it was before, the identifier returned
  -- is that of the operation, and the completion block is registered with its deferred.
  pub start-cancel :
      (i u d : ℕ) (c : Option ℕ) (r t : Retry Interval) {sent : Sent Interval}
      → r.state ≡ active_waiting
      → r.identifier ≡ some i
      → cancel equals i r ≡ done (sent, true)
      → start equals u d c sent.0 ≡ done ((r, registering r.deferred c), i)
  unfolding cancel start
  start-cancel i u d c r t w n e = ground arith

  -- The event that the operation waits for.
  abbrev pub IsOwed : Event Interval → Phase Interval → Type 0
  IsOwed (continues success error status) (acting a) = Unit
  IsOwed (decides response interval) (deciding false (some error) a) = Unit
  IsOwed _ _ = ⊥

  abbrev pub succeeds : Event Interval → Bool
  succeeds (continues success error status) = success
  succeeds _ = false

  -- While a cancellation is pending (state ActiveCancelling, in a state that satisfies the
  -- invariant), and the delay is equal to itself under BRUDoubleEquals, the continuation of the
  -- action (with an error exactly when it failed) or the response of the policy, whichever is owed,
  -- ends the operation without failing an assertion: the object is idle, nothing is owed, and the deferred is resolved with
  -- success when the action succeeded after all, and otherwise with the cancellation error that
  -- names the operation's identifier, whatever error the action reported and whatever the policy
  -- answered.
  pub cancelling_settles :
      (i d : ℕ) (delay : Interval) (e : Event Interval) (s : System Interval)
      → equals delay delay ≡ true
      → Inv delay s
      → Allowed e s
      → IsOwed e s.phase
      → s.retry.state ≡ active_cancelling
      → s.retry.identifier ≡ some i
      → s.retry.deferred ≡ some d
      → Returns
          (λ t.
            (t.retry.state ≡ idle)
            × (t.phase ≡ quiet)
            × (t.resolved
                ≡ (d, succeeds e, if succeeds e then none else some (cancelled (some i)))
                  ∷ s.resolved))
          (step equals e s)
  unfolding step continue handle_result
  cancelling_settles i d delay (continues b x st) s h v al o w n m = ground arith
  cancelling_settles i d delay (decides p x) s h v al o w n m = ground arith
  cancelling_settles i d delay (starts _ _ _) s h v al o w n m = absurd o
  cancelling_settles i d delay (cancels _) s h v al o w n m = absurd o
  cancelling_settles i d delay rings s h v al o w n m = absurd o
  cancelling_settles i d delay fires s h v al o w n m = absurd o
  cancelling_settles i d delay fires_late s h v al o w n m = absurd o
