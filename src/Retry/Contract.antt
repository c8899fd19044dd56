-- ===== src/Retry/Contract.antt =====
-- What the comments of BromiumCoreUtils/BRURetry.h promise: an operation in three steps (action,
-- policy, completion), its start and its cancellation; and the loop that the class replaces.
use bromium_core_utils.Prelude.{
  ℕ, zero, suc, ◌≡◌, ◌≢◌, ◌⊎◌, Bool, true, false, ◌||◌, Option, none, some, List, [], ◌∷◌, leb,
  is_id, if◌then◌else◌,
}
use bromium_core_utils.Prelude.Outcome.{Outcome, Returns, done}
use bromium_core_utils.Retry.{
  Status, transient, final, Response, retry, stop, Error, idle, active_cancelling, Retry, Sent,
}

-- What an attempt of the action reports to its continuation block: success, or an error and whether
-- it is final.
pub data Result : Type 0 where
  succeeded : Result
  failed : Error → Status → Result

-- `BRURetryPolicyBlock`: the error, the number of the attempt and the delay, which it may change.
abbrev pub Policy : Type 0 → Type 0
Policy Interval = Error → ℕ → Interval → Response × Interval

-- How an operation ends: the number of its last attempt, what is passed to the completion blocks,
-- and the delays that were waited between the attempts.
pub record Ending (Interval : Type 0) : Type 0 where
  pub attempt : ℕ
  pub error : Option Error
  pub waits : List Interval

module _ {Interval : Type 0} where
  abbrev pub waited : Interval → Option (Ending Interval) → Option (Ending Interval)
  waited d none = none
  waited d (some e) = some (record e { waits = d ∷ e.waits })

  abbrev pub ending : ℕ → Option Error → Ending Interval
  ending k error = record { attempt = k; error = error; waits = [] }

  -- The policy is asked once for each transient failure; it answers `retry` with the next delay, or
  -- `stop`.
  abbrev pub decided :
      Error
      → ℕ
      → Response × Interval
      → (Interval → Option (Ending Interval))
      → Option (Ending Interval)
  decided e k (retry, d) next = waited d (next d)
  decided e k (stop, d) next = some (ending k (some e))

  abbrev pub judged :
      Policy Interval
      → Result
      → ℕ
      → Interval
      → (Interval → Option (Ending Interval))
      → Option (Ending Interval)
  judged policy succeeded k d next = some (ending k none)
  judged policy (failed e final) k d next = some (ending k (some e))
  judged policy (failed e transient) k d next = decided e k (policy e k d) next

  -- An operation from its attempt `k` on, with the delay that its policy is shown next. The fuel
  -- bounds the attempts.
  unfoldable pub operation :
      (action : ℕ → Result) (policy : Policy Interval) (fuel k : ℕ)
      → Interval
      → Option (Ending Interval)
  operation action policy zero k d = none
  operation action policy (suc fuel) k d =
      judged policy (action k) k d (operation action policy fuel (suc k))

-- The loop with `MAX_CONNECTION_ATTEMPTS`, from its attempt `n` on: the number of the attempt that
-- it ends with. The fuel bounds its rounds.
unfoldable pub naive_loop : (max_attempts : ℕ) (connect : ℕ → Bool) (fuel n count : ℕ) → Option ℕ
naive_loop max_attempts connect zero n count = none
naive_loop max_attempts connect (suc fuel) n count =
    let rest = naive_loop max_attempts connect fuel (suc n) count in
    if connect n || leb max_attempts count then some n else rest

-- What the operation in progress has, or a new one.
abbrev pub or_new : Option ℕ → ℕ → ℕ
or_new none new = new
or_new (some current) new = current

module _ {Interval : Type 0} where
  -- `cancel:` is ignored.
  abbrev pub IsIgnored : ℕ → Retry Interval → Type 0
  IsIgnored identifier r =
      (r.state ≡ active_cancelling) ⊎ ((r.state ≡ idle) ⊎ (is_id r.identifier identifier ≡ false))

  -- YES if the cancel resulted in a change of state, and NO, with nothing done, where it is ignored.
  abbrev pub CancelDocumented : ℕ → Retry Interval → Outcome (Sent Interval × Bool) → Type 0
  CancelDocumented identifier r o =
      (IsIgnored identifier r × (o ≡ done ((r, []), false)))
      ⊎ ((¬ IsIgnored identifier r) × Returns (λ s. (s.1 ≡ true) × (s.0.0.state ≢ r.state)) o)

  -- A start returns the identifier of the operation in progress, or of a new one, and the completion
  -- block is associated with the operation.
  abbrev pub StartDocumented :
      (uuid deferred : ℕ) → Retry Interval → Outcome (Sent Interval × ℕ) → Type 0
  StartDocumented uuid d r = Returns λ s.
      (s.1 ≡ or_new r.identifier uuid)
      × (s.0.0.identifier ≡ some s.1)
      × (s.0.0.deferred ≡ some (or_new r.deferred d))
