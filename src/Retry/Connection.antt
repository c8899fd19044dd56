-- ===== src/Retry/Connection.antt =====
-- The example of BromiumCoreUtils/BRURetry.h: a connection that is tried up to a number of times, with
-- a BRURetry whose policy is that of `BRURetryPolicyBlockWithMaxRetries`.
use bromium_core_utils.Prelude.{
  ℕ, zero, suc, ◌+◌, ◌^◌, ◌<◌, ◌≤◌, ◌≡◌, ◌⊎◌, inl, inr, refl, sym, ap, ◌∙◌, subst, Bool, true,
  false, Option, none, some, List, [], ◌∷◌, is_none, leb, if◌then◌else◌, arith,
}
use bromium_core_utils.Prelude.Outcome.{◌>>=◌, Returns, Returns-weaken}
use bromium_core_utils.Retry.{transient, retry, stop, idle, Error, policy_with_max_retries}
use bromium_core_utils.Retry.System.{System, quiet, starts, step}
use bromium_core_utils.Retry.Safety.{Inv}
use bromium_core_utils.Retry.Contract.{
  Result, succeeded, failed, Policy, Ending, operation, judged, decided, waited, ending,
}
use bromium_core_utils.Retry.Driver.{Run, drive}
use bromium_core_utils.Retry.Operation.{operation_refined}

-- `connectWithError:` at each attempt: nil, or the error.
abbrev pub Connect : Type 0
Connect = ℕ → Option Error

abbrev pub reported_by : Option Error → Result
reported_by none = succeeded
reported_by (some e) = failed e transient

-- `actionBlock` of the example.
unfoldable pub connection_action : Connect → ℕ → Result
connection_action connect k = reported_by (connect k)

-- `policyBlock` of the example.
unfoldable pub connection_policy : {Interval : Type 0} → (max_attempts : ℕ) → Policy Interval
unfolding policy_with_max_retries
connection_policy max_attempts e k d = (policy_with_max_retries max_attempts k, d)

-- The `n` connections from `k` on fail.
abbrev pub Failing : Connect → (k n : ℕ) → Type 0
Failing connect k zero = Unit
Failing connect k (suc n) = (is_none (connect k) ≡ false) × Failing connect (suc k) n

abbrev pub repeated : {Interval : Type 0} → ℕ → Interval → List Interval
repeated zero d = []
repeated (suc n) d = d ∷ repeated n d

-- The last attempt, from `k` on: all before it fail; it succeeds, or it is the last one allowed.
abbrev pub IsLast : Connect → (max_attempts k m : ℕ) → Type 0
IsLast connect max_attempts k m =
    Failing connect k m
    × ((m ≡ 0) ⊎ (k + m ≤ max_attempts))
    × ((connect (k + m) ≡ none) ⊎ (max_attempts ≤ k + m))

module _ {Interval : Type 0} (connect : Connect) (max_attempts : ℕ) (d : Interval) where
  abbrev last_ending : (k m : ℕ) → Ending Interval
  last_ending k m = record { attempt = k + m; error = connect (k + m); waits = repeated m d }

  abbrev run : (fuel k : ℕ) → Option (Ending Interval)
  run fuel k = operation (connection_action connect) (connection_policy max_attempts) fuel k d

  abbrev EndsFrom : (k : ℕ) → Option (Ending Interval) → Type 0
  EndsFrom k o = (m : ℕ) × (o ≡ some (last_ending k m)) × IsLast connect max_attempts k m

  at_once :
      (k : ℕ) (c : Option Error)
      → connect k ≡ c
      → (connect k ≡ none) ⊎ (max_attempts ≤ k)
      → EndsFrom k (some (ending k c))
  at_once k c e h =
      (0, ended_here, (tt, inl refl, subst (λ n. (connect n ≡ none) ⊎ (max_attempts ≤ n)) here h))
    where
      here : k ≡ k + 0
      here = omega arith

      ended_here : some (ending k c) ≡ some (last_ending k 0)
      ended_here = ap (λ x. some (ending k x)) (sym e) ∙ ap (λ n. some (ending n (connect n))) here

  later :
      (k : ℕ) (o : Option (Ending Interval))
      → is_none (connect k) ≡ false
      → k < max_attempts
      → EndsFrom (suc k) o
      → EndsFrom k (waited d o)
  later k o f l (m, e, (fails, few, ok)) = (
    suc m,
    ap (waited d) e
        ∙ ap (λ n. some (record { attempt = n; error = connect n; waits = d ∷ repeated m d }))
            shift,
    ((f, fails), inr (omega arith), subst (λ n. (connect n ≡ none) ⊎ (max_attempts ≤ n)) shift ok),
  )
    where
      shift : suc k + m ≡ k + suc m
      shift = omega arith

  failed-EndsFrom :
      (k fuel : ℕ) (x : Error) (last : Bool)
      → connect k ≡ some x
      → leb max_attempts k ≡ last
      → max_attempts < k + suc fuel
      → (0 < fuel → EndsFrom (suc k) (run fuel (suc k)))
      → EndsFrom k (
          decided x k
            (if last then stop else retry, d)
            (operation (connection_action connect) (connection_policy max_attempts) fuel (suc k)))
  failed-EndsFrom k fuel x true e l b ih = at_once k (some x) e (inr (ground arith))
  failed-EndsFrom k fuel x false e l b ih =
      later k (run fuel (suc k)) (ap is_none e) (ground arith) (ih (ground arith))

  run-EndsFrom : (fuel k : ℕ) → 0 < fuel → max_attempts < k + fuel → EndsFrom k (run fuel k)
  unfolding operation connection_action connection_policy policy_with_max_retries
  run-EndsFrom zero k z b = absurd (omega arith)
  run-EndsFrom (suc fuel) k z b =
      cases (connect k) refl (λ more. run-EndsFrom fuel (suc k) more (omega arith))
    where
      cases :
          (c : Option Error)
          → connect k ≡ c
          → (0 < fuel → EndsFrom (suc k) (run fuel (suc k)))
          → EndsFrom k (
              judged (connection_policy max_attempts) (reported_by c) k d (
                operation
                  (connection_action connect)
                  (connection_policy max_attempts)
                  fuel
                  (suc k)))
      cases none e ih = at_once k none e (inl e)
      cases (some x) e ih = failed-EndsFrom k fuel x (leb max_attempts k) e refl b ih

-- The run of the object: as many attempts as `last`, and the result of the last one for the deferred.
abbrev pub Concluded :
    {Interval : Type 0}
    → Connect
    → (max_attempts deferred : ℕ) → Interval
    → System Interval
    → Run Interval
    → Type 0
Concluded connect max_attempts deferred d s r =
    (m : ℕ) × IsLast connect max_attempts 1 m
    × (r.attempt ≡ 1 + m)
    × (r.waits ≡ repeated m d)
    × (r.system.retry.state ≡ idle)
    × (r.system.phase ≡ quiet)
    × (r.system.resolved ≡ (deferred, is_none (connect (1 + m)), connect (1 + m)) ∷ s.resolved)
    × (r.system.retry.current_delay ≡ d)

-- The example of the header, started on an idle object that has its delay as the present one (as
-- behind an operation; a new object has 0 there): the connection is tried again, after the delay
-- given to the object each time, until it succeeds or has been tried `max_attempts` times (once,
-- for 0), and no longer. Then the object is idle, with its delay as the present one, and its
-- deferred has been resolved once, with success or with the error of the last attempt. The number
-- of attempts is below 2^64, and the delay is equal to itself under BRUDoubleEquals.
pub connection-Concluded :
    {Interval : Type 0} (equals : Interval → Interval → Bool) (connect : Connect) (max_attempts : ℕ)
    (delay : Interval) (u deferred : ℕ) (c : Option ℕ) (s : System Interval)
    → equals delay delay ≡ true
    → Inv delay s
    → s.retry.state ≡ idle
    → s.retry.current_delay ≡ delay
    → max_attempts + 2 < 2 ^ 64
    → Returns (Concluded connect max_attempts deferred delay s) (
        step equals (starts u deferred c) s
        >>= drive equals
            (connection_action connect)
            (connection_policy max_attempts)
            (max_attempts + 1))
connection-Concluded equals connect max_attempts delay u deferred c s h v i k b =
    let (m, e, last) =
      run-EndsFrom connect max_attempts delay (max_attempts + 1) 1 (omega arith) (omega arith) in
    Returns-weaken _ (Concluded connect max_attempts deferred delay s)
      (step equals (starts u deferred c) s
        >>= drive equals (connection_action connect) (connection_policy max_attempts)
            (max_attempts + 1))
      (operation_refined equals (connection_action connect) (connection_policy max_attempts) delay
        (max_attempts + 1) u deferred c s (last_ending connect max_attempts delay 1 m) h v i k
        (omega arith) e)
      λ r (idles, quiets, resolves, attempts, waits, present).
        (m, last, attempts, waits, idles, quiets, resolves, present)
