-- ===== src/Retry.antt =====
-- BromiumCoreUtils/BRURetry.m: the life of a retryable operation. Every operation below is the body
-- of one block on `syncQueue`; it returns the new object and the messages that it sends to other
-- queues and objects. `Interval` stands for NSTimeInterval, `equals` for BRUDoubleEquals at
-- DBL_EPSILON, and identifiers, deferreds and blocks are numbers that name the objects.
pub mod System
pub mod Safety
pub mod Completion
pub mod Attempts
pub mod Faults
pub mod Contract
pub mod Documented
pub mod Driver
pub mod Operation
pub mod Connection
pub mod Promise
mod Examples
use bromium_core_utils.Prelude.{
  ℕ, ◌+◌, ◌%◌, ◌^◌, Bool, true, false, not, ◌&&◌, ◌||◌, Option, none, some, List, [], ◌∷◌, ◌++◌,
  ltb, leb, ◌==◌, is_some, is_none, is_id, if◌then◌else◌,
}
use bromium_core_utils.Prelude.Outcome.{Outcome, done, ◌>>=◌, ◌>>◌, bru_assert}

pub data Status : Type 0 where
  transient final : Status

pub data Response : Type 0 where
  retry stop : Response

pub data State : Type 0 where
  idle delaying active_waiting active_cancelling : State

pub data Error : Type 0 where
  reported : ℕ → Error
  cancelled : Option ℕ → Error

-- The policy block of `BRURetryPolicyBlockWithMaxRetries`; it leaves the delay alone.
unfoldable pub policy_with_max_retries : ℕ → ℕ → Response
policy_with_max_retries retries attempt = if leb retries attempt then stop else retry

-- A scheduled one-shot BRUTimer, with the identifier that its block captured.
pub record Timer (Interval : Type 0) : Type 0 where
  pub interval : Interval
  pub identifier : Option ℕ

pub record Retry (Interval : Type 0) : Type 0 where
  pub delay : Interval
  pub timer : Option (Timer Interval)
  pub attempt : ℕ
  pub state : State
  pub current_delay : Interval
  pub identifier : Option ℕ
  pub deferred : Option ℕ

-- What leaves `syncQueue`.
pub data Effect (Interval : Type 0) : Type 0 where
  run_action : ℕ → Effect Interval
  run_policy : Bool → Option Error → ℕ → Interval → Effect Interval
  start_timer : Timer Interval → Effect Interval
  suspend_timer : Effect Interval
  resolve : ℕ → Bool → Option Error → Effect Interval
  register : ℕ → ℕ → Effect Interval

abbrev pub is_idle : State → Bool
is_idle idle = true
is_idle _ = false

abbrev pub is_waiting : State → Bool
is_waiting active_waiting = true
is_waiting _ = false

abbrev pub is_cancelling : State → Bool
is_cancelling active_cancelling = true
is_cancelling _ = false

abbrev pub is_final : Status → Bool
is_final final = true
is_final transient = false

abbrev pub is_stop : Response → Bool
is_stop stop = true
is_stop retry = false

module _ {Interval : Type 0} (equals : Interval → Interval → Bool) where
  -- The condition of `checkInvariants`, one line for each state.
  unfoldable pub invariants : Retry Interval → State → Bool
  invariants r idle =
      is_none r.timer
      && r.attempt == 0
      && is_none r.identifier
      && equals r.current_delay r.delay
      && is_none r.deferred
  invariants r delaying =
      is_some r.timer && ltb 0 r.attempt && is_some r.identifier && is_some r.deferred
  invariants r active_waiting =
      is_none r.timer && ltb 0 r.attempt && is_some r.identifier && is_some r.deferred
  invariants r active_cancelling =
      is_none r.timer && ltb 0 r.attempt && is_some r.identifier && is_some r.deferred

  unfoldable pub check_invariants : Retry Interval → Outcome (Unit {0})
  unfolding invariants
  check_invariants r = bru_assert (invariants r r.state)

-- `initWithActionBlock:policyBlock:delay:targetQueue:`. It does not assign `_currentDelay`, which
-- therefore starts as the 0.0 that the runtime puts there.
unfoldable pub init : {Interval : Type 0} → Interval → Interval → Retry Interval
init zero_interval delay = record {
  delay = delay;
  timer = none;
  attempt = 0;
  state = idle;
  current_delay = zero_interval;
  identifier = none;
  deferred = none;
}

abbrev pub Sent : Type 0 → Type 0
Sent Interval = Retry Interval × List (Effect Interval)

module _ {Interval : Type 0} where
  -- `attempt` is an NSUInteger.
  unfoldable pub perform_action : Retry Interval → Outcome (Sent Interval)
  perform_action r = do
    let r' = record r { attempt = (r.attempt + 1) % 2 ^ 64 }
    bru_assert (is_waiting r'.state)
    done (r', run_action r'.attempt ∷ [])

  unfoldable pub schedule_next_action : Retry Interval → Outcome (Sent Interval)
  schedule_next_action r = do
    bru_assert (is_none r.timer)
    let t : Timer Interval = record { interval = r.current_delay; identifier = r.identifier }
    done (record r { timer = some t; state = delaying }, start_timer t ∷ [])

  -- The block that `scheduleNextAction` hands to the timer, once it runs on `syncQueue`.
  unfoldable pub timer_fired : Timer Interval → Retry Interval → Outcome (Sent Interval)
  unfolding perform_action
  timer_fired t r = do
    bru_assert (elim t.identifier [ none ↦ false | some i ↦ is_id r.identifier i ])
    perform_action (record r { timer = none; state = active_waiting })

  -- A message to a deferred that may be nil.
  abbrev pub resolving : Option ℕ → Bool → Option Error → List (Effect Interval)
  resolving none success error = []
  resolving (some d) success error = resolve d success error ∷ []

  abbrev pub registering : Option ℕ → Option ℕ → List (Effect Interval)
  registering d none = []
  registering none (some block) = []
  registering (some d) (some block) = register d block ∷ []

  -- The branches of `startWithCompletionBlock:`: the object, the messages and `identifier`.
  unfoldable pub start_branch :
      State → (uuid deferred : ℕ) → Retry Interval → Outcome (Sent Interval × Option ℕ)
  unfolding perform_action
  start_branch idle uuid d r = do
    (r', sent) ←
        perform_action
          (record r { deferred = some d; identifier = some uuid; state = active_waiting })
    done ((r', sent), r'.identifier)
  start_branch delaying uuid d r = done ((r, []), none)
  start_branch active_waiting uuid d r = done ((r, []), none)
  start_branch active_cancelling uuid d r =
      done ((record r { state = active_waiting }, []), r.identifier)

  abbrev pub reset : Retry Interval → Retry Interval
  reset r = record r {
    timer = none;
    attempt = 0;
    state = idle;
    current_delay = r.delay;
    identifier = none;
    deferred = none;
  }

  -- The branches of `cancel:` once the identifier matches.
  unfoldable pub cancel_branch : State → Retry Interval → Sent Interval × Bool
  cancel_branch idle r = ((r, []), false)
  cancel_branch delaying r =
      ((reset r, suspend_timer ∷ resolving r.deferred false (some (cancelled r.identifier))), true)
  cancel_branch active_waiting r = ((record r { state = active_cancelling }, []), true)
  cancel_branch active_cancelling r = ((r, []), false)

  -- The body of `handleResult:…` above its last call.
  unfoldable pub settle :
      Bool → Option Error → Response → Interval → Retry Interval → Outcome (Sent Interval)
  unfolding schedule_next_action
  settle success error response next_delay r =
      if success || (is_cancelling r.state || is_stop response)
      then done (
        record r {
          state = idle;
          attempt = 0;
          current_delay = r.delay;
          identifier = none;
          deferred = none;
        },
        resolving r.deferred success
            (if not success && is_cancelling r.state then some (cancelled r.identifier) else error),
      )
      else schedule_next_action (record r { current_delay = next_delay })

  module _ (equals : Interval → Interval → Bool) where
    unfoldable pub start :
        (uuid deferred : ℕ) → Option ℕ → Retry Interval → Outcome (Sent Interval × ℕ)
    unfolding start_branch check_invariants
    start uuid d completion r = do
      ((r', sent), identifier) ← start_branch r.state uuid d r
      check_invariants equals r'
      elim identifier [
        | none ↦ Outcome.fatal
        | some i ↦ done ((r', sent ++ registering r'.deferred completion), i)
      ]

    unfoldable pub cancel : ℕ → Retry Interval → Outcome (Sent Interval × Bool)
    unfolding cancel_branch check_invariants
    cancel identifier r =
        let ((r', sent), success) = cancel_branch r.state r in
        if is_id r.identifier identifier
        then (check_invariants equals r' >> done ((r', sent), success))
        else done ((r, []), false)

    unfoldable pub handle_result :
        Bool → Option Error → Response → Interval → Retry Interval → Outcome (Sent Interval)
    unfolding settle check_invariants
    handle_result success error response next_delay r = do
      (r', sent) ← settle success error response next_delay r
      check_invariants equals r'
      done (r', sent)

    -- The block that the continuation block of attempt `attempt` puts on `syncQueue`.
    unfoldable pub continue :
        (attempt : ℕ) → Bool → Option Error → Status → Retry Interval → Outcome (Sent Interval)
    unfolding handle_result
    continue attempt success error status r = do
      bru_assert (success && is_none error || not success && is_some error)
      if success || (is_cancelling r.state || is_final status)
          then handle_result success error stop r.current_delay r
          else done (r, run_policy success error attempt r.current_delay ∷ [])
