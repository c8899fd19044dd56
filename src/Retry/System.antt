-- ===== src/Retry/System.antt =====
-- A BRURetry with the queues and blocks around it: the action block owes one continuation, the
-- policy block one response and a running timer one call. `step` runs one block on `syncQueue`
-- (BromiumCoreUtils/BRURetry.m) and delivers its messages. Suspending a timer does not take back the
-- block that it has already put on `syncQueue`: that one runs late.
use bromium_core_utils.Prelude.{
  ℕ, ◌+◌, ◌^◌, ◌<◌, ◌≡◌, ◌⊎◌, Bool, true, false, not, ◌&&◌, ◌||◌, Option, List, [], ◌∷◌, is_some,
  is_none,
}
use bromium_core_utils.Prelude.Outcome.{Outcome, done, ◌>>=◌}
use bromium_core_utils.Retry.{
  Status, Response, State, idle, active_cancelling, Error, Timer, Retry, Effect, run_action,
  run_policy, start_timer, suspend_timer, resolve, register, Sent, init, start, cancel,
  handle_result, continue, timer_fired,
}

-- What the current operation waits for.
pub data Phase (Interval : Type 0) : Type 0 where
  quiet : Phase Interval
  acting : ℕ → Phase Interval
  deciding : Bool → Option Error → ℕ → Phase Interval
  sleeping : Timer Interval → Phase Interval
  -- The timer has fired, and its block is on `syncQueue`.
  ringing : Timer Interval → Phase Interval

pub record System (Interval : Type 0) : Type 0 where
  pub retry : Retry Interval
  pub phase : Phase Interval
  -- Blocks on `syncQueue` of timers that were suspended since.
  pub late : List (Timer Interval)
  pub opened : List ℕ
  pub resolved : List (ℕ × Bool × Option Error)
  pub registered : List (ℕ × ℕ)

pub data Event (Interval : Type 0) : Type 0 where
  starts : (uuid deferred : ℕ) → Option ℕ → Event Interval
  cancels : ℕ → Event Interval
  continues : Bool → Option Error → Status → Event Interval
  decides : Response → Interval → Event Interval
  rings fires fires_late : Event Interval

-- A start from idle makes a new deferred.
abbrev pub opening : State → ℕ → List ℕ → List ℕ
opening idle d ds = d ∷ ds
opening _ d ds = ds

module _ {Interval : Type 0} where
  abbrev pub is_ringing : Phase Interval → Bool
  is_ringing (ringing t) = true
  is_ringing _ = false

  -- The block that the timer leaves on `syncQueue` when it is suspended.
  abbrev pub left_behind : Phase Interval → List (Timer Interval) → List (Timer Interval)
  left_behind (ringing t) ts = t ∷ ts
  left_behind _ ts = ts

  abbrev pub deliver : Effect Interval → System Interval → System Interval
  deliver (run_action a) s = record s { phase = acting a }
  deliver (run_policy success error a d) s = record s { phase = deciding success error a }
  deliver (start_timer t) s = record s { phase = sleeping t }
  deliver suspend_timer s = record s { phase = quiet; late = left_behind s.phase s.late }
  deliver (resolve d success error) s = record s { resolved = (d, success, error) ∷ s.resolved }
  deliver (register d block) s = record s { registered = (d, block) ∷ s.registered }

  abbrev pub deliver_all : List (Effect Interval) → System Interval → System Interval
  deliver_all [] s = s
  deliver_all (e ∷ es) s = deliver_all es (deliver e s)

  abbrev pub after : System Interval → Sent Interval → System Interval
  after s (r, sent) = deliver_all sent (record s { retry = r })

  -- A block that is owed runs once.
  abbrev pub consume : System Interval → System Interval
  consume s = record s { phase = quiet }

  abbrev pub initial : Interval → Interval → System Interval
  initial zero_interval delay = record {
    retry = init zero_interval delay;
    phase = quiet;
    late = [];
    opened = [];
    resolved = [];
    registered = [];
  }

  module _ (equals : Interval → Interval → Bool) where
    abbrev pub on_continue :
        Phase Interval → Bool → Option Error → Status → System Interval → Outcome (System Interval)
    on_continue (acting a) success error status s = do
      sent ← continue equals a success error status s.retry
      done (after (consume s) sent)
    on_continue _ success error status s = done s

    abbrev pub on_decide :
        Phase Interval → Response → Interval → System Interval → Outcome (System Interval)
    on_decide (deciding success error a) response next s = do
      sent ← handle_result equals success error response next s.retry
      done (after (consume s) sent)
    on_decide _ response next s = done s

    -- A timer that still sleeps puts its block on the queue first.
    abbrev pub on_fire : Phase Interval → System Interval → Outcome (System Interval)
    on_fire (sleeping t) s = do sent ← timer_fired t s.retry; done (after (consume s) sent)
    on_fire (ringing t) s = do sent ← timer_fired t s.retry; done (after (consume s) sent)
    on_fire _ s = done s

    abbrev pub on_ring : Phase Interval → System Interval → System Interval
    on_ring (sleeping t) s = record s { phase = ringing t }
    on_ring _ s = s

    abbrev pub on_late : List (Timer Interval) → System Interval → Outcome (System Interval)
    on_late [] s = done s
    on_late (t ∷ ts) s = do sent ← timer_fired t s.retry; done (after (record s { late = ts }) sent)

    unfoldable pub step : Event Interval → System Interval → Outcome (System Interval)
    step (starts uuid d completion) s = do
      (sent, identifier) ← start equals uuid d completion s.retry
      done (after (record s { opened = opening s.retry.state d s.opened }) sent)
    step (cancels identifier) s = do
      (sent, success) ← cancel equals identifier s.retry
      done (after s sent)
    step (continues success error status) s = on_continue s.phase success error status s
    step (decides response next) s = on_decide s.phase response next s
    step rings s = done (on_ring s.phase s)
    step fires s = on_fire s.phase s
    step fires_late s = on_late s.late s

  -- The conditions under which the class answers for what follows. A start is taken while no
  -- operation runs or the running one is being cancelled; a cancellation not while the block of the
  -- timer is on `syncQueue` (that block would fail its assertion, behind the cancellation); the
  -- action reports an error exactly when it fails; and the attempts do not reach the limit of
  -- NSUInteger.
  abbrev pub Allowed : Event Interval → System Interval → Type 0
  Allowed (starts uuid d completion) s =
      (s.retry.state ≡ idle) ⊎ (s.retry.state ≡ active_cancelling)
  Allowed (cancels identifier) s = is_ringing s.phase ≡ false
  Allowed (continues success error status) s =
      (success && is_none error || not success && is_some error) ≡ true
  Allowed fires s = s.retry.attempt + 1 < 2 ^ 64
  Allowed _ s = Unit
