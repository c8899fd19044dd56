-- ===== src/Retry/Promise.antt =====
-- A BRURetry together with the BRUDeferred of one of its operations (BromiumCoreUtils/BRURetry.m,
-- BromiumCoreUtils/BRUDeferred.m): the messages that a block on `syncQueue` sends to the deferred
-- reach it in their order; the completion blocks run on the queue of the deferred, in any order. Once
-- the object has been deallocated, each of its blocks does nothing.
pub mod Tracking
pub mod Emission
pub mod Calls
use bromium_core_utils.Prelude.{
  ℕ, ◌+◌, ◌≤◌, ◌≡◌, Bool, true, false, Option, none, some, List, [], ◌∷◌, ◌++◌, ◌==◌, if◌then◌else◌,
}
use bromium_core_utils.Prelude.Outcome.{Outcome, done, ◌>>=◌}
use bromium_core_utils.Retry.{
  Status, Response, Error, Timer, Effect, run_action, run_policy, start_timer, suspend_timer,
  resolve, register, Sent, start, cancel, handle_result, continue, timer_fired,
}
use bromium_core_utils.Retry.System.{
  System, Event, starts, cancels, continues, decides, rings, fires, fires_late, Phase, acting,
  deciding, sleeping, ringing, on_ring, opening, consume, deliver_all, Allowed, initial,
}
use bromium_core_utils.Retry.Safety.{names}
use bromium_core_utils.Deferred.System.{System as Promise, sent, count}
use bromium_core_utils.Deferred.{
  Deferred, then_do, complete, init as new_deferred, resolve as resolve_deferred,
}

-- What `then:` calls a block with: BRURetryResult.
abbrev pub RetryResult : Type 0
RetryResult = Bool × Option Error

-- How often a block was registered with a deferred.
abbrev pub pairs : (d b : ℕ) → List (ℕ × ℕ) → ℕ
pairs d b [] = 0
pairs d b ((e, c) ∷ rest) = if e == d then count b (c ∷ []) + pairs d b rest else pairs d b rest

-- The result that a deferred was resolved with last.
abbrev pub result_of : (d : ℕ) → List (ℕ × Bool × Option Error) → Option RetryResult
result_of d [] = none
result_of d ((e, success, error) ∷ rest) =
    if e == d then some (success, error) else result_of d rest

abbrev pub given : ℕ → Promise RetryResult → Promise RetryResult
given b q = sent (then_do b q.deferred) (record q { registered = q.registered ++ (b ∷ []) })

-- A message, at the deferred `d`.
unfoldable pub follow :
    {Interval : Type 0} (d : ℕ)
    → Effect Interval
    → Promise RetryResult
    → Outcome (Promise RetryResult)
unfolding then_do resolve_deferred
follow d (register e b) q = done (if e == d then given b q else q)
follow d (resolve e success error) q =
    if e == d
    then (do r ← resolve_deferred (some (success, error)) q.deferred; done (sent r q))
    else done q
follow d _ q = done q

unfoldable pub follow_all :
    {Interval : Type 0} (d : ℕ)
    → List (Effect Interval)
    → Promise RetryResult
    → Outcome (Promise RetryResult)
unfolding follow
follow_all d [] q = done q
follow_all d (e ∷ es) q = do q' ← follow d e q; follow_all d es q'

module _ {Interval : Type 0} (equals : Interval → Interval → Bool) where
  -- What a block on `syncQueue` leaves, before its messages are delivered, and the messages.
  abbrev pub Emission : Type 0
  Emission = System Interval × List (Effect Interval)

  abbrev pub left : System Interval → Sent Interval → Emission
  left s (r, messages) = (record s { retry = r }, messages)

  abbrev pub emit_continue :
      Phase Interval → Bool → Option Error → Status → System Interval → Outcome Emission
  emit_continue (acting a) success error status s = do
    sent ← continue equals a success error status s.retry
    done (left (consume s) sent)
  emit_continue _ success error status s = done (s, [])

  abbrev pub emit_decide : Phase Interval → Response → Interval → System Interval → Outcome Emission
  emit_decide (deciding success error a) response next s = do
    sent ← handle_result equals success error response next s.retry
    done (left (consume s) sent)
  emit_decide _ response next s = done (s, [])

  abbrev pub emit_fire : Phase Interval → System Interval → Outcome Emission
  emit_fire (sleeping t) s = do sent ← timer_fired t s.retry; done (left (consume s) sent)
  emit_fire (ringing t) s = do sent ← timer_fired t s.retry; done (left (consume s) sent)
  emit_fire _ s = done (s, [])

  abbrev pub emit_late : List (Timer Interval) → System Interval → Outcome Emission
  emit_late [] s = done (s, [])
  emit_late (t ∷ ts) s = do sent ← timer_fired t s.retry; done (left (record s { late = ts }) sent)

  unfoldable pub emit : Event Interval → System Interval → Outcome Emission
  unfolding start cancel
  emit (starts uuid d completion) s = do
    (sent, identifier) ← start equals uuid d completion s.retry
    done (left (record s { opened = opening s.retry.state d s.opened }) sent)
  emit (cancels identifier) s = do
    (sent, success) ← cancel equals identifier s.retry
    done (left s sent)
  emit (continues success error status) s = emit_continue s.phase success error status s
  emit (decides response next) s = emit_decide s.phase response next s
  emit rings s = done (on_ring equals s.phase s, [])
  emit fires s = emit_fire s.phase s
  emit fires_late s = emit_late s.late s

  -- The deferreds of the operations started, behind an event.
  abbrev pub opened_after : Event Interval → System Interval → List ℕ
  opened_after (starts uuid d completion) s = opening s.retry.state d s.opened
  opened_after _ s = s.opened

  -- The object and the deferred.
  abbrev pub Both : Type 0
  Both = System Interval × Promise RetryResult

  unfoldable pub both_step : (d : ℕ) → Event Interval → Both → Outcome Both
  unfolding emit follow_all
  both_step d e (s, q) = do
    (s', messages) ← emit e s
    q' ← follow_all d messages q
    done (deliver_all messages s', q')

  -- What runs a completion block of the deferred: `startWithCompletionBlock:` registered a block
  -- around it, which returns without calling it once the object has been deallocated.
  unfoldable pub run_completion :
      (released : Bool) (b : ℕ) → (waiting : List ℕ) → Promise RetryResult → Promise RetryResult
  unfolding complete
  run_completion released b waiting q =
      let called = if released then q.called else complete b q.deferred ∷ q.called in
      record q { completions = waiting; called = called }

  -- And whether the object has been deallocated.
  pub record Whole : Type 0 where
    pub both : Both
    pub released : Bool

  -- Events of the object, its deallocation, after which none of its blocks does anything, and
  -- completions of the deferred. No two operations have the same deferred.
  pub data Reach (zero_interval delay : Interval) (d : ℕ) : Whole → Type 0 where
    new : Reach zero_interval delay d (record {
      both = (
        initial zero_interval delay,
        record {
          deferred = new_deferred;
          completions = [];
          called = [];
          registered = [];
          dispatched = [];
        },
      );
      released = false;
    })
    events :
        {w : Whole} {t : Both} (e : Event Interval)
        → Reach zero_interval delay d w
        → w.released ≡ false
        → Allowed e w.both.0
        → both_step d e w.both ≡ done t
        → count d (opened_after e w.both.0) ≤ 1
        → Reach zero_interval delay d (record w { both = t })
    releases :
        {w : Whole}
        → Reach zero_interval delay d w
        → Reach zero_interval delay d (record w { released = true })
    completes :
        {w : Whole} (xs ys : List ℕ) (b : ℕ)
        → Reach zero_interval delay d w
        → w.both.1.completions ≡ xs ++ (b ∷ ys)
        → Reach zero_interval delay d
            (record w { both = (w.both.0, run_completion w.released b (xs ++ ys) w.both.1) })
