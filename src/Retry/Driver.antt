-- ===== src/Retry/Driver.antt =====
-- A BRURetry with any action and any policy, run attempt by attempt (BromiumCoreUtils/BRURetry.m).
use bromium_core_utils.Prelude.{
  ℕ, zero, suc, ◌+◌, ◌^◌, ◌<◌, ◌≡◌, Bool, true, false, none, some, List, [], ◌∷◌, is_some, arith,
}
use bromium_core_utils.Prelude.Outcome.{Outcome, done, fatal, ◌>>=◌, Returns}
use bromium_core_utils.Retry.{
  transient, final, Response, retry, stop, delaying, Error, continue, handle_result, timer_fired,
}
use bromium_core_utils.Retry.System.{
  System, Event, Phase, deciding, sleeping, continues, decides, fires, step,
}
use bromium_core_utils.Retry.Attempts.{IsActing, IsClosed}
use bromium_core_utils.Retry.Contract.{Result, succeeded, failed, Policy}

-- What a run of the object came to.
pub record Run (Interval : Type 0) : Type 0 where
  pub system : System Interval
  pub attempt : ℕ
  pub waits : List Interval

module _ {Interval : Type 0} where
  -- The call of the continuation block.
  abbrev pub reported : Result → Event Interval
  reported succeeded = continues true none transient
  reported (failed e status) = continues false (some e) status

  -- The object sleeps with its timer set to `d`, after the attempt of `s`.
  abbrev pub IsNapping : ℕ → Interval → System Interval → System Interval → Type 0
  IsNapping deferred d s t =
      (t.retry.state ≡ delaying)
      × (t.retry.deferred ≡ some deferred)
      × (t.retry.attempt ≡ s.retry.attempt)
      × (t.retry.delay ≡ s.retry.delay)
      × (t.retry.current_delay ≡ d)
      × (is_some t.retry.identifier ≡ true)
      × (t.resolved ≡ s.resolved)
      × (t.phase ≡ sleeping (record { interval = d; identifier = t.retry.identifier }))

  abbrev pub IsAwake : ℕ → Interval → System Interval → System Interval → Type 0
  IsAwake deferred d s t =
      IsActing deferred t
      × (t.retry.attempt ≡ suc s.retry.attempt)
      × (t.retry.delay ≡ s.retry.delay)
      × (t.retry.current_delay ≡ d)
      × (t.resolved ≡ s.resolved)

  module _ (equals : Interval → Interval → Bool) (action : ℕ → Result)
      (policy : Policy Interval) where
    abbrev pub answered : Response × Interval → System Interval → Outcome (System Interval)
    answered (response, d) s = step equals (decides response d) s

    -- The policy block, when it is owed.
    abbrev pub asked : Phase Interval → System Interval → Outcome (System Interval)
    asked (deciding success (some e) a) s = answered (policy e a s.retry.current_delay) s
    asked _ s = done s

    -- One attempt: the action reports, and the policy answers if it is asked.
    unfoldable pub after_action : System Interval → Outcome (System Interval)
    after_action s = do s' ← step equals (reported (action s.retry.attempt)) s; asked s'.phase s'

    abbrev pub continued :
        (System Interval → Outcome (Run Interval))
        → Phase Interval
        → ℕ
        → System Interval
        → Outcome (Run Interval)
    continued next (sleeping t) k s = do
      s' ← step equals fires s
      r ← next s'
      done (record r { waits = t.interval ∷ r.waits })
    continued next _ k s = done (record { system = s; attempt = k; waits = [] })

    -- Attempts, with timers that fire between them. The fuel bounds the attempts.
    unfoldable pub drive : ℕ → System Interval → Outcome (Run Interval)
    unfolding after_action
    drive zero s = fatal
    drive (suc fuel) s = do s' ← after_action s; continued (drive fuel) s'.phase s.retry.attempt s'

    pub after_success :
        (d : ℕ) (s : System Interval)
        → equals s.retry.delay s.retry.delay ≡ true
        → IsActing d s
        → action s.retry.attempt ≡ succeeded
        → Returns (IsClosed d none s) (after_action s)
    unfolding after_action step continue handle_result
    after_success d s h a e = ground arith

    pub after_final :
        (d : ℕ) (x : Error) (s : System Interval)
        → equals s.retry.delay s.retry.delay ≡ true
        → IsActing d s
        → action s.retry.attempt ≡ failed x final
        → Returns (IsClosed d (some x) s) (after_action s)
    unfolding after_action step continue handle_result
    after_final d x s h a e = ground arith

    pub after_stop :
        (d : ℕ) (x : Error) (i : Interval) (s : System Interval)
        → equals s.retry.delay s.retry.delay ≡ true
        → IsActing d s
        → action s.retry.attempt ≡ failed x transient
        → policy x s.retry.attempt s.retry.current_delay ≡ (stop, i)
        → Returns (IsClosed d (some x) s) (after_action s)
    unfolding after_action step continue handle_result
    after_stop d x i s h a e p = ground arith

    pub after_retry :
        (d : ℕ) (x : Error) (i : Interval) (s : System Interval)
        → IsActing d s
        → 0 < s.retry.attempt
        → action s.retry.attempt ≡ failed x transient
        → policy x s.retry.attempt s.retry.current_delay ≡ (retry, i)
        → Returns (IsNapping d i s) (after_action s)
    unfolding after_action step continue handle_result
    after_retry d x i s a z e p = ground arith

    pub fires-IsAwake :
        (d : ℕ) (i : Interval) (s t : System Interval)
        → s.retry.attempt + 1 < 2 ^ 64
        → IsNapping d i s t
        → Returns (IsAwake d i s) (step equals fires t)
    unfolding step timer_fired
    fires-IsAwake d i s t b a = ground arith
