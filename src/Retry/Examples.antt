-- ===== src/Retry/Examples.antt =====
-- Operations whose intervals are numbers (BromiumCoreUtils/BRURetry.m).
use bromium_core_utils.Prelude.{
  ℕ, ◌-◌, ◌≤◌, ◌<◌, ◌+◌, ◌≡◌, refl, ◌⊎◌, inl, inr, ◌==◌, Bool, true, false, Option, none, some, [],
  ◌∷◌, ◌++◌, is_none, ltb, if◌then◌else◌, arith,
}
use bromium_core_utils.Prelude.Outcome.{done, fatal, ◌>>=◌, Returns}
use bromium_core_utils.Retry.{
  retry, Retry, Timer, Error, Sent, is_idle, idle, delaying, active_waiting, active_cancelling,
  transient, reported, cancelled, run_policy, init, start, cancel, continue, timer_fired,
  registering,
}
use bromium_core_utils.Retry.System.{
  System, starts, continues, acting, quiet, initial, step, ringing,
}
use bromium_core_utils.Retry.Safety.{Inv, initial-Inv, names, or_nil}
use bromium_core_utils.Retry.Completion.{
  Reach, new, next, resolved_once, start-cancel, cancelling_settles,
}
use bromium_core_utils.Retry.Attempts.{attempts, AllFailed, operation_ends}
use bromium_core_utils.Retry.Contract.{
  Result, succeeded, failed, Policy, Ending, operation, naive_loop, CancelDocumented,
  StartDocumented,
}
use bromium_core_utils.Retry.Documented.{
  AllFail, cancel_documented, start_documented, naive_loop_unbounded,
}
use bromium_core_utils.Retry.Driver.{drive}
use bromium_core_utils.Retry.Connection.{
  Connect, Concluded, connection_action, connection_policy, connection-Concluded,
}
use bromium_core_utils.Retry.Promise.{RetryResult, Whole, new as both_new, Reach as BothReach}
use bromium_core_utils.Deferred.{pending, init as new_deferred}
use bromium_core_utils.Deferred.System.{System as Promise}
use bromium_core_utils.Retry.Operation.{operation_refined}
use bromium_core_utils.Retry.Faults.{start_running_fatal, first_policy_delay, late_timer_fatal}

abbrev eq : ℕ → ℕ → Bool
eq a b = a == b

-- A new object with a delay of 2.
abbrev fresh : System ℕ
fresh = initial 0 2

fresh-Inv : Inv 2 fresh
fresh-Inv = initial-Inv 0 2

-- The operation 7 with deferred 40 at its first attempt.
abbrev running : Retry ℕ
running = record {
  delay = 2;
  timer = none;
  attempt = 1;
  state = active_waiting;
  current_delay = 0;
  identifier = some 7;
  deferred = some 40;
}

abbrev started : System ℕ
started = record {
  retry = running;
  phase = acting 1;
  late = [];
  opened = 40 ∷ [];
  resolved = [];
  registered = (40, 9) ∷ [];
}

abbrev stopping : System ℕ
stopping = record started { retry = record running { state = active_cancelling } }

stopping-Inv : Inv 2 stopping
stopping-Inv = record {
  kept = refl;
  formed = (refl, omega arith, refl, refl);
  linked = refl;
  balanced = refl;
  punctual = refl;
}

started-Reach : Reach eq 0 2 started
unfolding step start init
started-Reach = next (starts 7 40 (some 9)) new (inl refl) refl

abbrev ended : System ℕ
ended = record {
  retry = record running {
    attempt = 0;
    state = idle;
    current_delay = 2;
    identifier = none;
    deferred = none;
  };
  phase = quiet;
  late = [];
  opened = 40 ∷ [];
  resolved = (40, true, none) ∷ [];
  registered = (40, 9) ∷ [];
}

ended-Reach : Reach eq 0 2 ended
unfolding step continue
ended-Reach = next (continues true none transient) started-Reach refl refl

resolved_once_example :
    (ended.opened ≡ or_nil ended.retry.deferred ++ names ended.resolved)
    × (is_idle ended.retry.state ≡ is_none ended.retry.deferred)
resolved_once_example = resolved_once eq 0 2 refl ended-Reach

abbrev stop_sent : Sent ℕ
stop_sent = (record running { state = active_cancelling }, [])

cancelled_ok : cancel eq 7 running ≡ done (stop_sent, true)
unfolding cancel
cancelled_ok = refl

start-cancel_example :
    start eq 8 41 (some 9) stop_sent.0 ≡ done ((running, registering running.deferred (some 9)), 7)
start-cancel_example = start-cancel eq 7 8 41 (some 9) running running refl refl cancelled_ok

cancelling_settles_example :
    Returns
      (λ t.
        (t.retry.state ≡ idle)
        × (t.phase ≡ quiet)
        × (t.resolved ≡ (40, false, some (cancelled (some 7))) ∷ []))
      (step eq (continues false (some (reported 5)) transient) stopping)
cancelling_settles_example =
    cancelling_settles eq 7 40 2 (continues false (some (reported 5)) transient) stopping refl
      stopping-Inv refl tt refl refl refl

-- An action that succeeds at its third attempt.
abbrev third_time : ℕ → Option Error
third_time k = if ltb k 3 then some (reported k) else none

fresh_idle : fresh.retry.state ≡ idle
unfolding init
fresh_idle = refl

-- An object that has its delay of 2 as the present one, as behind an operation.
abbrev rested : System ℕ
rested = initial 2 2

rested-Inv : Inv 2 rested
rested-Inv = initial-Inv 2 2

rested_idle : rested.retry.state ≡ idle
unfolding init
rested_idle = refl

rested_delay : rested.retry.current_delay ≡ 2
unfolding init
rested_delay = refl

operation_ends_example :
    Returns
      (λ r.
        (r.0.retry.state ≡ idle)
        × (r.0.phase ≡ quiet)
        × (r.0.resolved ≡ (40, is_none (third_time r.1), third_time r.1) ∷ [])
        × (1 ≤ r.1)
        × ((r.1 ≤ 1) ⊎ (r.1 ≤ 5))
        × ((third_time r.1 ≡ none) ⊎ (5 ≤ r.1))
        × AllFailed {Interval = ℕ} eq 2 5 third_time 1 (r.1 - 1))
      (step eq (starts 7 40 (some 9)) fresh >>= attempts eq 2 5 third_time 6)
operation_ends_example =
    operation_ends eq 2 5 third_time 6 7 40 (some 9) fresh refl fresh-Inv fresh_idle (omega arith)
      (omega arith)

start_running_fatal_example : start eq 8 41 none running ≡ fatal
start_running_fatal_example = start_running_fatal eq 8 41 none running (inr refl)

first_policy_delay_example :
    Returns
      (λ s.
        continue eq 1 false (some (reported 5)) transient s.0.0
        ≡ done (s.0.0, run_policy false (some (reported 5)) 1 0 ∷ []))
      (start eq 7 40 (some 9) (init 0 2))
first_policy_delay_example = first_policy_delay eq 0 2 7 40 1 5 (some 9)

abbrev nap : Timer ℕ
nap = record { interval = 2; identifier = some 7 }

abbrev asleep : Retry ℕ
asleep = record running { state = delaying; timer = some nap }

late_timer_fatal_example :
    Returns (λ s. (s.1 ≡ true) × (timer_fired nap s.0.0 ≡ fatal)) (cancel eq 7 asleep)
late_timer_fatal_example = late_timer_fatal eq 7 nap asleep refl refl refl refl

cancel_documented_example : CancelDocumented 7 running (cancel eq 7 running)
cancel_documented_example = cancel_documented eq 7 running refl (refl, omega arith, refl, refl)

start_documented_example :
    StartDocumented 8 41 stopping.retry (start eq 8 41 (some 9) stopping.retry)
start_documented_example =
    start_documented eq 8 41 (some 9) stopping.retry (inr refl) (refl, omega arith, refl, refl)

-- Connections that succeed from the third on.
abbrev third_connects : ℕ → Bool
third_connects n = ltb 2 n

naive_loop_example :
    ((naive_loop 2 third_connects 5 1 0 ≡ none) × AllFail third_connects 1 5)
    ⊎ ((m : ℕ) × (naive_loop 2 third_connects 5 1 0 ≡ some (1 + m))
        × (m < 5)
        × (third_connects (1 + m) ≡ true)
        × AllFail third_connects 1 m)
naive_loop_example = naive_loop_unbounded 2 third_connects 5 1 (omega arith)

-- An action that succeeds at its third attempt, and a policy that waits longer each time.
abbrev third_succeeds : ℕ → Result
third_succeeds k = if ltb k 3 then failed (reported k) transient else succeeded

abbrev patient : Policy ℕ
patient e k d = (retry, d + 2)

abbrev third_ending : Ending ℕ
third_ending = record { attempt = 3; error = none; waits = 4 ∷ (6 ∷ []) }

third_ends : operation third_succeeds patient 5 1 2 ≡ some third_ending
unfolding operation
third_ends = refl

operation_refined_example :
    Returns
      (λ r.
        (r.system.retry.state ≡ idle)
        × (r.system.phase ≡ quiet)
        × (r.system.resolved ≡ (40, true, none) ∷ [])
        × (r.attempt ≡ 3)
        × (r.waits ≡ 4 ∷ (6 ∷ []))
        × (r.system.retry.current_delay ≡ 2))
      (step eq (starts 7 40 (some 9)) rested >>= drive eq third_succeeds patient 5)
operation_refined_example =
    operation_refined eq third_succeeds patient 2 5 7 40 (some 9) rested third_ending refl
      rested-Inv rested_idle rested_delay (omega arith) third_ends

-- A connection that fails each time.
abbrev never_connects : Connect
never_connects k = some (reported k)

connection-Concluded_example : Returns (Concluded never_connects 2 40 2 rested) (
    step eq (starts 7 40 (some 9)) rested
    >>= drive eq (connection_action never_connects) (connection_policy 2) 3)
connection-Concluded_example =
    connection-Concluded eq never_connects 2 2 7 40 (some 9) rested refl rested-Inv rested_idle
      rested_delay (omega arith)

-- The deferred 40 with the completion block 9 of the first start.
abbrev promised : Promise RetryResult
promised = record {
  deferred = record { state = pending; value = none; then_blocks = 9 ∷ [] };
  completions = [];
  called = [];
  registered = 9 ∷ [];
  dispatched = [];
}

abbrev promised_whole : Whole eq
promised_whole = record { both = (started, promised); released = false }

-- The block of the timer `nap` is on `syncQueue`.
abbrev overslept : System ℕ
overslept = record started { retry = asleep; phase = ringing nap }
