-- ===== src/Timer/Modes.antt =====
-- When a repeating BRUTimer fires in its two modes (the documentation of the class in
-- BromiumCoreUtils/BRUTimer.h): the jobs of BromiumCoreUtils/BRUTimer.m with the times at which they
-- run. Times and intervals are numbers; a job runs as soon as it can, and the user's block takes
-- `duration`.
use bromium_core_utils.Prelude.{
  ℕ, zero, suc, ◌+◌, ◌<◌, ◌≡◌, refl, true, Option, none, some, List, [], ◌∷◌, ◌++◌, arith,
}
use bromium_core_utils.Prelude.Outcome.{Outcome, done, ◌>>=◌}
use bromium_core_utils.Timer.{
  Timer, Mode, between_block_executions, clocked_on_wall_clock, Job, callback, execution,
  run_callback, run_elapsed, run_job,
}

-- The time inbetween fires starts when the execution of the last block ends, or is clocked.
abbrev pub inbetween : Mode → (interval duration : ℕ) → ℕ
inbetween between_block_executions interval duration = duration + interval
inbetween clocked_on_wall_clock interval duration = interval

-- When the first callback of the list, dispatched at this time, is due.
abbrev due : (now : ℕ) → Timer ℕ → List Job → Option ℕ
due now t [] = none
due now t (callback gen ∷ js) = some (now + t.current_interval)
due now t (j ∷ js) = due now t js

abbrev executions : List Job → List Job
executions [] = []
executions (execution p ∷ js) = execution p ∷ executions js
executions (j ∷ js) = executions js

module _ (adjust : ℕ → ℕ) (duration : ℕ) where
  -- The jobs run one after another; what they leave.
  unfoldable pub run_jobs : List Job → Timer ℕ → Outcome (Timer ℕ × List Job)
  unfolding run_job
  run_jobs [] t = done (t, [])
  run_jobs (j ∷ js) t = do
    (u, new) ← run_job adjust j t
    (v, more) ← run_jobs js u
    done (v, new ++ more)

  -- The timer fires now: when does it next? The block on the global queue sets the timer up now, or
  -- leaves that to the user's block, which ends after `duration`.
  unfoldable pub next_fire : ℕ × Timer ℕ → Outcome (Option (ℕ × Timer ℕ))
  unfolding run_callback run_elapsed run_jobs
  next_fire (now, t) = do
    (u, waiting) ← run_callback adjust t.generation t
    (v, js) ← run_jobs waiting u
    (w, after) ← run_jobs (executions js) v
    (z, last) ← run_jobs after w
    done (elim (due now v js) [
      | some time ↦ some (time, v)
      | none ↦ elim (due (now + duration) z last) [ none ↦ none | some time ↦ some (time, z) ]
    ])

  -- The fire with this number, from 0 on.
  unfoldable pub fire_at : ℕ → ℕ × Timer ℕ → Outcome (Option (ℕ × Timer ℕ))
  unfolding next_fire
  fire_at zero s = done (some s)
  fire_at (suc k) s = do r ← next_fire s; elim r [ none ↦ done none | some s' ↦ fire_at k s' ]

  -- Each fire adjusts the interval, and the next one is that much after it, or after its block.
  abbrev pub schedule : Mode → (k now interval : ℕ) → ℕ
  schedule mode zero now interval = now
  schedule mode (suc k) now interval =
      schedule mode k (now + inbetween mode (adjust interval) duration) (adjust interval)

  abbrev pub adjusted : (k interval : ℕ) → ℕ
  adjusted zero interval = interval
  adjusted (suc k) interval = adjusted k (adjust interval)

  next_fire_parts :
      (now initial interval gen : ℕ) (mode : Mode)
      → 0 < gen
      → let t : Timer ℕ = record {
        initial_interval = initial;
        current_interval = interval;
        repeat = true;
        mode = mode;
        running = true;
        generation = gen;
      } in
        next_fire (now, t)
        ≡ done (
            some (
              now + inbetween mode (adjust interval) duration,
              record t { current_interval = adjust interval },
            ))
  unfolding next_fire run_jobs run_job run_callback run_elapsed
  next_fire_parts now initial interval gen between_block_executions g = ground arith
  next_fire_parts now initial interval gen clocked_on_wall_clock g = ground arith

  next_fire_lem :
      (now : ℕ) (t : Timer ℕ)
      → 0 < t.generation
      → t.repeat ≡ true
      → t.running ≡ true
      → next_fire (now, t)
        ≡ done (
            some (
              now + inbetween t.mode (adjust t.current_interval) duration,
              record t { current_interval = adjust t.current_interval },
            ))
  unfolding next_fire run_jobs run_job run_callback run_elapsed
  next_fire_lem now t g p r =
      rw (p, r) (next_fire_parts now t.initial_interval t.current_interval t.generation t.mode g)

  -- A repeating timer that runs and fires at some time fires for the `k`th time after that when the
  -- documentation of its mode says: each fire is one adjusted interval after the fire before it
  -- (BRUTimerModeIntervalClockedOnWallClockTime), or after the end of that fire's block
  -- (BRUTimerModeIntervalBetweenBlockExecutions), if nobody calls the timer meanwhile and every job
  -- runs as soon as it can.
  pub fire_at-schedule :
      (k now : ℕ) (t : Timer ℕ)
      → 0 < t.generation
      → t.repeat ≡ true
      → t.running ≡ true
      → fire_at k (now, t)
        ≡ done (
            some (
              schedule t.mode k now t.current_interval,
              record t { current_interval = adjusted k t.current_interval },
            ))
  unfolding fire_at
  fire_at-schedule zero now t g p r = refl
  fire_at-schedule (suc k) now t g p r = rw (next_fire_lem now t g p r) (
      fire_at-schedule k (now + inbetween t.mode (adjust t.current_interval) duration)
        (record t { current_interval = adjust t.current_interval }) g p r)
