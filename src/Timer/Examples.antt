-- ===== src/Timer/Examples.antt =====
-- Timers whose intervals are numbers (BromiumCoreUtils/BRUTimer.m).
use bromium_core_utils.Prelude.{
  ℕ, suc, ◌≤◌, ◌≡◌, refl, ◌⊎◌, true, false, Option, none, some, List, [], ◌∷◌, ◌++◌, arith,
}
use bromium_core_utils.Prelude.Outcome.{done}
use bromium_core_utils.Timer.{
  Timer, between_block_executions, clocked_on_wall_clock, Job, setup, callback, elapsed,
  set_running, resume_with, run_job, start, restart, restart_with_interval, suspend, resume, fire,
}
use bromium_core_utils.Timer.Chains.{live, in_flight, live-resume_with}
use bromium_core_utils.Timer.Runs.{
  System, chains, resumed, Runs, here, next, chains-resumed, suspended_silent, one_shot_fires_once,
}
use bromium_core_utils.Timer.Scheduled.{
  init_with_mode, init_without_mode, scheduled_with_mode, scheduled_on_queue_adjusted,
  scheduled_on_queue, scheduled_adjusted, scheduled,
}
use bromium_core_utils.Timer.Contract.{
  StartDocumented, RestartDocumented, RestartWithIntervalDocumented, SuspendDocumented,
  ResumeDocumented, FireDocumented, InitDocumented, InitWithoutModeDocumented, ScheduledWithMode,
  ScheduledOnQueueAdjusted, ScheduledOnQueue, ScheduledAdjusted, Scheduled,
}
use bromium_core_utils.Timer.Documented.{calls_documented, timers_documented}
use bromium_core_utils.Timer.Modes.{
  fire_at, schedule, adjusted, next_fire, run_jobs, fire_at-schedule,
}

abbrev keep : ℕ → ℕ
keep n = n

-- How often a callback fires in the runs below.
abbrev never : ℕ
never = 0

abbrev once : ℕ
once = 1

abbrev ticking : Timer ℕ
ticking = record {
  initial_interval = 5;
  current_interval = 5;
  repeat = true;
  mode = between_block_executions;
  running = true;
  generation = 1;
}

abbrev waiting_jobs : List Job
waiting_jobs = callback 1 ∷ (elapsed ∷ [])

live-resume_with_example :
    live
      (resume_with false 0 ticking).0.generation
      ((resume_with false 0 ticking).1 ++ waiting_jobs)
    ≡ suc (in_flight waiting_jobs)
live-resume_with_example =
    live-resume_with false 0 ticking waiting_jobs (omega arith)
      ((omega arith, omega arith), (omega arith, tt))

-- A timer that waits in a callback is restarted; the new callback fires, and the stale one does not.
abbrev pausing : System ℕ
pausing = record { timer = ticking; jobs = callback 1 ∷ [] }

abbrev fired : System ℕ
fired = record { timer = record ticking { generation = 2 }; jobs = elapsed ∷ (callback 1 ∷ []) }

fired-Runs : Runs keep (resumed true 5 pausing) 1 fired
unfolding resume_with run_job
fired-Runs =
    next [] (callback 1 ∷ []) (elapsed ∷ []) (callback 2) fired.timer 1
      (next [] (callback 1 ∷ []) (callback 2 ∷ []) setup fired.timer 0 here refl refl refl) refl
      refl refl

chains-resumed_example :
    (chains fired ≤ 1)
    × ((pausing.timer.repeat ≡ false) ⊎ ((fired.timer.running ≡ false) ⊎ (chains fired ≡ 1)))
chains-resumed_example =
    chains-resumed keep true 5 pausing (omega arith) ((omega arith, omega arith), tt) refl
      fired-Runs

-- A suspended timer whose callback is still waiting.
abbrev suspended : System ℕ
suspended = record {
  timer = record ticking { running = false };
  jobs = callback 1 ∷ (set_running false ∷ []);
}

abbrev drained : System ℕ
drained = record { timer = record ticking { running = false }; jobs = set_running false ∷ [] }

drained-Runs : Runs keep suspended never drained
unfolding run_job
drained-Runs = next [] (set_running false ∷ []) [] (callback 1) drained.timer 0 here refl refl refl

suspended_silent_example : (never ≡ 0) × (drained.timer.running ≡ false)
suspended_silent_example =
    suspended_silent keep ((omega arith, omega arith), (refl, tt)) refl drained-Runs

-- A timer that does not repeat.
abbrev single : System ℕ
single = record { timer = record ticking { repeat = false }; jobs = callback 1 ∷ [] }

abbrev spent : System ℕ
spent = record {
  timer = record ticking { repeat = false; running = false; generation = 2 };
  jobs = elapsed ∷ (callback 1 ∷ []);
}

spent-Runs : Runs keep (resumed true 5 single) once spent
unfolding resume_with run_job
spent-Runs =
    next [] (callback 1 ∷ []) (elapsed ∷ []) (callback 2) spent.timer 1
      (next [] (callback 1 ∷ []) (callback 2 ∷ []) setup
        (record ticking { repeat = false; generation = 2 }) 0 here refl refl refl)
      refl refl refl

one_shot_fires_once_example : (once ≡ 0) ⊎ ((once ≡ 1) × (spent.timer.running ≡ false))
one_shot_fires_once_example =
    one_shot_fires_once keep true 5 single (omega arith) ((omega arith, omega arith), tt) refl
      spent-Runs

abbrev resting : Timer ℕ
resting = record ticking { running = false }

-- The calls on the ticking timer while a callback waits.
calls_documented_example :
    StartDocumented keep (callback 1 ∷ []) resting (start resting)
    × RestartDocumented keep (callback 1 ∷ []) (resume 0) ticking (restart ticking)
    × RestartWithIntervalDocumented keep
        (callback 1 ∷ [])
        restart
        (resume 0)
        9
        ticking
        (restart_with_interval 9 ticking)
    × SuspendDocumented keep (callback 1 ∷ []) ticking (suspend ticking)
    × ResumeDocumented keep (callback 1 ∷ []) ticking (resume 0 ticking)
    × FireDocumented keep (callback 1 ∷ []) ticking (fire ticking)
calls_documented_example =
    calls_documented keep (callback 1 ∷ []) 0 9 resting ticking (omega arith) refl (omega arith)
      ((omega arith, omega arith), tt)

-- A timer of 5 seconds on queue 2; queue 1 is the one that would be created.
abbrev on_queue : Option ℕ
on_queue = some 2

abbrev new_queue : ℕ
new_queue = 1

abbrev five : ℕ
five = 5

abbrev unadjusted : Option (ℕ → ℕ)
unadjusted = none

timers_documented_example :
    InitDocumented new_queue five on_queue true between_block_executions unadjusted
      (init_with_mode new_queue five on_queue true between_block_executions unadjusted)
    × InitWithoutModeDocumented new_queue five on_queue true unadjusted
        (init_without_mode new_queue five on_queue true unadjusted)
    × ScheduledWithMode new_queue five on_queue true between_block_executions unadjusted
        (scheduled_with_mode 0 new_queue five on_queue true between_block_executions unadjusted)
    × ScheduledOnQueueAdjusted new_queue five on_queue true unadjusted
        (scheduled_on_queue_adjusted 0 new_queue five on_queue true unadjusted)
    × ScheduledOnQueue new_queue five on_queue true
        (scheduled_on_queue 0 new_queue five on_queue true)
    × ScheduledAdjusted new_queue five true unadjusted
        (scheduled_adjusted 0 new_queue five true unadjusted)
    × Scheduled new_queue five true (scheduled 0 new_queue five true)
timers_documented_example =
    timers_documented 0 new_queue five on_queue true between_block_executions unadjusted

-- The timer of the documentation: an interval of 1, and a block that takes 5.
abbrev slow : Timer ℕ
slow = record ticking { current_interval = 1; initial_interval = 1 }

abbrev slow_clocked : Timer ℕ
slow_clocked = record slow { mode = clocked_on_wall_clock }

slow_third_fire : fire_at keep 5 3 (0, slow) ≡ done (some (18, slow))
unfolding fire_at next_fire run_jobs run_job
slow_third_fire = refl

slow_clocked_third_fire : fire_at keep 5 3 (0, slow_clocked) ≡ done (some (3, slow_clocked))
unfolding fire_at next_fire run_jobs run_job
slow_clocked_third_fire = refl

abbrev third : ℕ
third = 3

fire_at-schedule_example :
    fire_at keep 5 third (0, slow)
    ≡ done (
        some (
          schedule keep 5 between_block_executions third 0 1,
          record slow { current_interval = adjusted keep 5 third 1 },
        ))
fire_at-schedule_example = fire_at-schedule keep 5 third 0 slow (omega arith) refl refl
