-- ===== src/Timer/Documented.antt =====
-- The calls and constructors of BromiumCoreUtils/BRUTimer.m keep what BRUTimer.h promises of them.
use bromium_core_utils.Prelude.{
  ◌+◌, ◌^◌, ◌<◌, ◌≡◌, refl, sym, subst, Bool, true, false, not, Option, none, some, List, [], ◌∷◌,
  if◌then◌else◌, arith,
}
use bromium_core_utils.Prelude.Outcome.{done, ◌>>◌, bru_assert}
use bromium_core_utils.Timer.{
  Timer, Mode, between_block_executions, Job, setup, callback, elapsed, resume_with, restart,
  restart_with_interval, start, resume, suspend, fire, run_job, run_callback, init,
}
use bromium_core_utils.Timer.Runs.{here, next, IsSound, suspended_silent}
use bromium_core_utils.Timer.Scheduled.{
  adjust_of, target_of, init_with_mode, init_without_mode, scheduled_with_mode,
  scheduled_on_queue_adjusted, scheduled_on_queue, scheduled_adjusted, scheduled,
}
use bromium_core_utils.Timer.Contract.{
  CanFire, left, IsRunningWith, IsQueue, IsAdjust, StartDocumented, RestartDocumented,
  RestartWithIntervalDocumented, SuspendDocumented, ResumeDocumented, FireDocumented,
  InitDocumented, InitWithoutModeDocumented, ScheduledWithMode, ScheduledOnQueueAdjusted,
  ScheduledOnQueue, ScheduledAdjusted, Scheduled,
}

module _ {Interval : Type 0} (adjust : Interval → Interval) (js : List Job) where
  -- A callback of the present generation of a running timer fires.
  run_callback_fires :
      (t : Timer Interval)
      → 0 < t.generation
      → t.running ≡ true
      → run_job adjust (callback t.generation) t
        ≡ done (
          record t {
            current_interval = adjust t.current_interval;
            running = if t.repeat then t.running else false;
          },
          elapsed ∷ [],
        )
  unfolding run_job run_callback
  run_callback_fires t h r = ground arith

  set-up_fires :
      (t : Timer Interval)
      → 0 < t.generation
      → t.running ≡ true
      → CanFire adjust (left (t, setup ∷ []) js)
  unfolding run_job
  set-up_fires t h r = (
    _,
    next [] js (elapsed ∷ []) (callback t.generation) _ 1
        (next [] js (callback t.generation ∷ []) setup t 0 here refl refl refl) refl
        (run_callback_fires t h r) refl,
  )

  resume_with-IsRunningWith :
      (update : Bool) (i : Interval) (t : Timer Interval)
      → t.generation + 1 < 2 ^ 64
      → IsRunningWith adjust js
          (if update then i else t.current_interval)
          t
          (resume_with update i t)
  unfolding resume_with
  resume_with-IsRunningWith update i t h = record {
    running = refl;
    current_interval = refl;
    initial_interval = refl;
    fires = set-up_fires _ (omega arith) refl;
  }

  restart_lem :
      (zero_interval : Interval) (t : Timer Interval)
      → t.generation + 1 < 2 ^ 64
      → RestartDocumented adjust js (resume zero_interval) t (restart t)
  unfolding restart resume resume_with
  restart_lem zero_interval t h = (refl, resume_with-IsRunningWith true t.initial_interval t h)

  restart_with_interval_lem :
      (zero_interval interval : Interval) (t : Timer Interval)
      → t.generation + 1 < 2 ^ 64
      → RestartWithIntervalDocumented adjust js restart
          (resume zero_interval)
          interval
          t
          (restart_with_interval interval t)
  unfolding restart_with_interval restart resume resume_with
  restart_with_interval_lem zero_interval interval t h =
      (resume_with-IsRunningWith true interval t h, refl, refl)

  start_lem :
      (t : Timer Interval)
      → t.generation + 1 < 2 ^ 64
      → t.running ≡ false
      → StartDocumented adjust js t (start t)
  unfolding start restart
  start_lem t h r =
      subst
        (λ b.
          StartDocumented adjust js t
            (do bru_assert (not b); done (resume_with true t.initial_interval t)))
        (sym r) (resume_with-IsRunningWith true t.initial_interval t h)

  suspend_lem :
      (t : Timer Interval)
      → IsSound (record { timer = t; jobs = js })
      → SuspendDocumented adjust js t (suspend t)
  unfolding suspend run_job
  suspend_lem t s = (refl, refl, λ n v r. (suspended_silent adjust s refl r).0)

  resume_lem :
      (zero_interval : Interval) (t : Timer Interval)
      → t.generation + 1 < 2 ^ 64
      → ResumeDocumented adjust js t (resume zero_interval t)
  unfolding resume
  resume_lem zero_interval t h = resume_with-IsRunningWith false zero_interval t h

  fire_lem : (t : Timer Interval) → FireDocumented adjust js t (fire t)
  unfolding fire run_job
  fire_lem t = (refl, refl, refl, λ g. omega arith)

  -- The calls do what their comments promise: `start` for a timer that is not running, and those
  -- that let it run as long as the generation counter does not wrap. Once the block that `suspend`
  -- leaves has run, no callback that waits, in whatever order, fires or schedules anything; a block
  -- of the user that a callback or `fire` scheduled before may still run.
  pub calls_documented :
      (zero_interval interval : Interval) (stopped t : Timer Interval)
      → stopped.generation + 1 < 2 ^ 64
      → stopped.running ≡ false
      → t.generation + 1 < 2 ^ 64
      → IsSound (record { timer = t; jobs = js })
      → StartDocumented adjust js stopped (start stopped)
        × RestartDocumented adjust js (resume zero_interval) t (restart t)
        × RestartWithIntervalDocumented adjust js restart
            (resume zero_interval)
            interval
            t
            (restart_with_interval interval t)
        × SuspendDocumented adjust js t (suspend t)
        × ResumeDocumented adjust js t (resume zero_interval t)
        × FireDocumented adjust js t (fire t)
  calls_documented zero_interval interval stopped t g r h s = (
    start_lem stopped g r,
    restart_lem zero_interval t h,
    restart_with_interval_lem zero_interval interval t h,
    suspend_lem t s,
    resume_lem zero_interval t h,
    fire_lem t,
  )

target_of-IsQueue :
    {Queue : Type 0} (new_queue : Queue) (queue : Option Queue)
    → IsQueue new_queue queue (target_of new_queue queue)
target_of-IsQueue new_queue none = refl
target_of-IsQueue new_queue (some queue) = refl

adjust_of-IsAdjust :
    {Interval : Type 0} (adjust_fun : Option (Interval → Interval))
    → IsAdjust adjust_fun (adjust_of adjust_fun)
adjust_of-IsAdjust none = λ i. refl
adjust_of-IsAdjust (some adjust_fun) = λ i. refl

module _ {Interval Queue : Type 0} (new_queue : Queue) where
  init_with_mode-IsMade :
      (interval : Interval) (queue : Option Queue) (repeat : Bool) (mode : Mode)
      (adjust_fun : Option (Interval → Interval))
      → InitDocumented new_queue interval queue repeat mode adjust_fun
          (init_with_mode new_queue interval queue repeat mode adjust_fun)
  unfolding init_with_mode init
  init_with_mode-IsMade interval queue repeat mode adjust_fun = (
    record {
      initial_interval = refl;
      current_interval = refl;
      repeat_kept = refl;
      mode_kept = refl;
      target_kept = target_of-IsQueue new_queue queue;
      adjusted = adjust_of-IsAdjust adjust_fun;
    },
    refl,
    refl,
  )

module _ {Interval Queue : Type 0} (zero_interval : Interval) (new_queue : Queue) where
  scheduled_with_mode_lem :
      (interval : Interval) (queue : Option Queue) (repeat : Bool) (mode : Mode)
      (adjust_fun : Option (Interval → Interval))
      → ScheduledWithMode new_queue interval queue repeat mode adjust_fun
          (scheduled_with_mode zero_interval new_queue interval queue repeat mode adjust_fun)
  unfolding scheduled_with_mode init_with_mode init resume resume_with
  scheduled_with_mode_lem interval queue repeat mode adjust_fun =
      let t = init interval repeat mode in
      let r =
        resume_with-IsRunningWith (adjust_of adjust_fun) [] false zero_interval t (omega arith) in
      (
        record {
          initial_interval = refl;
          current_interval = refl;
          repeat_kept = refl;
          mode_kept = refl;
          target_kept = target_of-IsQueue new_queue queue;
          adjusted = adjust_of-IsAdjust adjust_fun;
        },
        (refl, omega arith, r.fires),
      )

  -- For all arguments the initialisers make a suspended timer with what was asked for, and the
  -- class methods one that runs and fires: on the given queue and with the given block that adjusts
  -- the interval; and with the mode BRUTimerModeIntervalBetweenBlockExecutions, a new queue and the
  -- interval unadjusted where these are not given. (For the queue, BRUTimer.h names another default.)
  pub timers_documented :
      (interval : Interval) (queue : Option Queue) (repeat : Bool) (mode : Mode)
      (adjust_fun : Option (Interval → Interval))
      → InitDocumented new_queue interval queue repeat mode adjust_fun
          (init_with_mode new_queue interval queue repeat mode adjust_fun)
        × InitWithoutModeDocumented new_queue interval queue repeat adjust_fun
            (init_without_mode new_queue interval queue repeat adjust_fun)
        × ScheduledWithMode new_queue interval queue repeat mode adjust_fun
            (scheduled_with_mode zero_interval new_queue interval queue repeat mode adjust_fun)
        × ScheduledOnQueueAdjusted new_queue interval queue repeat adjust_fun
            (scheduled_on_queue_adjusted zero_interval new_queue interval queue repeat adjust_fun)
        × ScheduledOnQueue new_queue interval queue repeat
            (scheduled_on_queue zero_interval new_queue interval queue repeat)
        × ScheduledAdjusted new_queue interval repeat adjust_fun
            (scheduled_adjusted zero_interval new_queue interval repeat adjust_fun)
        × Scheduled new_queue interval repeat (scheduled zero_interval new_queue interval repeat)
  unfolding init_without_mode scheduled_on_queue_adjusted scheduled_on_queue scheduled_adjusted
      scheduled
  timers_documented interval queue repeat mode adjust_fun = (
    init_with_mode-IsMade new_queue interval queue repeat mode adjust_fun,
    init_with_mode-IsMade new_queue interval queue repeat between_block_executions adjust_fun,
    scheduled_with_mode_lem interval queue repeat mode adjust_fun,
    scheduled_with_mode_lem interval queue repeat between_block_executions adjust_fun,
    scheduled_with_mode_lem interval queue repeat between_block_executions none,
    scheduled_with_mode_lem interval none repeat between_block_executions adjust_fun,
    scheduled_with_mode_lem interval none repeat between_block_executions none,
  )
