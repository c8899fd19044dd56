-- ===== src/Timer/Contract.antt =====
-- What the comments of BromiumCoreUtils/BRUTimer.h promise of the constructors and of the calls.
use bromium_core_utils.Prelude.{ℕ, ◌≡◌, Bool, true, false, Option, none, some, List, [], ◌∷◌, ◌++◌}
use bromium_core_utils.Prelude.Outcome.{Outcome, done, Returns}
use bromium_core_utils.Timer.{
  Timer, Mode, between_block_executions, Job, set_running, execution, run_job,
}
use bromium_core_utils.Timer.Chains.{live}
use bromium_core_utils.Timer.Runs.{System, Runs}
use bromium_core_utils.Timer.Scheduled.{Object}

module _ {Interval : Type 0} where
  -- The jobs can run in an order in which a callback fires.
  abbrev pub CanFire : (Interval → Interval) → System Interval → Type 0
  CanFire adjust s = (t : System Interval) × Runs adjust s 1 t

  -- They cannot, in any order.
  abbrev pub IsSilent : (Interval → Interval) → System Interval → Type 0
  IsSilent adjust s = (n : ℕ) (t : System Interval) → Runs adjust s n t → n ≡ 0

  abbrev pub left : Timer Interval × List Job → List Job → System Interval
  left r js = record { timer = r.0; jobs = r.1 ++ js }

module _ {Interval : Type 0} (adjust : Interval → Interval) (js : List Job) where
  -- The timer runs with this current interval, its initial one is as before, and it may fire.
  pub record IsRunningWith (interval : Interval) (t : Timer Interval)
      (r : Timer Interval × List Job) : Type 0 where
    pub running : r.0.running ≡ true
    pub current_interval : r.0.current_interval ≡ interval
    pub initial_interval : r.0.initial_interval ≡ t.initial_interval
    pub fires : CanFire adjust (left r js)

  -- Initially starts the timer.
  abbrev pub StartDocumented : Timer Interval → Outcome (Timer Interval × List Job) → Type 0
  StartDocumented t = Returns (IsRunningWith t.initial_interval t)

  -- The same as `resume`, with the interval back to the initial interval.
  abbrev pub RestartDocumented :
      (resume : Timer Interval → Timer Interval × List Job)
      → Timer Interval
      → Timer Interval × List Job
      → Type 0
  RestartDocumented resume t r =
      (r ≡ resume (record t { current_interval = t.initial_interval }))
      × IsRunningWith t.initial_interval t r

  -- Sets a new current interval, but not the initial one: `restart` resets to that, while `resume`
  -- remains at the new interval.
  abbrev pub RestartWithIntervalDocumented :
      (restart resume : Timer Interval → Timer Interval × List Job)
      → (interval : Interval) → Timer Interval
      → Timer Interval × List Job
      → Type 0
  RestartWithIntervalDocumented restart resume interval t r =
      IsRunningWith interval t r
      × ((restart r.0).0.current_interval ≡ t.initial_interval)
      × ((resume r.0).0.current_interval ≡ interval)

  -- Stops the timer from firing again: once the block that it leaves has run.
  abbrev pub SuspendDocumented : Timer Interval → Timer Interval × List Job → Type 0
  SuspendDocumented t r =
      (r ≡ (t, set_running false ∷ []))
      × (run_job adjust (set_running false) t ≡ done (record t { running = false }, []))
      × IsSilent adjust (left (record t { running = false }, []) js)

  -- Lets the timer fire again.
  abbrev pub ResumeDocumented : Timer Interval → Timer Interval × List Job → Type 0
  ResumeDocumented t = IsRunningWith t.current_interval t

  -- One execution of the block, which leaves the timer and its chains as they are.
  abbrev pub FireDocumented : Timer Interval → Timer Interval × List Job → Type 0
  FireDocumented t r =
      (r.0 ≡ t)
      × (run_job adjust (execution false) t ≡ done (t, []))
      × (r.1 ≡ execution false ∷ [])
      × ((g : ℕ) → live g (r.1 ++ js) ≡ live g js)

-- The queue that was given, and a new one where none was.
abbrev pub IsQueue : {Queue : Type 0} → (new_queue : Queue) → Option Queue → Queue → Type 0
IsQueue new_queue none kept = kept ≡ new_queue
IsQueue new_queue (some queue) kept = kept ≡ queue

-- The block that was given; where none was, each interval is left as it is.
abbrev pub IsAdjust :
    {Interval : Type 0} → Option (Interval → Interval) → (Interval → Interval) → Type 0
IsAdjust {Interval} none kept = (i : Interval) → kept i ≡ i
IsAdjust {Interval} (some adjust_fun) kept = (i : Interval) → kept i ≡ adjust_fun i

-- The fields of a new timer, and the queue and the function that it got.
pub record IsMade {Interval Queue : Type 0} (interval : Interval) (new_queue : Queue)
    (queue : Option Queue) (repeat : Bool) (mode : Mode) (adjust_fun : Option (Interval → Interval))
    (o : Object Interval Queue) : Type 0 where
  pub initial_interval : o.timer.initial_interval ≡ interval
  pub current_interval : o.timer.current_interval ≡ interval
  pub repeat_kept : o.timer.repeat ≡ repeat
  pub mode_kept : o.timer.mode ≡ mode
  pub target_kept : IsQueue new_queue queue o.target_q
  pub adjusted : IsAdjust adjust_fun o.adjust

module _ {Interval Queue : Type 0} (new_queue : Queue) where
  -- A suspended timer: it does not run, and nothing is left that could make it fire.
  abbrev pub InitDocumented :
      Interval
      → Option Queue
      → Bool
      → Mode
      → Option (Interval → Interval)
      → Object Interval Queue
      → Type 0
  InitDocumented interval queue repeat mode adjust_fun o =
      IsMade interval new_queue queue repeat mode adjust_fun o
      × (o.timer.running ≡ false)
      × (o.jobs ≡ [])

  -- In the mode BRUTimerModeIntervalBetweenBlockExecutions.
  abbrev pub InitWithoutModeDocumented :
      Interval → Option Queue → Bool → Option (Interval → Interval) → Object Interval Queue → Type 0
  InitWithoutModeDocumented interval queue repeat adjust_fun o =
      IsMade interval new_queue queue repeat between_block_executions adjust_fun o
      × (o.timer.running ≡ false)
      × (o.jobs ≡ [])

  -- A running timer, with one chain of callbacks, which fires.
  abbrev pub IsScheduled : Object Interval Queue → Type 0
  IsScheduled o =
      (o.timer.running ≡ true)
      × (live o.timer.generation o.jobs ≡ 1)
      × CanFire o.adjust (record { timer = o.timer; jobs = o.jobs })

  abbrev pub ScheduledWithMode :
      Interval
      → Option Queue
      → Bool
      → Mode
      → Option (Interval → Interval)
      → Object Interval Queue
      → Type 0
  ScheduledWithMode interval queue repeat mode adjust_fun o =
      IsMade interval new_queue queue repeat mode adjust_fun o × IsScheduled o

  abbrev pub ScheduledOnQueueAdjusted :
      Interval → Option Queue → Bool → Option (Interval → Interval) → Object Interval Queue → Type 0
  ScheduledOnQueueAdjusted interval queue repeat adjust_fun o =
      IsMade interval new_queue queue repeat between_block_executions adjust_fun o × IsScheduled o

  abbrev pub ScheduledOnQueue : Interval → Option Queue → Bool → Object Interval Queue → Type 0
  ScheduledOnQueue interval queue repeat o =
      IsMade interval new_queue queue repeat between_block_executions none o × IsScheduled o

  abbrev pub ScheduledAdjusted :
      Interval → Bool → Option (Interval → Interval) → Object Interval Queue → Type 0
  ScheduledAdjusted interval repeat adjust_fun o =
      IsMade interval new_queue none repeat between_block_executions adjust_fun o × IsScheduled o

  abbrev pub Scheduled : Interval → Bool → Object Interval Queue → Type 0
  Scheduled interval repeat o =
      IsMade interval new_queue none repeat between_block_executions none o × IsScheduled o
