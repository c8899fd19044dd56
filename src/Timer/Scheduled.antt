-- ===== src/Timer/Scheduled.antt =====
-- The constructors of BromiumCoreUtils/BRUTimer.m: those that leave the timer suspended and those
-- that resume it before they return it. A block or queue that may be nil is an option; `new_queue`
-- stands for the serial queue that is created for a timer without one.
use bromium_core_utils.Prelude.{Bool, Option, none, some, List, []}
use bromium_core_utils.Timer.{Timer, Mode, between_block_executions, Job, init, resume}

-- A timer with the two ivars that it never changes, and the jobs that its calls have left.
pub record Object (Interval Queue : Type 0) : Type 0 where
  pub timer : Timer Interval
  pub adjust : Interval → Interval
  pub target_q : Queue
  pub jobs : List Job

-- `adjustFun ?: ^(BRUTimer *t, NSTimeInterval iv) { return iv; }`
abbrev pub adjust_of : {Interval : Type 0} → Option (Interval → Interval) → Interval → Interval
adjust_of none interval = interval
adjust_of (some f) interval = f interval

-- `userTargetQueue ?: bru_dispatch_queue_create(...)`
abbrev pub target_of : {Queue : Type 0} → (new_queue : Queue) → Option Queue → Queue
target_of new_queue none = new_queue
target_of new_queue (some q) = q

module _ {Interval Queue : Type 0} (new_queue : Queue) where
  -- `initWithInterval:block:onQueue:repeats:mode:adjustInterval:`.
  unfoldable pub init_with_mode :
      Interval → Option Queue → Bool → Mode → Option (Interval → Interval) → Object Interval Queue
  unfolding init
  init_with_mode interval target_queue repeat mode adjust_fun = record {
    timer = init interval repeat mode;
    adjust = adjust_of adjust_fun;
    target_q = target_of new_queue target_queue;
    jobs = [];
  }

  -- `initWithInterval:block:onQueue:repeats:adjustInterval:`.
  unfoldable pub init_without_mode :
      Interval → Option Queue → Bool → Option (Interval → Interval) → Object Interval Queue
  unfolding init_with_mode
  init_without_mode interval target_queue repeat adjust_fun =
      init_with_mode interval target_queue repeat between_block_executions adjust_fun

module _ {Interval Queue : Type 0} (zero_interval : Interval) (new_queue : Queue) where
  -- `scheduledTimerWithInterval:block:onQueue:repeats:mode:adjustInterval:`.
  unfoldable pub scheduled_with_mode :
      Interval → Option Queue → Bool → Mode → Option (Interval → Interval) → Object Interval Queue
  unfolding init_with_mode resume
  scheduled_with_mode interval target_queue repeat mode adjust_fun =
      let t = init_with_mode new_queue interval target_queue repeat mode adjust_fun in
      let r = resume zero_interval t.timer in record t { timer = r.0; jobs = r.1 }

  -- `scheduledTimerWithInterval:block:onQueue:repeats:adjustInterval:`.
  unfoldable pub scheduled_on_queue_adjusted :
      Interval → Option Queue → Bool → Option (Interval → Interval) → Object Interval Queue
  unfolding scheduled_with_mode
  scheduled_on_queue_adjusted interval target_queue repeat adjust_fun =
      scheduled_with_mode interval target_queue repeat between_block_executions adjust_fun

  -- `scheduledTimerWithInterval:block:onQueue:repeats:`.
  unfoldable pub scheduled_on_queue : Interval → Option Queue → Bool → Object Interval Queue
  unfolding scheduled_on_queue_adjusted
  scheduled_on_queue interval target_queue repeat =
      scheduled_on_queue_adjusted interval target_queue repeat none

  -- `scheduledTimerWithInterval:block:repeats:adjustInterval:`.
  unfoldable pub scheduled_adjusted :
      Interval → Bool → Option (Interval → Interval) → Object Interval Queue
  unfolding scheduled_on_queue_adjusted
  scheduled_adjusted interval repeat adjust_fun =
      scheduled_on_queue_adjusted interval none repeat adjust_fun

  -- `scheduledTimerWithInterval:block:repeats:`.
  unfoldable pub scheduled : Interval → Bool → Object Interval Queue
  unfolding scheduled_on_queue_adjusted
  scheduled interval repeat = scheduled_on_queue_adjusted interval none repeat none
