-- ===== src/Timer.antt =====
-- BromiumCoreUtils/BRUTimer.m: a timer over dispatch queues. The object's fields are changed by
-- blocks on its serial queue `syncQ`; the blocks and calls that are still to run are the jobs of a
-- list, and any of them may be the next. `Interval` stands for NSTimeInterval, `adjust` for the
-- block `adjustFun`.
pub mod Chains
pub mod Runs
pub mod Scheduled
pub mod Modes
pub mod Contract
pub mod Documented
mod Examples
use bromium_core_utils.Prelude.{
  ℕ, ◌+◌, ◌%◌, ◌^◌, Bool, true, false, not, ◌&&◌, ◌||◌, Option, none, some, List, [], ◌∷◌, ◌++◌,
  ltb, leb, ◌==◌, if◌then◌else◌,
}
use bromium_core_utils.Prelude.Outcome.{Outcome, done, ◌>>=◌, ◌>>◌, bru_assert}

-- `BRUTimerMode`.
pub data Mode : Type 0 where
  between_block_executions clocked_on_wall_clock : Mode

pub record Timer (Interval : Type 0) : Type 0 where
  pub initial_interval : Interval
  pub current_interval : Interval
  pub repeat : Bool
  pub mode : Mode
  pub running : Bool
  pub generation : ℕ

pub data Job : Type 0 where
  -- A call of `setupTimer` that has not yet read the generation.
  setup : Job
  -- The block of `dispatch_after`, with the generation that it captured.
  callback : (gen : ℕ) → Job
  -- The block on the global queue that a callback leaves behind.
  elapsed : Job
  -- The user's block on the target queue, and whether `setupTimerBlock` runs after it.
  execution : (post_fire : Bool) → Job
  -- The block of `setRunning:`.
  set_running : Bool → Job

module _ {Interval : Type 0} where
  -- `initWithInterval:block:onQueue:repeats:mode:adjustInterval:`.
  unfoldable pub init : Interval → Bool → Mode → Timer Interval
  init interval repeat mode = record {
    initial_interval = interval;
    current_interval = interval;
    repeat = repeat;
    mode = mode;
    running = false;
    generation = 0;
  }

  -- `resumeWithUpdateInterval:interval:`: its block on `syncQ`, and then the call of `setupTimer`.
  -- `generation` is an NSUInteger.
  unfoldable pub resume_with : Bool → Interval → Timer Interval → Timer Interval × List Job
  resume_with update interval t = (
    record t {
      current_interval = if update then interval else t.current_interval;
      generation = (t.generation + 1) % 2 ^ 64;
      running = true;
    },
    setup ∷ [],
  )

  unfoldable pub restart : Timer Interval → Timer Interval × List Job
  unfolding resume_with
  restart t = resume_with true t.initial_interval t

  unfoldable pub restart_with_interval : Interval → Timer Interval → Timer Interval × List Job
  unfolding resume_with
  restart_with_interval interval t = resume_with true interval t

  unfoldable pub start : Timer Interval → Outcome (Timer Interval × List Job)
  unfolding restart
  start t = do bru_assert (not t.running); done (restart t)

  unfoldable pub resume : (zero_interval : Interval) → Timer Interval → Timer Interval × List Job
  unfolding resume_with
  resume zero_interval t = resume_with false zero_interval t

  -- `suspend` only asks for a change of `_running`.
  unfoldable pub suspend : Timer Interval → Timer Interval × List Job
  suspend t = (t, set_running false ∷ [])

  unfoldable pub fire : Timer Interval → Timer Interval × List Job
  fire t = (t, execution false ∷ [])

  -- `setupTimer` up to `dispatch_after`.
  abbrev pub setup_timer : Timer Interval → List Job
  setup_timer t = callback t.generation ∷ []

  -- The block on the global queue.
  unfoldable pub run_elapsed : Mode → Timer Interval → List Job
  run_elapsed between_block_executions t = execution true ∷ []
  run_elapsed clocked_on_wall_clock t =
      (if t.repeat then setup_timer t else []) ++ (execution false ∷ [])

  module _ (adjust : Interval → Interval) where
    -- The block of `dispatch_after`, on `syncQ`.
    unfoldable pub run_callback : ℕ → Timer Interval → Outcome (Timer Interval × List Job)
    run_callback gen t = do
      bru_assert (ltb 0 t.generation && leb gen t.generation)
      if not (gen == t.generation) || not t.running
          then done (t, [])
          else done (
            record t {
              current_interval = adjust t.current_interval;
              running = if t.repeat then t.running else false;
            },
            elapsed ∷ [],
          )

    -- The next job runs; what it leaves to do is returned.
    unfoldable pub run_job : Job → Timer Interval → Outcome (Timer Interval × List Job)
    unfolding run_callback run_elapsed
    run_job setup t = done (t, setup_timer t)
    run_job (callback gen) t = run_callback gen t
    run_job elapsed t = done (t, run_elapsed t.mode t)
    run_job (execution post_fire) t = done (t, if post_fire && t.repeat then setup ∷ [] else [])
    run_job (set_running b) t = done (record t { running = b }, [])
