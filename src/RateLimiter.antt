-- ===== src/RateLimiter.antt =====
-- BromiumCoreUtils/BRURateLimiter.m: results go through a BRUConcurrentBox to a block that is
-- called with one of them at a time. `jobs` counts the blocks on the serial queue `syncQueue`, and
-- `suspensions` the calls of `dispatch_suspend` that have not been undone. A completion block is
-- named by the number of results delivered before it.
pub mod Delivery
mod Examples
use bromium_core_utils.Prelude.{
  ℕ, suc, ◌+◌, ◌-◌, ◌<◌, Bool, true, false, not, Option, none, some, List, [], ◌∷◌, length, ◌==◌,
  ◌||◌, is_none, if◌then◌else◌,
}
use bromium_core_utils.Prelude.Outcome.{Outcome, done, fatal, ◌>>=◌, ◌>>◌, bru_assert}
use bromium_core_utils.ConcurrentBox.{
  Turn, waits, returns, turn, take, try_swap_with_value, value, Answer,
}

pub record RateLimiter (A : Type 0) : Type 0 where
  pub box : Option A
  -- Calls of `setResult:` that are between the swap and `dispatch_async`.
  pub dispatching : ℕ
  pub jobs : ℕ
  pub suspensions : ℕ
  pub completion_block : Option ℕ
  -- The completion blocks whose `completionBlockDidRun` is set.
  pub did_run : List ℕ
  -- What the result block was called with, newest first.
  pub delivered : List A

abbrev pub elem : ℕ → List ℕ → Bool
elem k [] = false
elem k (x ∷ xs) = x == k || elem k xs

module _ {A : Type 0} where
  -- `initWithTargetQueue:resultBlock:`.
  unfoldable pub init : RateLimiter A
  init = record {
    box = none;
    dispatching = 0;
    jobs = 0;
    suspensions = 0;
    completion_block = none;
    did_run = [];
    delivered = [];
  }

  abbrev swapped : RateLimiter A → Turn A → RateLimiter A
  swapped r (returns content broadcast (value none)) = record r {
    box = content;
    dispatching = suc r.dispatching;
  }
  swapped r (returns content broadcast answer) = record r { box = content }
  swapped r waits = r

  -- `setResult:` up to the `if`, and the `dispatch_async` behind it.
  unfoldable pub set_result : A → RateLimiter A → RateLimiter A
  unfolding turn
  set_result x r = swapped r (turn (try_swap_with_value x) r.box)

  unfoldable pub dispatch : RateLimiter A → RateLimiter A
  dispatch r = record r { dispatching = r.dispatching - 1; jobs = suc r.jobs }

  -- `performSetResult:`.
  unfoldable pub perform_set_result : A → RateLimiter A → Outcome (RateLimiter A)
  perform_set_result x r = do
    bru_assert (is_none r.completion_block)
    done (record r {
      completion_block = some (length r.delivered);
      suspensions = suc r.suspensions;
      delivered = x ∷ r.delivered;
    })

  -- The block on `syncQueue`. `none` means that `take` waits.
  abbrev taken : RateLimiter A → Turn A → Option (Outcome (RateLimiter A))
  taken r (returns content broadcast (value (some x))) =
      some (perform_set_result x (record r { box = content }))
  taken r (returns content broadcast answer) = some fatal
  taken r waits = none

  unfoldable pub run_job : RateLimiter A → Option (Outcome (RateLimiter A))
  unfolding perform_set_result turn
  run_job r = taken (record r { jobs = r.jobs - 1 }) (turn take r.box)

  -- The completion block `k`.
  unfoldable pub complete : ℕ → RateLimiter A → Outcome (RateLimiter A)
  complete k r = do
    bru_assert (not (elem k r.did_run))
    done (record r {
      did_run = k ∷ r.did_run;
      completion_block = none;
      suspensions = r.suspensions - 1;
    })

  -- `dealloc` of a limiter.
  unfoldable pub dealloc : RateLimiter A → Outcome (RateLimiter A)
  unfolding complete
  dealloc r = do
    r' ← elim r.completion_block [ none ↦ done r | some k ↦ complete k r ]
    bru_assert (is_none r'.completion_block)
    done r'
