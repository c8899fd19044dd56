-- ===== src/ConcurrentBox.antt =====
-- BromiumCoreUtils/BRUConcurrentBox.m: a box that is empty or full, shared by threads through an
-- NSCondition. `turn` is the critical section of a method between taking the lock and giving it up,
-- by returning or by waiting on the condition; `nil` is `none`.
pub mod Threads
pub mod Order
pub mod Contract
pub mod Linear
mod Examples
use bromium_core_utils.Prelude.{Bool, true, false, Option, none, some, is_none}
use bromium_core_utils.Prelude.Outcome.{Outcome, done, fatal}

-- A call of a method. `try_take_until` is the only one whose wait can time out: `take` waits until
-- `distantFuture`.
pub data Call (A : Type 0) : Type 0 where
  put : A → Call A
  try_put : A → Call A
  take : Call A
  try_take_until : Call A
  try_take : Call A
  swap_with_value : A → Call A
  try_swap_with_value : A → Call A
  is_empty : Call A

pub data Answer (A : Type 0) : Type 0 where
  unit : Answer A
  flag : Bool → Answer A
  value : Option A → Answer A

-- How a turn ends: the method waits, or it returns and leaves the box with some content, after a
-- broadcast or without one.
pub data Turn (A : Type 0) : Type 0 where
  waits : Turn A
  returns : Option A → (broadcast : Bool) → Answer A → Turn A

module _ {A : Type 0} where
  unfoldable pub turn : Call A → Option A → Turn A
  turn (put x) none = returns (some x) true unit
  turn (put x) (some y) = waits
  turn (try_put x) none = returns (some x) true (flag true)
  turn (try_put x) (some y) = returns (some y) false (flag false)
  turn take none = waits
  turn take (some y) = returns none true (value (some y))
  turn try_take_until none = waits
  turn try_take_until (some y) = returns none true (value (some y))
  turn try_take none = returns none false (value none)
  turn try_take (some y) = returns none true (value (some y))
  turn (swap_with_value x) none = waits
  turn (swap_with_value x) (some y) = returns (some x) true (value (some y))
  turn (try_swap_with_value x) old = returns (some x) true (value old)
  turn is_empty content = returns content false (flag (is_none content))

  -- A wait of `tryTakeUntil:` that times out returns nil, and does not look at the box again.
  unfoldable pub time_out : Call A → Option (Answer A)
  time_out try_take_until = some (value none)
  time_out _ = none

  -- `emptyBox` and `boxWithValue:`, which puts into a box that is empty.
  unfoldable pub empty_box : Option A
  empty_box = none

  unfoldable pub box_with_value : A → Option A
  unfolding turn empty_box
  box_with_value x = elim (turn (put x) empty_box) [
    | waits ↦ empty_box
    | returns content broadcast answer ↦ content
  ]
