-- ===== src/Deferred.antt =====
-- BromiumCoreUtils/BRUDeferred.m: a promise and its blocks. The fields are used on the serial queue
-- `syncQueue`; blocks are named by numbers, and those handed to `completionQueue`, which may run
-- them in any order, are in `completions`. A value may be nil (`none`).
pub mod System
pub mod Delivery
mod Examples
use bromium_core_utils.Prelude.{ℕ, Bool, true, false, Option, none, some, List, [], ◌∷◌, ◌++◌}
use bromium_core_utils.Prelude.Outcome.{Outcome, done, ◌>>=◌, ◌>>◌, bru_assert}

pub data PromiseState : Type 0 where
  pending resolved : PromiseState

pub record Deferred (A : Type 0) : Type 0 where
  pub state : PromiseState
  pub value : Option A
  pub then_blocks : List ℕ

abbrev is_pending : PromiseState → Bool
is_pending pending = true
is_pending resolved = false

module _ {A : Type 0} where
  -- `initWithTargetQueue:`.
  unfoldable pub init : Deferred A
  init = record { state = pending; value = none; then_blocks = [] }

  -- `processBlocks`, with the blocks that it puts on `completionQueue`.
  unfoldable pub process_blocks : PromiseState → Deferred A → Deferred A × List ℕ
  process_blocks pending d = (d, [])
  process_blocks resolved d = (record d { then_blocks = [] }, d.then_blocks)

  -- The block of `resolve:`.
  unfoldable pub resolve : Option A → Deferred A → Outcome (Deferred A × List ℕ)
  unfolding process_blocks
  resolve value d = do
    bru_assert (is_pending d.state)
    done (process_blocks resolved (record d { state = resolved; value = value }))

  -- The block of `then:`.
  unfoldable pub then_do : ℕ → Deferred A → Deferred A × List ℕ
  unfolding process_blocks
  then_do block d =
      process_blocks d.state (record d { then_blocks = d.then_blocks ++ (block ∷ []) })

  -- A block on `completionQueue`, which reads the value when it runs.
  unfoldable pub complete : ℕ → Deferred A → ℕ × Option A
  complete block d = (block, d.value)
