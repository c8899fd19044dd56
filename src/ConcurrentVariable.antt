-- ===== src/ConcurrentVariable.antt =====
-- BromiumCoreUtils/BRUConcurrentVariable.m: a variable whose reads and writes run one at a time on
-- a serial queue, so that calls from any threads take effect in some order. `current_value` and the
-- results are `Option`s because the code asserts that they are not nil.
pub mod Swaps
mod Examples
use bromium_core_utils.Prelude.{Option, none, some, is_some}
use bromium_core_utils.Prelude.Outcome.{Outcome, done, ◌>>=◌, ◌>>◌, bru_assert}

pub record ConcurrentVariable (A : Type 0) : Type 0 where
  pub current_value : Option A

module _ {A : Type 0} where
  -- `initWithValue:` and `newWithValue:`.
  unfoldable pub new_with_value : Option A → Outcome (ConcurrentVariable A)
  new_with_value value = do bru_assert (is_some value); done (record { current_value = value })

  unfoldable pub read_variable : ConcurrentVariable A → Outcome (Option A)
  read_variable v = do bru_assert (is_some v.current_value); done v.current_value

  unfoldable pub write_variable : Option A → ConcurrentVariable A → Outcome (ConcurrentVariable A)
  write_variable new_value v = do
    bru_assert (is_some new_value)
    done (record { current_value = new_value })

  unfoldable pub modify_variable :
      (Option A → Option A) → ConcurrentVariable A → Outcome (ConcurrentVariable A × Option A)
  modify_variable modify_block v = do
    let new_value = modify_block v.current_value
    bru_assert (is_some new_value)
    bru_assert (is_some v.current_value)
    done (record { current_value = new_value }, v.current_value)

  unfoldable pub swap_variable :
      Option A → ConcurrentVariable A → Outcome (ConcurrentVariable A × Option A)
  unfolding modify_variable
  swap_variable new_value v = do
    bru_assert (is_some new_value)
    modify_variable (λ old. new_value) v
