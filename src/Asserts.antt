-- ===== src/Asserts.antt =====
-- BromiumCoreUtils/BRUAsserts.h and BRUAsserts.m: what the assertion macros write and whether the
-- process goes on, in a debug and in a release build. A message is an element of `Text`; `stack` is
-- the description of the call stack.
mod Abstraction
mod Examples
use bromium_core_utils.Prelude.{Bool, true, false, not, List, [], ◌∷◌, if◌then◌else◌}
use bromium_core_utils.Prelude.Outcome.{Outcome, done, fatal}

-- Whether DEBUG is defined.
pub data Build : Type 0 where
  debug release : Build

-- The messages written, and how it goes on.
pub record Report (Text : Type 0) : Type 0 where
  pub written : List Text
  pub outcome : Outcome (Unit {0})

module _ {Text : Type 0} where
  -- `((void)0)`.
  abbrev pub silence : Report Text
  silence = record { written = []; outcome = done tt }

  unfoldable pub bold_complain : (msg : Text) → Report Text
  bold_complain msg = record { written = msg ∷ []; outcome = done tt }

  unfoldable pub bold_complain_and_die : (stack msg : Text) → Report Text
  unfolding bold_complain
  bold_complain_and_die stack msg = record { written = msg ∷ (stack ∷ []); outcome = fatal }

  -- `_bru_assert_flavoured`.
  unfoldable pub assert_flavoured :
      (flavour : Text → Report Text) → Bool → (msg : Text) → Report Text
  assert_flavoured flavour c msg = if not c then flavour msg else silence

  module _ (stack : Text) where
    -- `BRUAssertAlwaysFatal`, with `_bru_ASSERT_ALWAYS_FATAL`.
    unfoldable pub assert_always_fatal : Bool → (msg : Text) → Report Text
    unfolding assert_flavoured bold_complain_and_die
    assert_always_fatal cond msg = assert_flavoured (bold_complain_and_die stack) cond msg

    -- `BRUAssertDebugLog`, with `_bru_ASSERT_DEBUG_LOG`.
    unfoldable pub assert_debug_log : Build → Bool → (msg : Text) → Report Text
    unfolding assert_flavoured bold_complain
    assert_debug_log debug cond msg = assert_flavoured bold_complain cond msg
    assert_debug_log release cond msg = silence

    -- `BRUAssertDebugFatal`, with `_bru_ASSERT_DEBUG`.
    unfoldable pub assert_debug_fatal : Build → Bool → (msg : Text) → Report Text
    unfolding assert_always_fatal
    assert_debug_fatal debug cond msg = assert_always_fatal cond msg
    assert_debug_fatal release cond msg = silence

    -- `BRUAssert`, with `_bru_ASSERT`.
    unfoldable pub assert : Build → Bool → (msg : Text) → Report Text
    unfolding assert_always_fatal
    assert debug cond msg = assert_always_fatal cond msg
    assert release cond msg = assert_always_fatal cond msg

    -- `BRUParameterAssert`; the message names the condition.
    unfoldable pub parameter_assert : Build → Bool → (invalid_parameter : Text) → Report Text
    unfolding assert
    parameter_assert build cond invalid_parameter = assert build cond invalid_parameter

    -- `BRU_ASSERT_NOT_REACHED`, whose abort() is behind a failed assertion.
    unfoldable pub assert_not_reached : (msg : Text) → Report Text
    unfolding assert_always_fatal
    assert_not_reached msg = assert_always_fatal false msg
