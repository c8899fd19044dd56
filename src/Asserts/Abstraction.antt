-- ===== src/Asserts/Abstraction.antt =====
-- What the other modules use of the assertions (BromiumCoreUtils/BRUAsserts.h) is what the macros do.
use bromium_core_utils.Prelude.{◌≡◌, ◌↔◌, Bool, true, false, [], arith}
use bromium_core_utils.Prelude.Outcome.{done, fatal, bru_assert}
use bromium_core_utils.Asserts.{
  Build, debug, release, silence, assert_always_fatal, assert_debug_log, assert_debug_fatal, assert,
  parameter_assert, assert_not_reached,
}

-- In both builds `BRUAssert`, `BRUParameterAssert` and `BRUAssertAlwaysFatal` let the process go on
-- exactly when the condition holds, and write something exactly when they do not.
-- `BRUAssertDebugFatal` does the same in a debug build only, and `BRUAssertDebugLog` never ends the
-- process; both do nothing in a release build. `BRU_ASSERT_NOT_REACHED` always ends it. With a
-- condition that holds nothing is written by any of them.
pub asserts_abstracted :
    {Text : Type 0} (stack msg : Text) (build : Build) (cond : Bool)
    → ((assert stack build cond msg).outcome ≡ bru_assert cond)
      × ((parameter_assert stack build cond msg).outcome ≡ bru_assert cond)
      × ((assert_always_fatal stack cond msg).outcome ≡ bru_assert cond)
      × (((assert stack build cond msg).written ≡ []) ↔ (cond ≡ true))
      × ((assert_debug_fatal stack debug cond msg).outcome ≡ bru_assert cond)
      × ((assert_debug_log stack build cond msg).outcome ≡ done tt)
      × (assert_debug_fatal stack release cond msg ≡ silence)
      × (assert_debug_log stack release cond msg ≡ silence)
      × (((assert_debug_log stack debug cond msg).written ≡ []) ↔ (cond ≡ true))
      × ((assert_not_reached stack msg).outcome ≡ fatal)
unfolding assert parameter_assert assert_always_fatal assert_debug_fatal assert_debug_log
    assert_not_reached
asserts_abstracted stack msg debug true = ground arith
asserts_abstracted stack msg debug false = ground arith
asserts_abstracted stack msg release true = ground arith
asserts_abstracted stack msg release false = ground arith
