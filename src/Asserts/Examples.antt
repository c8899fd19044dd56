-- ===== src/Asserts/Examples.antt =====
-- Assertions whose messages are numbers (BromiumCoreUtils/BRUAsserts.h).
use bromium_core_utils.Prelude.{ℕ, ◌≡◌, ◌↔◌, true, false, []}
use bromium_core_utils.Prelude.Outcome.{done, fatal, bru_assert}
use bromium_core_utils.Asserts.{
  debug, release, silence, assert_always_fatal, assert_debug_log, assert_debug_fatal, assert,
  parameter_assert, assert_not_reached,
}
use bromium_core_utils.Asserts.Abstraction.{asserts_abstracted}

abbrev stack : ℕ
stack = 7

abbrev message : ℕ
message = 9

asserts_abstracted_example :
    ((assert stack release false message).outcome ≡ bru_assert false)
    × ((parameter_assert stack release false message).outcome ≡ bru_assert false)
    × ((assert_always_fatal stack false message).outcome ≡ bru_assert false)
    × (((assert stack release false message).written ≡ []) ↔ (false ≡ true))
    × ((assert_debug_fatal stack debug false message).outcome ≡ bru_assert false)
    × ((assert_debug_log stack release false message).outcome ≡ done tt)
    × (assert_debug_fatal stack release false message ≡ silence)
    × (assert_debug_log stack release false message ≡ silence)
    × (((assert_debug_log stack debug false message).written ≡ []) ↔ (false ≡ true))
    × ((assert_not_reached stack message).outcome ≡ fatal)
asserts_abstracted_example = asserts_abstracted stack message release false
