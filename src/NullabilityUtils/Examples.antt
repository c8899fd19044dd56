-- ===== src/NullabilityUtils/Examples.antt =====
-- Values and texts that are numbers (BromiumCoreUtils/BRUNullabilityUtils.h).
use bromium_core_utils.Prelude.{ℕ, ◌≡◌, ◌↔◌, true, false, Option, none, some, if◌then◌else◌}
use bromium_core_utils.Prelude.Outcome.{done, fatal, ◌>>=◌}
use bromium_core_utils.NullabilityUtils.{
  Error, einval, assign_out_ptr, force_nonnull, nonnull, parameter_not_nil,
}
use bromium_core_utils.NullabilityUtils.Documented.{checks_guard_forcing}

abbrev missing : Option ℕ
missing = none

abbrev no_error : Option (Option (Error ℕ))
no_error = some none

checks_guard_forcing_example :
    let (passes, left) = parameter_not_nil 5 6 missing no_error in
    ((passes ≡ true) ↔ ((a : ℕ) × (missing ≡ some a) × (force_nonnull missing ≡ done a)))
    × ((passes ≡ false) ↔ (force_nonnull missing ≡ fatal))
    × (left ≡ (if passes then no_error else assign_out_ptr no_error (some (einval 5 6))))
    × ((nonnull missing (some 3) >>= force_nonnull)
        ≡ (if passes then force_nonnull missing else done 3))
    × (nonnull missing none ≡ fatal)
checks_guard_forcing_example = checks_guard_forcing missing 3 5 6 no_error
