-- ===== src/NullabilityUtils/Documented.antt =====
-- Values forced, defaulted and checked (BromiumCoreUtils/BRUNullabilityUtils.h).
use bromium_core_utils.Prelude.{
  ◌≡◌, refl, ◌↔◌, true, false, Option, none, some, if◌then◌else◌, arith,
}
use bromium_core_utils.Prelude.Outcome.{done, fatal, ◌>>=◌}
use bromium_core_utils.NullabilityUtils.{
  Error, einval, assign_out_ptr, force_nonnull, nonnull, parameter_not_nil,
}

-- The check of a parameter passes exactly when forcing it gives a value, which is the parameter,
-- and otherwise forcing it ends the process; it writes EINVAL with the names to the error variable,
-- if there is one, exactly when it does not pass. What comes of a value with a default that is not
-- nil can be forced: it is what forcing the value gives if the check of the value passes, and else
-- the default. A default that is nil ends the process.
pub checks_guard_forcing :
    {A Text : Type 0} (value : Option A) (default_value : A) (name fun : Text)
    (error : Option (Option (Error Text)))
    → let (passes, left) = parameter_not_nil name fun value error in
      ((passes ≡ true) ↔ ((a : A) × (value ≡ some a) × (force_nonnull value ≡ done a)))
      × ((passes ≡ false) ↔ (force_nonnull value ≡ fatal))
      × (left ≡ (if passes then error else assign_out_ptr error (some (einval name fun))))
      × ((nonnull value (some default_value) >>= force_nonnull)
          ≡ (if passes then force_nonnull value else done default_value))
      × (nonnull value none ≡ fatal)
unfolding force_nonnull nonnull parameter_not_nil
checks_guard_forcing none default_value name fun error = (
  (λ e. absurd (ground arith), λ e. absurd (ground arith)),
  (λ _. refl, λ _. refl),
  refl,
  refl,
  refl,
)
checks_guard_forcing (some a) default_value name fun error = (
  (λ _. (a, refl, refl), λ _. refl),
  (λ e. absurd (ground arith), λ e. absurd (ground arith)),
  refl,
  refl,
  refl,
)
