-- ===== src/NullabilityUtils.antt =====
-- BromiumCoreUtils/BRUNullabilityUtils.h, and BRU_ASSIGN_OUT_PTR of BromiumCoreUtils/BRUBaseDefines.h.
-- A value that may be nil is an option. An out-parameter is the content of the variable that it
-- points to, or nothing when the pointer is NULL.
mod Documented
mod Examples
use bromium_core_utils.Prelude.{ℕ, Bool, true, false, Option, none, some, is_some, if◌then◌else◌}
use bromium_core_utils.Prelude.Outcome.{Outcome, done, fatal, ◌>>=◌, ◌>>◌, bru_assert}

-- `BRU_ASSIGN_OUT_PTR`.
unfoldable pub assign_out_ptr : {A : Type 0} → Option A → A → Option A
assign_out_ptr none value = none
assign_out_ptr (some old) value = some value

module _ {A : Type 0} where
  -- `BRUForceNonnull`.
  unfoldable pub force_nonnull : Option A → Outcome A
  force_nonnull none = fatal
  force_nonnull (some value) = done value

  -- `BRUNonnull`; the default is given, but nothing keeps it from being nil.
  unfoldable pub nonnull : Option A → (default_value : Option A) → Outcome (Option A)
  nonnull maybe_value default_value = do
    bru_assert (is_some default_value)
    done (elim maybe_value [ none ↦ default_value | some value ↦ some value ])

-- The NSError that is made: its code and what its text names.
pub data Error (Text : Type 0) : Type 0 where
  einval : (name fun : Text) → Error Text

-- `_BRUParameterNotNil`, the function of `BRUParameterNotNil`. The error variable may be nil.
unfoldable pub parameter_not_nil :
    {A Text : Type 0} (name fun : Text)
    → Option A
    → Option (Option (Error Text))
    → Bool × Option (Option (Error Text))
unfolding assign_out_ptr
parameter_not_nil name fun none error = (false, assign_out_ptr error (some (einval name fun)))
parameter_not_nil name fun (some param) error = (true, error)
