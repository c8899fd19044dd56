-- ===== src/EitherErrorOrSuccess.antt =====
-- BromiumCoreUtils/BRUEitherErrorOrSuccess.m, with its category in
-- BromiumCoreUtils/BRUConcurrentBox.m: the result of a computation, a success object or an error.
-- `none` is nil; `null` stands for NSNull. The objects' own `isEqualTo:` and `hash` are parameters.
pub mod Accessors
pub mod Equality
pub mod Contract
mod Examples
use bromium_core_utils.Prelude.{
  ℕ, Bool, true, false, not, ◌&&◌, ◌||◌, Option, none, some, is_some, is_none, if◌then◌else◌,
}
use bromium_core_utils.Prelude.Outcome.{Outcome, done, fatal, ◌>>=◌, ◌>>◌, bru_assert}
use bromium_core_utils.ConcurrentBox.{Answer, unit, flag, value}

pub record Either (A E : Type 0) : Type 0 where
  pub success : Bool
  pub object : Option A
  pub error : Option E

-- Messages to an object that may be nil: NO, and 0, from nil.
abbrev same : {B : Type 0} → (B → B → Bool) → Option B → Option B → Bool
same eq none y = false
same eq (some x) none = false
same eq (some x) (some y) = eq x y

abbrev hash_of : {B : Type 0} → (B → ℕ) → Option B → ℕ
hash_of h none = 0
hash_of h (some x) = h x

module _ {A E : Type 0} where
  -- `initWithSuccess:object:error:`.
  unfoldable pub init : Bool → Option A → Option E → Outcome (Either A E)
  init true object error = do
    bru_assert (is_some object)
    bru_assert (is_none error)
    done (record { success = true; object = object; error = none })
  init false object error = do
    bru_assert (is_none object)
    bru_assert (is_some error)
    done (record { success = false; object = none; error = error })

  unfoldable pub new_with_success : (null : A) → Outcome (Either A E)
  unfolding init
  new_with_success null = init true (some null) none

  unfoldable pub new_with_success_object : Option A → Outcome (Either A E)
  unfolding init
  new_with_success_object object = init true object none

  unfoldable pub new_with_error : Option E → Outcome (Either A E)
  unfolding init
  new_with_error error = init false none error

  -- `newWithComputationSuccess:successObject:error:`.
  unfoldable pub new_with_computation : Bool → Option A → Option E → Outcome (Either A E)
  unfolding new_with_success_object new_with_error
  new_with_computation success object error =
      if success then new_with_success_object object else new_with_error error

  -- `newWithComputationSuccess:error:`.
  unfoldable pub new_with_computation_success : (null : A) → Bool → Option E → Outcome (Either A E)
  unfolding new_with_computation
  new_with_computation_success null success error = new_with_computation success (some null) error

  -- `newWithSuccessObject:error:`.
  unfoldable pub new_with_object_or_error : Option A → Option E → Outcome (Either A E)
  unfolding new_with_success_object new_with_error
  new_with_object_or_error object error =
      if is_some object then new_with_success_object object else new_with_error error

  -- The accessors return their result and what the caller's error variable holds afterwards.
  unfoldable pub return_success : Either A E → Option E → Bool × Option E
  return_success e old = if e.success then (true, old) else (false, e.error)

  unfoldable pub return_object : Either A E → Option E → Option A × Option E
  return_object e old = if e.success then (e.object, old) else (none, e.error)

  -- `isEqual:` between two values of the class.
  unfoldable pub is_equal : (A → A → Bool) → (E → E → Bool) → Either A E → Either A E → Bool
  is_equal eq_a eq_e x y =
      (x.success && y.success || not x.success && not y.success)
      && (x.success && same eq_a x.object y.object || not x.success && same eq_e x.error y.error)

  unfoldable pub hash : (A → ℕ) → (E → ℕ) → Either A E → ℕ
  hash h_a h_e x = if x.success then hash_of h_a x.object else hash_of h_e x.error

  abbrev taken : (is_of_class : Bool) → (timed_out : E) → Answer (Either A E) → Outcome (Either A E)
  taken is_of_class timed_out (value (some e)) = do bru_assert is_of_class; done e
  taken is_of_class timed_out (value none) = new_with_error (some timed_out)
  taken is_of_class timed_out _ = fatal

  -- `takeFromBox:timeoutAtDate:description:`, from whether there are a box and a date, what
  -- `tryTakeUntil:` returned, and whether an object from the box is of the class. `timed_out` stands
  -- for the ETIMEDOUT error.
  unfoldable pub take_from_box :
      (box date is_of_class : Bool) (timed_out : E) → Answer (Either A E) → Outcome (Either A E)
  unfolding new_with_error
  take_from_box box date is_of_class timed_out answer = do
    bru_assert box
    bru_assert date
    taken is_of_class timed_out answer
