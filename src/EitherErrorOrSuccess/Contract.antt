-- ===== src/EitherErrorOrSuccess/Contract.antt =====
-- What the comments of BromiumCoreUtils/BRUEitherErrorOrSuccess.h promise of the constructors and
-- accessors, and the sum that a value stands for.
use bromium_core_utils.Prelude.{
  ◌≡◌, refl, ◌⊎◌, inl, inr, Bool, true, false, not, ◌&&◌, ◌||◌, Option, none, some, is_some,
  is_none, if◌then◌else◌, arith,
}
use bromium_core_utils.Prelude.Outcome.{Outcome, done, Returns}
use bromium_core_utils.EitherErrorOrSuccess.{
  Either, new_with_success, new_with_success_object, new_with_error, new_with_computation,
  new_with_computation_success, new_with_object_or_error, return_success, return_object,
}
use bromium_core_utils.EitherErrorOrSuccess.Accessors.{IsEither}

module _ {A E : Type 0} where
  -- A successful computation, with its object; a failed one, with its error.
  abbrev pub IsSuccess : A → Either A E → Type 0
  IsSuccess object e = (e.success ≡ true) × (e.object ≡ some object) × (e.error ≡ none)

  abbrev pub IsFailure : E → Either A E → Type 0
  IsFailure error e = (e.success ≡ false) × (e.object ≡ none) × (e.error ≡ some error)

  -- Successful without any result object: the class keeps a placeholder.
  abbrev pub NewWithSuccess : (null : A) → Outcome (Either A E) → Type 0
  NewWithSuccess null = Returns (IsSuccess null)

  abbrev pub NewWithSuccessObject : A → Outcome (Either A E) → Type 0
  NewWithSuccessObject object = Returns (IsSuccess object)

  abbrev pub NewWithError : E → Outcome (Either A E) → Type 0
  NewWithError error = Returns (IsFailure error)

  -- `(success && obj && !error) || (!success && !obj && error)`.
  abbrev pub must_hold : Bool → Option A → Option E → Bool
  must_hold success object error =
      success && is_some object && is_none error || not success && is_none object && is_some error

  -- The result is determined from `success`.
  abbrev pub NewWithComputationSuccess :
      (null : A) → Bool → Option E → Outcome (Either A E) → Type 0
  NewWithComputationSuccess null true none = Returns (IsSuccess null)
  NewWithComputationSuccess null false (some error) = Returns (IsFailure error)
  NewWithComputationSuccess null _ _ = λ o. Unit

  abbrev pub NewWithComputation : Bool → Option A → Option E → Outcome (Either A E) → Type 0
  NewWithComputation success object error =
      Returns λ e. (e.success ≡ success) × (e.object ≡ object) × (e.error ≡ error)

  -- The result is determined from the object; without one it is a failure.
  abbrev pub NewWithObjectOrError : Option A → E → Outcome (Either A E) → Type 0
  NewWithObjectOrError none error = Returns (IsFailure error)
  NewWithObjectOrError (some object) error = Returns (IsSuccess object)

  -- Whether the computation was successful, and if not the error variable is set.
  abbrev pub ReturnSuccess : Either A E → (old : Option E) → Bool × Option E → Type 0
  ReturnSuccess e old r = (r.0 ≡ e.success) × (r.1 ≡ (if e.success then old else e.error))

  -- The object, or nil with the error variable set.
  abbrev pub ReturnObject : Either A E → (old : Option E) → Option A × Option E → Type 0
  ReturnObject e old r = (r.0 ≡ e.object) × (r.1 ≡ (if e.success then old else e.error))

new_with_success_lem :
    {A : Type 0} (E : Type 0) (null : A)
    → NewWithSuccess null (new_with_success {A = A} {E = E} null)
unfolding new_with_success
new_with_success_lem E null = ground arith

new_with_success_object_lem :
    {A : Type 0} (E : Type 0) (a : A)
    → NewWithSuccessObject a (new_with_success_object {A = A} {E = E} (some a))
unfolding new_with_success_object
new_with_success_object_lem E a = ground arith

new_with_error_lem :
    (A : Type 0) {E : Type 0} (x : E) → NewWithError x (new_with_error {A = A} {E = E} (some x))
unfolding new_with_error
new_with_error_lem A x = ground arith

module _ {A E : Type 0} where
  new_with_computation_success_lem :
      (null : A) (b : Bool) (y : Option E)
      → NewWithComputationSuccess null b y (new_with_computation_success null b y)
  unfolding new_with_computation_success
  new_with_computation_success_lem null true none = ground arith
  new_with_computation_success_lem null true (some y) = tt
  new_with_computation_success_lem null false none = tt
  new_with_computation_success_lem null false (some y) = ground arith

  new_with_computation_lem :
      (b : Bool) (o : Option A) (y : Option E)
      → must_hold b o y ≡ true
      → NewWithComputation b o y (new_with_computation b o y)
  unfolding new_with_computation
  new_with_computation_lem b o y h = ground arith

  new_with_object_or_error_lem :
      (o : Option A) (x : E) → NewWithObjectOrError o x (new_with_object_or_error o (some x))
  unfolding new_with_object_or_error
  new_with_object_or_error_lem none x = ground arith
  new_with_object_or_error_lem (some a) x = ground arith

  return_success_lem :
      (e : Either A E) (old : Option E) → ReturnSuccess e old (return_success e old)
  unfolding return_success
  return_success_lem e old = ground arith

  return_object_lem :
      (e : Either A E) (old : Option E) → IsEither e → ReturnObject e old (return_object e old)
  unfolding return_object
  return_object_lem e old i = ground arith

  -- The constructors do what their comments promise: those that take what they need, for every
  -- argument; `newWithComputationSuccess:successObject:error:` for the arguments for which its
  -- comment says that they must be given; and the accessors for every value with an object and no
  -- error, or an error and no object, as `success` says.
  pub constructors_documented :
      (null a : A) (x : E) (b : Bool) (o : Option A) (y old : Option E) (e : Either A E)
      → must_hold b o y ≡ true
      → IsEither e
      → NewWithSuccess {E = E} null (new_with_success null)
        × NewWithSuccessObject {E = E} a (new_with_success_object (some a))
        × NewWithError {A = A} x (new_with_error (some x))
        × NewWithComputationSuccess null b y (new_with_computation_success null b y)
        × NewWithComputation b o y (new_with_computation b o y)
        × NewWithObjectOrError o x (new_with_object_or_error o (some x))
        × ReturnSuccess e old (return_success e old)
        × ReturnObject e old (return_object e old)
  constructors_documented null a x b o y old e h i = (
    new_with_success_lem E null,
    new_with_success_object_lem E a,
    new_with_error_lem A x,
    new_with_computation_success_lem null b y,
    new_with_computation_lem b o y h,
    new_with_object_or_error_lem o x,
    return_success_lem e old,
    return_object_lem e old i,
  )

  -- The sum that a value stands for.
  abbrev pub view : Either A E → Option (E ⊎ A)
  view e =
      if e.success
      then elim e.object [ none ↦ none | some a ↦ some (inr a) ]
      else elim e.error [ none ↦ none | some x ↦ some (inl x) ]

  unfoldable pub make : E ⊎ A → Outcome (Either A E)
  unfolding new_with_error new_with_success_object
  make (inl x) = new_with_error (some x)
  make (inr a) = new_with_success_object (some a)

  make-view : (s : E ⊎ A) → Returns (λ m. IsEither m × (view m ≡ some s)) (make s)
  unfolding make
  make-view (inl x) = ground arith
  make-view (inr a) = ground arith

  success_view :
      (b : Bool) (o : Option A) (x : Option E)
      → is_some o ≡ b
      → is_none x ≡ b
      → let e : Either A E = record { success = b; object = o; error = x } in
        (t : E ⊎ A) × (view e ≡ some t) × (make t ≡ done e)
  unfolding make
  success_view true none x i j = absurd (ground arith)
  success_view true (some a) none i j = (inr a, refl, refl)
  success_view true (some a) (some x) i j = absurd (ground arith)
  success_view false none none i j = absurd (ground arith)
  success_view false none (some x) i j = (inl x, refl, refl)
  success_view false (some a) x i j = absurd (ground arith)

  -- The values with an object and no error, or an error and no object, as `success` says, are the
  -- elements of the sum of errors and objects: what `newWithError:` and `newWithSuccessObject:`
  -- make of an element stands for that element and is such a value; and each such value stands for
  -- an element, of which they make the value itself.
  pub either_view :
      (s : E ⊎ A) (e : Either A E)
      → IsEither e
      → Returns (λ m. IsEither m × (view m ≡ some s)) (make s)
        × ((t : E ⊎ A) × (view e ≡ some t) × (make t ≡ done e))
  either_view s e i = (make-view s, success_view e.success e.object e.error i.0 i.1)
