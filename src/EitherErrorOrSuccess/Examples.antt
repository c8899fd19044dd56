-- ===== src/EitherErrorOrSuccess/Examples.antt =====
-- Results whose objects and errors are numbers (BromiumCoreUtils/BRUEitherErrorOrSuccess.m).
use bromium_core_utils.Prelude.{
  ℕ, ◌≡◌, refl, ◌≢◌, ◌⊎◌, inl, ◌==◌, Bool, true, false, Option, none, some, is_some, is_none, arith,
}
use bromium_core_utils.Prelude.Outcome.{Outcome, done, Returns, fatal}
use bromium_core_utils.EitherErrorOrSuccess.{
  Either, init, new_with_computation, new_with_success, new_with_success_object, new_with_error,
  new_with_computation_success, new_with_object_or_error, return_success, return_object, is_equal,
  hash,
}
use bromium_core_utils.EitherErrorOrSuccess.Accessors.{IsEither, init_lem, return-new}
use bromium_core_utils.EitherErrorOrSuccess.Equality.{is_equal_refl, is_equal_trans, is_equal-hash}
use bromium_core_utils.EitherErrorOrSuccess.Contract.{
  NewWithSuccess, NewWithSuccessObject, NewWithError, NewWithComputationSuccess, NewWithComputation,
  NewWithObjectOrError, ReturnSuccess, ReturnObject, view, make, constructors_documented,
  either_view,
}

abbrev eq : ℕ → ℕ → Bool
eq a b = a == b

abbrev self : ℕ → ℕ
self n = n

abbrev forty : Either ℕ ℕ
forty = record { success = true; object = some 40; error = none }

abbrev object : Option ℕ
object = some 4

abbrev no_error : Option ℕ
no_error = none

init_example :
    ((is_some object ≡ true)
      × (is_none no_error ≡ true)
      × Returns
          (λ e. IsEither e × (e.success ≡ true) × (e.object ≡ object) × (e.error ≡ no_error))
          (init true object no_error))
    ⊎ (((is_some object ≢ true) ⊎ (is_none no_error ≢ true)) × (init true object no_error ≡ fatal))
init_example = init_lem true object no_error

abbrev failed : Outcome (Either ℕ ℕ)
failed = new_with_computation false (some 40) (some 60)

return-new_example :
    Returns
      (λ e.
        (return_success e no_error ≡ (false, some 60))
        × (return_object e no_error ≡ (none, some 60)))
      failed
return-new_example = return-new false 40 60 no_error

eq_refl : (a : ℕ) → eq a a ≡ true
eq_refl a = ground arith

eq_trans : (a b c : ℕ) → eq a b ≡ true → eq b c ≡ true → eq a c ≡ true
eq_trans a b c h k = ground arith

eq-self : (a b : ℕ) → eq a b ≡ true → self a ≡ self b
eq-self a b h = ground arith

forty_is_forty : is_equal eq eq forty forty ≡ true
unfolding is_equal
forty_is_forty = refl

is_equal_refl_example : is_equal eq eq forty forty ≡ true
is_equal_refl_example = is_equal_refl eq eq eq_refl eq_refl forty (refl, refl)

is_equal_trans_example : is_equal eq eq forty forty ≡ true
is_equal_trans_example =
    is_equal_trans eq eq eq_trans eq_trans forty forty forty forty_is_forty forty_is_forty

is_equal-hash_example : hash self self forty ≡ hash self self forty
is_equal-hash_example = is_equal-hash eq eq self self eq-self eq-self forty forty forty_is_forty

abbrev no_object : Option ℕ
no_object = none

abbrev null : ℕ
null = 0

abbrev a : ℕ
a = 4

abbrev x : ℕ
x = 60

constructors_documented_example :
    NewWithSuccess {E = ℕ} null (new_with_success null)
    × NewWithSuccessObject {E = ℕ} a (new_with_success_object (some a))
    × NewWithError {A = ℕ} x (new_with_error (some x))
    × NewWithComputationSuccess null false
        (some x)
        (new_with_computation_success null false (some x))
    × NewWithComputation false no_object (some x) (new_with_computation false no_object (some x))
    × NewWithObjectOrError no_object x (new_with_object_or_error no_object (some x))
    × ReturnSuccess forty (some x) (return_success forty (some x))
    × ReturnObject forty (some x) (return_object forty (some x))
constructors_documented_example =
    constructors_documented null a x false none (some x) (some x) forty refl (refl, refl)

abbrev sixty : ℕ ⊎ ℕ
sixty = inl 60

either_view_example :
    Returns (λ m. IsEither m × (view m ≡ some sixty)) (make sixty)
    × ((t : ℕ ⊎ ℕ) × (view forty ≡ some t) × (make t ≡ done forty))
either_view_example = either_view sixty forty (refl, refl)

-- A box with a result in it, and what `tryTakeUntil:` returns.
