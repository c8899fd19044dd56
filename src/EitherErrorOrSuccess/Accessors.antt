-- ===== src/EitherErrorOrSuccess/Accessors.antt =====
-- Construction and access of a BRUEitherErrorOrSuccess (BromiumCoreUtils/BRUEitherErrorOrSuccess.m).
use bromium_core_utils.Prelude.{
  ◌≡◌, refl, Bool, true, false, ◌⊎◌, ◌≢◌, Option, none, some, is_some, is_none, arith,
  if◌then◌else◌,
}
use bromium_core_utils.Prelude.Outcome.{done, fatal, Returns}
use bromium_core_utils.ConcurrentBox.{Call, try_take_until, waits, returns, value, turn, time_out}
use bromium_core_utils.EitherErrorOrSuccess.{
  Either, new_with_computation, return_success, return_object, take_from_box, init,
}

module _ {A E : Type 0} where
  -- Exactly one of the object and the error is there, and `success` says which.
  abbrev pub IsEither : Either A E → Type 0
  IsEither e = (is_some e.object ≡ e.success) × (is_none e.error ≡ e.success)

  -- Construction succeeds exactly on a success with an object and no error, and on a failure with
  -- an error and no object.
  pub init_lem :
      (b : Bool) (o : Option A) (x : Option E)
      → ((is_some o ≡ b)
          × (is_none x ≡ b)
          × Returns
              (λ e. IsEither e × (e.success ≡ b) × (e.object ≡ o) × (e.error ≡ x))
              (init b o x))
        ⊎ (((is_some o ≢ b) ⊎ (is_none x ≢ b)) × (init b o x ≡ fatal))
  unfolding init
  init_lem true none x = ground arith
  init_lem true (some o) none = ground arith
  init_lem true (some o) (some x) = ground arith
  init_lem false none none = ground arith
  init_lem false none (some x) = ground arith
  init_lem false (some o) x = ground arith

  -- A value made from a computation's outcome gives back through its accessors what it was made
  -- from: on success YES and the object, with the caller's error variable as it was; on failure
  -- NO and nil, with the error in that variable.
  pub return-new :
      (b : Bool) (o : A) (x : E) (old : Option E)
      → Returns
          (λ e.
            (return_success e old ≡ (b, (if b then old else some x)))
            × (return_object e old ≡ (if b then (some o, old) else (none, some x))))
          (new_with_computation b (some o) (some x))
  unfolding new_with_computation return_success return_object
  return-new b o x old = ground arith

  -- A box that holds a result gives that result at once; on an empty box the call waits, and when
  -- the wait times out the result is a failure with the ETIMEDOUT error.
  pub take_from_box_lem :
      (t : E) (e : Either A E)
      → let wait : Call (Either A E) = try_take_until in
        let nothing : Option (Either A E) = none in
        (turn wait (some e) ≡ returns none true (value (some e)))
        × (take_from_box true true true t (value (some e)) ≡ done e)
        × (turn wait nothing ≡ waits)
        × (time_out wait ≡ some (value nothing))
        × (take_from_box true true true t (value nothing)
            ≡ done (record { success = false; object = none; error = some t }))
  unfolding take_from_box turn time_out
  take_from_box_lem t e = (refl, refl, refl, refl, refl)
