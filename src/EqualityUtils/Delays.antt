-- ===== src/EqualityUtils/Delays.antt =====
-- The delay of a BRURetry under the comparison that its assertions use
-- (BromiumCoreUtils/BRURetry.m, BromiumCoreUtils/BRUEqualityUtils.h).
use bromium_core_utils.Prelude.{
  ◌≡◌, Bool, true, false, Bool-cases, ◌⊎◌, inl, inr, Option, none, arith,
}
use bromium_core_utils.Prelude.Outcome.{fatal, Returns}
use bromium_core_utils.Retry.{Retry, Response, Error, idle, stop, handle_result}
use bromium_core_utils.EqualityUtils.{Precision, time_interval_equals}
use bromium_core_utils.EqualityUtils.Comparisons.{comparisons-IsThreshold}

module _ (D : Precision) (dbl_epsilon : D.Float) where
  -- `BRUDoubleEquals(…, …, DBL_EPSILON)`, as `checkInvariants` has it.
  abbrev pub equals : D.Float → D.Float → Bool
  equals x y = time_interval_equals D dbl_epsilon x y

  equals_self : (x : D.Float) → D.lt D.zero dbl_epsilon ≡ true → equals x x ≡ D.is_finite x
  unfolding time_interval_equals
  equals_self x h =
      let (to, from) =
        (comparisons-IsThreshold D D x x dbl_epsilon true true).1.reflexive x dbl_epsilon h in
      ground arith

  -- At the end of an operation, when it succeeded or the policy said so, with no timer set: the
  -- object becomes idle if its delay is a finite number; if it is infinite or NaN, an assertion
  -- fails, since the delay does not equal itself.
  pub end_needs_finite_delay :
      (success : Bool) (error : Option Error) (response : Response) (next_delay : D.Float)
      (r : Retry D.Float)
      → D.lt D.zero dbl_epsilon ≡ true
      → r.timer ≡ none
      → (success ≡ true) ⊎ (response ≡ stop)
      → ((D.is_finite r.delay ≡ true)
          × Returns
              (λ s. s.0.state ≡ idle)
              (handle_result equals success error response next_delay r))
        ⊎ ((D.is_finite r.delay ≡ false)
            × (handle_result equals success error response next_delay r ≡ fatal))
  unfolding handle_result
  end_needs_finite_delay success error response next_delay r p t h =
      let e = equals_self r.delay p in
      elim (Bool-cases (D.is_finite r.delay)) [
        | inl f ↦ inl (f, ground arith)
        | inr f ↦ inr (f, ground arith)
      ]
