-- ===== src/Retry/Documented.antt =====
-- `startWithCompletionBlock:` and `cancel:` of BromiumCoreUtils/BRURetry.m against
-- BromiumCoreUtils/BRURetry.h, and the loop shown there.
use bromium_core_utils.Prelude.{
  ℕ, zero, suc, ◌+◌, ◌<◌, ◌≡◌, ◌⊎◌, inl, inr, Bool-cases, refl, ap, subst, Bool, true, false,
  Option, none, some, arith,
}
use bromium_core_utils.Retry.{idle, active_cancelling, Retry, start, cancel}
use bromium_core_utils.Retry.Safety.{IsFormed}
use bromium_core_utils.Retry.Contract.{naive_loop, CancelDocumented, StartDocumented}

module _ {Interval : Type 0} (equals : Interval → Interval → Bool) where
  -- On an object whose fields belong to its state, `cancel:` with any identifier does what its
  -- comment promises: it is ignored, with NO and nothing sent, when the operation is being
  -- cancelled already, none runs, or the identifier is not that of the running one; otherwise it
  -- returns YES and the state has changed. The delay must be equal to itself under
  -- BRUDoubleEquals.
  pub cancel_documented :
      (i : ℕ) (r : Retry Interval)
      → equals r.delay r.delay ≡ true
      → IsFormed r.state r
      → CancelDocumented i r (cancel equals i r)
  unfolding cancel
  cancel_documented i r h f = ground arith

  -- A start on an object whose fields belong to its state, while no operation runs or the running
  -- one is being cancelled, does what its comment promises: it returns the identifier of the
  -- operation in progress, or a new one, and that operation has a deferred for the completion block,
  -- the one that it had or a new one.
  pub start_documented :
      (uuid d : ℕ) (c : Option ℕ) (r : Retry Interval)
      → (r.state ≡ idle) ⊎ (r.state ≡ active_cancelling)
      → IsFormed r.state r
      → StartDocumented uuid d r (start equals uuid d c r)
  unfolding start
  start_documented uuid d c r h f = ground arith

-- The `n` connections from `a` on fail.
abbrev pub AllFail : (connect : ℕ → Bool) (a n : ℕ) → Type 0
AllFail connect a zero = Unit
AllFail connect a (suc n) = (connect a ≡ false) × AllFail connect (suc a) n

-- The loop of the comment never counts its attempts: with a maximum above 0 it ends only with a
-- connection that succeeds, however many have failed, and while none succeeds it goes on.
pub naive_loop_unbounded :
    (max_attempts : ℕ) (connect : ℕ → Bool) (fuel n : ℕ)
    → 0 < max_attempts
    → ((naive_loop max_attempts connect fuel n 0 ≡ none) × AllFail connect n fuel)
      ⊎ ((m : ℕ) × (naive_loop max_attempts connect fuel n 0 ≡ some (n + m))
          × (m < fuel)
          × (connect (n + m) ≡ true)
          × AllFail connect n m)
unfolding naive_loop
naive_loop_unbounded max_attempts connect zero n h = inl (refl, tt)
naive_loop_unbounded max_attempts connect (suc fuel) n h =
    let ih = naive_loop_unbounded max_attempts connect fuel (suc n) h in
    elim (Bool-cases (connect n)) [
      | inl ok ↦ inr (0, ground arith, omega arith, ground arith, tt)
      | inr fails ↦ elim ih [
        | inl goes_on ↦ inl (ground arith, (fails, goes_on.1))
        | inr (m, e, lt, ok, before) ↦
            let shift : suc n + m ≡ n + suc m = omega arith in
            inr (
              suc m,
              ground (arith, ap (λ k. some k) shift),
              omega arith,
              subst (λ k. connect k ≡ true) shift ok,
              (fails, before),
            )
      ]
    ]
