-- ===== src/EitherErrorOrSuccess/Equality.antt =====
-- `isEqual:` and `hash` of BromiumCoreUtils/BRUEitherErrorOrSuccess.m.
use bromium_core_utils.Prelude.{ℕ, ◌≡◌, Bool, true, arith}
use bromium_core_utils.EitherErrorOrSuccess.{Either, is_equal, hash}
use bromium_core_utils.EitherErrorOrSuccess.Accessors.{IsEither}

module _ {A E : Type 0} (eq_a : A → A → Bool) (eq_e : E → E → Bool) where
  -- `isEqual:` is reflexive on well-formed values when the objects' and the errors' comparisons
  -- are.
  pub is_equal_refl :
      ((a : A) → eq_a a a ≡ true)
      → ((e : E) → eq_e e e ≡ true)
      → (x : Either A E) → IsEither x
      → is_equal eq_a eq_e x x ≡ true
  unfolding is_equal
  is_equal_refl ra re x v = grind arith

  -- `isEqual:` is transitive when the objects' and the errors' comparisons are.
  pub is_equal_trans :
      ((a b c : A) → eq_a a b ≡ true → eq_a b c ≡ true → eq_a a c ≡ true)
      → ((a b c : E) → eq_e a b ≡ true → eq_e b c ≡ true → eq_e a c ≡ true)
      → (x y z : Either A E) → is_equal eq_a eq_e x y ≡ true
      → is_equal eq_a eq_e y z ≡ true
      → is_equal eq_a eq_e x z ≡ true
  unfolding is_equal
  is_equal_trans ra re x y z v w = grind arith

  -- Equal values have equal hashes, when this holds of the objects and of the errors.
  pub is_equal-hash :
      (h_a : A → ℕ) (h_e : E → ℕ)
      → ((a b : A) → eq_a a b ≡ true → h_a a ≡ h_a b)
      → ((a b : E) → eq_e a b ≡ true → h_e a ≡ h_e b)
      → (x y : Either A E) → is_equal eq_a eq_e x y ≡ true
      → hash h_a h_e x ≡ hash h_a h_e y
  unfolding is_equal hash
  is_equal-hash h_a h_e ra re x y e = grind arith
