-- ===== src/SetDiffFormatter/Difference.antt =====
-- The differences that BromiumCoreUtils/BRUSetDiffFormatter.m lists.
use bromium_core_utils.Prelude.{
  ℕ, suc, ◌+◌, ◌≡◌, refl, ◌↔◌, Bool, true, false, List, [], ◌∷◌, length, if◌then◌else◌, arith,
}
use bromium_core_utils.SetDiffFormatter.{is_member, minus_set}

module _ {A : Type 0} (same : A → A → Bool) where
  -- How many elements of the first are in the second.
  abbrev pub common : List A → List A → ℕ
  common [] ys = 0
  common (x ∷ xs) ys = if is_member same x ys then suc (common xs ys) else common xs ys

  is_member-same :
      (x y : A) (ys : List A)
      → ((c : A) → same y c ≡ same x c)
      → is_member same y ys ≡ is_member same x ys
  is_member-same x y [] h = refl
  is_member-same x y (z ∷ ys) h = ground (arith, h z, is_member-same x y ys h)

  -- When equal objects are equal to the same objects: an element is listed as removed exactly if it
  -- is in the first set and not in the second; and the removed elements, with those that are in
  -- both sets, are as many as the first set has.
  pub minus_set_lem :
      (x : A) (xs ys : List A)
      → ((a b c : A) → same a b ≡ true → same b c ≡ same a c)
      → ((is_member same x (minus_set same xs ys) ≡ true)
          ↔ ((is_member same x xs ≡ true) × (is_member same x ys ≡ false)))
        × (length (minus_set same xs ys) + common xs ys ≡ length xs)
  unfolding minus_set
  minus_set_lem x [] ys h = ((λ e. absurd (ground arith), λ e. e.0), refl)
  minus_set_lem x (y ∷ xs) ys h =
      let ((to, from), sizes) = minus_set_lem x xs ys h in
      let alike = λ (e : same x y ≡ true). is_member-same x y ys (λ c. h x y c e) in
      (
        (λ e. ground (arith, to, from, alike), λ e. ground (arith, to, from, alike)),
        ground (arith, sizes),
      )
