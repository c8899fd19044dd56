-- ===== src/SetDiffFormatter/Contract.antt =====
-- What BromiumCoreUtils/BRUSetDiffFormatter.m writes, apart from its code: the sets are given as lists,
-- and the constants of the format are written out.
use bromium_core_utils.Prelude.{
  ℕ, ◌≡◌, refl, ◌∙◌, ◌⊎◌, Bool, true, false, Option, none, some, List, [], ◌∷◌, ◌++◌, map, length,
  leb, if◌then◌else◌, arith,
}
use bromium_core_utils.Prelude.Int.{ℤ, pos, negsuc}
use bromium_core_utils.SetDiffFormatter.{
  Text, members, is_member, minus_set, header, max_prints_of, format_diff,
}
use bromium_core_utils.SetDiffFormatter.Listing.{take, joined, changes, format_diff-changes}

-- 25 if it is not given, none if it is negative.
abbrev pub limit_of : Option ℤ → ℕ
limit_of none = 25
limit_of (some (pos n)) = n
limit_of (some (negsuc n)) = 0

-- The elements of a set, and " <NULL>" for nil.
abbrev pub elements_of : {A : Type 0} → Option (List A) → List A
elements_of none = []
elements_of (some xs) = xs

abbrev pub null_of : {A : Type 0} → Option (List A) → Text
null_of none = 32 ∷ (60 ∷ (78 ∷ (85 ∷ (76 ∷ (76 ∷ (62 ∷ []))))))
null_of (some xs) = []

-- " elements"
abbrev pub elements_text : Text
elements_text = 32 ∷ (101 ∷ (108 ∷ (101 ∷ (109 ∷ (101 ∷ (110 ∷ (116 ∷ (115 ∷ []))))))))

module _ {A : Type 0} (same : A → A → Bool) where
  -- An element of the list is equal to it.
  abbrev pub Occurs : A → List A → Type 0
  Occurs x [] = ⊥
  Occurs x (y ∷ ys) = (same x y ≡ true) ⊎ Occurs x ys

  is_member-Occurs :
      (x : A) (ys : List A) (b : Bool)
      → is_member same x ys ≡ b
      → (b ≡ true → Occurs x ys) × (b ≡ false → Occurs x ys → ⊥)
  is_member-Occurs x [] b e = (λ h. absurd (ground arith), λ h o. o)
  is_member-Occurs x (y ∷ ys) b e =
      let (to, from) = is_member-Occurs x ys (is_member same x ys) refl in
      (λ h. ground (arith, to), λ h o. ground (arith, from))

  -- The elements of the first that `isEqual:` finds in no place of the second, in their order.
  pub data IsDifference : (xs ys zs : List A) → Type 0 where
    nothing : {ys : List A} → IsDifference [] ys []
    drops :
        {x : A} {xs ys zs : List A}
        → Occurs x ys
        → IsDifference xs ys zs
        → IsDifference (x ∷ xs) ys zs
    keeps :
        {x : A} {xs ys zs : List A}
        → (Occurs x ys → ⊥)
        → IsDifference xs ys zs
        → IsDifference (x ∷ xs) ys (x ∷ zs)

  minus_set-IsDifference : (xs ys : List A) → IsDifference xs ys (minus_set same xs ys)
  unfolding minus_set
  minus_set-IsDifference [] ys = nothing
  minus_set-IsDifference (x ∷ xs) ys =
      decided (is_member same x ys) refl (minus_set-IsDifference xs ys)
    where
      decided :
          {zs : List A} (b : Bool)
          → is_member same x ys ≡ b
          → IsDifference xs ys zs
          → IsDifference (x ∷ xs) ys (if b then zs else x ∷ zs)
      decided true e d = drops ((is_member-Occurs x ys true e).0 refl) d
      decided false e d = keeps ((is_member-Occurs x ys false e).1 refl) d

module _ {A : Type 0} (describe : A → Text) where
  -- The elements up to the limit, each as its sign and its description in quotes, and the sign with
  -- "..." when there are more.
  abbrev pub marked : (sign limit : ℕ) → List A → List Text
  marked sign limit xs =
      map (λ x. sign ∷ (39 ∷ (describe x ++ (39 ∷ [])))) (take limit xs)
      ++ (if leb (length xs) limit then [] else (sign ∷ (46 ∷ (46 ∷ (46 ∷ [])))) ∷ [])

module _ {A : Type 0} (describe : A → Text) (decimal : ℕ → Text) where
  -- "DIFF (… elements --> … elements) -… +…: <", the changes with one space between two, and ">".
  abbrev pub expected : (orig new : Option (List A)) (limit : ℕ) → (removed added : List A) → Text
  expected orig new limit removed added =
      (68 ∷ (73 ∷ (70 ∷ (70 ∷ (32 ∷ (40 ∷ []))))))
      ++ (decimal (length (elements_of orig))
          ++ (elements_text
              ++ (null_of orig
                  ++ ((32 ∷ (45 ∷ (45 ∷ (62 ∷ (32 ∷ [])))))
                      ++ (decimal (length (elements_of new))
                          ++ (elements_text
                              ++ (null_of new
                                  ++ (41
                                      ∷ (32
                                          ∷ (45
                                              ∷ (decimal (length removed)
                                                  ++ (32
                                                      ∷ (43
                                                          ∷ (decimal (length added)
                                                            ++ (58 ∷ (32 ∷ (60 ∷ [])))))))))))))))))
      ++ (joined (marked describe 45 limit removed ++ marked describe 43 limit added) ++ (62 ∷ []))

header-expected :
    {A : Type 0} (describe : A → Text) (decimal : ℕ → Text) (orig new : Option (List A))
    (options : Option ℤ) (removed added : List A)
    → header decimal orig new (length removed) (length added)
        ++ (joined (changes describe (max_prints_of options) removed added) ++ (62 ∷ []))
      ≡ expected describe decimal orig new (limit_of options) removed added
header-expected describe decimal none none none removed added = refl
header-expected describe decimal none (some ys) none removed added = refl
header-expected describe decimal (some xs) none none removed added = refl
header-expected describe decimal (some xs) (some ys) none removed added = refl
header-expected describe decimal none none (some (pos n)) removed added = refl
header-expected describe decimal none (some ys) (some (pos n)) removed added = refl
header-expected describe decimal (some xs) none (some (pos n)) removed added = refl
header-expected describe decimal (some xs) (some ys) (some (pos n)) removed added = refl
header-expected describe decimal none none (some (negsuc n)) removed added = refl
header-expected describe decimal none (some ys) (some (negsuc n)) removed added = refl
header-expected describe decimal (some xs) none (some (negsuc n)) removed added = refl
header-expected describe decimal (some xs) (some ys) (some (negsuc n)) removed added = refl

members-elements : {A : Type 0} (xs : Option (List A)) → members xs ≡ elements_of xs
members-elements none = refl
members-elements (some xs) = refl

-- The text is the header with the sizes of the two sets, and of what was removed and added, and
-- then, in angle brackets and with one space between two of them, the changes: the removed
-- elements marked with -, then the added ones marked with +, of each as many as the option allows
-- (25 if it is not given, none if it is negative), and a mark with dots where there are more.
-- Removed are the elements of the first set that are not in the second, in their order, and added
-- those of the second that are not in the first.
pub format_diff-joined :
    {A : Type 0} (same : A → A → Bool) (describe : A → Text) (decimal : ℕ → Text)
    (orig new : Option (List A)) (options : Option ℤ)
    → (removed : List A) × (added : List A) × IsDifference same
        (elements_of orig)
        (elements_of new)
        removed
      × IsDifference same (elements_of new) (elements_of orig) added
      × (format_diff same describe decimal orig new options
          ≡ expected describe decimal orig new (limit_of options) removed added)
format_diff-joined same describe decimal orig new options =
    let removed = minus_set same (members orig) (members new) in
    let added = minus_set same (members new) (members orig) in
    (
      removed,
      added,
      rw (members-elements orig, members-elements new)
          (minus_set-IsDifference same (elements_of orig) (elements_of new)),
      rw (members-elements orig, members-elements new)
          (minus_set-IsDifference same (elements_of new) (elements_of orig)),
      format_diff-changes same describe decimal orig new options
          ∙ header-expected describe decimal orig new options removed added,
    )
