-- ===== src/SetDiffFormatter/Examples.antt =====
-- Sets of digits (BromiumCoreUtils/BRUSetDiffFormatter.m).
use bromium_core_utils.Prelude.{
  ℕ, ◌+◌, ◌≡◌, refl, Bool, Option, none, some, List, [], ◌∷◌, ◌++◌, ◌==◌,
}
use bromium_core_utils.Prelude.Int.{negsuc}
use bromium_core_utils.SetDiffFormatter.{Text, minus_set, printed, header, format_diff}
use bromium_core_utils.SetDiffFormatter.Contract.{
  IsDifference, elements_of, expected, format_diff-joined,
}

abbrev same_digit : ℕ → ℕ → Bool
same_digit a b = a == b

abbrev digit : ℕ → Text
digit n = (48 + n) ∷ []

abbrev old : Option (List ℕ)
old = some (1 ∷ (2 ∷ []))

abbrev new : Option (List ℕ)
new = some (2 ∷ (3 ∷ []))

-- The end of the text is `<-'1' +'3'>`.
diff_of_digits :
    format_diff same_digit digit digit old new none
    ≡ header digit old new 1 1
      ++ (45 ∷ (39 ∷ (49 ∷ (39 ∷ (32 ∷ (43 ∷ (39 ∷ (51 ∷ (39 ∷ (62 ∷ []))))))))))
unfolding format_diff minus_set printed
diff_of_digits = refl

format_diff-joined_example :
    (removed : List ℕ) × (added : List ℕ) × IsDifference same_digit
      (elements_of old)
      (elements_of new)
      removed
    × IsDifference same_digit (elements_of new) (elements_of old) added
    × (format_diff same_digit digit digit old new (some (negsuc 0))
        ≡ expected digit digit old new 0 removed added)
format_diff-joined_example = format_diff-joined same_digit digit digit old new (some (negsuc 0))
