-- ===== src/SetDiffFormatter.antt =====
-- BromiumCoreUtils/BRUSetDiffFormatter.m: the text of the difference of two sets. A set is the list of
-- its elements in the order in which it is enumerated, nil is `none`; `same` is `isEqual:`. A text is
-- the list of its UTF-16 units; `describe` gives that of an object, `decimal` that of a count.
pub mod Listing
pub mod Contract
pub mod Difference
mod Examples
use bromium_core_utils.Prelude.{
  ℕ, suc, Bool, true, false, not, ◌&&◌, ◌||◌, Option, none, some, List, [], ◌∷◌, ◌++◌, length, ◌==◌,
  if◌then◌else◌,
}
use bromium_core_utils.Prelude.Int.{ℤ, pos, ltb_ℤ}

abbrev pub Text : Type 0
Text = List ℕ

abbrev pub minus : ℕ
minus = 45

abbrev pub plus : ℕ
plus = 43

abbrev pub space : ℕ
space = 32

abbrev pub quote : ℕ
quote = 39

-- "..."
abbrev pub dots : Text
dots = 46 ∷ (46 ∷ (46 ∷ []))

-- "DIFF (", " elements", " <NULL>", " --> " and ": <".
abbrev diff_open : Text
diff_open = 68 ∷ (73 ∷ (70 ∷ (70 ∷ (32 ∷ (40 ∷ [])))))

abbrev elements : Text
elements = 32 ∷ (101 ∷ (108 ∷ (101 ∷ (109 ∷ (101 ∷ (110 ∷ (116 ∷ (115 ∷ []))))))))

abbrev null_mark : Text
null_mark = 32 ∷ (60 ∷ (78 ∷ (85 ∷ (76 ∷ (76 ∷ (62 ∷ []))))))

abbrev arrow : Text
arrow = 32 ∷ (45 ∷ (45 ∷ (62 ∷ (32 ∷ []))))

abbrev list_open : Text
list_open = 58 ∷ (32 ∷ (60 ∷ []))

-- `deleteCharactersInRange:` for the last unit.
abbrev pub drop_last : Text → Text
drop_last [] = []
drop_last (u ∷ us) = elim us [ [] ↦ [] | v ∷ vs ↦ u ∷ drop_last us ]

abbrev pub max_prints_of : Option ℤ → ℤ
max_prints_of none = pos 25
max_prints_of (some n) = n

module _ {A : Type 0} where
  abbrev pub members : Option (List A) → List A
  members none = []
  members (some xs) = xs

  abbrev mark : Option (List A) → Text
  mark none = null_mark
  mark (some xs) = []

  abbrev pub is_empty : List A → Bool
  is_empty [] = true
  is_empty (x ∷ xs) = false

module _ {A : Type 0} (same : A → A → Bool) where
  abbrev pub is_member : A → List A → Bool
  is_member x [] = false
  is_member x (y ∷ ys) = same x y || is_member x ys

  -- `minusSet:`.
  unfoldable pub minus_set : List A → List A → List A
  minus_set [] ys = []
  minus_set (x ∷ xs) ys = let rest = minus_set xs ys in if is_member x ys then rest else x ∷ rest

module _ {A : Type 0} (describe : A → Text) where
  -- An element with its sign, in quotes.
  abbrev pub item : (sign : ℕ) → A → Text
  item sign x = sign ∷ (quote ∷ (describe x ++ (quote ∷ [])))

  -- `enumerateObjectsUsingBlock:` with the block that counts its prints.
  unfoldable pub printed : (sign : ℕ) (max_prints : ℤ) (prints : ℕ) → List A → Text
  printed sign max_prints prints [] = []
  printed sign max_prints prints (x ∷ xs) =
      let rest = printed sign max_prints (suc prints) xs in
      if ltb_ℤ max_prints (pos (suc prints))
      then sign ∷ (dots ++ (space ∷ []))
      else item sign x ++ (space ∷ rest)

module _ {A : Type 0} (decimal : ℕ → Text) where
  -- "DIFF (… elements --> … elements) -… +…: <".
  abbrev pub header : Option (List A) → Option (List A) → (removed added : ℕ) → Text
  header orig new removed added =
      diff_open
      ++ (decimal (length (members orig))
          ++ (elements
              ++ (mark orig
                  ++ (arrow
                      ++ (decimal (length (members new))
                          ++ (elements
                              ++ (mark new
                                  ++ (41
                                      ∷ (32
                                          ∷ (minus
                                              ∷ (decimal removed
                                                  ++ (space
                                                      ∷ (plus
                                                          ∷ (decimal added
                                                            ++ list_open))))))))))))))

module _ {A : Type 0} (same : A → A → Bool) (describe : A → Text) (decimal : ℕ → Text) where
  -- `formatDiffWithSet:andSet:options:`; the option is the number of prints.
  unfoldable pub format_diff : Option (List A) → Option (List A) → (options : Option ℤ) → Text
  unfolding minus_set printed
  format_diff orig new options =
      let max_diff_prints = max_prints_of options in
      let only_in_orig = minus_set same (members orig) (members new) in
      let only_in_new = minus_set same (members new) (members orig) in
      let ret =
        header decimal orig new (length only_in_orig) (length only_in_new)
        ++ (printed describe minus max_diff_prints 0 only_in_orig
            ++ printed describe plus max_diff_prints 0 only_in_new) in
      (if not (is_empty only_in_orig) || not (is_empty only_in_new) then drop_last ret else ret)
      ++ (62 ∷ [])
