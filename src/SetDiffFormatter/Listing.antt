-- ===== src/SetDiffFormatter/Listing.antt =====
-- The list of changes that BromiumCoreUtils/BRUSetDiffFormatter.m writes.
use mathlib.Core.List.{append-nil, append_assoc}
use bromium_core_utils.Prelude.{
  ℕ, zero, suc, ◌+◌, ◌≡◌, ◌⊎◌, inl, inr, refl, sym, ap, ◌∙◌, Bool, true, false, not, ◌||◌, Option,
  List, [], ◌∷◌, ◌++◌, map, length, leb, if◌then◌else◌, arith,
}
use bromium_core_utils.Prelude.Int.{ℤ, pos, negsuc, pos_part}
use bromium_core_utils.SetDiffFormatter.{
  Text, minus, plus, space, dots, drop_last, members, is_empty, minus_set, item, printed, header,
  max_prints_of, format_diff,
}

-- The first elements.
abbrev pub take : {A : Type 0} → ℕ → List A → List A
take n [] = []
take zero (x ∷ xs) = []
take (suc n) (x ∷ xs) = x ∷ take n xs

-- The texts one after another, with a space behind each, or between them.
abbrev spaced : List Text → Text
spaced [] = []
spaced (t ∷ ts) = t ++ (space ∷ spaced ts)

abbrev pub joined : List Text → Text
joined [] = []
joined (t ∷ ts) = elim ts [ [] ↦ t | u ∷ us ↦ t ++ (space ∷ joined ts) ]

spaced-append : (ts us : List Text) → spaced (ts ++ us) ≡ spaced ts ++ spaced us
spaced-append [] us = refl
spaced-append (t ∷ ts) us =
    ap (λ r. t ++ (space ∷ r)) (spaced-append ts us)
    ∙ sym (append_assoc t (space ∷ spaced ts) (spaced us))

-- What is dropped at the end of a text is dropped from its second part.
drop_last-append :
    (t : Text) (u : ℕ) (us : Text) → drop_last (t ++ (u ∷ us)) ≡ t ++ drop_last (u ∷ us)
drop_last-append [] u us = refl
drop_last-append (v ∷ []) u us = refl
drop_last-append (v ∷ (w ∷ t)) u us = ap (λ r. v ∷ r) (drop_last-append (w ∷ t) u us)

drop_last-cons :
    (v : ℕ) (t : Text) (u : ℕ) (us : Text)
    → drop_last (v ∷ (t ++ (u ∷ us))) ≡ v ∷ drop_last (t ++ (u ∷ us))
drop_last-cons v t u us =
    drop_last-append (v ∷ t) u us ∙ ap (λ r. v ∷ r) (sym (drop_last-append t u us))

drop_last-spaced : (t : Text) (ts : List Text) → drop_last (spaced (t ∷ ts)) ≡ joined (t ∷ ts)
drop_last-spaced t [] = drop_last-append t space [] ∙ append-nil t
drop_last-spaced t (u ∷ us) =
    drop_last-append t space (spaced (u ∷ us))
    ∙ ap (λ r. t ++ r)
        (drop_last-cons space u space (spaced us) ∙ ap (λ r. space ∷ r) (drop_last-spaced u us))

drop_last-after :
    (h t : Text) (u : ℕ) (us : Text)
    → drop_last (h ++ (t ++ (u ∷ us))) ≡ h ++ drop_last (t ++ (u ∷ us))
drop_last-after h t u us =
    ap drop_last (sym (append_assoc h t (u ∷ us)))
    ∙ drop_last-append (h ++ t) u us
    ∙ append_assoc h t (drop_last (u ∷ us))
    ∙ ap (λ r. h ++ r) (sym (drop_last-append t u us))

is_empty-append : (ts us : List Text) → is_empty ts ≡ false → is_empty (ts ++ us) ≡ false
is_empty-append [] us e = absurd (ground arith)
is_empty-append (t ∷ ts) us e = refl

-- The space behind the last text goes, and nothing else.
finished :
    (h : Text) (ts : List Text) (b : Bool)
    → b ≡ not (is_empty ts)
    → (if b then drop_last (h ++ spaced ts) else h ++ spaced ts) ≡ h ++ joined ts
finished h [] true e = absurd (ground arith)
finished h [] false e = refl
finished h (t ∷ ts) true e =
    drop_last-after h t space (spaced ts) ∙ ap (λ r. h ++ r) (drop_last-spaced t ts)
finished h (t ∷ ts) false e = absurd (ground arith)

module _ {A : Type 0} (describe : A → Text) where
  -- At most so many elements, and a mark when there are more.
  abbrev pub listed : (sign limit : ℕ) → List A → List Text
  listed sign limit xs =
      map (item describe sign) (take limit xs)
      ++ (if leb (length xs) limit then [] else (sign ∷ dots) ∷ [])

  printed-listed :
      (sign : ℕ) (max_prints : ℤ) (prints limit : ℕ) (xs : List A)
      → (max_prints ≡ pos (prints + limit)) ⊎ ((limit ≡ 0) × (pos_part max_prints ≡ 0))
      → printed describe sign max_prints prints xs ≡ spaced (listed sign limit xs)
  unfolding printed
  printed-listed sign m n l [] h = ground arith
  printed-listed sign m n zero (x ∷ xs) h = ground arith
  printed-listed sign m n (suc k) (x ∷ xs) h =
      let rest = printed-listed sign m (suc n) k xs (ground arith) in ground (arith, rest)

  -- What the two enumerations write, of all the prints that the option allows.
  abbrev pub changes : (max_prints : ℤ) (removed added : List A) → List Text
  changes m removed added = listed minus (pos_part m) removed ++ listed plus (pos_part m) added

  starts : (m : ℤ) → (m ≡ pos (0 + pos_part m)) ⊎ ((pos_part m ≡ 0) × (pos_part m ≡ 0))
  starts (pos n) = inl (ap pos (omega arith))
  starts (negsuc n) = inr (refl, refl)

  printed-changes :
      (m : ℤ) (xs ys : List A)
      → printed describe minus m 0 xs ++ printed describe plus m 0 ys ≡ spaced (changes m xs ys)
  printed-changes m xs ys =
      ap (λ r. r ++ printed describe plus m 0 ys)
        (printed-listed minus m 0 (pos_part m) xs (starts m))
      ∙ ap (λ r. spaced (listed minus (pos_part m) xs) ++ r)
          (printed-listed plus m 0 (pos_part m) ys (starts m))
      ∙ sym (spaced-append (listed minus (pos_part m) xs) (listed plus (pos_part m) ys))

  listed_some :
      (sign limit : ℕ) (x : A) (xs : List A) → is_empty (listed sign limit (x ∷ xs)) ≡ false
  listed_some sign zero x xs = ground arith
  listed_some sign (suc k) x xs = refl

  listed_none : (sign limit : ℕ) → listed sign limit [] ≡ []
  listed_none sign limit = ground arith

  is_empty-changes :
      (m : ℤ) (xs ys : List A)
      → (not (is_empty xs) || not (is_empty ys)) ≡ not (is_empty (changes m xs ys))
  is_empty-changes m [] [] =
      ground (arith, listed_none minus (pos_part m), listed_none plus (pos_part m))
  is_empty-changes m [] (y ∷ ys) =
      ground (arith, listed_none minus (pos_part m), listed_some plus (pos_part m) y ys)
  is_empty-changes m (x ∷ xs) ys = ap not (
      sym (
        is_empty-append (listed minus (pos_part m) (x ∷ xs)) (listed plus (pos_part m) ys)
          (listed_some minus (pos_part m) x xs)))

-- The same with the parts of the code.
pub format_diff-changes :
    {A : Type 0} (same : A → A → Bool) (describe : A → Text) (decimal : ℕ → Text)
    (orig new : Option (List A)) (options : Option ℤ)
    → let removed = minus_set same (members orig) (members new) in
      let added = minus_set same (members new) (members orig) in
      format_diff same describe decimal orig new options
      ≡ header decimal orig new (length removed) (length added)
        ++ (joined (changes describe (max_prints_of options) removed added) ++ (62 ∷ []))
unfolding format_diff
format_diff-changes same describe decimal orig new options =
    let m = max_prints_of options in
    let a = minus_set same (members orig) (members new) in
    let b = minus_set same (members new) (members orig) in
    let h = header decimal orig new (length a) (length b) in
    let c = not (is_empty a) || not (is_empty b) in
    ap (λ q. (if c then drop_last (h ++ q) else h ++ q) ++ (62 ∷ []))
      (printed-changes describe m a b)
    ∙ ap (λ r. r ++ (62 ∷ []))
        (finished h (changes describe m a b) c (is_empty-changes describe m a b))
    ∙ append_assoc h (joined (changes describe m a b)) (62 ∷ [])
