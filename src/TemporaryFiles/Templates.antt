-- ===== src/TemporaryFiles/Templates.antt =====
-- What the checks of BromiumCoreUtils/BRUTemporaryFiles.m accept, apart from their code.
use mathlib.Core.List.{reverse-append, reverse-reverse}
use bromium_core_utils.Prelude.{
  ℕ, ◌≤◌, ◌-◌, ◌^◌, ◌≡◌, ◌⊎◌, refl, sym, ap, ◌∙◌, true, false, Option, none, some, [], ◌∷◌, ◌++◌,
  reverse, length, arith,
}
use bromium_core_utils.TemporaryFiles.{
  Text, six_xs, slash, has_prefix, has_suffix, contains, is_template, is_suffix,
}

-- The unit stands in the text.
abbrev pub Occurs : ℕ → Text → Type 0
Occurs u [] = ⊥
Occurs u (v ∷ vs) = (u ≡ v) ⊎ Occurs u vs

-- It ends in "XXXXXX", and has no "/".
abbrev pub IsTemplate : Text → Type 0
IsTemplate t =
    ((p : Text) × (t ≡ p ++ (88 ∷ (88 ∷ (88 ∷ (88 ∷ (88 ∷ (88 ∷ [])))))))) × (Occurs 47 t → ⊥)

-- There is none, or it is no longer than INT_MAX and has no "/".
abbrev pub IsSuffix : Option Text → Type 0
IsSuffix none = Unit
IsSuffix (some s) = (length s ≤ 2 ^ 31 - 1) × (Occurs 47 s → ⊥)

found-Occurs : (t : Text) (u : ℕ) → contains t u ≡ true → Occurs u t
found-Occurs [] u e = absurd (ground arith)
found-Occurs (v ∷ vs) u e = let rest = found-Occurs vs u in ground (arith, rest)

missing_refutes : (t : Text) (u : ℕ) → contains t u ≡ false → Occurs u t → ⊥
missing_refutes [] u e o = o
missing_refutes (v ∷ vs) u e o = let rest = missing_refutes vs u in ground (arith, rest)

has_prefix_rest : (s t : Text) → has_prefix s t ≡ true → (r : Text) × (t ≡ s ++ r)
has_prefix_rest [] t e = (t, refl)
has_prefix_rest (u ∷ us) [] e = absurd (ground arith)
has_prefix_rest (u ∷ us) (v ∷ vs) e =
    let (r, p) = has_prefix_rest us vs (ground arith) in (r, ground (arith, p))

has_prefix-append : (s r : Text) → has_prefix s (s ++ r) ≡ true
has_prefix-append [] r = refl
has_prefix-append (u ∷ us) r = ground (arith, has_prefix-append us r)

has_suffix_rest : (t s : Text) → has_suffix t s ≡ true → (p : Text) × (t ≡ p ++ s)
has_suffix_rest t s e =
    let (r, p) = has_prefix_rest (reverse s) (reverse t) e in
    (
      reverse r,
      sym (reverse-reverse t)
          ∙ ap reverse p
          ∙ reverse-append (reverse s) r
          ∙ ap (λ x. reverse r ++ x) (reverse-reverse s),
    )

has_suffix-append : (t p s : Text) → t ≡ p ++ s → has_suffix t s ≡ true
has_suffix-append t p s e =
    ap (has_prefix (reverse s)) (ap reverse e ∙ reverse-append p s)
    ∙ has_prefix-append (reverse s) (reverse p)

pub is_template-IsTemplate : (t : Text) → is_template t ≡ true → IsTemplate t
is_template-IsTemplate t e =
    (has_suffix_rest t six_xs (ground arith), missing_refutes t slash (ground arith))

pub not_template : (t : Text) → is_template t ≡ false → IsTemplate t → ⊥
not_template t e ((p, q), n) =
    let ends = has_suffix-append t p six_xs q in n (found-Occurs t slash (ground arith))

pub is_suffix-IsSuffix : (s : Option Text) → is_suffix s ≡ true → IsSuffix s
is_suffix-IsSuffix none e = tt
is_suffix-IsSuffix (some s) e = (ground arith, missing_refutes s slash (ground arith))

pub not_suffix : (s : Option Text) → is_suffix s ≡ false → IsSuffix s → ⊥
not_suffix none e h = absurd (ground arith)
not_suffix (some s) e (l, n) = n (found-Occurs s slash (ground arith))
