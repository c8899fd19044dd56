-- ===== src/Task/Arguments/RoundTrip.antt =====
-- The arrays hold the strings, and all of their memory is freed (BromiumCoreUtils/BRUTask.m).
use bromium_core_utils.Prelude.{
  ℕ, suc, ◌≡◌, refl, ◌∙◌, ap, false, Option, none, some, List, [], ◌∷◌, ◌++◌, map, is_none, ◌==◌,
  if◌then◌else◌, arith,
}
use bromium_core_utils.Task.Child.{CString, CStrings}
use bromium_core_utils.Task.Launching.{count}
use bromium_core_utils.Task.Arguments.{
  Text, CArray, cell, duplicates, deep_array, until_null, pointer_of, string_of, free_array,
  strings_of, environment_entry, build_environment, argv_of, envp_of, pointers, allocated, in_front,
  pointers_and_block, strings_in,
}

-- key=value.
abbrev key_and_value : Text × Text → Text
key_and_value (key, value) = key ++ (61 ∷ value)

-- The array that a reader is to find: NULL for an empty one.
abbrev pub array_or_null : List CString → CStrings
array_or_null [] = none
array_or_null (s ∷ ss) = some (s ∷ ss)

abbrev pub expected_environment : (utf8 : Text → CString) → Option (List (Text × Text)) → CStrings
expected_environment utf8 none = none
expected_environment utf8 (some dictionary) =
    array_or_null (map (λ entry. utf8 (key_and_value entry)) dictionary)

-- Each pointer has been freed as often as it was allocated.
abbrev pub AllFreed : Option CArray → Type 0
AllFreed a =
    (freed : List ℕ) × (free_array a ≡ some freed)
    × ((b : ℕ) → count b freed ≡ count b (allocated a))

count-append : (b c : ℕ) (ps : List ℕ) → count b (ps ++ (c ∷ [])) ≡ count b (c ∷ ps)
count-append b c [] = refl
count-append b c (p ∷ ps) =
    ap (λ n. if p == b then suc n else n) (count-append b c ps) ∙ (ground arith)

module _ (utf8 : Text → CString) (malloc : ℕ) (strdup : ℕ → CString → Option ℕ)
    (copies : (i : ℕ) (s : CString) → is_none (strdup i s) ≡ false) where
  until_null-duplicates :
      (i : ℕ) (ss : List CString)
      → (cs : List (ℕ × CString)) × (until_null (duplicates strdup i ss) ≡ some cs)
        × (map string_of cs ≡ ss)
        × (map pointer_of cs ≡ pointers (duplicates strdup i ss))
  unfolding duplicates
  until_null-duplicates i [] = ([], refl, refl, refl)
  until_null-duplicates i (s ∷ ss) =
      let (cs, u, e, f) = until_null-duplicates (suc i) ss in
      first (duplicates strdup (suc i) ss) (strdup i s) (copies i s) cs u e f
    where
      first :
          (ds : List (Option (ℕ × CString))) (o : Option ℕ)
          → is_none o ≡ false
          → (cs : List (ℕ × CString)) → until_null ds ≡ some cs
          → map string_of cs ≡ ss
          → map pointer_of cs ≡ pointers ds
          → (bs : List (ℕ × CString)) × (until_null (cell o s ∷ ds) ≡ some bs)
            × (map string_of bs ≡ (s ∷ ss))
            × (map pointer_of bs ≡ pointers (cell o s ∷ ds))
      first ds none h cs u e f = absurd (ground arith)
      first ds (some p) h cs u e f =
          ((p, s) ∷ cs, ap (in_front (p, s)) u, ap (λ l. s ∷ l) e, ap (λ l. p ∷ l) f)

  deep_array-copies :
      (ts : List Text)
      → (strings_of (deep_array utf8 malloc strdup (some ts)) ≡ some (array_or_null (map utf8 ts)))
        × AllFreed (deep_array utf8 malloc strdup (some ts))
  unfolding deep_array free_array
  deep_array-copies [] = (refl, ([], refl, λ b. refl))
  deep_array-copies (t ∷ ts) =
      let (cs, u, e, f) = until_null-duplicates 0 (map utf8 (t ∷ ts)) in
      (
        ap strings_in u ∙ ap (λ l. some (some l)) e,
        (
          map pointer_of cs ++ (malloc ∷ []),
          ap (pointers_and_block malloc) u,
          λ b. count-append b malloc (map pointer_of cs) ∙ ap (λ ps. count b (malloc ∷ ps)) f,
        ),
      )

  strings-entries :
      (dictionary : List (Text × Text))
      → map utf8 (map environment_entry dictionary)
        ≡ map (λ entry. utf8 (key_and_value entry)) dictionary
  strings-entries [] = refl
  strings-entries ((key, value) ∷ entries) =
      ap (λ l. utf8 (key ++ (61 ∷ value)) ∷ l) (strings-entries entries)

  -- When no allocation fails, a reader of the arrays that are made for a launch comes to a NULL
  -- that ends them, and finds before it the launch path and the arguments, and each entry of the
  -- environment as key=value; for no environment, and for one without entries, the array is NULL.
  -- Freeing the two arrays ends too, and frees all of their memory, each allocation once.
  pub launch_strings :
      (launch_path : Text) (arguments : List Text) (environment : Option (List (Text × Text)))
      → (strings_of (argv_of utf8 malloc strdup launch_path arguments)
          ≡ some (some (utf8 launch_path ∷ map utf8 arguments)))
        × AllFreed (argv_of utf8 malloc strdup launch_path arguments)
        × (strings_of (envp_of utf8 malloc strdup environment)
            ≡ some (expected_environment utf8 environment))
        × AllFreed (envp_of utf8 malloc strdup environment)
  unfolding argv_of envp_of build_environment free_array
  launch_strings launch_path arguments none =
      let (e, f) = deep_array-copies (launch_path ∷ arguments) in
      (e, f, refl, ([], refl, λ b. refl))
  launch_strings launch_path arguments (some dictionary) =
      let (e, f) = deep_array-copies (launch_path ∷ arguments) in
      let (g, h) = deep_array-copies (map environment_entry dictionary) in
      (e, f, g ∙ ap (λ l. some (array_or_null l)) (strings-entries dictionary), h)
