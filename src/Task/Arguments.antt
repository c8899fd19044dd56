-- ===== src/Task/Arguments.antt =====
-- The arguments and the environment of the child as C arrays (BromiumCoreUtils/BRUTask.m). A pointer is
-- a number, NULL is `none`; what malloc(3) and strdup(3) return, and the C string that `UTF8String`
-- gives, are arguments. A text is the list of its UTF-16 units.
pub mod RoundTrip
use bromium_core_utils.Prelude.{ℕ, suc, Option, none, some, List, [], ◌∷◌, ◌++◌, map}
use bromium_core_utils.Task.Child.{CString, CStrings}

abbrev pub Text : Type 0
Text = List ℕ

-- A block of pointers, each with the string that it points to, as strdup(3) copied it.
pub record CArray : Type 0 where
  pub block : ℕ
  pub cells : List (Option (ℕ × CString))

abbrev pub cell : Option ℕ → CString → Option (ℕ × CString)
cell none s = none
cell (some pointer) s = some (pointer, s)

-- The loop over the array, from index `i` on, and the NULL behind it.
unfoldable pub duplicates :
    (strdup : ℕ → CString → Option ℕ) (i : ℕ) → List CString → List (Option (ℕ × CString))
duplicates strdup i [] = none ∷ []
duplicates strdup i (s ∷ ss) = cell (strdup i s) s ∷ duplicates strdup (suc i) ss

-- `deepMallocedNullTerminatedArrayOfCUTF8StringsWithArray`.
unfoldable pub deep_array :
    (utf8 : Text → CString) (malloc : ℕ) (strdup : ℕ → CString → Option ℕ)
    → Option (List Text)
    → Option CArray
unfolding duplicates
deep_array utf8 malloc strdup none = none
deep_array utf8 malloc strdup (some []) = none
deep_array utf8 malloc strdup (some (t ∷ ts)) =
    some (record { block = malloc; cells = duplicates strdup 0 (map utf8 (t ∷ ts)) })

-- A cell in front of the others that a reader finds, if the reader stays in the block.
abbrev pub in_front : ℕ × CString → Option (List (ℕ × CString)) → Option (List (ℕ × CString))
in_front c none = none
in_front c (some cs) = some (c ∷ cs)

-- The cells in front of the first NULL; without one a reader runs off the end of the block.
abbrev pub until_null : List (Option (ℕ × CString)) → Option (List (ℕ × CString))
until_null [] = none
until_null (none ∷ cs) = some []
until_null (some c ∷ cs) = in_front c (until_null cs)

abbrev pub pointer_of : ℕ × CString → ℕ
pointer_of c = c.0

abbrev pub string_of : ℕ × CString → CString
string_of c = c.1

abbrev pub pointers_and_block : (block : ℕ) → Option (List (ℕ × CString)) → Option (List ℕ)
pointers_and_block block none = none
pointers_and_block block (some cs) = some (map pointer_of cs ++ (block ∷ []))

-- `freeDeepMallocedNullTerminatedArrayOfCUTF8StringsWithArray`: what it frees, in order, if its loop
-- ends in the block.
unfoldable pub free_array : Option CArray → Option (List ℕ)
free_array none = some []
free_array (some a) = pointers_and_block a.block (until_null a.cells)

abbrev pub strings_in : Option (List (ℕ × CString)) → Option CStrings
strings_in none = none
strings_in (some cs) = some (some (map string_of cs))

-- What a reader of the array finds, such as execve(2), if it stays in the block.
abbrev pub strings_of : Option CArray → Option CStrings
strings_of none = some none
strings_of (some a) = strings_in (until_null a.cells)

-- The format "%@=%@".
abbrev pub environment_entry : Text × Text → Text
environment_entry (key, value) = key ++ (61 ∷ value)

-- `buildEnvironmentWithDictionary:`, on the entries in the order of the enumeration.
unfoldable pub build_environment :
    (utf8 : Text → CString) (malloc : ℕ) (strdup : ℕ → CString → Option ℕ)
    → List (Text × Text)
    → Option CArray
unfolding deep_array
build_environment utf8 malloc strdup dictionary =
    deep_array utf8 malloc strdup (some (map environment_entry dictionary))

-- `argv` and `envp` of `launchWithError:`; the launch path is not nil.
unfoldable pub argv_of :
    (utf8 : Text → CString) (malloc : ℕ) (strdup : ℕ → CString → Option ℕ) (launch_path : Text)
    → List Text
    → Option CArray
unfolding deep_array
argv_of utf8 malloc strdup launch_path arguments =
    deep_array utf8 malloc strdup (some (launch_path ∷ arguments))

unfoldable pub envp_of :
    (utf8 : Text → CString) (malloc : ℕ) (strdup : ℕ → CString → Option ℕ)
    → Option (List (Text × Text))
    → Option CArray
unfolding build_environment
envp_of utf8 malloc strdup none = none
envp_of utf8 malloc strdup (some dictionary) = build_environment utf8 malloc strdup dictionary

-- What malloc(3) and strdup(3) returned for an array, as it lies there.
abbrev pub pointers : List (Option (ℕ × CString)) → List ℕ
pointers [] = []
pointers (none ∷ cs) = pointers cs
pointers (some c ∷ cs) = pointer_of c ∷ pointers cs

abbrev pub allocated : Option CArray → List ℕ
allocated none = []
allocated (some a) = a.block ∷ pointers a.cells
