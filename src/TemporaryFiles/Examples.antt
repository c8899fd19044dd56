-- ===== src/TemporaryFiles/Examples.antt =====
-- A system that makes one file for every template (BromiumCoreUtils/BRUTemporaryFiles.m).
use bromium_core_utils.Prelude.{
  ℕ, suc, ◌≡◌, refl, ◌⊎◌, inr, Bool, true, false, Option, none, some, List, [], ◌∷◌, ◌++◌, ltb,
  ◌==◌, arith,
}
use bromium_core_utils.Prelude.Outcome.{Returns}
use bromium_core_utils.TemporaryFiles.{
  Platform, Text, default_template, six_xs, is_template, open_temporary_file, create_temporary_file,
  create_temporary_directory,
}
use bromium_core_utils.TemporaryFiles.Creation.{
  OpenDocumented, CreateDocumented, DirectoryDocumented, creation_documented,
}
use bromium_core_utils.TemporaryFiles.Defaults.{
  OpensWithDefaults, CreatesWithDefaults, DirectoriesWithDefaults, defaults_documented,
}

-- How many files there are, each named by its number, and the handle that is open.
record Disk : Type 0 where
  files : ℕ
  handle : Option ℕ

abbrev number_of : List ℕ → ℕ
number_of [] = 0
number_of (n ∷ rest) = n

abbrev is_file : Disk → List ℕ → Bool
is_file w p = ltb (number_of p) w.files

abbrev is_handle : Disk → ℕ → Bool
is_handle w fd = elim w.handle [ none ↦ false | some other ↦ other == fd ]

abbrev add_file : List ℕ → ℕ → Disk → (List ℕ × (ℕ ⊎ ℕ)) × Disk
add_file p n w =
    ((w.files ∷ [], inr w.files), record { files = suc w.files; handle = some w.files })

abbrev add_directory : List ℕ → Disk → (ℕ ⊎ List ℕ) × Disk
add_directory p w = (inr (w.files ∷ []), record w { files = suc w.files })

add_file_new :
    (p q : List ℕ) (n fd : ℕ) (w v : Disk)
    → add_file p n w ≡ ((q, inr fd), v)
    → (is_file w q ≡ false) × (is_file v q ≡ true) × (is_handle v fd ≡ true)
add_file_new p q n fd w v e = ground arith

add_directory_new :
    (p q : List ℕ) (w v : Disk)
    → add_directory p w ≡ (inr q, v)
    → (is_file w q ≡ false) × (is_file v q ≡ true)
add_directory_new p q w v e = ground arith

abbrev disks : Platform
disks = record {
  World = Disk;
  temporary_directory = 47 ∷ (116 ∷ []);
  append_path_component = λ s t. s ++ (47 ∷ t);
  file_system_representation = λ t. t;
  string_with_representation = λ p. p;
  mkstemps = add_file;
  mkdtemp = add_directory;
  close_file = λ fd w. record w { handle = none };
  exists = is_file;
  is_open = is_handle;
  mkstemps_new = add_file_new;
  mkdtemp_new = add_directory_new;
  close-is_open = λ fd w. refl;
  close-exists = λ fd w p. refl;
}

abbrev empty : Disk
empty = record { files = 3; handle = none }

abbrev name : Text
name = 97 ∷ (46 ∷ six_xs)

abbrev suffix : Option Text
suffix = some (46 ∷ (116 ∷ []))

creation_documented_example :
    Returns
      (OpenDocumented disks name suffix none (some none) none empty)
      (open_temporary_file disks (some name) suffix none (some none) none empty)
    × Returns
        (CreateDocumented disks name suffix none none empty)
        (create_temporary_file disks (some name) suffix none none empty)
    × Returns
        (DirectoryDocumented disks name none none empty)
        (create_temporary_directory disks (some name) none none empty)
creation_documented_example = creation_documented disks name suffix none (some none) none empty

defaults_documented_example :
    (is_template default_template ≡ true)
    × OpensWithDefaults disks name suffix none (some none) none empty
    × CreatesWithDefaults disks name suffix none none empty
    × DirectoriesWithDefaults disks none none empty
defaults_documented_example = defaults_documented disks name suffix none (some none) none empty
