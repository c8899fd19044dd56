-- ===== src/TemporaryFiles/Defaults.antt =====
-- The methods of BromiumCoreUtils/BRUTemporaryFiles.m with fewer parameters keep the promises of the
-- others (BromiumCoreUtils/BRUTemporaryFiles.h).
use bromium_core_utils.Prelude.{◌≡◌, refl, Option, none, some, true}
use bromium_core_utils.Prelude.Outcome.{Returns}
use bromium_core_utils.TemporaryFiles.{Platform, Text, Error, default_template, is_template}
use bromium_core_utils.TemporaryFiles.Creation.{
  OpenDocumented, CreateDocumented, DirectoryDocumented, creation_documented,
}
use bromium_core_utils.TemporaryFiles.Convenience.{
  open_with_template, open_in_directory_named, open_in_directory, open_with_suffix_named,
  open_with_suffix, open_anywhere, create_with_template, create_in_directory, create_with_suffix,
  create_anywhere, create_directory_in_directory, create_directory_anywhere,
}

module _ (P : Platform) where
  open P use {World}

  -- What each of the methods with fewer parameters promises: it is the one with all of them, with
  -- the default template, no suffix, the standard directory and no out-parameter for the name.
  abbrev pub OpensWithDefaults :
      Text
      → (suffix dir : Option Text) → Option (Option Text)
      → Option (Option Error)
      → World
      → Type 0
  OpensWithDefaults basename suffix dir out_filename error w =
      Returns (OpenDocumented P basename none dir out_filename error w)
        (open_with_template P (some basename) dir out_filename error w)
      × Returns (OpenDocumented P default_template none dir out_filename error w)
          (open_in_directory_named P dir out_filename error w)
      × Returns (OpenDocumented P default_template none dir none error w)
          (open_in_directory P dir error w)
      × Returns (OpenDocumented P default_template suffix none out_filename error w)
          (open_with_suffix_named P suffix out_filename error w)
      × Returns (OpenDocumented P default_template suffix none none error w)
          (open_with_suffix P suffix error w)
      × Returns (OpenDocumented P default_template none none none error w) (open_anywhere P error w)

  abbrev pub CreatesWithDefaults :
      Text → (suffix dir : Option Text) → Option (Option Error) → World → Type 0
  CreatesWithDefaults basename suffix dir error w =
      Returns (CreateDocumented P basename none dir error w)
        (create_with_template P (some basename) dir error w)
      × Returns (CreateDocumented P default_template none dir error w)
          (create_in_directory P dir error w)
      × Returns (CreateDocumented P default_template suffix none error w)
          (create_with_suffix P suffix error w)
      × Returns (CreateDocumented P default_template none none error w) (create_anywhere P error w)

  abbrev pub DirectoriesWithDefaults : (dir : Option Text) → Option (Option Error) → World → Type 0
  DirectoriesWithDefaults dir error w =
      Returns (DirectoryDocumented P default_template dir error w)
        (create_directory_in_directory P dir error w)
      × Returns (DirectoryDocumented P default_template none error w)
          (create_directory_anywhere P error w)

  -- The twelve methods with fewer parameters return and keep the promises of the three that have
  -- all, with the default template, no suffix and no out-parameter for the name where they have
  -- none; and the default template passes the check of templates.
  pub defaults_documented :
      (basename : Text) (suffix dir : Option Text) (out_filename : Option (Option Text))
      (error : Option (Option Error)) (w : World)
      → (is_template default_template ≡ true)
        × OpensWithDefaults basename suffix dir out_filename error w
        × CreatesWithDefaults basename suffix dir error w
        × DirectoriesWithDefaults dir error w
  unfolding open_with_template open_in_directory_named open_in_directory open_with_suffix_named
      open_with_suffix open_anywhere create_with_template create_in_directory create_with_suffix
      create_anywhere create_directory_in_directory create_directory_anywhere
  defaults_documented basename suffix dir out_filename error w = (
    refl,
    (
      (creation_documented P basename none dir out_filename error w).0,
      (creation_documented P default_template none dir out_filename error w).0,
      (creation_documented P default_template none dir none error w).0,
      (creation_documented P default_template suffix none out_filename error w).0,
      (creation_documented P default_template suffix none none error w).0,
      (creation_documented P default_template none none none error w).0,
    ),
    (
      (creation_documented P basename none dir none error w).1,
      (creation_documented P default_template none dir none error w).1,
      (creation_documented P default_template suffix none none error w).1,
      (creation_documented P default_template none none none error w).1,
    ),
    (
      (creation_documented P default_template none dir none error w).2,
      (creation_documented P default_template none none none error w).2,
    ),
  )
