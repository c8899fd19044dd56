-- ===== src/TemporaryFiles/Convenience.antt =====
-- The methods of BromiumCoreUtils/BRUTemporaryFiles.m that have fewer parameters.
use bromium_core_utils.Prelude.{ℕ, Option, none, some, is_some}
use bromium_core_utils.Prelude.Outcome.{Outcome, ◌>>◌, bru_assert}
use bromium_core_utils.TemporaryFiles.{
  Platform, Text, Error, Made, default_template, open_temporary_file, create_temporary_file,
  create_temporary_directory,
}

module _ (P : Platform) where
  open P use {World}

  -- `openTemporaryFileWithBasenameTemplate:inDirectory:outFilename:error:`.
  unfoldable pub open_with_template :
      (basename_template dir : Option Text)
      → Option (Option Text)
      → Option (Option Error)
      → World
      → Outcome (Made P ℕ)
  unfolding open_temporary_file
  open_with_template basename_template dir out_filename error w = do
    bru_assert (is_some basename_template)
    open_temporary_file P basename_template none dir out_filename error w

  -- `openTemporaryFileInDirectory:outFilename:error:`.
  unfoldable pub open_in_directory_named :
      (dir : Option Text)
      → Option (Option Text)
      → Option (Option Error)
      → World
      → Outcome (Made P ℕ)
  unfolding open_temporary_file
  open_in_directory_named dir out_filename error w =
      open_temporary_file P (some default_template) none dir out_filename error w

  -- `openTemporaryFileInDirectory:error:`.
  unfoldable pub open_in_directory :
      (dir : Option Text) → Option (Option Error) → World → Outcome (Made P ℕ)
  unfolding open_in_directory_named
  open_in_directory dir error w = open_in_directory_named dir none error w

  -- `openTemporaryFileWithSuffix:outFilename:error:`.
  unfoldable pub open_with_suffix_named :
      (suffix : Option Text)
      → Option (Option Text)
      → Option (Option Error)
      → World
      → Outcome (Made P ℕ)
  unfolding open_temporary_file
  open_with_suffix_named suffix out_filename error w =
      open_temporary_file P (some default_template) suffix none out_filename error w

  -- `openTemporaryFileWithSuffix:error:`.
  unfoldable pub open_with_suffix :
      (suffix : Option Text) → Option (Option Error) → World → Outcome (Made P ℕ)
  unfolding open_with_suffix_named
  open_with_suffix suffix error w = open_with_suffix_named suffix none error w

  -- `openTemporaryFileError:`.
  unfoldable pub open_anywhere : Option (Option Error) → World → Outcome (Made P ℕ)
  unfolding open_in_directory_named
  open_anywhere error w = open_in_directory_named none none error w

  -- `createTemporaryFileWithBasenameTemplate:inDirectory:error:`.
  unfoldable pub create_with_template :
      (basename_template dir : Option Text) → Option (Option Error) → World → Outcome (Made P Text)
  unfolding create_temporary_file
  create_with_template basename_template dir error w = do
    bru_assert (is_some basename_template)
    create_temporary_file P basename_template none dir error w

  -- `createTemporaryFileInDirectory:error:`.
  unfoldable pub create_in_directory :
      (dir : Option Text) → Option (Option Error) → World → Outcome (Made P Text)
  unfolding create_temporary_file
  create_in_directory dir error w = create_temporary_file P (some default_template) none dir error w

  -- `createTemporaryFileWithSuffix:error:`.
  unfoldable pub create_with_suffix :
      (suffix : Option Text) → Option (Option Error) → World → Outcome (Made P Text)
  unfolding create_temporary_file
  create_with_suffix suffix error w =
      create_temporary_file P (some default_template) suffix none error w

  -- `createTemporaryFileError:`.
  unfoldable pub create_anywhere : Option (Option Error) → World → Outcome (Made P Text)
  unfolding create_in_directory
  create_anywhere error w = create_in_directory none error w

  -- `createTemporaryDirectoryInDirectory:error:`.
  unfoldable pub create_directory_in_directory :
      (dir : Option Text) → Option (Option Error) → World → Outcome (Made P Text)
  unfolding create_temporary_directory
  create_directory_in_directory dir error w =
      create_temporary_directory P (some default_template) dir error w

  -- `createTemporaryDirectoryError:`.
  unfoldable pub create_directory_anywhere : Option (Option Error) → World → Outcome (Made P Text)
  unfolding create_directory_in_directory
  create_directory_anywhere error w = create_directory_in_directory none error w
