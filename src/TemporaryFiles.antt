-- ===== src/TemporaryFiles.antt =====
-- BromiumCoreUtils/BRUTemporaryFiles.m and BRUTemporaryFiles.h. A string is the list of its UTF-16
-- units; nil is `none`; an out-parameter is `none` when the pointer is NULL. `Platform` is what
-- Foundation and the system do: the temporary directory, the joining of paths, their file-system
-- representation and back, mkstemps(3), mkdtemp(3) and the closing of a handle, as documented: the
-- file or directory that is made was not there before, and closing a handle removes no file.
pub mod Convenience
pub mod Creation
pub mod Templates
pub mod Defaults
mod Examples
use bromium_core_utils.Prelude.{
  ℕ, ◌-◌, ◌^◌, ◌≡◌, ◌⊎◌, inl, inr, Bool, true, false, not, ◌&&◌, ◌||◌, Option, none, some, is_some,
  List, [], ◌∷◌, ◌++◌, reverse, length, ltb, ◌==◌, if◌then◌else◌,
}
use bromium_core_utils.Prelude.Outcome.{Outcome, done, fatal, ◌>>=◌, ◌>>◌, bru_assert}
use bromium_core_utils.NullabilityUtils.{assign_out_ptr}

abbrev pub Text : Type 0
Text = List ℕ

pub record Platform : Type 1 where
  pub World : Type 0
  pub temporary_directory : Text
  pub append_path_component : Text → Text → Text
  pub file_system_representation : Text → List ℕ
  pub string_with_representation : List ℕ → Text
  -- The path as mkstemps leaves it, and errno or a descriptor.
  pub mkstemps : List ℕ → (suffix_length : ℕ) → World → (List ℕ × (ℕ ⊎ ℕ)) × World
  -- Errno, or the path.
  pub mkdtemp : List ℕ → World → (ℕ ⊎ List ℕ) × World
  pub close_file : (fd : ℕ) → World → World
  pub exists : World → List ℕ → Bool
  pub is_open : World → (fd : ℕ) → Bool
  pub mkstemps_new :
      (p q : List ℕ) (n fd : ℕ) (w v : World)
      → mkstemps p n w ≡ ((q, inr fd), v)
      → (exists w q ≡ false) × (exists v q ≡ true) × (is_open v fd ≡ true)
  pub mkdtemp_new :
      (p q : List ℕ) (w v : World)
      → mkdtemp p w ≡ (inr q, v)
      → (exists w q ≡ false) × (exists v q ≡ true)
  pub close-is_open : (fd : ℕ) (w : World) → is_open (close_file fd w) fd ≡ false
  pub close-exists : (fd : ℕ) (w : World) (p : List ℕ) → exists (close_file fd w) p ≡ exists w p

-- `NSPOSIXErrorDomain`: EINVAL for the template or the suffix, or an errno with the path.
pub data Error : Type 0 where
  bad_template bad_suffix : Error
  errno_at : (code : ℕ) (path : Text) → Error

abbrev x : ℕ
x = 88

abbrev pub slash : ℕ
slash = 47

abbrev pub six_xs : Text
six_xs = x ∷ (x ∷ (x ∷ (x ∷ (x ∷ (x ∷ [])))))

-- `DEFAULT_TMP_BASENAME_TEMPLATE`, "BRUTemporaryFiles.XXXXXX".
abbrev pub default_template : Text
default_template =
    66
    ∷ (82
        ∷ (85
            ∷ (84
                ∷ (101
                    ∷ (109
                        ∷ (112
                            ∷ (111
                                ∷ (114
                                    ∷ (97
                                        ∷ (114
                                            ∷ (121
                                                ∷ (70
                                                    ∷ (105
                                                        ∷ (108
                                                            ∷ (101
                                                            ∷ (115 ∷ (46 ∷ six_xs)))))))))))))))))

abbrev pub has_prefix : Text → Text → Bool
has_prefix [] t = true
has_prefix (u ∷ us) [] = false
has_prefix (u ∷ us) (v ∷ vs) = u == v && has_prefix us vs

-- `hasSuffix:`.
abbrev pub has_suffix : Text → Text → Bool
has_suffix t suffix = has_prefix (reverse suffix) (reverse t)

-- `rangeOfString:` with a string of one unit finds it.
abbrev pub contains : Text → ℕ → Bool
contains [] u = false
contains (v ∷ vs) u = u == v || contains vs u

-- `x ?: y`.
abbrev or_else : Option Text → Text → Text
or_else none y = y
or_else (some t) y = t

-- What the checks demand of a template and of a suffix.
abbrev pub is_template : Text → Bool
is_template t = not (not (has_suffix t six_xs) || contains t slash)

abbrev pub is_suffix : Option Text → Bool
is_suffix none = true
is_suffix (some s) = not (ltb (2 ^ 31 - 1) (length s) || contains s slash)

abbrev append_suffix : Text → Option Text → Text
append_suffix t none = t
append_suffix t (some s) = t ++ s

abbrev length_of : Option Text → ℕ
length_of none = 0
length_of (some s) = length s

module _ (P : Platform) where
  open P use {
    World, temporary_directory, append_path_component, file_system_representation,
    string_with_representation, mkstemps, mkdtemp, close_file,
  }

  -- A result, what the out-parameters hold, and the state of the system.
  pub record Made (Result : Type 0) : Type 0 where
    pub result : Option Result
    pub out_filename : Option (Option Text)
    pub error : Option (Option Error)
    pub world : World

  -- The template for mkstemps(3), before its conversion.
  abbrev pub full_template : Text → Option Text → Option Text → Text
  full_template basename suffix dir =
      append_suffix (append_path_component (or_else dir temporary_directory) basename) suffix

  -- What is made of mkstemps' answer.
  abbrev pub opened :
      (template : Text)
      → Option (Option Text)
      → Option (Option Error)
      → (List ℕ × (ℕ ⊎ ℕ)) × World
      → Made ℕ
  opened template out_filename error ((path, inl errno), w) = record {
    result = none;
    out_filename = out_filename;
    error = assign_out_ptr error (some (errno_at errno template));
    world = w;
  }
  opened template out_filename error ((path, inr fd), w) = record {
    result = some fd;
    out_filename = assign_out_ptr out_filename (some (string_with_representation path));
    error = error;
    world = w;
  }

  -- Nothing is made, and the error is written.
  abbrev pub refused :
      {Result : Type 0} → Error → Option (Option Text) → Option (Option Error) → World → Made Result
  refused reason out_filename error w = record {
    result = none;
    out_filename = out_filename;
    error = assign_out_ptr error (some reason);
    world = w;
  }

  -- `openTemporaryFileWithBasenameTemplate:suffix:inDirectory:outFilename:error:` behind its first
  -- assertion.
  abbrev pub open_checked :
      Text
      → (suffix dir : Option Text) → Option (Option Text)
      → Option (Option Error)
      → World
      → Made ℕ
  open_checked basename suffix dir out_filename error w =
      let template = full_template basename suffix dir in
      if not (has_suffix basename six_xs) || contains basename slash
      then refused bad_template out_filename error w
      else if not (is_suffix suffix)
      then refused bad_suffix out_filename error w
      else opened template out_filename error
          (mkstemps (file_system_representation template) (length_of suffix) w)

  unfoldable pub open_temporary_file :
      (basename_template suffix dir : Option Text)
      → Option (Option Text)
      → Option (Option Error)
      → World
      → Outcome (Made ℕ)
  open_temporary_file none suffix dir out_filename error w = fatal
  open_temporary_file (some basename) suffix dir out_filename error w =
      done (open_checked basename suffix dir out_filename error w)

  -- `createTemporaryFileWithBasenameTemplate:suffix:inDirectory:error:`: the variable `filename`,
  -- which is nil at first, is the out-parameter of the call; the handle is closed.
  abbrev closed : Made ℕ → Made Text
  closed m = elim m.result [
    | none ↦ record { result = none; out_filename = none; error = m.error; world = m.world }
    | some fd ↦ record {
      result = elim m.out_filename [ none ↦ none | some filename ↦ filename ];
      out_filename = none;
      error = m.error;
      world = close_file fd m.world;
    }
  ]

  unfoldable pub create_temporary_file :
      (basename_template suffix dir : Option Text)
      → Option (Option Error)
      → World
      → Outcome (Made Text)
  unfolding open_temporary_file
  create_temporary_file basename_template suffix dir error w = do
    bru_assert (is_some basename_template)
    m ← open_temporary_file basename_template suffix dir (some none) error w
    done (closed m)

  abbrev directory_made :
      (template : Text) → Option (Option Error) → (ℕ ⊎ List ℕ) × World → Made Text
  directory_made template error (inl errno, w) = refused (errno_at errno template) none error w
  directory_made template error (inr path, w) = record {
    result = some (string_with_representation path);
    out_filename = none;
    error = error;
    world = w;
  }

  -- `createTemporaryDirectoryWithBasenameTemplate:inDirectory:error:`.
  unfoldable pub create_temporary_directory :
      (basename_template dir : Option Text) → Option (Option Error) → World → Outcome (Made Text)
  create_temporary_directory none dir error w = fatal
  create_temporary_directory (some basename) dir error w =
      let template = full_template basename none dir in
      done (
        if not (has_suffix basename six_xs) || contains basename slash
        then refused bad_template none error w
        else directory_made template error (mkdtemp (file_system_representation template) w))
