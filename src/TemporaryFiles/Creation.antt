-- ===== src/TemporaryFiles/Creation.antt =====
-- What the comments of BromiumCoreUtils/BRUTemporaryFiles.h promise of the methods.
use bromium_core_utils.Prelude.{
  ℕ, ◌≡◌, refl, ◌∙◌, ◌⊎◌, inl, inr, Bool, true, false, not, ◌||◌, Option, none, some, List, ◌++◌,
  length, if◌then◌else◌, arith,
}
use bromium_core_utils.Prelude.Outcome.{Returns}
use bromium_core_utils.NullabilityUtils.{assign_out_ptr}
use bromium_core_utils.TemporaryFiles.Templates.{
  IsTemplate, IsSuffix, is_template-IsTemplate, not_template, is_suffix-IsSuffix, not_suffix,
}
use bromium_core_utils.TemporaryFiles.{
  Platform, Text, Error, errno_at, bad_template, bad_suffix, Made, six_xs, slash, has_suffix,
  contains, is_suffix, open_temporary_file, create_temporary_file, create_temporary_directory,
  refused, opened, closed, directory_made,
}

if_elim :
    {A : Type 0} (Q : A → Type 0) (b : Bool) (x y : A)
    → (b ≡ true → Q x)
    → (b ≡ false → Q y)
    → Q (if b then x else y)
if_elim Q true x y h k = h refl
if_elim Q false x y h k = k refl

-- What follows from the checks: a template that does not end in XXXXXX or has a slash is refused,
-- then such a suffix, and nothing else.
abbrev pub IsChecked :
    Text → (suffix : Option Text) → (Refused : Error → Type 0) → (Made : Type 0) → Type 0
IsChecked basename suffix Refused Made =
    ((IsTemplate basename → ⊥) × Refused bad_template)
    ⊎ ((IsTemplate basename × (IsSuffix suffix → ⊥) × Refused bad_suffix)
        ⊎ (IsTemplate basename × IsSuffix suffix × Made))

abbrev pub units : Option Text → ℕ
units none = 0
units (some s) = length s

module _ (P : Platform) where
  open P use {
    World, temporary_directory, append_path_component, file_system_representation,
    string_with_representation, mkstemps, mkdtemp, exists, is_open, mkstemps_new, mkdtemp_new,
    close-is_open, close-exists, close_file,
  }

  -- The template in the given directory, or in the temporary one, with the suffix if there is one.
  abbrev pub path_for : (basename : Text) → (suffix dir : Option Text) → Text
  path_for basename none none = append_path_component temporary_directory basename
  path_for basename none (some dir) = append_path_component dir basename
  path_for basename (some suffix) none =
      append_path_component temporary_directory basename ++ suffix
  path_for basename (some suffix) (some dir) = append_path_component dir basename ++ suffix

  -- The error is written, and nothing else.
  abbrev pub Fails :
      {Result : Type 0}
      → Option (Option Text)
      → Option (Option Error)
      → World
      → Made P Result
      → Error
      → Type 0
  Fails out_filename error w m reason =
      (m.result ≡ none)
      × (m.out_filename ≡ out_filename)
      × (m.error ≡ assign_out_ptr error (some reason))
      × (m.world ≡ w)

  -- By what mkstemps(3) answered: the error, or an open handle and the name of a file that was not
  -- there before.
  abbrev pub Opens :
      Text
      → Option (Option Text)
      → Option (Option Error)
      → World
      → (List ℕ × (ℕ ⊎ ℕ)) × World
      → Made P ℕ
      → Type 0
  Opens template out_filename error w ((path, inl errno), v) m =
      Fails out_filename error v m (errno_at errno template)
  Opens template out_filename error w ((path, inr fd), v) m =
      (m.result ≡ some fd)
      × (m.out_filename ≡ assign_out_ptr out_filename (some (string_with_representation path)))
      × (m.error ≡ error)
      × (m.world ≡ v)
      × (exists w path ≡ false)
      × (exists v path ≡ true)
      × (is_open v fd ≡ true)

  -- Creates and opens a temporary file, with mkstemps(3) for the whole template.
  abbrev pub OpenDocumented :
      Text
      → (suffix dir : Option Text) → Option (Option Text)
      → Option (Option Error)
      → World
      → Made P ℕ
      → Type 0
  OpenDocumented basename suffix dir out_filename error w m =
      let template = path_for basename suffix dir in
      IsChecked basename suffix (Fails out_filename error w m) (
        Opens template out_filename error w
          (mkstemps (file_system_representation template) (units suffix) w) m)

  -- The name of such a file, with its handle closed.
  abbrev pub Creates :
      Text → Option (Option Error) → World → (List ℕ × (ℕ ⊎ ℕ)) × World → Made P Text → Type 0
  Creates template error w ((path, inl errno), v) m = Fails none error v m (errno_at errno template)
  Creates template error w ((path, inr fd), v) m =
      (m.result ≡ some (string_with_representation path))
      × (m.error ≡ error)
      × (m.world ≡ close_file fd v)
      × (exists w path ≡ false)
      × (exists m.world path ≡ true)
      × (is_open m.world fd ≡ false)

  abbrev pub CreateDocumented :
      Text → (suffix dir : Option Text) → Option (Option Error) → World → Made P Text → Type 0
  CreateDocumented basename suffix dir error w m =
      let template = path_for basename suffix dir in
      IsChecked basename suffix (Fails none error w m) (
        Creates template error w (mkstemps (file_system_representation template) (units suffix) w)
          m)

  -- By what mkdtemp(3) answered: the error, or the name of a directory that was not there before.
  abbrev pub MakesDirectory :
      Text → Option (Option Error) → World → (ℕ ⊎ List ℕ) × World → Made P Text → Type 0
  MakesDirectory template error w (inl errno, v) m = Fails none error v m (errno_at errno template)
  MakesDirectory template error w (inr path, v) m =
      (m.result ≡ some (string_with_representation path))
      × (m.error ≡ error)
      × (m.world ≡ v)
      × (exists w path ≡ false)
      × (exists v path ≡ true)

  abbrev pub DirectoryDocumented :
      Text → (dir : Option Text) → Option (Option Error) → World → Made P Text → Type 0
  DirectoryDocumented basename dir error w m =
      let template = path_for basename none dir in
      IsChecked basename none (Fails none error w m)
        (MakesDirectory template error w (mkdtemp (file_system_representation template) w) m)

  opened-Opens :
      (p : List ℕ) (n : ℕ) (template : Text) (out_filename : Option (Option Text))
      (error : Option (Option Error)) (w : World) (r : (List ℕ × (ℕ ⊎ ℕ)) × World)
      → mkstemps p n w ≡ r
      → Opens template out_filename error w r (opened P template out_filename error r)
  opened-Opens p n template out_filename error w ((path, inl errno), v) e = (refl, refl, refl, refl)
  opened-Opens p n template out_filename error w ((path, inr fd), v) e =
      let (absent, present, open_) = mkstemps_new p path n fd w v e in
      (refl, refl, refl, refl, absent, present, open_)

  closed-Creates :
      (p : List ℕ) (n : ℕ) (template : Text) (error : Option (Option Error)) (w : World)
      (r : (List ℕ × (ℕ ⊎ ℕ)) × World)
      → mkstemps p n w ≡ r
      → Creates template error w r (closed P (opened P template (some none) error r))
  unfolding assign_out_ptr
  closed-Creates p n template error w ((path, inl errno), v) e = (refl, refl, refl, refl)
  closed-Creates p n template error w ((path, inr fd), v) e =
      let (absent, present, open_) = mkstemps_new p path n fd w v e in
      (refl, refl, refl, absent, close-exists fd v path ∙ present, close-is_open fd v)

  directory_made-MakesDirectory :
      (p : List ℕ) (template : Text) (error : Option (Option Error)) (w : World)
      (r : (ℕ ⊎ List ℕ) × World)
      → mkdtemp p w ≡ r
      → MakesDirectory template error w r (directory_made P template error r)
  directory_made-MakesDirectory p template error w (inl errno, v) e = (refl, refl, refl, refl)
  directory_made-MakesDirectory p template error w (inr path, v) e =
      let (absent, present) = mkdtemp_new p path w v e in (refl, refl, refl, absent, present)

  -- The two checks, in their order.
  checked :
      {A : Type 0} (Refused : A → Error → Type 0) (Makes : A → Type 0) (basename : Text)
      (suffix : Option Text) (x y z : A)
      → Refused x bad_template
      → Refused y bad_suffix
      → Makes z
      → let m =
          if not (has_suffix basename six_xs) || contains basename slash
          then x
          else (if not (is_suffix suffix) then y else z) in
        IsChecked basename suffix (Refused m) (Makes m)
  checked Refused Makes basename suffix x y z h k l =
      if_elim (λ m. IsChecked basename suffix (Refused m) (Makes m))
        (not (has_suffix basename six_xs) || contains basename slash) _ _
        (λ t. inl (not_template basename (ground arith), h))
        λ t.
          if_elim (λ m. IsChecked basename suffix (Refused m) (Makes m)) (not (is_suffix suffix)) _
            _
            (λ b. inr (
              inl (
                is_template-IsTemplate basename (ground arith),
                not_suffix suffix (ground arith),
                k,
              )))
            λ b. inr (
              inr (
                is_template-IsTemplate basename (ground arith),
                is_suffix-IsSuffix suffix (ground arith),
                l,
              ))

  module _ (basename template : Text) (n : ℕ) (suffix : Option Text) (error : Option (Option Error))
      (w : World) where
    abbrev answer : (List ℕ × (ℕ ⊎ ℕ)) × World
    answer = mkstemps (file_system_representation template) n w

    -- What the checks and mkstemps(3) make of it.
    abbrev tried : Option (Option Text) → Made P ℕ
    tried out_filename =
        if not (has_suffix basename six_xs) || contains basename slash
        then refused P bad_template out_filename error w
        else if not (is_suffix suffix)
        then refused P bad_suffix out_filename error w
        else opened P template out_filename error answer

    tried_lem :
        (out_filename : Option (Option Text))
        → IsChecked basename suffix
            (Fails out_filename error w (tried out_filename))
            (Opens template out_filename error w answer (tried out_filename))
    tried_lem out_filename =
        checked (Fails out_filename error w) (Opens template out_filename error w answer) basename
          suffix _ _ _ (refl, refl, refl, refl) (refl, refl, refl, refl)
          (opened-Opens _ n template out_filename error w answer refl)

    closed_lem :
        IsChecked basename suffix
          (Fails none error w (closed P (tried (some none))))
          (Creates template error w answer (closed P (tried (some none))))
    closed_lem =
        checked (λ m. Fails none error w (closed P m))
          (λ m. Creates template error w answer (closed P m)) basename suffix _ _ _
          (refl, refl, refl, refl) (refl, refl, refl, refl)
          (closed-Creates _ n template error w answer refl)

  directory_lem :
      (basename template : Text) (error : Option (Option Error)) (w : World)
      → let m =
          if not (has_suffix basename six_xs) || contains basename slash
          then refused P bad_template none error w
          else directory_made P template error (mkdtemp (file_system_representation template) w) in
        IsChecked basename none
          (Fails none error w m)
          (MakesDirectory template error w (mkdtemp (file_system_representation template) w) m)
  directory_lem basename template error w =
      let answer = mkdtemp (file_system_representation template) w in
      if_elim
        (λ m.
          IsChecked basename none (Fails none error w m) (MakesDirectory template error w answer m))
        (not (has_suffix basename six_xs) || contains basename slash) _ _
        (λ t. inl (not_template basename (ground arith), (refl, refl, refl, refl)))
        λ t. inr (
          inr (
            is_template-IsTemplate basename (ground arith),
            tt,
            directory_made-MakesDirectory _ template error w answer refl,
          ))

  open_temporary_file_lem :
      (basename : Text) (suffix dir : Option Text) (out_filename : Option (Option Text))
      (error : Option (Option Error)) (w : World)
      → Returns
          (OpenDocumented basename suffix dir out_filename error w)
          (open_temporary_file P (some basename) suffix dir out_filename error w)
  unfolding open_temporary_file
  open_temporary_file_lem basename none none out error w =
      tried_lem basename (path_for basename none none) 0 none error w out
  open_temporary_file_lem basename none (some dir) out error w =
      tried_lem basename (path_for basename none (some dir)) 0 none error w out
  open_temporary_file_lem basename (some s) none out error w =
      tried_lem basename (path_for basename (some s) none) (length s) (some s) error w out
  open_temporary_file_lem basename (some s) (some dir) out error w =
      tried_lem basename (path_for basename (some s) (some dir)) (length s) (some s) error w out

  create_temporary_file_lem :
      (basename : Text) (suffix dir : Option Text) (error : Option (Option Error)) (w : World)
      → Returns
          (CreateDocumented basename suffix dir error w)
          (create_temporary_file P (some basename) suffix dir error w)
  unfolding create_temporary_file open_temporary_file
  create_temporary_file_lem basename none none error w =
      closed_lem basename (path_for basename none none) 0 none error w
  create_temporary_file_lem basename none (some dir) error w =
      closed_lem basename (path_for basename none (some dir)) 0 none error w
  create_temporary_file_lem basename (some s) none error w =
      closed_lem basename (path_for basename (some s) none) (length s) (some s) error w
  create_temporary_file_lem basename (some s) (some dir) error w =
      closed_lem basename (path_for basename (some s) (some dir)) (length s) (some s) error w

  create_temporary_directory_lem :
      (basename : Text) (dir : Option Text) (error : Option (Option Error)) (w : World)
      → Returns
          (DirectoryDocumented basename dir error w)
          (create_temporary_directory P (some basename) dir error w)
  unfolding create_temporary_directory
  create_temporary_directory_lem basename none error w =
      directory_lem basename (path_for basename none none) error w
  create_temporary_directory_lem basename (some dir) error w =
      directory_lem basename (path_for basename none (some dir)) error w

  -- For every template, suffix and directory the three methods that have all parameters return. A
  -- template that does not end in XXXXXX or contains a slash, and then a suffix with a slash or
  -- longer than INT_MAX, is refused with its error, and nothing is made. Otherwise mkstemps(3), or
  -- mkdtemp(3), is called for the template in the given directory (the temporary one if there is
  -- none) followed by the suffix, and with its length. What fails there is reported with that
  -- errno and path, and no result; what succeeds is handed out: it was not there before and is
  -- there afterwards, a handle is open, and a method that returns only the name of a file closes it.
  pub creation_documented :
      (basename : Text) (suffix dir : Option Text) (out_filename : Option (Option Text))
      (error : Option (Option Error)) (w : World)
      → Returns
          (OpenDocumented basename suffix dir out_filename error w)
          (open_temporary_file P (some basename) suffix dir out_filename error w)
        × Returns
            (CreateDocumented basename suffix dir error w)
            (create_temporary_file P (some basename) suffix dir error w)
        × Returns
            (DirectoryDocumented basename dir error w)
            (create_temporary_directory P (some basename) dir error w)
  creation_documented basename suffix dir out_filename error w = (
    open_temporary_file_lem basename suffix dir out_filename error w,
    create_temporary_file_lem basename suffix dir error w,
    create_temporary_directory_lem basename dir error w,
  )
