-- ===== src/Task/Child/Streams.antt =====
-- The standard streams of the child (BromiumCoreUtils/BRUTask.m).
use bromium_core_utils.Prelude.{
  ℕ, ◌<◌, ◌≤◌, ◌≡◌, ◌≢◌, refl, ◌∙◌, sym, ap, subst, ℕ_discrete, Bool, true, false, Option, none,
  some, ◌==◌, is_none, if◌then◌else◌, arith,
}
use bromium_core_utils.Task.Child.{Posix, Plan, redirect, duplicated, file_of}

-- The descriptor that a stream is to be, given `fd_stdin` to `fd_stderr`.
abbrev pub number : (stream : ℕ) → Option ℕ → ℕ
number stream none = stream
number stream (some fd) = fd

-- The descriptor that has what `c` has once `stream` has been redirected.
abbrev pub through : (stream : ℕ) → Option ℕ → (c : ℕ) → ℕ
through stream fd c = if c == stream then number stream fd else c

-- The streams are redirected in order, so the last comes first here.
abbrev pub resolved : Plan → (c : ℕ) → ℕ
resolved plan c = through 0 plan.fd_stdin (through 1 plan.fd_stdout (through 2 plan.fd_stderr c))

abbrev pub flag_of : {File : Type 0} → Option (File × Bool) → Bool
flag_of none = false
flag_of (some (file, flag)) = flag

ap-if :
    {A B : Type 0} (f : A → B) (b : Bool) (x y : A)
    → (if b then f x else f y) ≡ f (if b then x else y)
ap-if f true x y = refl
ap-if f false x y = refl

module _ {File : Type 0} where
  duplicated_other :
      (is_target same : Bool) (new old : Option (File × Bool))
      → is_target ≡ false
      → duplicated is_target same new old ≡ old
  duplicated_other is_target same none old h = refl
  duplicated_other is_target same (some (f, flag)) old h = rw h refl

  file_of-duplicated :
      (is_target same : Bool) (new old : Option (File × Bool))
      → is_none (file_of new) ≡ false
      → file_of (duplicated is_target same new old)
        ≡ (if is_target then file_of new else file_of old)
  file_of-duplicated is_target same none old h = absurd (ground arith)
  file_of-duplicated true same (some (f, flag)) old h = refl
  file_of-duplicated false same (some (f, flag)) old h = refl

  flag_of-duplicated_same :
      (c to : ℕ) (old : Option (File × Bool))
      → flag_of old ≡ false
      → flag_of (duplicated (c == to) (c == to) old old) ≡ false
  flag_of-duplicated_same c to none h = refl
  flag_of-duplicated_same c to (some (f, flag)) h = ground arith

  flag_of-duplicated_other :
      (c to from : ℕ) (new old : Option (File × Bool))
      → from ≢ c
      → flag_of old ≡ false
      → flag_of (duplicated (c == to) (from == to) new old) ≡ false
  flag_of-duplicated_other c to from none old d h = h
  flag_of-duplicated_other c to from (some (f, flag)) old d h = ground arith

  -- A duplicate has no flag; a descriptor that is duplicated to itself keeps its own.
  flag_of-duplicated :
      (entry : ℕ → Option (File × Bool)) (c to from : ℕ)
      → flag_of (entry c) ≡ false
      → flag_of (duplicated (c == to) (from == to) (entry from) (entry c)) ≡ false
  flag_of-duplicated entry c to from h = elim (ℕ_discrete from c) [
    | yes e ↦
        subst (λ d. flag_of (duplicated (c == to) (d == to) (entry d) (entry c)) ≡ false) (sym e)
          (flag_of-duplicated_same c to (entry c) h)
    | no d ↦ flag_of-duplicated_other c to from (entry from) (entry c) d h
  ]

module _ (S : Posix) where
  open S use {Process, File, entry, entry-dup2, getdtablesize}

  abbrev pub file_at : ℕ → Process → Option File
  file_at c p = file_of (entry c p)

  abbrev pub IsOpen : Option ℕ → Process → Type 0
  IsOpen none p = Unit
  IsOpen (some fd) p = is_none (file_at fd p) ≡ false

  at_number :
      (from stream c : ℕ) (p : Process)
      → (if c == stream then file_at from p else file_at c p)
        ≡ file_at (through stream (some from) c) p
  at_number from stream c p = ap-if (λ d. file_at d p) (c == stream) from c

  same_number : (stream c : ℕ) → c ≡ through stream none c
  same_number stream c = ground arith

  through_open :
      (fd : Option ℕ) (stream c : ℕ) (p : Process)
      → is_none (file_at c p) ≡ false
      → IsOpen fd p
      → is_none (file_at (through stream fd c) p) ≡ false
  through_open none stream c p o h =
      ap (λ d. is_none (file_at d p)) (sym (same_number stream c)) ∙ o
  through_open (some fd) stream c p o h = sym (ap is_none (at_number fd stream c p)) ∙ ground arith

  pub file_at-redirect :
      (fd : Option ℕ) (stream c : ℕ) (p : Process)
      → IsOpen fd p
      → file_at c (redirect S fd stream p) ≡ file_at (through stream fd c) p
  unfolding redirect
  file_at-redirect none stream c p h = ap (λ d. file_at d p) (same_number stream c)
  file_at-redirect (some fd) stream c p h =
      ap file_of (entry-dup2 c fd stream p)
      ∙ file_of-duplicated (c == stream) (fd == stream) (entry fd p) (entry c p) h
      ∙ at_number fd stream c p

  pub flag-redirect :
      (fd : Option ℕ) (stream c : ℕ) (p : Process)
      → flag_of (entry c p) ≡ false
      → flag_of (entry c (redirect S fd stream p)) ≡ false
  unfolding redirect
  flag-redirect none stream c p h = h
  flag-redirect (some fd) stream c p h =
      ap flag_of (entry-dup2 c fd stream p) ∙ flag_of-duplicated (λ d. entry d p) c stream fd h

  pub entry-redirect_high :
      (fd : Option ℕ) (stream c : ℕ) (p : Process)
      → stream ≤ 2
      → 2 < c
      → entry c (redirect S fd stream p) ≡ entry c p
  unfolding redirect
  entry-redirect_high none stream c p l h = refl
  entry-redirect_high (some fd) stream c p l h =
      entry-dup2 c fd stream p
      ∙ duplicated_other (c == stream) (fd == stream) (entry fd p) (entry c p) (ground arith)

  pub IsOpen-redirect :
      (other fd : Option ℕ) (stream : ℕ) (p : Process)
      → IsOpen other p
      → IsOpen fd p
      → IsOpen other (redirect S fd stream p)
  IsOpen-redirect none fd stream p o h = tt
  IsOpen-redirect (some c) fd stream p o h =
      ap is_none (file_at-redirect fd stream c p h) ∙ through_open fd stream c p o h
