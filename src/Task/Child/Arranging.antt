-- ===== src/Task/Child/Arranging.antt =====
-- The descriptors of the child once it has arranged them (BromiumCoreUtils/BRUTask.m).
use bromium_core_utils.Prelude.{
  ℕ, ◌+◌, ◌-◌, ◌<◌, ◌≤◌, ◌≡◌, ◌⊎◌, inl, refl, ◌∙◌, ap, Bool, true, false, not, ◌&&◌, Option, none,
  ltb, leb, ◌==◌, if◌then◌else◌, arith,
}
use bromium_core_utils.Task.Child.{Posix, Plan, redirect, kept_by_exec, close_high, arrange}
use bromium_core_utils.Task.Child.Closing.{entry-close_from, entry-close_high, close_high-keeps}
use bromium_core_utils.Task.Child.Streams.{
  through, resolved, flag_of, file_at, IsOpen, file_at-redirect, flag-redirect, entry-redirect_high,
  IsOpen-redirect,
}

low_kept :
    {A : Type 0} (rounds keep c : ℕ) (e : Option A)
    → c ≤ 2
    → (if leb 3 c && (ltb c (3 + rounds) && not (c == keep)) then none else e) ≡ e
low_kept rounds keep c e h = ground arith

module _ (S : Posix) where
  open S use {
    Process, File, entry, entry-close, entry-dup2, entry-read_byte, entry-chdir, entry-setsid,
    entry-default_signals, entry-set_cloexec, entry-execve, close, getdtablesize,
  }

  abbrev pub AllOpen : Plan → Process → Type 0
  AllOpen plan p = IsOpen S plan.fd_stdin p × IsOpen S plan.fd_stdout p × IsOpen S plan.fd_stderr p

  -- Behind the three calls of dup2(2).
  abbrev pub redirected : Plan → Process → Process
  redirected plan p =
      redirect S plan.fd_stderr 2 (redirect S plan.fd_stdout 1 (redirect S plan.fd_stdin 0 p))

  pub file_at-redirected :
      (plan : Plan) (c : ℕ) (p : Process)
      → AllOpen plan p
      → file_at S c (redirected plan p) ≡ file_at S (resolved plan c) p
  file_at-redirected plan c p (i, o, e) =
      file_at-redirect S plan.fd_stderr 2 c p2 (
        IsOpen-redirect S plan.fd_stderr plan.fd_stdout 1 p1
          (IsOpen-redirect S plan.fd_stderr plan.fd_stdin 0 p e i)
          (IsOpen-redirect S plan.fd_stdout plan.fd_stdin 0 p o i))
      ∙ file_at-redirect S plan.fd_stdout 1 (through 2 plan.fd_stderr c) p1
          (IsOpen-redirect S plan.fd_stdout plan.fd_stdin 0 p o i)
      ∙ file_at-redirect S plan.fd_stdin 0 (through 1 plan.fd_stdout (through 2 plan.fd_stderr c)) p
          i
    where
      p1 : Process
      p1 = redirect S plan.fd_stdin 0 p

      p2 : Process
      p2 = redirect S plan.fd_stdout 1 p1

  pub flag-redirected :
      (plan : Plan) (c : ℕ) (p : Process)
      → flag_of (entry c p) ≡ false
      → flag_of (entry c (redirected plan p)) ≡ false
  flag-redirected plan c p h =
      flag-redirect S plan.fd_stderr 2 c
        (redirect S plan.fd_stdout 1 (redirect S plan.fd_stdin 0 p))
        (flag-redirect S plan.fd_stdout 1 c (redirect S plan.fd_stdin 0 p)
          (flag-redirect S plan.fd_stdin 0 c p h))

  entry-redirected :
      (plan : Plan) (c : ℕ) (p : Process) → 2 < c → entry c (redirected plan p) ≡ entry c p
  entry-redirected plan c p h =
      entry-redirect_high S plan.fd_stderr 2 c
        (redirect S plan.fd_stdout 1 (redirect S plan.fd_stdin 0 p)) (omega arith) h
      ∙ entry-redirect_high S plan.fd_stdout 1 c (redirect S plan.fd_stdin 0 p) (omega arith) h
      ∙ entry-redirect_high S plan.fd_stdin 0 c p (omega arith) h

  abbrev high_closed : Plan → Process → Process
  high_closed plan p =
      close_high S plan.fd_stderr (close_high S plan.fd_stdout (close_high S plan.fd_stdin p))

  entry-high_closed :
      (plan : Plan) (c : ℕ) (p : Process) → c ≤ 2 → entry c (high_closed plan p) ≡ entry c p
  entry-high_closed plan c p h =
      entry-close_high S c plan.fd_stderr
        (close_high S plan.fd_stdout (close_high S plan.fd_stdin p)) (inl h)
      ∙ entry-close_high S c plan.fd_stdout (close_high S plan.fd_stdin p) (inl h)
      ∙ entry-close_high S c plan.fd_stdin p (inl h)

  -- The streams are untouched by the closing of the other descriptors.
  pub entry-arrange_low :
      (plan : Plan) (keep c : ℕ) (p : Process)
      → c ≤ 2
      → entry c (arrange S plan keep p) ≡ entry c (redirected plan p)
  unfolding arrange
  entry-arrange_low plan keep c p h =
      entry-close_from S ((getdtablesize + 1) - 3) 3 keep c (high_closed plan (redirected plan p))
      ∙ low_kept ((getdtablesize + 1) - 3) keep c (entry c (high_closed plan (redirected plan p))) h
      ∙ entry-high_closed plan c (redirected plan p) h

  -- Nothing of it is left when the new program starts.
  abbrev pub IsLost : Option (File × Bool) → Type 0
  IsLost e = kept_by_exec e ≡ none

  IsLost-closed :
      (closed : Bool) (e : Option (File × Bool))
      → (closed ≡ false → IsLost e)
      → IsLost (if closed then none else e)
  IsLost-closed true e h = refl
  IsLost-closed false e h = h refl

  high_closed-IsLost :
      (plan : Plan) (c : ℕ) (p : Process)
      → IsLost (entry c p)
      → IsLost (entry c (high_closed plan p))
  high_closed-IsLost plan c p h =
      close_high-keeps S IsLost c plan.fd_stderr
        (close_high S plan.fd_stdout (close_high S plan.fd_stdin p)) refl
        (close_high-keeps S IsLost c plan.fd_stdout (close_high S plan.fd_stdin p) refl
          (close_high-keeps S IsLost c plan.fd_stdin p refl h))

  not_closed :
      (size keep c : ℕ)
      → 2 < c
      → (leb 3 c && (ltb c (3 + ((size + 1) - 3)) && not (c == keep))) ≡ false
      → (c ≡ keep) ⊎ (size < c)
  not_closed size keep c h e = ground arith

  -- All others are closed, or are the one that execve(2) closes.
  pub arrange-IsLost :
      (plan : Plan) (keep c : ℕ) (p : Process)
      → 2 < c
      → ((c ≡ keep) ⊎ (getdtablesize < c) → IsLost (entry c p))
      → IsLost (entry c (arrange S plan keep p))
  unfolding arrange
  arrange-IsLost plan keep c p h lost =
      ap kept_by_exec (
        entry-close_from S ((getdtablesize + 1) - 3) 3 keep c
          (high_closed plan (redirected plan p)))
      ∙ IsLost-closed (leb 3 c && (ltb c (3 + ((getdtablesize + 1) - 3)) && not (c == keep)))
          (entry c (high_closed plan (redirected plan p)))
          (λ e. high_closed-IsLost plan c (redirected plan p) (
            ap kept_by_exec (entry-redirected plan c p h)
            ∙ lost (not_closed getdtablesize keep c h e)))
