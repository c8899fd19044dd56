-- ===== src/Task/Child/Execution.antt =====
-- The descriptors with which the new program starts (BromiumCoreUtils/BRUTask.m).
use bromium_core_utils.Prelude.{
  ℕ, ◌<◌, ◌≤◌, ◌≡◌, ◌⊎◌, inl, inr, refl, ◌∙◌, ap, Bool, true, false, Option, none, some, ltb,
  is_none, if◌then◌else◌, arith,
}
use bromium_core_utils.Task.Child.{
  Posix, Plan, Ends, Ending, executing, ended, file_of, kept_by_exec, arrange, prepare, child,
  child_flagged, executed,
}
use bromium_core_utils.Task.Child.Streams.{number, resolved, flag_of, file_at, IsOpen}
use bromium_core_utils.Task.Child.Arranging.{
  AllOpen, redirected, file_at-redirected, flag-redirected, entry-arrange_low, IsLost,
  arrange-IsLost,
}
use bromium_core_utils.Task.Child.Beginning.{
  is_apart, resolved-property, Ready, ends_closed, prepared_child, begun, entry-begun,
  file_of-carried, flag_of-carried, IsLost-carried, entry-prepare,
}

file_of-kept_by_exec :
    {File : Type 0} (e : Option (File × Bool))
    → flag_of e ≡ false
    → file_of (kept_by_exec e) ≡ file_of e
file_of-kept_by_exec none h = refl
file_of-kept_by_exec (some (f, flag)) h = rw h refl

module _ (S : Posix) where
  open S use {Process, File, entry, entry-execve, close, getdtablesize, set_cloexec, execve}

  -- A descriptor of the new program: closed, or for a standard stream the file of the parent's
  -- descriptor that the redirections lead to.
  abbrev pub AtStart : Plan → (forked : Process) → (c : ℕ) → (high : Bool) → Process → Type 0
  AtStart plan p c true q = entry c q ≡ none
  AtStart plan p c false q = file_at S c q ≡ file_at S (resolved plan c) p

  abbrev pub Starts : Plan → (forked : Process) → (c : ℕ) → Ending Process → Type 0
  Starts plan p c (executing q) = AtStart plan p c (ltb 2 c) q
  Starts plan p c (ended how bytes errno q) = ⊥

  module _ (plan : Plan) (ends : Ends) (p : Process) (ready : Ready S plan ends p)
      (flags : (set_cloexec ends.child_writes (ends_closed S ends p)).0 ≡ none) where
    file_at-begun :
        (c : ℕ) → is_apart ends c ≡ true → file_at S c (begun S plan ends p) ≡ file_at S c p
    file_at-begun c h =
        ap file_of (entry-begun S plan ends c p flags) ∙ file_of-carried S ends c (entry c p) h

    IsOpen-begun :
        (stream : ℕ) (fd : Option ℕ)
        → IsOpen S fd p
        → is_apart ends (number stream fd) ≡ true
        → IsOpen S fd (begun S plan ends p)
    IsOpen-begun stream none o h = tt
    IsOpen-begun stream (some fd) o h = ap is_none (file_at-begun fd h) ∙ o

    AllOpen-begun : AllOpen S plan (begun S plan ends p)
    AllOpen-begun =
        let (i, o, e) = ready.streams_open in
        (
          IsOpen-begun 0 plan.fd_stdin i ready.stdin_apart,
          IsOpen-begun 1 plan.fd_stdout o ready.stdout_apart,
          IsOpen-begun 2 plan.fd_stderr e ready.stderr_apart,
        )

    -- Before execve(2).
    abbrev prepared : Process
    prepared = prepared_child S plan ends p

    entry-prepared :
        (c : ℕ)
        → entry c prepared ≡ entry c (arrange S plan ends.child_writes (begun S plan ends p))
    entry-prepared c =
        entry-prepare S plan ends c (set_cloexec ends.child_writes (ends_closed S ends p)).1

    prepared-IsLost : (c : ℕ) → 2 < c → IsLost S (entry c prepared)
    prepared-IsLost c h =
        ap kept_by_exec (entry-prepared c)
        ∙ arrange-IsLost S plan ends.child_writes c (begun S plan ends p) h (λ o.
          ap kept_by_exec (entry-begun S plan ends c p flags)
          ∙ IsLost-carried S ends c (entry c p) (reason o))
      where
        reason :
            (c ≡ ends.child_writes) ⊎ (getdtablesize < c)
            → (c ≡ ends.child_writes) ⊎ (entry c p ≡ none)
        reason (inl e) = inl e
        reason (inr l) = inr (ready.within_table c l)

    entry-prepared_low :
        (c : ℕ) → c ≤ 2 → entry c prepared ≡ entry c (redirected S plan (begun S plan ends p))
    entry-prepared_low c h =
        entry-prepared c ∙ entry-arrange_low S plan ends.child_writes c (begun S plan ends p) h

    flag-prepared : (c : ℕ) → c ≤ 2 → flag_of (entry c prepared) ≡ false
    flag-prepared c h =
        ap flag_of (entry-prepared_low c h)
        ∙ flag-redirected S plan c (begun S plan ends p) (
            ap flag_of (entry-begun S plan ends c p flags)
            ∙ flag_of-carried S ends c (entry c p) (below ready.child_writes_high)
                (ready.streams_unflagged c h))
      where
        below : 2 < ends.child_writes → c < ends.child_writes
        below l = omega arith

    file_at-prepared : (c : ℕ) → c ≤ 2 → file_at S c prepared ≡ file_at S (resolved plan c) p
    file_at-prepared c h =
        ap file_of (entry-prepared_low c h)
        ∙ file_at-redirected S plan c (begun S plan ends p) AllOpen-begun
        ∙ file_at-begun (resolved plan c) (
            resolved-property (λ d. is_apart ends d ≡ true) plan c h ready.stdin_apart
              ready.stdout_apart ready.stderr_apart)

    prepared-AtStart :
        (c : ℕ) (high : Bool) (q : Process)
        → ltb 2 c ≡ high
        → entry c q ≡ kept_by_exec (entry c prepared)
        → AtStart plan p c high q
    prepared-AtStart c true q l e = e ∙ prepared-IsLost c (ground arith)
    prepared-AtStart c false q l e =
        ap file_of e
        ∙ file_of-kept_by_exec (entry c prepared) (flag-prepared c (ground arith))
        ∙ file_at-prepared c (ground arith)

    entry-executed :
        (c : ℕ)
        → (execve plan.argv plan.envp prepared).0 ≡ none
        → entry c (execve plan.argv plan.envp prepared).1 ≡ kept_by_exec (entry c prepared)
    entry-executed c h =
        entry-execve c plan.argv plan.envp prepared
        ∙ ap (λ r. if is_none r then kept_by_exec (entry c prepared) else entry c prepared) h

  executed-Starts :
      (plan : Plan) (p : Process) (c fd : ℕ) (r : Option ℕ × Process)
      → r.0 ≡ none
      → AtStart plan p c (ltb 2 c) r.1
      → Starts plan p c (executed S fd r)
  executed-Starts plan p c fd (none, q) e h = h
  executed-Starts plan p c fd (some errno, q) e h = absurd (ground arith)

  child_flagged-Starts :
      (plan : Plan) (ends : Ends) (p : Process) (c : ℕ) (r : Option ℕ × Process)
      → r.0 ≡ none
      → Starts plan p c
          (executed S ends.child_writes (execve plan.argv plan.envp (prepare S plan ends r.1)))
      → Starts plan p c (child_flagged S plan ends r)
  unfolding child_flagged
  child_flagged-Starts plan ends p c (none, q) e h = h
  child_flagged-Starts plan ends p c (some errno, q) e h = absurd (ground arith)

  -- A child whose descriptors for the standard streams are open and are none of the ends of the
  -- pipes that it closes, whose end for the report lies above 2, whose open descriptors lie within
  -- the table, and whose descriptors 0 to 2 are not marked FD_CLOEXEC, and in which the first
  -- close(2), fcntl(2) and execve(2) do not fail, comes to execute the program. The program starts
  -- with all descriptors above 2 closed. Each of its standard streams is the file that the parent's
  -- descriptor for it had, unless that is the number of a stream redirected before, when it is the
  -- file of that one.
  pub child-Starts :
      (plan : Plan) (ends : Ends) (p : Process) (c : ℕ)
      → Ready S plan ends p
      → (close ends.parent_reads p).0 ≡ false
      → (set_cloexec ends.child_writes (ends_closed S ends p)).0 ≡ none
      → (execve plan.argv plan.envp (prepared_child S plan ends p)).0 ≡ none
      → Starts plan p c (child S plan ends p)
  unfolding child
  child-Starts plan ends p c ready closes flags executes = rw closes (
      child_flagged-Starts plan ends p c (set_cloexec ends.child_writes (ends_closed S ends p))
        flags
        (executed-Starts plan p c ends.child_writes
          (execve plan.argv plan.envp (prepared plan ends p ready flags)) executes
          (prepared-AtStart plan ends p ready flags c (ltb 2 c)
            (execve plan.argv plan.envp (prepared plan ends p ready flags)).1 refl
            (entry-executed plan ends p ready flags c executes))))
