-- ===== src/Task/Child/Beginning.antt =====
-- The descriptors of the child before it arranges them (BromiumCoreUtils/BRUTask.m).
use bromium_core_utils.Prelude.{
  ℕ, suc, ◌<◌, ◌≤◌, ◌≡◌, ◌⊎◌, inl, inr, refl, ◌∙◌, ap, Bool, true, false, not, ◌&&◌, Option, none,
  some, ◌==◌, is_none, if◌then◌else◌, arith,
}
use bromium_core_utils.Task.Child.{
  Posix, CString, Plan, Ends, file_of, flagged, arrange, prepare, changed_directory,
}
use bromium_core_utils.Task.Child.Closing.{entry-if}
use bromium_core_utils.Task.Child.Streams.{number, through, resolved, flag_of}
use bromium_core_utils.Task.Child.Arranging.{AllOpen, IsLost}

-- The descriptor is none of the three ends that the child closes.
abbrev pub is_apart : Ends → ℕ → Bool
is_apart ends c =
    not (c == ends.parent_reads) && (not (c == ends.parent_writes) && not (c == ends.child_reads))

through-property :
    (P : ℕ → Type 0) (stream : ℕ) (fd : Option ℕ) (c : ℕ)
    → P (number stream fd)
    → P c ⊎ (c ≤ stream)
    → P (through stream fd c) ⊎ (through stream fd c < stream)
through-property P stream fd c n h = pick (c == stream) (ground arith)
  where
    pick :
        (b : Bool)
        → (b ≡ false → P c ⊎ (c < stream))
        → P (if b then number stream fd else c) ⊎ ((if b then number stream fd else c) < stream)
    pick true k = inl n
    pick false k = k refl

-- What holds of the descriptors for the streams holds of those that they come from.
pub resolved-property :
    (P : ℕ → Type 0) (plan : Plan) (c : ℕ)
    → c ≤ 2
    → P (number 0 plan.fd_stdin)
    → P (number 1 plan.fd_stdout)
    → P (number 2 plan.fd_stderr)
    → P (resolved plan c)
resolved-property P plan c h i o e = low (
    through-property P 0 plan.fd_stdin (through 1 plan.fd_stdout (through 2 plan.fd_stderr c)) i (
      next (
        through-property P 1 plan.fd_stdout (through 2 plan.fd_stderr c) o
          (next (through-property P 2 plan.fd_stderr c e (inr h))))))
  where
    low : {d : ℕ} → P d ⊎ (d < 0) → P d
    low (inl p) = p
    low (inr l) = absurd (omega arith)

    next : {d n : ℕ} → P d ⊎ (d < suc n) → P d ⊎ (d ≤ n)
    next (inl p) = inl p
    next (inr l) = inr (omega arith)

module _ (S : Posix) where
  open S use {
    Process, File, entry, entry-close, entry-read_byte, entry-chdir, entry-setsid,
    entry-default_signals, entry-set_cloexec, entry-execve, close, getdtablesize, set_cloexec,
    setsid, execve, read_byte,
  }

  -- A child right behind fork(2).
  pub record Ready (plan : Plan) (ends : Ends) (p : Process) : Type 0 where
    -- The descriptors for the streams are open, and none of them is an end.
    pub streams_open : AllOpen S plan p
    pub stdin_apart : is_apart ends (number 0 plan.fd_stdin) ≡ true
    pub stdout_apart : is_apart ends (number 1 plan.fd_stdout) ≡ true
    pub stderr_apart : is_apart ends (number 2 plan.fd_stderr) ≡ true
    pub child_writes_high : 2 < ends.child_writes
    pub within_table : (c : ℕ) → getdtablesize < c → entry c p ≡ none
    pub streams_unflagged : (c : ℕ) → c ≤ 2 → flag_of (entry c p) ≡ false

  -- Up to the arrangement.
  abbrev told : Plan → Ends → Process → Process
  told plan ends p =
      (close ends.child_reads (read_byte ends.child_reads (changed_directory S plan.pwd p))).1

  entry-changed_directory :
      (path : Option CString) (c : ℕ) (p : Process)
      → entry c (changed_directory S path p) ≡ entry c p
  entry-changed_directory none c p = refl
  entry-changed_directory (some path) c p = entry-chdir c path p

  entry-told :
      (plan : Plan) (ends : Ends) (c : ℕ) (p : Process)
      → entry c (told plan ends p) ≡ (if c == ends.child_reads then none else entry c p)
  entry-told plan ends c p =
      entry-close c ends.child_reads (read_byte ends.child_reads (changed_directory S plan.pwd p))
      ∙ ap (λ e. if c == ends.child_reads then none else e)
          (entry-read_byte c ends.child_reads (changed_directory S plan.pwd p)
            ∙ entry-changed_directory plan.pwd c p)

  pub entry-prepare :
      (plan : Plan) (ends : Ends) (c : ℕ) (p : Process)
      → entry c (prepare S plan ends p)
        ≡ entry c (arrange S plan ends.child_writes (told plan ends p))
  unfolding prepare
  entry-prepare plan ends c p =
      entry-default_signals c (if plan.be_session_leader then setsid arranged else arranged)
      ∙ entry-if S c plan.be_session_leader (setsid arranged) arranged
      ∙ leader plan.be_session_leader
    where
      arranged : Process
      arranged = arrange S plan ends.child_writes (told plan ends p)

      leader :
          (b : Bool)
          → (if b then entry c (setsid arranged) else entry c arranged) ≡ entry c arranged
      leader true = entry-setsid c arranged
      leader false = refl

  abbrev pub ends_closed : Ends → Process → Process
  ends_closed ends p = (close ends.parent_writes (close ends.parent_reads p).1).1

  entry-ends_closed :
      (ends : Ends) (c : ℕ) (p : Process)
      → entry c (ends_closed ends p) ≡ (
          if c == ends.parent_writes
          then none
          else (if c == ends.parent_reads then none else entry c p))
  entry-ends_closed ends c p =
      entry-close c ends.parent_writes (close ends.parent_reads p).1
      ∙ ap (λ e. if c == ends.parent_writes then none else e) (entry-close c ends.parent_reads p)

  -- The child as it calls execve(2), when no call before failed.
  abbrev pub prepared_child : Plan → Ends → Process → Process
  prepared_child plan ends p =
      prepare S plan ends (set_cloexec ends.child_writes (ends_closed ends p)).1

  -- The other ends closed, the descriptor for the report flagged, and told to go on.
  abbrev pub begun : Plan → Ends → Process → Process
  begun plan ends p = told plan ends (set_cloexec ends.child_writes (ends_closed ends p)).1

  entry-set_cloexec_done :
      (c fd : ℕ) (p : Process)
      → (set_cloexec fd p).0 ≡ none
      → entry c (set_cloexec fd p).1 ≡ (if c == fd then flagged (entry c p) else entry c p)
  entry-set_cloexec_done c fd p ok =
      entry-set_cloexec c fd p
      ∙ ap (λ r. if is_none r && c == fd then flagged (entry c p) else entry c p) ok

  -- What becomes of an entry on the way to the arrangement.
  abbrev pub carried : Ends → (c : ℕ) → Option (File × Bool) → Option (File × Bool)
  carried ends c e =
      let e1 =
        if c == ends.parent_writes then none else (if c == ends.parent_reads then none else e) in
      if c == ends.child_reads then none else (if c == ends.child_writes then flagged e1 else e1)

  pub entry-begun :
      (plan : Plan) (ends : Ends) (c : ℕ) (p : Process)
      → (set_cloexec ends.child_writes (ends_closed ends p)).0 ≡ none
      → entry c (begun plan ends p) ≡ carried ends c (entry c p)
  entry-begun plan ends c p ok =
      entry-told plan ends c (set_cloexec ends.child_writes (ends_closed ends p)).1
      ∙ ap (λ e. if c == ends.child_reads then none else e)
          (entry-set_cloexec_done c ends.child_writes (ends_closed ends p) ok
            ∙ ap (λ e. if c == ends.child_writes then flagged e else e)
                (entry-ends_closed ends c p))

  pub file_of-carried :
      (ends : Ends) (c : ℕ) (e : Option (File × Bool))
      → is_apart ends c ≡ true
      → file_of (carried ends c e) ≡ file_of e
  file_of-carried ends c none h = ground arith
  file_of-carried ends c (some (f, flag)) h = ground arith

  pub flag_of-carried :
      (ends : Ends) (c : ℕ) (e : Option (File × Bool))
      → c < ends.child_writes
      → flag_of e ≡ false
      → flag_of (carried ends c e) ≡ false
  flag_of-carried ends c none l h = ground arith
  flag_of-carried ends c (some (f, flag)) l h = ground arith

  pub IsLost-carried :
      (ends : Ends) (c : ℕ) (e : Option (File × Bool))
      → (c ≡ ends.child_writes) ⊎ (e ≡ none)
      → IsLost S (carried ends c e)
  IsLost-carried ends c none h = ground arith
  IsLost-carried ends c (some (f, flag)) h = ground arith
