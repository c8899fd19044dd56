-- ===== src/Task/Child.antt =====
-- The child of `launchWithError:` in BromiumCoreUtils/BRUTask.m, from fork(2) to execve(2). `Posix` is
-- the system under it as POSIX documents it: the table of descriptors of the process, each with its
-- file and the flag FD_CLOEXEC. What a file is, and what the other calls do, stays open.
pub mod Closing
pub mod Streams
pub mod Arranging
pub mod Beginning
pub mod Execution
pub mod Forking
pub mod Answers
pub mod Success
mod Examples
use bromium_core_utils.Prelude.{
  ℕ, zero, suc, ◌+◌, ◌-◌, ◌≡◌, Bool, true, false, not, ◌&&◌, Option, none, some, List, ltb, ◌==◌,
  is_none, if◌then◌else◌,
}

-- A C string, as its bytes, and an array of them; NULL is `none`.
abbrev pub CString : Type 0
CString = List ℕ

abbrev pub CStrings : Type 0
CStrings = Option (List CString)

module _ {File : Type 0} where
  -- What dup2(2) leaves at a descriptor, given whether it is the target, whether source and target
  -- are the same, and the entries of the source and of the descriptor.
  abbrev pub duplicated :
      (is_target same : Bool) → Option (File × Bool) → Option (File × Bool) → Option (File × Bool)
  duplicated is_target same none old = old
  duplicated is_target same (some (file, flag)) old =
      if is_target then some (file, same && flag) else old

  abbrev pub flagged : Option (File × Bool) → Option (File × Bool)
  flagged none = none
  flagged (some (file, flag)) = some (file, true)

  abbrev pub kept_by_exec : Option (File × Bool) → Option (File × Bool)
  kept_by_exec none = none
  kept_by_exec (some (file, flag)) = if flag then none else some (file, false)

  abbrev pub file_of : Option (File × Bool) → Option File
  file_of none = none
  file_of (some (file, flag)) = some file

pub record Posix : Type 1 where
  pub Process : Type 0
  pub File : Type 0
  -- The table of descriptors.
  pub entry : ℕ → Process → Option (File × Bool)
  -- Whether it failed.
  pub close : ℕ → Process → Bool × Process
  pub dup2 : (from to : ℕ) → Process → Process
  -- fcntl(2) with F_SETFD and FD_CLOEXEC; the errno if it failed.
  pub set_cloexec : ℕ → Process → Option ℕ × Process
  -- write(2) of an int, and the number of bytes written, unless it failed.
  pub write_int : (fd value : ℕ) → Process → Option ℕ × Process
  pub read_byte : ℕ → Process → Process
  pub chdir : CString → Process → Process
  pub setsid : Process → Process
  -- The loop over signal(3), and sigprocmask(2).
  pub default_signals : Process → Process
  pub getdtablesize : ℕ
  -- execve(2): its errno if it returned.
  pub execve : (argv envp : CStrings) → Process → Option ℕ × Process
  pub entry-close :
      (c fd : ℕ) (p : Process) → entry c (close fd p).1 ≡ (if c == fd then none else entry c p)
  pub entry-dup2 :
      (c from to : ℕ) (p : Process)
      → entry c (dup2 from to p) ≡ duplicated (c == to) (from == to) (entry from p) (entry c p)
  pub entry-set_cloexec :
      (c fd : ℕ) (p : Process)
      → entry c (set_cloexec fd p).1
        ≡ (if is_none (set_cloexec fd p).0 && c == fd then flagged (entry c p) else entry c p)
  pub entry-write_int :
      (c fd value : ℕ) (p : Process) → entry c (write_int fd value p).1 ≡ entry c p
  pub entry-read_byte : (c fd : ℕ) (p : Process) → entry c (read_byte fd p) ≡ entry c p
  pub entry-chdir : (c : ℕ) (path : CString) (p : Process) → entry c (chdir path p) ≡ entry c p
  pub entry-setsid : (c : ℕ) (p : Process) → entry c (setsid p) ≡ entry c p
  pub entry-default_signals : (c : ℕ) (p : Process) → entry c (default_signals p) ≡ entry c p
  pub entry-execve :
      (c : ℕ) (argv envp : CStrings) (p : Process)
      → entry c (execve argv envp p).1
        ≡ (if is_none (execve argv envp p).0 then kept_by_exec (entry c p) else entry c p)

-- The four ends of the two pipes.
pub record Ends : Type 0 where
  pub parent_reads : ℕ
  pub child_writes : ℕ
  pub child_reads : ℕ
  pub parent_writes : ℕ

-- What the block captures: `fd_stdin` to `fd_stderr`, where -1 is `none`, and the rest.
pub record Plan : Type 0 where
  pub fd_stdin : Option ℕ
  pub fd_stdout : Option ℕ
  pub fd_stderr : Option ℕ
  pub pwd : Option CString
  pub be_session_leader : Bool
  pub argv : CStrings
  pub envp : CStrings

pub data Death : Type 0 where
  aborts : Death
  exits : (status : ℕ) → Death

-- How the child's part ends: the new program runs, or the child dies with some bytes of an errno
-- written to the pipe.
pub data Ending (P : Type 0) : Type 0 where
  executing : P → Ending P
  ended : Death → (bytes errno : ℕ) → P → Ending P

-- EINVAL, and sizeof(int).
abbrev pub invalid : ℕ
invalid = 22

abbrev pub int_size : ℕ
int_size = 4

module _ (S : Posix) where
  open S use {
    Process, close, dup2, set_cloexec, write_int, read_byte, chdir, setsid, default_signals,
    getdtablesize, execve,
  }

  unfoldable pub redirect : Option ℕ → (to : ℕ) → Process → Process
  redirect none to p = p
  redirect (some fd) to p = dup2 fd to p

  unfoldable pub close_high : Option ℕ → Process → Process
  close_high none p = p
  close_high (some fd) p = if ltb 2 fd then (close fd p).1 else p

  -- `rounds` rounds of the loop that closes descriptors, from `i` on.
  unfoldable pub close_from : (rounds i keep : ℕ) → Process → Process
  close_from zero i keep p = p
  close_from (suc rounds) i keep p =
      close_from rounds (suc i) keep (if not (i == keep) then (close i p).1 else p)

  -- The standard streams, and all other descriptors but one.
  unfoldable pub arrange : Plan → (keep : ℕ) → Process → Process
  unfolding redirect close_high close_from
  arrange plan keep p =
      let input = redirect plan.fd_stdin 0 p in
      let output = redirect plan.fd_stdout 1 input in
      let error = redirect plan.fd_stderr 2 output in
      let high =
        close_high plan.fd_stderr (close_high plan.fd_stdout (close_high plan.fd_stdin error)) in
      close_from ((getdtablesize + 1) - 3) 3 keep high

  abbrev changed_directory : Option CString → Process → Process
  changed_directory none p = p
  changed_directory (some path) p = chdir path p

  -- Behind the write of the errno when fcntl(2) failed: `assert(suc_write >= 0)`, and abort(3).
  abbrev not_flagged : (fd errno : ℕ) → Option ℕ × Process → Ending Process
  not_flagged fd errno (none, p) = ended aborts 0 errno p
  not_flagged fd errno (some bytes, p) = ended aborts bytes errno (close fd p).1

  -- Behind the write of the errno of execve(2), with its assertion.
  abbrev pub not_executed : (fd errno : ℕ) → Option ℕ × Process → Ending Process
  not_executed fd errno (none, p) = ended aborts 0 errno p
  not_executed fd errno (some bytes, p) =
      if int_size == bytes
      then ended (exits invalid) bytes errno (close fd p).1
      else ended aborts bytes errno p

  abbrev pub executed : (fd : ℕ) → Option ℕ × Process → Ending Process
  executed fd (none, p) = executing p
  executed fd (some errno, p) = not_executed fd errno (write_int fd errno p)

  -- From the wait for the parent on.
  unfoldable pub prepare : Plan → Ends → Process → Process
  unfolding arrange
  prepare plan ends p =
      let moved = changed_directory plan.pwd p in
      let told = (close ends.child_reads (read_byte ends.child_reads moved)).1 in
      let arranged = arrange plan ends.child_writes told in
      default_signals (if plan.be_session_leader then setsid arranged else arranged)

  -- Behind the fcntl(2).
  unfoldable pub child_flagged : Plan → Ends → Option ℕ × Process → Ending Process
  unfolding prepare
  child_flagged plan ends (some errno, p) =
      not_flagged ends.child_writes errno (write_int ends.child_writes errno p)
  child_flagged plan ends (none, p) =
      executed ends.child_writes (execve plan.argv plan.envp (prepare plan ends p))

  -- The branch of `doFork` for the child.
  unfoldable pub child : Plan → Ends → Process → Ending Process
  unfolding child_flagged
  child plan ends p =
      let (failed, q) = close ends.parent_reads p in
      if failed
      then ended aborts 0 0 q
      else child_flagged plan ends (set_cloexec ends.child_writes (close ends.parent_writes q).1)
