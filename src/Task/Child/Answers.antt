-- ===== src/Task/Child/Answers.antt =====
-- `launchWithError:` in both processes: what the parent reads is what the child left in the pipe
-- (BromiumCoreUtils/BRUTask.m).
use bromium_core_utils.Prelude.{
  ℕ, ◌≡◌, refl, sym, subst, Bool, true, false, Option, none, some, List, [], ◌∷◌, ◌++◌, ◌==◌,
  is_none, if◌then◌else◌, arith,
}
use bromium_core_utils.Prelude.Outcome.{Returns}
use bromium_core_utils.Task.{
  Task, Stream, extract_file_handle, Responses, piped, forked, wrote, ReadResult, end_of_file,
  interrupted, short, exec_failed, read_failed, Launched, Failure, exec_error, exec_unknown,
  await_exec, answered, launch, inactive, is_created, are_streams,
}
use bromium_core_utils.Task.Launching.{AllInterrupted}
use bromium_core_utils.Task.Child.{
  Posix, CString, CStrings, Plan, Ends, Ending, executing, ended, int_size, prepare, child,
  child_flagged, executed, not_executed,
}
use bromium_core_utils.Task.Child.Beginning.{ends_closed, prepared_child}

-- What the parent reads: nothing, so far, while the program that the child executes holds the
-- descriptor for the pipe; and what there is in the pipe, or its end, once the child is dead.
module _ (S : Posix) where
  open S use {Process, entry}

  abbrev pub answer : (child_writes : ℕ) → Ending Process → List ReadResult
  answer child_writes (executing q) =
      if is_none (entry child_writes q) then end_of_file ∷ [] else []
  answer child_writes (ended how bytes errno q) =
      (if bytes == 0 then end_of_file else (if int_size == bytes then exec_failed errno else short))
      ∷ []

  -- The calls of the parent, with a child that comes to this end.
  abbrev pub conversation : Ends → (pid : ℕ) → List ReadResult → Ending Process → Responses
  conversation ends pid waits e = record {
    child2parent = piped ends.parent_reads ends.child_writes;
    parent2child = piped ends.child_reads ends.parent_writes;
    fork = forked pid;
    source_created = true;
    write = wrote;
    reads = waits ++ answer ends.child_writes e;
  }

  -- The program that the child executes does not hold the descriptor.
  abbrev pub IsReleased : (child_writes : ℕ) → Ending Process → Type 0
  IsReleased child_writes (executing q) = entry child_writes q ≡ none
  IsReleased child_writes (ended how bytes errno q) = Unit

-- What the block captures.
abbrev pub captured :
    (stdin stdout stderr : Stream) (pwd : Option CString) (leader : Bool) (argv envp : CStrings)
    → Plan
captured stdin stdout stderr pwd leader argv envp = record {
  fd_stdin = (extract_file_handle stdin false).0;
  fd_stdout = (extract_file_handle stdout true).0;
  fd_stderr = (extract_file_handle stderr true).0;
  pwd = pwd;
  be_session_leader = leader;
  argv = argv;
  envp = envp;
}

abbrev pub failure_of : {P : Type 0} → Ending P → Option Failure
failure_of (executing q) = none
failure_of (ended how bytes errno q) =
    if bytes == 0
    then none
    else (if int_size == bytes then some (exec_error errno) else some exec_unknown)

abbrev pub Told : Option Failure → Option Launched → Type 0
Told f none = ⊥
Told f (some l) = (l.failure ≡ f) × (l.task.running ≡ is_none f)

await_exec-append :
    (waits rest : List ReadResult)
    → AllInterrupted waits
    → await_exec (waits ++ rest) ≡ await_exec rest
unfolding await_exec
await_exec-append [] rest h = refl
await_exec-append (interrupted ∷ waits) rest h = await_exec-append waits rest h
await_exec-append (end_of_file ∷ waits) rest h = absurd h
await_exec-append (short ∷ waits) rest h = absurd h
await_exec-append (exec_failed n ∷ waits) rest h = absurd h
await_exec-append (read_failed n ∷ waits) rest h = absurd h

await_exec-answer :
    (S : Posix) (fd : ℕ) (e : Ending (Posix.Process S))
    → IsReleased S fd e
    → await_exec (answer S fd e) ≡ some (failure_of e)
unfolding await_exec
await_exec-answer S fd (executing q) h = rw h refl
await_exec-answer S fd (ended how bytes errno q) h = cases (bytes == 0) (int_size == bytes)
  where
    cases :
        (nothing all : Bool)
        → await_exec
            ((if nothing then end_of_file else (if all then exec_failed errno else short)) ∷ [])
          ≡ some (
              if nothing
              then none
              else (if all then some (exec_error errno) else some exec_unknown))
    cases true all = refl
    cases false true = refl
    cases false false = refl

answered-Told :
    (stdin stdout stderr : Stream) (r1 w1 r2 w2 : ℕ) (f : Option Failure) (t : Task)
    → is_created t.source ≡ true
    → t.running ≡ false
    → Returns (Told f) (answered stdin stdout stderr r1 w1 r2 w2 (some f) t)
answered-Told stdin stdout stderr r1 w1 r2 w2 none t c h = rw c (refl, refl)
answered-Told stdin stdout stderr r1 w1 r2 w2 (some f) t c h = (refl, h)

pub launch-Told :
    (S : Posix) (e : Ending (Posix.Process S)) (stdin stdout stderr : Stream) (ends : Ends)
    (pid : ℕ) (waits : List ReadResult) (t : Task)
    → IsReleased S ends.child_writes e
    → AllInterrupted waits
    → are_streams stdin stdout stderr ≡ true
    → t.was_launched ≡ false
    → t.running ≡ false
    → Returns (Told (failure_of e)) (launch stdin stdout stderr (conversation S ends pid waits e) t)
unfolding launch
launch-Told S e stdin stdout stderr ends pid waits t g h a l r =
    rw
      (
        l,
        a,
        await_exec-append waits (answer S ends.child_writes e) h,
        await_exec-answer S ends.child_writes e g,
      )
      (answered-Told stdin stdout stderr ends.parent_reads ends.child_writes ends.child_reads
        ends.parent_writes (failure_of e)
        (record t { was_launched = true; process_identifier = pid; source = inactive }) refl r)

written_size : {b : ℕ} → some b ≡ some int_size → b ≡ int_size
written_size e = ground arith

-- A failure that is reported leaves no program that runs.
failed-IsReleased :
    (S : Posix) (fd : ℕ) (f : Failure) (e : Ending (Posix.Process S))
    → failure_of e ≡ some f
    → IsReleased S fd e
failed-IsReleased S fd f (executing q) h = absurd (ground arith)
failed-IsReleased S fd f (ended how bytes errno q) h = tt

module _ (S : Posix) where
  open S use {Process, close, set_cloexec, execve, write_int}

  failure_of-not_executed :
      (fd errno : ℕ) (r : Option ℕ × Process)
      → r.0 ≡ some int_size
      → failure_of (not_executed S fd errno r) ≡ some (exec_error errno)
  failure_of-not_executed fd errno (none, q) h = absurd (ground arith)
  failure_of-not_executed fd errno (some bytes, q) h =
      subst (λ b. failure_of (not_executed S fd errno (some b, q)) ≡ some (exec_error errno))
        (sym (written_size h)) refl

  failure_of-executed :
      (fd errno : ℕ) (r : Option ℕ × Process)
      → r.0 ≡ some errno
      → (write_int fd errno r.1).0 ≡ some int_size
      → failure_of (executed S fd r) ≡ some (exec_error errno)
  failure_of-executed fd errno (none, q) e w = absurd (ground arith)
  failure_of-executed fd errno (some code, q) e w =
      subst (λ n. failure_of (executed S fd (some n, q)) ≡ some (exec_error errno)) (sym (same e))
        (failure_of-not_executed fd errno (write_int fd errno q) w)
    where
      same : some code ≡ some errno → code ≡ errno
      same h = ground arith

  failure_of-child_flagged :
      (plan : Plan) (ends : Ends) (errno : ℕ) (r : Option ℕ × Process)
      → r.0 ≡ none
      → let called = execve plan.argv plan.envp (prepare S plan ends r.1) in
        called.0 ≡ some errno
        → (write_int ends.child_writes errno called.1).0 ≡ some int_size
        → failure_of (child_flagged S plan ends r) ≡ some (exec_error errno)
  unfolding child_flagged
  failure_of-child_flagged plan ends errno (none, q) e x w =
      failure_of-executed ends.child_writes errno
        (execve plan.argv plan.envp (prepare S plan ends q)) x w
  failure_of-child_flagged plan ends errno (some other, q) e x w = absurd (ground arith)

  -- A first launch with standard streams of the supported classes, in which execve(2) in the child
  -- returns an errno, and neither the calls before it on the ends of the pipes, nor the write of
  -- the errno behind it, nor another call of the parent fails, ends, however often the read was
  -- interrupted: it fails with that errno of execve(2), and the task is not running.
  pub execution_reported :
      (stdin stdout stderr : Stream) (pwd : Option CString) (leader : Bool) (argv envp : CStrings)
      (ends : Ends) (p : Process) (pid : ℕ) (waits : List ReadResult) (t : Task) (errno : ℕ)
      → let plan = captured stdin stdout stderr pwd leader argv envp in
        let called = execve argv envp (prepared_child S plan ends p) in
        (close ends.parent_reads p).0 ≡ false
        → (set_cloexec ends.child_writes (ends_closed S ends p)).0 ≡ none
        → called.0 ≡ some errno
        → (write_int ends.child_writes errno called.1).0 ≡ some int_size
        → AllInterrupted waits
        → are_streams stdin stdout stderr ≡ true
        → t.was_launched ≡ false
        → t.running ≡ false
        → Returns
            (Told (some (exec_error errno)))
            (launch stdin stdout stderr (conversation S ends pid waits (child S plan ends p)) t)
  unfolding child
  execution_reported stdin stdout stderr pwd leader argv envp ends p pid waits t errno c f x w h a l
        r =
      let plan = captured stdin stdout stderr pwd leader argv envp in
      let e = child S plan ends p in
      let fails : failure_of e ≡ some (exec_error errno) = rw c (
        failure_of-child_flagged plan ends errno
          (set_cloexec ends.child_writes (ends_closed S ends p)) f x w) in
      subst (λ g. Returns (Told g) (launch stdin stdout stderr (conversation S ends pid waits e) t))
        fails
        (launch-Told S e stdin stdout stderr ends pid waits t
          (failed-IsReleased S ends.child_writes (exec_error errno) e fails) h a l r)
