-- ===== src/Task/Child/Examples.antt =====
-- Children with a table of descriptors that is a function (BromiumCoreUtils/BRUTask.m).
use bromium_core_utils.Prelude.{
  ℕ, ◌+◌, ◌≤◌, ◌<◌, ◌≡◌, refl, Bool, true, false, not, ◌&&◌, Option, none, some, [], ◌∷◌, ltb, ◌==◌,
  is_none, if◌then◌else◌, arith,
}
use bromium_core_utils.Prelude.Outcome.{Returns}
use bromium_core_utils.Task.{
  Task, no_source, nil_stream, pipe_stream, handle_stream, interrupted, exec_error,
  extract_file_handle, launch,
}
use bromium_core_utils.Task.Child.Answers.{Told, conversation, captured, execution_reported}
use bromium_core_utils.Task.Child.{
  Posix, CStrings, Plan, Ends, duplicated, file_of, flagged, kept_by_exec, child, prepare, arrange,
  redirect, close_high, close_from,
}
use bromium_core_utils.Task.Child.Streams.{flag_of}
use bromium_core_utils.Task.Child.Forking.{is_end, Parent, Forked}
use bromium_core_utils.Task.Child.Success.{launch-Starts}
use bromium_core_utils.Task.Child.Execution.{Starts, child-Starts}
use bromium_core_utils.Task.Child.Beginning.{Ready, prepared_child}

-- A file is a number.
abbrev Table : Type 0
Table = ℕ → Option (ℕ × Bool)

-- A program without a name cannot be executed.
abbrev execute : CStrings → Table → Option ℕ × Table
execute none p = (some 14, p)
execute (some argv) p = (none, λ c. kept_by_exec (p c))

execute_entry :
    (c : ℕ) (argv : CStrings) (p : Table)
    → (execute argv p).1 c ≡ (if is_none (execute argv p).0 then kept_by_exec (p c) else p c)
execute_entry c none p = refl
execute_entry c (some argv) p = refl

-- EBADF, for a descriptor that is not open.
abbrev flag_error : Bool → Option ℕ
flag_error closed = if closed then some 9 else none

-- A descriptor that is not open is not flagged.
abbrev flagged_at : (fd c : ℕ) → Table → Option (ℕ × Bool)
flagged_at fd c p = if not (is_none (p fd)) && c == fd then flagged (p c) else p c

set_cloexec_entry :
    (c fd : ℕ) (p : Table)
    → flagged_at fd c p
      ≡ (if is_none (flag_error (is_none (p fd))) && c == fd then flagged (p c) else p c)
set_cloexec_entry c fd p = ground arith

abbrev tables : Posix
tables = record {
  Process = Table;
  File = ℕ;
  entry = λ c p. p c;
  close = λ fd p. (is_none (p fd), λ c. if c == fd then none else p c);
  dup2 = λ from to p. λ c. duplicated (c == to) (from == to) (p from) (p c);
  set_cloexec = λ fd p. (flag_error (is_none (p fd)), λ c. flagged_at fd c p);
  write_int = λ fd value p. (if is_none (p fd) then none else some 4, p);
  read_byte = λ fd p. p;
  chdir = λ path p. p;
  setsid = λ p. p;
  default_signals = λ p. p;
  getdtablesize = 20;
  execve = λ argv envp p. execute argv p;
  entry-close = λ c fd p. refl;
  entry-dup2 = λ c from to p. refl;
  entry-set_cloexec = set_cloexec_entry;
  entry-write_int = λ c fd value p. refl;
  entry-read_byte = λ c fd p. refl;
  entry-chdir = λ c path p. refl;
  entry-setsid = λ c p. refl;
  entry-default_signals = λ c p. refl;
  entry-execve = λ c argv envp p. execute_entry c argv p;
}

-- Descriptors 0 to 9 are open, on the files 100 to 109.
abbrev opened : Table
opened c = if ltb c 10 then some (100 + c, false) else none

abbrev ends : Ends
ends = record { parent_reads = 3; child_writes = 4; child_reads = 5; parent_writes = 6 }

-- Standard output to descriptor 7, and standard error to the descriptor 1 of the parent.
abbrev plan : Plan
plan = record {
  fd_stdin = none;
  fd_stdout = some 7;
  fd_stderr = some 1;
  pwd = none;
  be_session_leader = true;
  argv = some ((47 ∷ []) ∷ []);
  envp = none;
}

opened_within : (c : ℕ) → 20 < c → opened c ≡ none
opened_within c h = ground arith

opened_unflagged : (c : ℕ) → c ≤ 2 → flag_of (opened c) ≡ false
opened_unflagged c h = ground arith

opened-Ready : Ready tables plan ends opened
opened-Ready = record {
  streams_open = (tt, refl, refl);
  stdin_apart = refl;
  stdout_apart = refl;
  stderr_apart = refl;
  child_writes_high = omega arith;
  within_table = opened_within;
  streams_unflagged = opened_unflagged;
}

-- The standard error of the program is the file of descriptor 7, not that of 1.
child-Starts_example : Starts tables plan opened 2 (child tables plan ends opened)
child-Starts_example = child-Starts tables plan ends opened 2 opened-Ready refl refl refl

abbrev fresh : Task
fresh = record {
  was_launched = false;
  has_been_waited_on = false;
  running = false;
  process_identifier = 0;
  termination_reason = none;
  termination_status = 0;
  source = no_source;
  semaphore = 0;
}

-- The program without a name.
abbrev nameless : Plan
nameless = captured nil_stream (pipe_stream 7 8) (handle_stream 1) none true none none

-- The child that could not execute it writes the errno.
nameless_writes :
    (Posix.write_int tables 4 14
      (Posix.execve tables none none (prepared_child tables nameless ends opened)).1).0
    ≡ some 4
unfolding prepare arrange redirect close_high close_from extract_file_handle
nameless_writes = refl

execution_reported_example : Returns (Told (some (exec_error 14))) (
    launch nil_stream
      (pipe_stream 7 8)
      (handle_stream 1)
      (conversation tables ends 100 (interrupted ∷ []) (child tables nameless ends opened))
      fresh)
execution_reported_example =
    execution_reported tables nil_stream (pipe_stream 7 8) (handle_stream 1) none true none none
      ends opened 100 (interrupted ∷ []) fresh 14 refl refl refl nameless_writes tt refl refl refl

-- The parent before it calls pipe(2).
abbrev before : Table
before c = if is_end ends c then none else opened c

abbrev given : Plan
given =
    captured nil_stream (pipe_stream 7 8) (handle_stream 1) none true (some ((47 ∷ []) ∷ [])) none

before_low_open : (c : ℕ) → c ≤ 2 → is_none (file_of (before c)) ≡ false
before_low_open c h = ground arith

before_low_unflagged : (c : ℕ) → c ≤ 2 → flag_of (before c) ≡ false
before_low_unflagged c h = ground arith

before_within : (c : ℕ) → 20 < c → before c ≡ none
before_within c h = ground arith

before-Parent : Parent tables given before
unfolding extract_file_handle
before-Parent = record {
  given_open = (tt, refl, refl);
  low_open = before_low_open;
  low_unflagged = before_low_unflagged;
  within = before_within;
}

before-Forked : Forked tables ends before opened
before-Forked = record {
  unused = λ c h. rw h refl;
  in_table = λ c h. ground arith;
  same = λ c h. rw h refl;
}

launch-Starts_example :
    Returns (Told none) (
      launch nil_stream
        (pipe_stream 7 8)
        (handle_stream 1)
        (conversation tables ends 100 (interrupted ∷ []) (child tables given ends opened))
        fresh)
    × Starts tables given before 2 (child tables given ends opened)
launch-Starts_example =
    launch-Starts tables nil_stream (pipe_stream 7 8) (handle_stream 1) none true
      (some ((47 ∷ []) ∷ [])) none ends before opened 100 (interrupted ∷ []) fresh 2 before-Parent
      before-Forked refl refl refl tt refl refl refl
