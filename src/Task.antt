-- ===== src/Task.antt =====
-- BromiumCoreUtils/BRUTask.m: a child process. What the system calls return is an argument; the
-- descriptors that the parent opens and closes are results. Descriptors and process identifiers are
-- numbers. The child modules have what runs in the child, its arguments and environment, and the
-- single signals.
pub mod Launching
pub mod Child
pub mod Arguments
pub mod Signals
pub mod Lifecycle
mod Examples
use bromium_core_utils.Prelude.{
  ℕ, ◌+◌, ◌-◌, ◌<◌, Bool, true, false, not, ◌&&◌, Option, none, some, List, [], ◌∷◌, ◌++◌, ltb,
  is_none, if◌then◌else◌,
}
use bromium_core_utils.Prelude.Outcome.{Outcome, done, fatal, ◌>>=◌, ◌>>◌, bru_assert}

-- The state of `childExitedSrc`: before `dispatch_resume`, with the handler, with an empty handler,
-- and after `dispatch_source_cancel`.
pub data Source : Type 0 where
  no_source inactive watching ignored cancelled : Source

pub data Reason : Type 0 where
  exit uncaught_signal : Reason

pub record Task : Type 0 where
  pub was_launched : Bool
  pub has_been_waited_on : Bool
  pub running : Bool
  pub process_identifier : ℕ
  pub termination_reason : Option Reason
  pub termination_status : ℕ
  pub source : Source
  pub semaphore : ℕ

-- `init`.
unfoldable pub init : Task
init = record {
  was_launched = false;
  has_been_waited_on = false;
  running = false;
  process_identifier = 0;
  termination_reason = none;
  termination_status = 0;
  source = no_source;
  semaphore = 0;
}

-- A standard stream: nil, an NSPipe with its two ends, an NSFileHandle, or an object of another class.
pub data Stream : Type 0 where
  nil_stream : Stream
  pipe_stream : (reading writing : ℕ) → Stream
  handle_stream : ℕ → Stream
  other_object : Stream

-- The assertion of `extractFileHandleWithObject:writeMode:shouldCloseParentEnd:` on the class.
abbrev pub is_stream : Stream → Bool
is_stream other_object = false
is_stream _ = true

-- `extractFileHandleWithObject:writeMode:shouldCloseParentEnd:` but for the assertion.
unfoldable pub extract_file_handle : Stream → (write_mode : Bool) → Option ℕ × Bool
extract_file_handle nil_stream write_mode = (none, false)
extract_file_handle (pipe_stream reading writing) write_mode =
    (some (if write_mode then writing else reading), true)
extract_file_handle (handle_stream fd) write_mode = (some fd, false)
extract_file_handle other_object write_mode = (none, false)

-- What the calls of pipe(2), fork(2), write(2) and read(2) in the parent return. `interrupted` is
-- EINTR or EAGAIN.
pub data Piped : Type 0 where
  piped : (read_end write_end : ℕ) → Piped
  pipe_failed : (errno : ℕ) → Piped

pub data Forked : Type 0 where
  forked : (pid : ℕ) → Forked
  fork_failed : (errno : ℕ) → Forked

pub data Written : Type 0 where
  wrote wrote_nothing : Written
  write_failed : (errno : ℕ) → Written

pub data ReadResult : Type 0 where
  end_of_file interrupted short : ReadResult
  exec_failed : (errno : ℕ) → ReadResult
  read_failed : (errno : ℕ) → ReadResult

pub record Responses : Type 0 where
  pub child2parent : Piped
  pub parent2child : Piped
  pub fork : Forked
  -- dispatch_source_create did not return NULL.
  pub source_created : Bool
  pub write : Written
  pub reads : List ReadResult

-- The values of `error_desc`, with `error_errno`.
pub data Failure : Type 0 where
  child2parent_failed parent2child_failed fork_error write_error : (errno : ℕ) → Failure
  read_error exec_error : (errno : ℕ) → Failure
  write_eof exec_unknown : Failure

pub record Launched : Type 0 where
  pub task : Task
  pub failure : Option Failure
  -- Pipe ends that the parent opened, and those that it closed.
  pub opened : List ℕ
  pub closed : List ℕ
  -- Ends of the standard streams that it closed.
  pub streams_closed : List ℕ

-- The loop around read(2). `none`: it still waits; else the failure, if any.
unfoldable pub await_exec : List ReadResult → Option (Option Failure)
await_exec [] = none
await_exec (interrupted ∷ rs) = await_exec rs
await_exec (end_of_file ∷ rs) = some none
await_exec (short ∷ rs) = some (some exec_unknown)
await_exec (exec_failed errno ∷ rs) = some (some (exec_error errno))
await_exec (read_failed errno ∷ rs) = some (some (read_error errno))

-- The write that lets the child run, and the loop.
unfoldable pub handshake : Written → List ReadResult → Option (Option Failure)
unfolding await_exec
handshake wrote rs = await_exec rs
handshake wrote_nothing rs = some (some write_eof)
handshake (write_failed errno) rs = some (some (write_error errno))

-- The standard stream that the parent closes after a launch.
unfoldable pub stream_closed : Stream → (write_mode : Bool) → List ℕ
unfolding extract_file_handle
stream_closed s write_mode =
    let (handle, should_close) = extract_file_handle s write_mode in
    elim handle [ none ↦ [] | some fd ↦ (if should_close && ltb 2 fd then fd ∷ [] else []) ]

abbrev streams_closed : (stdin stdout stderr : Stream) → List ℕ
streams_closed stdin stdout stderr =
    stream_closed stdin false ++ (stream_closed stdout true ++ stream_closed stderr true)

abbrev is_created : Source → Bool
is_created no_source = false
is_created _ = true

-- The end of the parent's part, and what `launchWithError:` does with the event source, which it
-- asserts not to be nil when there was no failure.
abbrev pub concluded :
    (stdin stdout stderr : Stream) (opened closed : List ℕ)
    → Option Failure
    → Task
    → Outcome Launched
concluded stdin stdout stderr opened closed none t = do
  bru_assert (is_created t.source)
  done (record {
    task = record t { running = true; source = watching };
    failure = none;
    opened = opened;
    closed = closed;
    streams_closed = streams_closed stdin stdout stderr;
  })
concluded stdin stdout stderr opened closed (some f) t = done (record {
  task = record t { source = if is_created t.source then ignored else no_source };
  failure = some f;
  opened = opened;
  closed = closed;
  streams_closed = [];
})

-- The parent behind a fork, with what the handshake gave.
abbrev pub answered :
    (stdin stdout stderr : Stream) (r1 w1 r2 w2 : ℕ)
    → Option (Option Failure)
    → Task
    → Outcome (Option Launched)
answered stdin stdout stderr r1 w1 r2 w2 none t = done none
answered stdin stdout stderr r1 w1 r2 w2 (some f) t = do
  l ←
      concluded stdin stdout stderr (r1 ∷ (w1 ∷ (r2 ∷ (w2 ∷ [])))) (r2 ∷ (w1 ∷ (w2 ∷ (r1 ∷ [])))) f
        t
  done (some l)

abbrev given_up : Failure → (opened closed : List ℕ) → Task → Launched
given_up f opened closed t = record {
  task = t;
  failure = some f;
  opened = opened;
  closed = closed;
  streams_closed = [];
}

module _ (stdin stdout stderr : Stream) where
  -- `doFork` in the parent, from fork(2) on. `none`: read(2) still waits.
  unfoldable pub do_fork : (r1 w1 r2 w2 : ℕ) → Forked → Responses → Task → Outcome (Option Launched)
  unfolding handshake stream_closed
  do_fork r1 w1 r2 w2 (fork_failed errno) calls t =
      done (some (given_up (fork_error errno) (r1 ∷ (w1 ∷ (r2 ∷ (w2 ∷ [])))) [] t))
  do_fork r1 w1 r2 w2 (forked pid) calls t =
      answered stdin stdout stderr r1 w1 r2 w2 (handshake calls.write calls.reads) (record t {
        process_identifier = pid;
        source = if calls.source_created then inactive else no_source;
      })

  -- All three are of the classes that are supported.
  abbrev pub are_streams : Bool
  are_streams = is_stream stdin && (is_stream stdout && is_stream stderr)

  -- `doFork` up to fork(2).
  unfoldable pub open_pipes : Piped → Piped → Responses → Task → Outcome (Option Launched)
  unfolding do_fork
  open_pipes (pipe_failed errno) second calls t =
      done (some (given_up (child2parent_failed errno) [] [] t))
  open_pipes (piped r1 w1) (pipe_failed errno) calls t =
      done (some (given_up (parent2child_failed errno) (r1 ∷ (w1 ∷ [])) (r1 ∷ (w1 ∷ [])) t))
  open_pipes (piped r1 w1) (piped r2 w2) calls t = do
    bru_assert are_streams
    do_fork r1 w1 r2 w2 calls.fork calls t

  -- `launchWithError:`.
  unfoldable pub launch : Responses → Task → Outcome (Option Launched)
  unfolding open_pipes
  launch calls t = do
    bru_assert (not t.was_launched)
    open_pipes calls.child2parent calls.parent2child calls (record t { was_launched = true })

-- What waitpid(2) with WNOHANG returns: EINTR, another error, 0, or a status.
pub data Waited : Type 0 where
  wait_interrupted wait_failed not_ready : Waited
  exited : ℕ → Waited
  signalled : ℕ → Waited
  other_status : Waited

-- The loop around waitpid(2). `none`: it goes on.
unfoldable pub collect : List Waited → Option Waited
collect [] = none
collect (wait_interrupted ∷ ws) = collect ws
collect (not_ready ∷ ws) = collect ws
collect (w ∷ ws) = some w

-- The event handler of `childExitedSrc` runs on another queue than the calls of the task, so each of
-- the steps below, in which it changes what they read, is a function of its own.

-- Once the child is collected: the source is cancelled, and the reason and the status are set.
abbrev terminated : Reason → ℕ → Task → Outcome (Option Task)
terminated reason status t = do
  bru_assert (t.running && t.was_launched)
  done (
      some (record t {
        termination_reason = some reason;
        termination_status = status;
        source = cancelled;
      }))

-- `none`: waitpid(2) failed, and the handler returns.
unfoldable pub child_collected : Waited → Task → Outcome (Option Task)
child_collected (exited status) t = terminated exit status t
child_collected (signalled signal) t = terminated uncaught_signal signal t
child_collected wait_failed t = done none
child_collected _ t = fatal

-- `self.running = NO`.
unfoldable pub stopped_running : Task → Task
stopped_running t = record t { running = false }

-- `dispatch_semaphore_signal`.
unfoldable pub semaphore_signalled : Task → Task
semaphore_signalled t = record t { semaphore = t.semaphore + 1 }

-- Up to `terminationHandler`, and whether it is reached.
abbrev pub told_exit : Option Task → Task → Task × Bool
told_exit none t = (t, false)
told_exit (some u) t = (semaphore_signalled (stopped_running u), true)

-- The whole event handler, when no other call comes between.
unfoldable pub child_exited : Waited → Task → Outcome (Task × Bool)
unfolding child_collected stopped_running semaphore_signalled
child_exited w t = do o ← child_collected w t; done (told_exit o t)

-- `interrupt`, `terminate`, `suspend` and `resume`: their call of kill(2), if any.
unfoldable pub send_signal : (signal : ℕ) → Task → Outcome (Option (ℕ × ℕ))
send_signal signal t = do
  bru_assert t.was_launched
  done (if t.running then some (t.process_identifier, signal) else none)

-- `waitUntilExit` up to the wait, and whether it waits.
unfoldable pub begin_wait : Task → Outcome (Task × Bool)
begin_wait t = do
  bru_assert t.was_launched
  bru_assert (not t.has_been_waited_on)
  done (record t { has_been_waited_on = true }, t.running)

-- A `dispatch_semaphore_wait` that succeeds, and one that does not.
unfoldable pub end_wait : Task → Option Task
end_wait t = if ltb 0 t.semaphore then some (record t { semaphore = t.semaphore - 1 }) else none
