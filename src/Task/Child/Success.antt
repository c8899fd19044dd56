-- ===== src/Task/Child/Success.antt =====
-- A launch that succeeds, in both processes (BromiumCoreUtils/BRUTask.m).
use bromium_core_utils.Prelude.{
  ℕ, ◌≡◌, refl, subst, Bool, true, false, Option, none, List, ltb, ◌<◌, arith,
}
use bromium_core_utils.Prelude.Outcome.{Returns}
use bromium_core_utils.Task.{Task, Stream, ReadResult, launch, are_streams}
use bromium_core_utils.Task.Launching.{AllInterrupted}
use bromium_core_utils.Task.Child.{
  Posix, CString, CStrings, Plan, Ends, Ending, executing, ended, child,
}
use bromium_core_utils.Task.Child.Execution.{AtStart, Starts, child-Starts}
use bromium_core_utils.Task.Child.Beginning.{ends_closed, prepared_child}
use bromium_core_utils.Task.Child.Forking.{Parent, Forked, forked-Ready, Starts-before}
use bromium_core_utils.Task.Child.Answers.{
  Told, captured, conversation, failure_of, IsReleased, launch-Told,
}

module _ (S : Posix) where
  open S use {Process, close, set_cloexec, execve}

  failure_of-Starts :
      (plan : Plan) (before : Process) (c : ℕ) (e : Ending Process)
      → Starts S plan before c e
      → failure_of e ≡ none
  failure_of-Starts plan before c (executing q) h = refl
  failure_of-Starts plan before c (ended _ _ _ _) h = absurd h

  -- A program that starts does not hold a descriptor above 2.
  Starts-IsReleased :
      (plan : Plan) (before : Process) (c : ℕ) (e : Ending Process)
      → 2 < c
      → Starts S plan before c e
      → IsReleased S c e
  Starts-IsReleased plan before c (executing q) l h = high (ltb 2 c) refl h
    where
      high : (b : Bool) → ltb 2 c ≡ b → AtStart S plan before c b q → Posix.entry S c q ≡ none
      high true e k = k
      high false e k = absurd (ground arith)
  Starts-IsReleased plan before c (ended _ _ _ _) l h = absurd h

  -- A first launch with standard streams of the supported classes, by a parent whose descriptors 0
  -- to 2, and those for the standard streams of the child, are open, with 0 to 2 not marked
  -- FD_CLOEXEC and all its descriptors within the table; pipe(2) gives unused descriptors within
  -- the table, close(2) of the parent's end, fcntl(2) and execve(2), where the child calls them,
  -- do not fail, and neither do the parent's other calls. The launch then succeeds, however often
  -- its read was interrupted, and the task is running. The program has come to be executed, with
  -- all descriptors above 2 closed, and each of its standard streams is the file that the parent
  -- had at the descriptor for it, unless that is the number of a stream redirected before, when it
  -- is the file of that one.
  pub launch-Starts :
      (stdin stdout stderr : Stream) (pwd : Option CString) (leader : Bool) (argv envp : CStrings)
      (ends : Ends) (before p : Process) (pid : ℕ) (waits : List ReadResult) (t : Task) (c : ℕ)
      → let plan = captured stdin stdout stderr pwd leader argv envp in
        Parent S plan before
        → Forked S ends before p
        → (close ends.parent_reads p).0 ≡ false
        → (set_cloexec ends.child_writes (ends_closed S ends p)).0 ≡ none
        → (execve argv envp (prepared_child S plan ends p)).0 ≡ none
        → AllInterrupted waits
        → are_streams stdin stdout stderr ≡ true
        → t.was_launched ≡ false
        → t.running ≡ false
        → let e = child S plan ends p in
          Returns (Told none) (launch stdin stdout stderr (conversation S ends pid waits e) t)
          × Starts S plan before c e
  launch-Starts stdin stdout stderr pwd leader argv envp ends before p pid waits t c parent forked
        closes flags executes h a l r =
      let plan = captured stdin stdout stderr pwd leader argv envp in
      let e = child S plan ends p in
      let ready = forked-Ready S plan ends before p parent forked in
      let starts = λ (d : ℕ). child-Starts S plan ends p d ready closes flags executes in
      (
        subst
            (λ f. Returns (Told f) (launch stdin stdout stderr (conversation S ends pid waits e) t))
            (failure_of-Starts plan p c e (starts c))
            (launch-Told S e stdin stdout stderr ends pid waits t
              (Starts-IsReleased plan p ends.child_writes e ready.child_writes_high
                (starts ends.child_writes))
              h a l r),
        Starts-before S plan ends before p parent forked c e (starts c),
      )
