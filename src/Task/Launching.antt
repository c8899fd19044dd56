-- ===== src/Task/Launching.antt =====
-- The ways in which a launch ends, and its descriptors (BromiumCoreUtils/BRUTask.m,
-- `launchWithError:`).
use bromium_core_utils.Prelude.{
  ℕ, suc, ◌≡◌, refl, ap, ◌⊎◌, inl, inr, true, false, Option, none, some, List, [], ◌∷◌, ◌==◌,
  is_none, if◌then◌else◌, arith,
}
use bromium_core_utils.Prelude.Outcome.{Returns}
use bromium_core_utils.Task.{
  Task, Stream, Responses, Piped, piped, pipe_failed, Forked, forked, fork_failed, Launched,
  Failure, fork_error, launch, open_pipes, do_fork, answered, inactive, handshake, await_exec,
  watching, Written, wrote, wrote_nothing, write_failed, ReadResult, end_of_file, interrupted,
  short, exec_failed, read_failed, is_created, are_streams, no_source,
}

abbrev pub count : ℕ → List ℕ → ℕ
count b [] = 0
count b (c ∷ cs) = if c == b then suc (count b cs) else count b cs

-- A launch whose pipes were closed, or one that failed in fork(2) and left four ends open.
abbrev pub IsClosed : Launched → Type 0
IsClosed l =
    ((b : ℕ) → count b l.closed ≡ count b l.opened)
    ⊎ ((e : ℕ) × (l.failure ≡ some (fork_error e)) × (l.closed ≡ []))

-- The task runs, and its source watches the child, exactly when the launch did not fail; the ends
-- of the standard streams are closed only then.
abbrev pub IsTold : Launched → Type 0
IsTold l =
    (l.task.was_launched ≡ true)
    × (l.task.running ≡ is_none l.failure)
    × (((l.failure ≡ none) × (l.task.source ≡ watching))
        ⊎ ((is_none l.failure ≡ false) × (l.streams_closed ≡ [])))

-- The child has not answered: every read so far was interrupted.
abbrev pub AllInterrupted : List ReadResult → Type 0
AllInterrupted [] = Unit
AllInterrupted (interrupted ∷ rs) = AllInterrupted rs
AllInterrupted (r ∷ rs) = ⊥

abbrev pub Ends : Responses → Option Launched → Type 0
Ends calls none = (calls.write ≡ wrote) × AllInterrupted calls.reads
Ends calls (some l) = IsClosed l × IsTold l

await_exec-none : (rs : List ReadResult) → await_exec rs ≡ none → AllInterrupted rs
unfolding await_exec
await_exec-none [] e = tt
await_exec-none (interrupted ∷ rs) e = await_exec-none rs e
await_exec-none (end_of_file ∷ rs) e = absurd (ground arith)
await_exec-none (short ∷ rs) e = absurd (ground arith)
await_exec-none (exec_failed n ∷ rs) e = absurd (ground arith)
await_exec-none (read_failed n ∷ rs) e = absurd (ground arith)

handshake-none :
    (w : Written) (rs : List ReadResult) → handshake w rs ≡ none → (w ≡ wrote) × AllInterrupted rs
unfolding handshake
handshake-none wrote rs e = (refl, await_exec-none rs e)
handshake-none wrote_nothing rs e = absurd (ground arith)
handshake-none (write_failed n) rs e = absurd (ground arith)

-- The four ends are closed in another order than they were opened.
count_ends :
    (b r1 w1 r2 w2 : ℕ)
    → count b (r2 ∷ (w1 ∷ (w2 ∷ (r1 ∷ [])))) ≡ count b (r1 ∷ (w1 ∷ (r2 ∷ (w2 ∷ []))))
count_ends b r1 w1 r2 w2 = ground arith

module _ (stdin stdout stderr : Stream) where
  answered-Ends :
      (r1 w1 r2 w2 : ℕ) (calls : Responses) (t : Task) (h : Option (Option Failure))
      → is_created t.source ≡ true
      → handshake calls.write calls.reads ≡ h
      → t.was_launched ≡ true
      → t.running ≡ false
      → Returns (Ends calls) (answered stdin stdout stderr r1 w1 r2 w2 h t)
  answered-Ends r1 w1 r2 w2 calls t none c e l r = handshake-none calls.write calls.reads e
  answered-Ends r1 w1 r2 w2 calls t (some none) c e l r =
      rw c (inl (λ b. count_ends b r1 w1 r2 w2), (l, refl, inl (refl, refl)))
  answered-Ends r1 w1 r2 w2 calls t (some (some f)) c e l r =
      (inl (λ b. count_ends b r1 w1 r2 w2), (l, r, inr (refl, refl)))

  do_fork-Ends :
      (r1 w1 r2 w2 : ℕ) (f : Forked) (calls : Responses) (t : Task)
      → calls.source_created ≡ true
      → t.was_launched ≡ true
      → t.running ≡ false
      → Returns (Ends calls) (do_fork stdin stdout stderr r1 w1 r2 w2 f calls t)
  unfolding do_fork
  do_fork-Ends r1 w1 r2 w2 (fork_failed n) calls t c l r =
      (inr (n, refl, refl), (l, r, inr (refl, refl)))
  do_fork-Ends r1 w1 r2 w2 (forked pid) calls t c l r =
      answered-Ends r1 w1 r2 w2 calls
        (record t {
          process_identifier = pid;
          source = if calls.source_created then inactive else no_source;
        })
        (handshake calls.write calls.reads)
        (ap (λ b. is_created (if b then inactive else no_source)) c) refl l r

  open_pipes-Ends :
      (p q : Piped) (calls : Responses) (t : Task)
      → are_streams stdin stdout stderr ≡ true
      → calls.source_created ≡ true
      → t.was_launched ≡ true
      → t.running ≡ false
      → Returns (Ends calls) (open_pipes stdin stdout stderr p q calls t)
  unfolding open_pipes
  open_pipes-Ends (pipe_failed n) q calls t a c l r = (inl (λ b. refl), (l, r, inr (refl, refl)))
  open_pipes-Ends (piped r1 w1) (pipe_failed n) calls t a c l r =
      (inl (λ b. refl), (l, r, inr (refl, refl)))
  open_pipes-Ends (piped r1 w1) (piped r2 w2) calls t a c l r =
      rw a (do_fork-Ends r1 w1 r2 w2 calls.fork calls t c l r)

  -- The first launch of a task that does not run, with standard streams that are nil or of the
  -- supported classes, and dispatch_source_create not returning NULL, fails no assertion, whatever
  -- pipe(2), fork(2), write(2) and read(2) return. It waits on only while the child was told to go
  -- on and every read was interrupted. Otherwise it ends, and every pipe end that it opened has
  -- been closed as often as it was opened, unless fork(2) failed, in which case none has been
  -- closed. The task is running, with its source watching the child, when there was no failure;
  -- when there was one it is not running and no end of a standard stream was closed.
  pub launch-Ends :
      (calls : Responses) (t : Task)
      → are_streams stdin stdout stderr ≡ true
      → calls.source_created ≡ true
      → t.was_launched ≡ false
      → t.running ≡ false
      → Returns (Ends calls) (launch stdin stdout stderr calls t)
  unfolding launch
  launch-Ends calls t a c l r = rw l (
      open_pipes-Ends calls.child2parent calls.parent2child calls (record t { was_launched = true })
        a c refl r)
