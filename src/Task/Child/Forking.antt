-- ===== src/Task/Child/Forking.antt =====
-- The child as `launchWithError:` forks it: with the parent's descriptors, and the four ends that
-- pipe(2) opened (BromiumCoreUtils/BRUTask.m).
use bromium_core_utils.Prelude.{
  ℕ, ◌<◌, ◌≤◌, ◌≡◌, refl, ◌∙◌, ap, Bool, true, false, ◌||◌, Option, none, some, ltb, ◌==◌, is_none,
  dec_lt, arith,
}
use bromium_core_utils.Task.Child.{Posix, Plan, Ends, Ending, executing, ended, file_of}
use bromium_core_utils.Task.Child.Streams.{number, resolved, flag_of, file_at, IsOpen}
use bromium_core_utils.Task.Child.Arranging.{AllOpen}
use bromium_core_utils.Task.Child.Beginning.{is_apart, resolved-property, Ready}
use bromium_core_utils.Task.Child.Execution.{AtStart, Starts}

abbrev pub is_end : Ends → ℕ → Bool
is_end ends c =
    c == ends.parent_reads
    || (c == ends.child_writes || (c == ends.child_reads || c == ends.parent_writes))

end_apart : (ends : Ends) (c : ℕ) → is_end ends c ≡ false → is_apart ends c ≡ true
end_apart ends c h = ground arith

module _ (S : Posix) where
  open S use {Process, File, entry, close, set_cloexec, execve, getdtablesize}

  -- The parent before the launch: its standard streams, and the descriptors for those of the child,
  -- are open.
  pub record Parent (plan : Plan) (p : Process) : Type 0 where
    pub given_open : AllOpen S plan p
    pub low_open : (c : ℕ) → c ≤ 2 → is_none (file_at S c p) ≡ false
    pub low_unflagged : (c : ℕ) → c ≤ 2 → flag_of (entry c p) ≡ false
    pub within : (c : ℕ) → getdtablesize < c → entry c p ≡ none

  -- Two calls of pipe(2), which give descriptors that are not in use, and fork(2).
  pub record Forked (ends : Ends) (before after : Process) : Type 0 where
    pub unused : (c : ℕ) → is_end ends c ≡ true → entry c before ≡ none
    pub in_table : (c : ℕ) → is_end ends c ≡ true → c ≤ getdtablesize
    pub same : (c : ℕ) → is_end ends c ≡ false → entry c after ≡ entry c before

  module _ (plan : Plan) (ends : Ends) (before p : Process) (parent : Parent plan before)
      (forked : Forked ends before p) where
    -- What was open is no end.
    open-is_end :
        (c : ℕ) (b : Bool) → is_end ends c ≡ b → is_none (file_at S c before) ≡ false → b ≡ false
    open-is_end c false e h = refl
    open-is_end c true e h = absurd (closed (ap (λ x. is_none (file_of x)) (forked.unused c e)))
      where
        closed : is_none (file_at S c before) ≡ true → ⊥
        closed n = ground arith

    number_open :
        (stream : ℕ) (fd : Option ℕ)
        → stream ≤ 2
        → IsOpen S fd before
        → is_none (file_at S (number stream fd) before) ≡ false
    number_open stream none l o = parent.low_open stream l
    number_open stream (some fd) l o = o

    no_end : (c : ℕ) → is_none (file_at S c before) ≡ false → is_end ends c ≡ false
    no_end c h = open-is_end c (is_end ends c) refl h

    file_at-forked :
        (c : ℕ) → is_none (file_at S c before) ≡ false → file_at S c p ≡ file_at S c before
    file_at-forked c h = ap file_of (forked.same c (no_end c h))

    IsOpen-forked : (fd : Option ℕ) → IsOpen S fd before → IsOpen S fd p
    IsOpen-forked none o = tt
    IsOpen-forked (some fd) o = ap is_none (file_at-forked fd o) ∙ o

    stream_apart :
        (stream : ℕ) (fd : Option ℕ)
        → stream ≤ 2
        → IsOpen S fd before
        → is_apart ends (number stream fd) ≡ true
    stream_apart stream fd l o =
        end_apart ends (number stream fd) (no_end (number stream fd) (number_open stream fd l o))

    high_end : 2 < ends.child_writes
    high_end = elim (dec_lt 2 ends.child_writes) [
      | yes l ↦ l
      | no l ↦
          absurd (low (no_end ends.child_writes (parent.low_open ends.child_writes (omega arith))))
    ]
      where
        low : is_end ends ends.child_writes ≡ false → ⊥
        low h = ground arith

    beyond : (c : ℕ) (b : Bool) → is_end ends c ≡ b → getdtablesize < c → b ≡ false
    beyond c false e l = refl
    beyond c true e l = absurd (too_high (forked.in_table c e))
      where
        too_high : c ≤ getdtablesize → ⊥
        too_high h = omega arith

    pub forked-Ready : Ready S plan ends p
    forked-Ready =
        let (i, o, e) = parent.given_open in
        record {
          streams_open = (
            IsOpen-forked plan.fd_stdin i,
            IsOpen-forked plan.fd_stdout o,
            IsOpen-forked plan.fd_stderr e,
          );
          stdin_apart = stream_apart 0 plan.fd_stdin (omega arith) i;
          stdout_apart = stream_apart 1 plan.fd_stdout (omega arith) o;
          stderr_apart = stream_apart 2 plan.fd_stderr (omega arith) e;
          child_writes_high = high_end;
          within_table = λ c l. forked.same c (beyond c (is_end ends c) refl l) ∙ parent.within c l;
          streams_unflagged = λ c l.
              ap flag_of (forked.same c (no_end c (parent.low_open c l)))
              ∙ parent.low_unflagged c l;
        }

    resolved_open : (c : ℕ) → c ≤ 2 → is_none (file_at S (resolved plan c) before) ≡ false
    resolved_open c l =
        let (i, o, e) = parent.given_open in
        resolved-property (λ d. is_none (file_at S d before) ≡ false) plan c l
          (number_open 0 plan.fd_stdin (omega arith) i)
          (number_open 1 plan.fd_stdout (omega arith) o)
          (number_open 2 plan.fd_stderr (omega arith) e)

    AtStart-before :
        (c : ℕ) (high : Bool) (q : Process)
        → ltb 2 c ≡ high
        → AtStart S plan p c high q
        → AtStart S plan before c high q
    AtStart-before c true q l h = h
    AtStart-before c false q l h =
        h ∙ file_at-forked (resolved plan c) (resolved_open c (ground arith))

    pub Starts-before :
        (c : ℕ) (e : Ending Process) → Starts S plan p c e → Starts S plan before c e
    Starts-before c (executing q) h = AtStart-before c (ltb 2 c) q refl h
    Starts-before c (ended _ _ _ _) h = h
