-- ===== src/Task/Signals.antt =====
-- The signals to the child, and the launch in one call (BromiumCoreUtils/BRUTask.m). `kill` is kill(2):
-- it returns 0, or another number if it failed.
use bromium_core_utils.Prelude.{
  ℕ, ◌≡◌, refl, ap, Bool, true, false, Option, none, some, ◌==◌, ◌&&◌, is_none, if◌then◌else◌,
}
use bromium_core_utils.Prelude.Outcome.{Outcome, done, ◌>>=◌, Returns, Returns->>=}
use bromium_core_utils.Task.{
  Task, Source, no_source, inactive, watching, ignored, cancelled, Responses, Launched, Failure,
  nil_stream, send_signal, init, launch,
}
use bromium_core_utils.Task.Launching.{AllInterrupted, Ends, launch-Ends}

abbrev sigint : ℕ
sigint = 2

abbrev sigterm : ℕ
sigterm = 15

abbrev sigstop : ℕ
sigstop = 17

abbrev sigcont : ℕ
sigcont = 19

unfoldable pub interrupt : Task → Outcome (Option (ℕ × ℕ))
unfolding send_signal
interrupt t = send_signal sigint t

unfoldable pub terminate : Task → Outcome (Option (ℕ × ℕ))
unfolding send_signal
terminate t = send_signal sigterm t

module _ (kill : (pid signal : ℕ) → ℕ) where
  -- The variable `error`, which is 1 unless kill(2) is called.
  abbrev pub error_of : Option (ℕ × ℕ) → ℕ
  error_of none = 1
  error_of (some (pid, signal)) = kill pid signal

  -- With the call that they make.
  unfoldable pub suspend : Task → Outcome (Bool × Option (ℕ × ℕ))
  unfolding send_signal
  suspend t = do call ← send_signal sigstop t; done (error_of call == 0, call)

  unfoldable pub resume : Task → Outcome (Bool × Option (ℕ × ℕ))
  unfolding send_signal
  resume t = do call ← send_signal sigcont t; done (error_of call == 0, call)

-- `launchedTaskWithLaunchPath:arguments:`: the task, or nil; `none` while the launch waits.
abbrev task_or_nil : Option Launched → Option (Option Task)
task_or_nil none = none
task_or_nil (some l) = some (if is_none l.failure then some l.task else none)

unfoldable pub launched_task : Responses → Outcome (Option (Option Task))
unfolding launch init
launched_task calls = do
  l ← launch nil_stream nil_stream nil_stream calls init
  done (task_or_nil l)

-- The source when the task is deallocated.
unfoldable pub dealloc : Task → Source
dealloc t = elim t.source [
  | no_source ↦ no_source
  | inactive ↦ cancelled
  | watching ↦ cancelled
  | ignored ↦ cancelled
  | cancelled ↦ cancelled
]

-- The call of kill(2) for a task that was launched.
abbrev pub call_for : (signal : ℕ) → Task → Option (ℕ × ℕ)
call_for signal t = if t.running then some (t.process_identifier, signal) else none

module _ (kill : (pid signal : ℕ) → ℕ) where
  error-running :
      (running : Bool) (pid signal : ℕ)
      → (error_of kill (if running then some (pid, signal) else none) == 0)
        ≡ (running && (kill pid signal == 0))
  error-running true pid signal = refl
  error-running false pid signal = refl

  -- The four signals need a launched task, and are sent only to a child that runs; suspending and
  -- resuming report whether the signal was sent and kill(2) did not fail.
  pub signals_reported :
      (t : Task)
      → t.was_launched ≡ true
      → (interrupt t ≡ done (call_for 2 t))
        × (terminate t ≡ done (call_for 15 t))
        × (suspend kill t ≡ done (t.running && (kill t.process_identifier 17 == 0), call_for 17 t))
        × (resume kill t ≡ done (t.running && (kill t.process_identifier 19 == 0), call_for 19 t))
  unfolding interrupt terminate suspend resume send_signal
  signals_reported t h = rw h (
    refl,
    refl,
    ap (λ b. done (b, call_for 17 t)) (error-running t.running t.process_identifier 17),
    ap (λ b. done (b, call_for 19 t)) (error-running t.running t.process_identifier 19),
  )

-- A task that was launched in one call runs; otherwise there is nil, or the launch still waits.
abbrev pub RunsOrNil : Responses → Option (Option Task) → Type 0
RunsOrNil calls none = AllInterrupted calls.reads
RunsOrNil calls (some none) = Unit
RunsOrNil calls (some (some t)) = (t.was_launched ≡ true) × (t.running ≡ true)

task_or_nil-RunsOrNil :
    (calls : Responses) (l : Option Launched) → Ends calls l → RunsOrNil calls (task_or_nil l)
task_or_nil-RunsOrNil calls none (w, e) = e
task_or_nil-RunsOrNil calls (some l) (c, (w, r, o)) = told l.failure l.task w r
  where
    told :
        (f : Option Failure) (t : Task)
        → t.was_launched ≡ true
        → t.running ≡ is_none f
        → RunsOrNil calls (some (if is_none f then some t else none))
    told none t w r = (w, r)
    told (some f) t w r = tt

-- (dispatch_source_create does not return NULL.)
pub launched_task-RunsOrNil :
    (calls : Responses)
    → calls.source_created ≡ true
    → Returns (RunsOrNil calls) (launched_task calls)
unfolding launched_task init
launched_task-RunsOrNil calls c =
    Returns->>= (Ends calls) (RunsOrNil calls) (launch nil_stream nil_stream nil_stream calls init)
      (λ l. done (task_or_nil l))
      (launch-Ends nil_stream nil_stream nil_stream calls init refl c refl refl)
      (task_or_nil-RunsOrNil calls)
