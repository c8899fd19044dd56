-- ===== src/Task/Lifecycle.antt =====
-- A BRUTask from its launch to the end of its child, and the thread that waits for it
-- (BromiumCoreUtils/BRUTask.m). A launch is one step; the event handler for the exit of the child is
-- several, between which the other calls may come.
use bromium_core_utils.Prelude.{
  ℕ, suc, ◌+◌, ◌≤◌, ◌≡◌, ◌⊎◌, Bool, true, false, Option, none, some, List, is_none, if◌then◌else◌,
  arith,
}
use bromium_core_utils.Prelude.Outcome.{done, Returns}
use bromium_core_utils.Task.{
  Task, Stream, Responses, Launched, Waited, exited, Source, watching, init, launch, collect,
  child_collected, stopped_running, semaphore_signalled, child_exited, begin_wait, end_wait,
}

-- Where the event handler of the source is: not at work, or behind one of its steps.
pub data Stage : Type 0 where
  at_rest collected stopped signalled : Stage

pub record System : Type 0 where
  pub task : Task
  pub stage : Stage
  -- A launch succeeded.
  pub began : Bool
  -- A thread is inside the wait of `waitUntilExit`.
  pub waiting : Bool
  pub woken : ℕ
  -- How often the event handler got to `terminationHandler`.
  pub handled : ℕ

abbrev pub one_if : Bool → ℕ
one_if b = if b then 1 else 0

abbrev pub is_watching : Source → Bool
is_watching watching = true
is_watching _ = false

-- Behind waitpid(2); when that failed the handler returns.
abbrev pub behind_collect : Option Task → System → System
behind_collect none s = s
behind_collect (some t) s = record s { task = t; stage = collected }

-- Behind `self.running = NO`, and behind the signal.
abbrev pub is_past_stop : Stage → Bool
is_past_stop stopped = true
is_past_stop signalled = true
is_past_stop _ = false

abbrev is_past_signal : Stage → Bool
is_past_signal signalled = true
is_past_signal _ = false

abbrev is_collected : Stage → Bool
is_collected collected = true
is_collected _ = false

abbrev is_at_rest : Stage → Bool
is_at_rest at_rest = true
is_at_rest _ = false

pub data Step (s : System) : System → Type 0 where
  launches :
      (stdin stdout stderr : Stream) (calls : Responses) (l : Launched)
      → launch stdin stdout stderr calls s.task ≡ done (some l)
      → Step s (record s { task = l.task; began = is_none l.failure })
  collects :
      (ws : List Waited) (w : Waited) (o : Option Task)
      → s.task.source ≡ watching
      → collect ws ≡ some w
      → child_collected w s.task ≡ done o
      → Step s (behind_collect o s)
  stops : s.stage ≡ collected → Step s (record s { task = stopped_running s.task; stage = stopped })
  signals :
      s.stage ≡ stopped → Step s (record s { task = semaphore_signalled s.task; stage = signalled })
  handles : s.stage ≡ signalled → Step s (record s { stage = at_rest; handled = suc s.handled })
  waits :
      (r : Task × Bool)
      → begin_wait s.task ≡ done r
      → Step s (record s { task = r.0; waiting = r.1 })
  wakes :
      (t : Task)
      → s.waiting ≡ true
      → end_wait s.task ≡ some t
      → Step s (record s { task = t; waiting = false; woken = suc s.woken })

pub data Reach : System → Type 0 where
  new : Reach (record {
    task = init;
    stage = at_rest;
    began = false;
    waiting = false;
    woken = 0;
    handled = 0;
  })
  later : {s t : System} → Reach s → Step s t → Reach t

pub record Inv (s : System) : Type 0 where
  pub ended : one_if s.task.running + one_if (is_past_stop s.stage) + s.handled ≡ one_if s.began
  pub counted : s.task.semaphore + s.woken ≡ s.handled + one_if (is_past_signal s.stage)
  pub one_waiter : one_if s.waiting + s.woken ≤ one_if s.task.has_been_waited_on
  pub launched :
      (s.task.was_launched ≡ true) ⊎ ((s.began ≡ false) × (s.task.has_been_waited_on ≡ false))
  pub waited : (s.waiting ≡ false) ⊎ (s.began ≡ true)
  pub watched :
      (is_watching s.task.source ≡ false) ⊎ ((s.task.running ≡ true) × (is_at_rest s.stage ≡ true))
  pub known : (is_collected s.stage ≡ false) ⊎ (s.task.running ≡ true)

launches-Inv :
    (stdin stdout stderr : Stream) (calls : Responses) (l : Launched) (s : System)
    → launch stdin stdout stderr calls s.task ≡ done (some l)
    → Inv s
    → Inv (record s { task = l.task; began = is_none l.failure })
unfolding launch
launches-Inv stdin stdout stderr calls l s e v = ground arith

collects-Inv :
    (w : Waited) (o : Option Task) (s : System)
    → s.task.source ≡ watching
    → child_collected w s.task ≡ done o
    → Inv s
    → Inv (behind_collect o s)
unfolding child_collected
collects-Inv w none s c e v = v
collects-Inv w (some t) s c e v = ground arith

stops-Inv :
    (s : System)
    → s.stage ≡ collected
    → Inv s
    → Inv (record s { task = stopped_running s.task; stage = stopped })
unfolding stopped_running
stops-Inv s e v = ground arith

signals-Inv :
    (s : System)
    → s.stage ≡ stopped
    → Inv s
    → Inv (record s { task = semaphore_signalled s.task; stage = signalled })
unfolding semaphore_signalled
signals-Inv s e v = ground arith

handles-Inv :
    (s : System)
    → s.stage ≡ signalled
    → Inv s
    → Inv (record s { stage = at_rest; handled = suc s.handled })
handles-Inv s e v = ground arith

waits-Inv :
    (r : Task × Bool) (s : System)
    → begin_wait s.task ≡ done r
    → Inv s
    → Inv (record s { task = r.0; waiting = r.1 })
unfolding begin_wait
waits-Inv r s e v = ground arith

wakes-Inv :
    (t : Task) (s : System)
    → s.waiting ≡ true
    → end_wait s.task ≡ some t
    → Inv s
    → Inv (record s { task = t; waiting = false; woken = suc s.woken })
unfolding end_wait
wakes-Inv t s w e v = ground arith

Step-Inv : {s t : System} → Step s t → Inv s → Inv t
Step-Inv {s} (launches stdin stdout stderr calls l e) v =
    launches-Inv stdin stdout stderr calls l s e v
Step-Inv {s} (collects ws w o h c e) v = collects-Inv w o s h e v
Step-Inv {s} (stops e) v = stops-Inv s e v
Step-Inv {s} (signals e) v = signals-Inv s e v
Step-Inv {s} (handles e) v = handles-Inv s e v
Step-Inv {s} (waits r e) v = waits-Inv r s e v
Step-Inv {s} (wakes t w e) v = wakes-Inv t s w e v

Reach-Inv : {s : System} → Reach s → Inv s
unfolding init
Reach-Inv new = ground arith
Reach-Inv (later r st) = Step-Inv st (Reach-Inv r)

-- In every state that a task reaches, with the other calls of the task between any two steps of the
-- event handler: the event handler has got to the termination handler exactly once if a launch
-- succeeded, the task does not run any more and the event handler is not on its way from there to
-- the termination handler, and never otherwise. A thread inside `waitUntilExit` waits for a task
-- that runs, or for the event handler to signal the semaphore in its next step, or can go on: the
-- semaphore has been signalled for it. And while the source watches the child, the child's exit
-- with any status is handled, if no other call comes between, without failing an assertion: the
-- task then does not run, and has that status.
pub exit_handled_once :
    {s : System} (status : ℕ)
    → Reach s
    → (one_if (is_past_stop s.stage) + s.handled
        ≡ (if s.began then (if s.task.running then 0 else 1) else 0))
      × ((s.waiting ≡ false)
          ⊎ ((s.task.running ≡ true)
              ⊎ ((s.stage ≡ stopped) ⊎ (end_wait s.task ≡ some (record s.task { semaphore = 0 })))))
      × ((is_watching s.task.source ≡ false)
          ⊎ Returns
              (λ r. (r.0.running ≡ false) × (r.0.termination_status ≡ status) × (r.1 ≡ true))
              (child_exited (exited status) s.task))
unfolding end_wait child_exited child_collected stopped_running semaphore_signalled
exit_handled_once {s} status r = let v = Reach-Inv r in ground arith
