-- ===== src/Timer/Chains.antt =====
-- The chains of callbacks of a BRUTimer (BromiumCoreUtils/BRUTimer.m): a job, the job that it leaves
-- behind, and so on; a generation tells the callbacks that still count.
use bromium_core_utils.Prelude.{
  ℕ, suc, ◌+◌, ◌%◌, ◌^◌, ◌≤◌, ◌<◌, ◌≡◌, Bool, true, false, List, [], ◌∷◌, ◌++◌, ◌==◌, All,
  if◌then◌else◌, arith,
}
use bromium_core_utils.Prelude.Outcome.{Returns}
use bromium_core_utils.Timer.{
  Timer, Job, setup, callback, elapsed, execution, set_running, resume_with, run_job,
}

-- The jobs whose chain will fire again: a callback only in the current generation.
abbrev pub live_job : ℕ → Job → ℕ
live_job g setup = 1
live_job g (callback gen) = if gen == g then 1 else 0
live_job g elapsed = 1
live_job g (execution post_fire) = if post_fire then 1 else 0
live_job g (set_running b) = 0

abbrev pub live : ℕ → List Job → ℕ
live g [] = 0
live g (j ∷ js) = live_job g j + live g js

-- How often a callback of the list has found its timer running in its generation.
abbrev pub firings : List Job → ℕ
firings [] = 0
firings (elapsed ∷ js) = suc (firings js)
firings (j ∷ js) = firings js

-- The live chains that are between two callbacks.
abbrev pub in_flight : List Job → ℕ
in_flight [] = 0
in_flight (callback gen ∷ js) = in_flight js
in_flight (j ∷ js) = live_job 0 j + in_flight js

-- What holds of every job: a callback belongs to a generation that has begun.
abbrev pub IsCurrent : ℕ → Job → Type 0
IsCurrent g (callback gen) = (0 < g) × (gen ≤ g)
IsCurrent g setup = 0 < g
IsCurrent g elapsed = 0 < g
IsCurrent g (execution true) = 0 < g
IsCurrent g (execution false) = Unit
IsCurrent g (set_running b) = b ≡ false

pub live-append : (g : ℕ) (xs ys : List Job) → live g (xs ++ ys) ≡ live g xs + live g ys
live-append g [] ys = omega arith
live-append g (x ∷ xs) ys = omega (arith, live-append g xs ys)

-- A resume begins a generation, which makes every waiting callback stale.
live-next : (g h : ℕ) (js : List Job) → g < h → All (IsCurrent g) js → live h js ≡ in_flight js
live-next g h [] lt c = omega arith
live-next g h (setup ∷ js) lt c = ground (arith, live-next g h js)
live-next g h (callback gen ∷ js) lt c = ground (arith, live-next g h js)
live-next g h (elapsed ∷ js) lt c = ground (arith, live-next g h js)
live-next g h (execution p ∷ js) lt c = ground (arith, live-next g h js)
live-next g h (set_running b ∷ js) lt c = ground (arith, live-next g h js)

IsCurrent-next : (g h : ℕ) (js : List Job) → g < h → All (IsCurrent g) js → All (IsCurrent h) js
IsCurrent-next g h [] lt c = tt
IsCurrent-next g h (setup ∷ js) lt c = (omega arith, IsCurrent-next g h js lt c.1)
IsCurrent-next g h (callback gen ∷ js) lt c =
    ((omega arith, omega arith), IsCurrent-next g h js lt c.1)
IsCurrent-next g h (elapsed ∷ js) lt c = (omega arith, IsCurrent-next g h js lt c.1)
IsCurrent-next g h (execution true ∷ js) lt c = (omega arith, IsCurrent-next g h js lt c.1)
IsCurrent-next g h (execution false ∷ js) lt c = (tt, IsCurrent-next g h js lt c.1)
IsCurrent-next g h (set_running b ∷ js) lt c = (c.0, IsCurrent-next g h js lt c.1)

module _ {Interval : Type 0} where
  -- When a timer is resumed or restarted, and the generation counter does not wrap, the chains
  -- that will fire are exactly the new one and those that were between two callbacks: chains that
  -- wait in a callback are replaced. So a timer with no chain between two callbacks has one chain
  -- afterwards; but restarted while its repeating block runs, or while a callback is on its way to
  -- the block, it has one chain more than it had.
  pub live-resume_with :
      (update : Bool) (i : Interval) (t : Timer Interval) (js : List Job)
      → t.generation + 1 < 2 ^ 64
      → All (IsCurrent t.generation) js
      → live (resume_with update i t).0.generation ((resume_with update i t).1 ++ js)
        ≡ suc (in_flight js)
  unfolding resume_with
  live-resume_with update i t js b c =
      omega (arith, live-next t.generation ((t.generation + 1) % 2 ^ 64) js (omega arith) c)

  pub resume_with-IsCurrent :
      (update : Bool) (i : Interval) (t : Timer Interval) (js : List Job)
      → t.generation + 1 < 2 ^ 64
      → All (IsCurrent t.generation) js
      → All (IsCurrent (resume_with update i t).0.generation) ((resume_with update i t).1 ++ js)
  unfolding resume_with
  resume_with-IsCurrent update i t js b c =
      (omega arith, IsCurrent-next t.generation _ js (omega arith) c)

  module _ (adjust : Interval → Interval) where
    -- What job `j` does to timer `t`, and what it leaves to do. Its callback's assertion does not
    -- fail, and no job leaves more chains than its own.
    pub record JobEffect (j : Job) (t : Timer Interval) (r : Timer Interval × List Job)
        : Type 0 where
      pub generation : r.0.generation ≡ t.generation
      pub repeat : r.0.repeat ≡ t.repeat
      pub sound : All (IsCurrent t.generation) r.1
      pub stops : r.0.running ≡ true → t.running ≡ true
      pub no_more : live t.generation r.1 ≤ live_job t.generation j
      pub handed_on :
          t.repeat ≡ true → r.0.running ≡ true → live t.generation r.1 ≡ live_job t.generation j
      pub silent : t.running ≡ false → firings r.1 ≡ 0
      pub once : t.repeat ≡ false → (if r.0.running then firings r.1 + 1 else firings r.1) ≤ 1

    pub run_job-JobEffect :
        (j : Job) (t : Timer Interval)
        → IsCurrent t.generation j
        → Returns (JobEffect j t) (run_job adjust j t)
    unfolding run_job
    run_job-JobEffect setup t h = ground arith
    run_job-JobEffect (callback g) t h = ground arith
    run_job-JobEffect elapsed t h = ground arith
    run_job-JobEffect (execution p) t h = ground arith
    run_job-JobEffect (set_running b) t h = ground arith
