-- ===== src/RateLimiter/Examples.antt =====
-- Two results are set before the block on `syncQueue` runs (BromiumCoreUtils/BRURateLimiter.m).
use bromium_core_utils.Prelude.{ℕ, ◌+◌, ◌≡◌, refl, ◌⊎◌, none, some, [], ◌∷◌, arith}
use bromium_core_utils.Prelude.Outcome.{done, fatal, Returns}
use bromium_core_utils.RateLimiter.{
  RateLimiter, init, set_result, dispatch, run_job, complete, dealloc,
}
use bromium_core_utils.RateLimiter.Delivery.{
  System, Reach, start, later, sets, dispatches, runs, job_delivers_last, one_block_due,
  completion_resumes,
}

abbrev set_twice : System ℕ
set_twice = record {
  limiter = record {
    box = some 8;
    dispatching = 0;
    jobs = 1;
    suspensions = 0;
    completion_block = none;
    did_run = [];
    delivered = [];
  };
  last = some 8;
}

abbrev delivered_once : System ℕ
delivered_once = record {
  limiter = record {
    box = none;
    dispatching = 0;
    jobs = 0;
    suspensions = 1;
    completion_block = some 0;
    did_run = [];
    delivered = 8 ∷ [];
  };
  last = some 8;
}

set_twice-Reach : Reach set_twice
unfolding init set_result dispatch
set_twice-Reach = later (later (later start (sets 7)) (dispatches (omega arith))) (sets 8)

delivered_once-Reach : Reach delivered_once
unfolding run_job
delivered_once-Reach = later set_twice-Reach (runs delivered_once.limiter (omega arith) refl refl)

job_delivers_last_example :
    (r : RateLimiter ℕ) × (x : ℕ) × (run_job set_twice.limiter ≡ some (done r))
    × (set_twice.last ≡ some x)
    × (r.delivered ≡ x ∷ set_twice.limiter.delivered)
    × (r.box ≡ none)
    × (r.suspensions ≡ 1)
job_delivers_last_example = job_delivers_last set_twice-Reach (omega arith) refl

one_block_due_example :
    ((set_twice.limiter.box ≡ none) × (set_twice.limiter.dispatching + set_twice.limiter.jobs ≡ 0))
    ⊎ ((set_twice.limiter.box ≡ set_twice.last)
        × (set_twice.limiter.dispatching + set_twice.limiter.jobs ≡ 1))
one_block_due_example = one_block_due set_twice-Reach

completion_resumes_example :
    (delivered_once.limiter.suspensions ≡ 1)
    × Returns
        (λ r. (r.suspensions ≡ 0) × (r.completion_block ≡ none) × (complete 0 r ≡ fatal))
        (complete 0 delivered_once.limiter)
    × Returns (λ r. r.suspensions ≡ 0) (dealloc delivered_once.limiter)
completion_resumes_example = completion_resumes 0 delivered_once-Reach refl
