-- ===== src/RateLimiter/Delivery.antt =====
-- What a BRURateLimiter delivers, and when (BromiumCoreUtils/BRURateLimiter.m).
use bromium_core_utils.Prelude.{
  ℕ, suc, ◌+◌, ◌-◌, ◌<◌, ◌≡◌, ◌⊎◌, refl, Bool, true, false, Option, none, some, List, [], ◌∷◌,
  length, is_some, All, if◌then◌else◌, arith,
}
use bromium_core_utils.Prelude.Outcome.{done, fatal, Returns}
use bromium_core_utils.RateLimiter.{
  RateLimiter, elem, init, set_result, dispatch, run_job, complete, dealloc,
}

-- A limiter, with the result that was set last.
pub record System (A : Type 0) : Type 0 where
  pub limiter : RateLimiter A
  pub last : Option A

abbrev one_if : Bool → ℕ
one_if b = if b then 1 else 0

-- The completion block that is out is that of the last delivery.
abbrev IsLatest : Option ℕ → ℕ → Type 0
IsLatest none n = Unit
IsLatest (some k) n = suc k ≡ n

-- The number of deliveries that have been completed.
abbrev finished : Option ℕ → ℕ → ℕ
finished none n = n
finished (some k) n = k

abbrev AllBelow : ℕ → List ℕ → Type 0
AllBelow n = All λ j. j < n

-- A block that has not run yet is not among those that have.
elem-AllBelow : (k : ℕ) (js : List ℕ) → AllBelow k js → elem k js ≡ false
elem-AllBelow k [] h = refl
elem-AllBelow k (j ∷ js) h = ground (arith, elem-AllBelow k js h.1)

AllBelow-suc : (n : ℕ) (js : List ℕ) → AllBelow n js → AllBelow (suc n) js
AllBelow-suc n [] h = tt
AllBelow-suc n (j ∷ js) h = (omega arith, AllBelow-suc n js h.1)

module _ {A : Type 0} where
  -- Any thread may set a result; `syncQueue` runs its blocks while it is not suspended; and the
  -- completion block that was handed out last is called.
  pub data Step (s : System A) : System A → Type 0 where
    sets : (x : A) → Step s (record { limiter = set_result x s.limiter; last = some x })
    dispatches : 0 < s.limiter.dispatching → Step s (record s { limiter = dispatch s.limiter })
    runs :
        (r : RateLimiter A)
        → 0 < s.limiter.jobs
        → s.limiter.suspensions ≡ 0
        → run_job s.limiter ≡ some (done r)
        → Step s (record s { limiter = r })
    completes :
        (k : ℕ) (r : RateLimiter A)
        → s.limiter.completion_block ≡ some k
        → complete k s.limiter ≡ done r
        → Step s (record s { limiter = r })

  pub data Reach : System A → Type 0 where
    start : Reach (record { limiter = init; last = none })
    later : {s t : System A} → Reach s → Step s t → Reach t

  pub record Inv (s : System A) : Type 0 where
    -- One block is due exactly when the box is full.
    pub due : s.limiter.dispatching + s.limiter.jobs ≡ one_if (is_some s.limiter.box)
    pub newest : is_some s.limiter.box ≡ true → s.limiter.box ≡ s.last
    pub busy : s.limiter.suspensions ≡ one_if (is_some s.limiter.completion_block)
    pub latest : IsLatest s.limiter.completion_block (length s.limiter.delivered)
    pub ran :
        AllBelow
          (finished s.limiter.completion_block (length s.limiter.delivered))
          s.limiter.did_run

  sets-Inv :
      (x : A) (s : System A)
      → Inv s
      → Inv (record { limiter = set_result x s.limiter; last = some x })
  unfolding set_result
  sets-Inv x s v = ground arith

  dispatches-Inv :
      (s : System A)
      → 0 < s.limiter.dispatching
      → Inv s
      → Inv (record s { limiter = dispatch s.limiter })
  unfolding dispatch
  dispatches-Inv s h v = ground arith

  runs-Inv :
      (r : RateLimiter A) (s : System A)
      → 0 < s.limiter.jobs
      → s.limiter.suspensions ≡ 0
      → run_job s.limiter ≡ some (done r)
      → Inv s
      → Inv (record s { limiter = r })
  unfolding run_job
  runs-Inv r s j h e v = ground arith

  completes-Inv :
      (k : ℕ) (r : RateLimiter A) (s : System A)
      → s.limiter.completion_block ≡ some k
      → complete k s.limiter ≡ done r
      → Inv s
      → Inv (record s { limiter = r })
  unfolding complete
  completes-Inv k r s h e v = ground (arith, AllBelow-suc k s.limiter.did_run)

  pub Step-Inv : {s t : System A} → Step s t → Inv s → Inv t
  Step-Inv {s} (sets x) v = sets-Inv x s v
  Step-Inv {s} (dispatches h) v = dispatches-Inv s h v
  Step-Inv {s} (runs r j h e) v = runs-Inv r s j h e v
  Step-Inv {s} (completes k r h e) v = completes-Inv k r s h e v

  pub Reach-Inv : {s : System A} → Reach s → Inv s
  unfolding init
  Reach-Inv start = ground arith
  Reach-Inv (later r st) = Step-Inv st (Reach-Inv r)

  abbrev delivering : A → RateLimiter A → RateLimiter A
  delivering x r = record r {
    box = none;
    jobs = r.jobs - 1;
    suspensions = suc r.suspensions;
    completion_block = some (length r.delivered);
    delivered = x ∷ r.delivered;
  }

  box_content : (o : Option A) → 0 < one_if (is_some o) → (x : A) × (o ≡ some x)
  box_content none h = absurd (omega arith)
  box_content (some x) h = (x, refl)

  -- In every state that a rate limiter reaches in which a block is on `syncQueue` and the queue is
  -- not suspended, the block can run: its `take` finds a result and does not wait, no assertion
  -- fails, and the result block is called with the result that was set last, however many were set
  -- since the previous call; the box is then empty and the queue is suspended once.
  pub job_delivers_last :
      {s : System A}
      → Reach s
      → 0 < s.limiter.jobs
      → s.limiter.suspensions ≡ 0
      → (r : RateLimiter A) × (x : A) × (run_job s.limiter ≡ some (done r))
        × (s.last ≡ some x)
        × (r.delivered ≡ x ∷ s.limiter.delivered)
        × (r.box ≡ none)
        × (r.suspensions ≡ 1)
  unfolding run_job
  job_delivers_last {s} r j h =
      let v = Reach-Inv r in
      let (x, full) = box_content s.limiter.box (omega (arith, v.due, j)) in
      (delivering x s.limiter, x, ground arith, ground arith, refl, refl, omega arith)

  -- In every state that a rate limiter reaches, exactly one block is due (on its way to
  -- `syncQueue` or on it) if a result waits in the box, and none otherwise, so no result is left
  -- behind; and the result that waits is the one that was set last.
  pub one_block_due :
      {s : System A}
      → Reach s
      → ((s.limiter.box ≡ none) × (s.limiter.dispatching + s.limiter.jobs ≡ 0))
        ⊎ ((s.limiter.box ≡ s.last) × (s.limiter.dispatching + s.limiter.jobs ≡ 1))
  one_block_due {s} r = ground (arith, (Reach-Inv r).due, (Reach-Inv r).newest)

  -- In every state that a rate limiter reaches, `syncQueue` is suspended exactly while a result
  -- block has not completed; its completion block then runs without failing an assertion and
  -- resumes the queue, and a completion block that has run fails its assertion when it is called
  -- once more. Deallocation completes what is outstanding and does not fail.
  pub completion_resumes :
      {s : System A} (k : ℕ)
      → Reach s
      → s.limiter.completion_block ≡ some k
      → (s.limiter.suspensions ≡ 1)
        × Returns
            (λ r. (r.suspensions ≡ 0) × (r.completion_block ≡ none) × (complete k r ≡ fatal))
            (complete k s.limiter)
        × Returns (λ r. r.suspensions ≡ 0) (dealloc s.limiter)
  unfolding complete dealloc
  completion_resumes {s} k r e =
      let v = Reach-Inv r in ground (arith, elem-AllBelow k s.limiter.did_run)
