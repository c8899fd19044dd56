-- ===== src/Timer/Runs.antt =====
-- The jobs of a BRUTimer run one after another, in any order, until someone calls it again
-- (BromiumCoreUtils/BRUTimer.m).
use bromium_core_utils.Prelude.{
  ℕ, suc, ◌+◌, ◌^◌, ◌≤◌, ◌<◌, ◌≡◌, ◌⊎◌, inl, inr, Bool-cases, refl, sym, ap, ◌∙◌, subst, Bool, true,
  false, List, ◌∷◌, ◌++◌, All, All-append, All-split, if◌then◌else◌, arith,
}
use bromium_core_utils.Prelude.Outcome.{done, Returns-done}
use bromium_core_utils.Timer.{Timer, Job, resume_with, run_job}
use bromium_core_utils.Timer.Chains.{
  live, live_job, in_flight, IsCurrent, live-append, live-resume_with, resume_with-IsCurrent,
  JobEffect, run_job-JobEffect, firings,
}

pub record System (Interval : Type 0) : Type 0 where
  pub timer : Timer Interval
  pub jobs : List Job

live-parts :
    (g : ℕ) (xs new ys : List Job)
    → live g (xs ++ (new ++ ys)) ≡ live g xs + (live g new + live g ys)
live-parts g xs new ys = omega (arith, live-append g xs (new ++ ys), live-append g new ys)

live-middle :
    (g : ℕ) (xs : List Job) (j : Job) (ys : List Job) {zs : List Job}
    → zs ≡ xs ++ (j ∷ ys)
    → live g zs ≡ live g xs + (live_job g j + live g ys)
live-middle g xs j ys e = ap (live g) e ∙ live-append g xs (j ∷ ys)

module _ {Interval : Type 0} where
  abbrev pub IsSound : System Interval → Type 0
  IsSound s = All (IsCurrent s.timer.generation) s.jobs

  abbrev pub chains : System Interval → ℕ
  chains s = live s.timer.generation s.jobs

  -- What one job, or several, may change.
  pub record Kept (s : System Interval) (n : ℕ) (t : System Interval) : Type 0 where
    pub sound : IsSound t
    pub generation : t.timer.generation ≡ s.timer.generation
    pub repeat : t.timer.repeat ≡ s.timer.repeat
    pub stops : t.timer.running ≡ true → s.timer.running ≡ true
    pub no_more : chains t ≤ chains s
    pub handed_on : s.timer.repeat ≡ true → t.timer.running ≡ true → chains t ≡ chains s
    pub silent : s.timer.running ≡ false → n ≡ 0
    pub once : s.timer.repeat ≡ false → (if t.timer.running then n + 1 else n) ≤ 1

  abbrev pub resumed : Bool → Interval → System Interval → System Interval
  resumed update i s = record {
    timer = (resume_with update i s.timer).0;
    jobs = (resume_with update i s.timer).1 ++ s.jobs;
  }

  resume_with-repeat :
      (update : Bool) (i : Interval) (t : Timer Interval)
      → (resume_with update i t).0.repeat ≡ t.repeat
  unfolding resume_with
  resume_with-repeat update i t = refl

  Kept-refl : (s : System Interval) → IsSound s → Kept s 0 s
  Kept-refl s h = record {
    sound = h;
    generation = refl;
    repeat = refl;
    stops = λ e. e;
    no_more = omega arith;
    handed_on = λ _ _. refl;
    silent = λ _. refl;
    once = λ _. ground arith;
  }

  Kept-trans : {s t u : System Interval} {n m : ℕ} → Kept s n t → Kept t m u → Kept s (n + m) u
  Kept-trans {s} {t} {u} {n} {m} a b = record {
    sound = b.sound;
    generation = b.generation ∙ a.generation;
    repeat = b.repeat ∙ a.repeat;
    stops = λ e. a.stops (b.stops e);
    no_more = omega arith;
    handed_on = λ r e. ground arith;
    silent = λ e. ground arith;
    once = λ e. ground arith;
  }

module _ {Interval : Type 0} (adjust : Interval → Interval) where
  -- `Runs s n t`: jobs lead from `s` to `t`, and callbacks fire `n` times on the way.
  pub data Runs (s : System Interval) : ℕ → System Interval → Type 0 where
    here : Runs s 0 s
    next :
        {n : ℕ} {t : System Interval} (xs ys new : List Job) (j : Job) (u : Timer Interval) (m : ℕ)
        → Runs s n t
        → t.jobs ≡ xs ++ (j ∷ ys)
        → run_job adjust j t.timer ≡ done (u, new)
        → m ≡ n + firings new
        → Runs s m (record { timer = u; jobs = xs ++ (new ++ ys) })

  job-Kept :
      (t : System Interval) (xs ys new : List Job) (j : Job) (u : Timer Interval)
      → IsSound t
      → t.jobs ≡ xs ++ (j ∷ ys)
      → run_job adjust j t.timer ≡ done (u, new)
      → Kept t (firings new) (record { timer = u; jobs = xs ++ (new ++ ys) })
  job-Kept t xs ys new j u h e p =
      let g = t.timer.generation in
      let (before, (own, behind)) =
        All-split (IsCurrent g) xs (j ∷ ys) (subst (All (IsCurrent g)) e h) in
      let f =
        Returns-done (JobEffect adjust j t.timer) p (run_job-JobEffect adjust j t.timer own) in
      record {
        sound =
            subst (λ h. All (IsCurrent h) (xs ++ (new ++ ys))) (sym f.generation)
              (All-append (IsCurrent g) xs (new ++ ys) before
                (All-append (IsCurrent g) new ys f.sound behind));
        generation = f.generation;
        repeat = f.repeat;
        stops = f.stops;
        no_more =
            subst (λ h. live h (xs ++ (new ++ ys)) ≤ chains t) (sym f.generation)
              (omega (arith, f.no_more, live-middle g xs j ys e, live-parts g xs new ys));
        handed_on = λ r q.
            subst (λ h. live h (xs ++ (new ++ ys)) ≡ chains t) (sym f.generation)
              (omega (arith, f.handed_on r q, live-middle g xs j ys e, live-parts g xs new ys));
        silent = f.silent;
        once = f.once;
      }

  pub Runs-Kept : {s t : System Interval} {n : ℕ} → IsSound s → Runs s n t → Kept s n t
  Runs-Kept {s} h here = Kept-refl s h
  Runs-Kept {s} h (next {n} {t} xs ys new j u m r e p f) =
      let k = Runs-Kept h r in
      subst (λ i. Kept s i (record { timer = u; jobs = xs ++ (new ++ ys) })) (sym f)
        (Kept-trans k (job-Kept t xs ys new j u k.sound e p))

  -- After a timer with no chain between two callbacks is resumed or restarted (and the generation
  -- counter does not wrap), any number of jobs, run in any order, leave at most one chain that
  -- will fire, so it never fires twice as often; and exactly one, unless the timer does not repeat
  -- or has been stopped in between.
  pub chains-resumed :
      (update : Bool) (i : Interval) (s : System Interval) {n : ℕ} {t : System Interval}
      → s.timer.generation + 1 < 2 ^ 64
      → IsSound s
      → in_flight s.jobs ≡ 0
      → Runs (resumed update i s) n t
      → (chains t ≤ 1) × ((s.timer.repeat ≡ false) ⊎ ((t.timer.running ≡ false) ⊎ (chains t ≡ 1)))
  chains-resumed update i s {t = t} b h z r =
      let k = Runs-Kept (resume_with-IsCurrent update i s.timer s.jobs b h) r in
      let one = live-resume_with update i s.timer s.jobs b h in
      (
        omega (arith, k.no_more),
        elim (Bool-cases s.timer.repeat) [
          | inr e ↦ inl e
          | inl e ↦ elim (Bool-cases t.timer.running) [
            | inr q ↦ inr (inl q)
            | inl q ↦
                inr (inr (k.handed_on (resume_with-repeat update i s.timer ∙ e) q ∙ one ∙ ap suc z))
          ]
        ],
      )

  -- A timer that is not running stays silent: whatever jobs are left run, in whatever order, no
  -- callback fires.
  pub suspended_silent :
      {s t : System Interval} {n : ℕ}
      → IsSound s
      → s.timer.running ≡ false
      → Runs s n t
      → (n ≡ 0) × (t.timer.running ≡ false)
  suspended_silent h e r = let k = Runs-Kept h r in ground arith

  -- A timer that does not repeat fires at most once after it was resumed or restarted, also when
  -- older callbacks are still waiting, and does not run any more once it has fired.
  pub one_shot_fires_once :
      (update : Bool) (i : Interval) (s : System Interval) {n : ℕ} {t : System Interval}
      → s.timer.generation + 1 < 2 ^ 64
      → IsSound s
      → s.timer.repeat ≡ false
      → Runs (resumed update i s) n t
      → (n ≡ 0) ⊎ ((n ≡ 1) × (t.timer.running ≡ false))
  one_shot_fires_once update i s b h z r =
      let k = Runs-Kept (resume_with-IsCurrent update i s.timer s.jobs b h) r in
      ground (arith, k.once (resume_with-repeat update i s.timer ∙ z))
