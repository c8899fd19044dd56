-- ===== src/Retry/Promise/Tracking.antt =====
-- A deferred agrees with the messages sent to it (BromiumCoreUtils/BRURetry.m with
-- BromiumCoreUtils/BRUDeferred.m).
use bromium_core_utils.Prelude.{
  ℕ, suc, ◌+◌, ◌≤◌, ◌≡◌, refl, sym, ◌∙◌, ◌⊎◌, inl, inr, Bool, true, false, Option, some, List, [],
  ◌∷◌, ◌++◌, ◌==◌, if◌then◌else◌, arith,
}
use bromium_core_utils.Prelude.Outcome.{done, ◌>>=◌, Returns, Returns->>=}
use bromium_core_utils.Retry.{
  Error, Effect, run_action, run_policy, start_timer, suspend_timer, resolve, register,
}
use bromium_core_utils.Retry.System.{System, deliver, deliver_all}
use bromium_core_utils.Retry.Safety.{names}
use bromium_core_utils.Deferred.{
  PromiseState, pending, resolved, Deferred, then_do, process_blocks, resolve as resolve_deferred,
}
use bromium_core_utils.Deferred.System.{
  System as Promise, sent, count, count-append, resolves, thens, Reach as PromiseReach, later,
}
use bromium_core_utils.Deferred.Delivery.{resolution, resolve_exactly_once}
use bromium_core_utils.Retry.Promise.{RetryResult, pairs, result_of, given, follow, follow_all}

-- Whether the deferred has been resolved, and with what.
abbrev pub HasOutcome : (d : ℕ) → List (ℕ × Bool × Option Error) → Deferred RetryResult → Type 0
HasOutcome d ress q =
    ((q.state ≡ pending) × (count d (names ress) ≡ 0))
    ⊎ ((q.state ≡ resolved) × (count d (names ress) ≡ 1) × (q.value ≡ result_of d ress))

-- The deferred `d` agrees with the messages sent so far.
pub record Track (d : ℕ) (regs : List (ℕ × ℕ)) (ress : List (ℕ × Bool × Option Error))
    (q : Promise RetryResult) : Type 0 where
  pub reached : PromiseReach q
  pub registers : (b : ℕ) → count b q.registered ≡ pairs d b regs
  pub outcome : HasOutcome d ress q.deferred

process_blocks-keeps :
    (p : PromiseState) (q : Deferred RetryResult)
    → ((process_blocks p q).0.state ≡ q.state) × ((process_blocks p q).0.value ≡ q.value)
unfolding process_blocks
process_blocks-keeps pending q = (refl, refl)
process_blocks-keeps resolved q = (refl, refl)

HasOutcome-same :
    (d : ℕ) (ress : List (ℕ × Bool × Option Error)) (q r : Deferred RetryResult)
    → r.state ≡ q.state
    → r.value ≡ q.value
    → HasOutcome d ress q
    → HasOutcome d ress r
HasOutcome-same d ress q r e f (inl (p, z)) = inl (e ∙ p, z)
HasOutcome-same d ress q r e f (inr (p, one, v)) = inr (e ∙ p, one, f ∙ v)

given-Track :
    (d b : ℕ) (regs : List (ℕ × ℕ)) (ress : List (ℕ × Bool × Option Error))
    (q : Promise RetryResult) (same : Bool)
    → Track d regs ress q
    → (other : List (ℕ × ℕ))
    → ((c : ℕ)
        → pairs d c other ≡ (if same then count c (b ∷ []) + pairs d c regs else pairs d c regs))
    → Track d other ress (if same then given b q else q)
unfolding then_do
given-Track d b regs ress q false t other h = record {
  reached = t.reached;
  registers = λ c. t.registers c ∙ sym (h c);
  outcome = t.outcome;
}
given-Track d b regs ress q true t other h =
    let (e, f) =
      process_blocks-keeps q.deferred.state
        (record q.deferred { then_blocks = q.deferred.then_blocks ++ (b ∷ []) }) in
    record {
      reached = later t.reached (thens b);
      registers = λ c. omega (arith, count-append c q.registered (b ∷ []), t.registers c, h c);
      outcome = HasOutcome-same d ress q.deferred (given b q).deferred e f t.outcome;
    }

settled-Track :
    (d : ℕ) (v : Option RetryResult) (regs : List (ℕ × ℕ))
    (ress other : List (ℕ × Bool × Option Error)) (q : Promise RetryResult)
    → Track d regs ress q
    → count d (names other) ≡ suc (count d (names ress))
    → result_of d other ≡ v
    → q.deferred.state ≡ pending
    → resolve_deferred v q.deferred ≡ done (resolution v q.deferred)
    → count d (names other) ≤ 1
    → Returns (Track d regs other) (do r ← resolve_deferred v q.deferred; done (sent r q))
settled-Track d v regs ress other q t n g p e l = rw e (record {
  reached = later t.reached (resolves v (resolution v q.deferred) e);
  registers = t.registers;
  outcome = inr (refl, omega (arith, n), sym g);
})

resolves-Track :
    (d : ℕ) (v : Option RetryResult) (regs : List (ℕ × ℕ))
    (ress other : List (ℕ × Bool × Option Error)) (q : Promise RetryResult) (same : Bool)
    → Track d regs ress q
    → count d (names other) ≡ (if same then suc (count d (names ress)) else count d (names ress))
    → result_of d other ≡ (if same then v else result_of d ress)
    → count d (names other) ≤ 1
    → Returns
        (Track d regs other)
        (if same then (do r ← resolve_deferred v q.deferred; done (sent r q)) else done q)
resolves-Track d v regs ress other q false t n g l = record {
  reached = t.reached;
  registers = t.registers;
  outcome = kept t.outcome;
}
  where
    kept : HasOutcome d ress q.deferred → HasOutcome d other q.deferred
    kept (inl (p, z)) = inl (p, n ∙ z)
    kept (inr (p, one, w)) = inr (p, n ∙ one, w ∙ sym g)
resolves-Track d v regs ress other q true t n g l = elim (resolve_exactly_once v t.reached) [
  | inl (p, none_called, none_queued, e) ↦ settled-Track d v regs ress other q t n g p e l
  | inr (p, empty, e) ↦ absurd (again t.outcome p)
]
  where
    again : HasOutcome d ress q.deferred → q.deferred.state ≡ resolved → ⊥
    again (inl (o, z)) p = ground arith
    again (inr (o, one, w)) p = omega (arith, n, one)

module _ {Interval : Type 0} (d : ℕ) where
  follow-Track :
      (m : Effect Interval) (s : System Interval) (q : Promise RetryResult)
      → Track d s.registered s.resolved q
      → count d (names (deliver m s).resolved) ≤ 1
      → Returns (Track d (deliver m s).registered (deliver m s).resolved) (follow d m q)
  unfolding follow
  follow-Track (run_action _) s q t l = t
  follow-Track (run_policy _ _ _ _) s q t l = t
  follow-Track (start_timer _) s q t l = t
  follow-Track suspend_timer s q t l = t
  follow-Track (register e b) s q t l =
      given-Track d b s.registered s.resolved q (e == d) t ((e, b) ∷ s.registered) (λ c. refl)
  follow-Track (resolve e success error) s q t l =
      resolves-Track d (some (success, error)) s.registered s.resolved
        ((e, success, error) ∷ s.resolved) q (e == d) t refl refl l

  deliver_all-grows :
      (ms : List (Effect Interval)) (s : System Interval)
      → count d (names s.resolved) ≤ count d (names (deliver_all ms s).resolved)
  deliver_all-grows [] s = omega arith
  deliver_all-grows (m ∷ ms) s = omega (arith, grows m, deliver_all-grows ms (deliver m s))
    where
      grows :
          (m : Effect Interval)
          → count d (names s.resolved) ≤ count d (names (deliver m s).resolved)
      grows (run_action _) = omega arith
      grows (run_policy _ _ _ _) = omega arith
      grows (start_timer _) = omega arith
      grows suspend_timer = omega arith
      grows (register _ _) = omega arith
      grows (resolve e _ _) = ground arith

  pub follow_all-Track :
      (ms : List (Effect Interval)) (s : System Interval) (q : Promise RetryResult)
      → Track d s.registered s.resolved q
      → count d (names (deliver_all ms s).resolved) ≤ 1
      → Returns
          (Track d (deliver_all ms s).registered (deliver_all ms s).resolved)
          (follow_all d ms q)
  unfolding follow_all
  follow_all-Track [] s q t l = t
  follow_all-Track (m ∷ ms) s q t l =
      Returns->>= (Track d (deliver m s).registered (deliver m s).resolved)
        (Track d (deliver_all ms (deliver m s)).registered (deliver_all ms (deliver m s)).resolved)
        (follow d m q) (follow_all d ms)
        (follow-Track m s q t (omega (arith, deliver_all-grows ms (deliver m s))))
        (λ q' t'. follow_all-Track ms (deliver m s) q' t' l)

  pub opened-deliver_all :
      (ms : List (Effect Interval)) (s : System Interval) → (deliver_all ms s).opened ≡ s.opened
  opened-deliver_all [] s = refl
  opened-deliver_all (m ∷ ms) s = opened-deliver_all ms (deliver m s) ∙ same m
    where
      same : (m : Effect Interval) → (deliver m s).opened ≡ s.opened
      same (run_action _) = refl
      same (run_policy _ _ _ _) = refl
      same (start_timer _) = refl
      same suspend_timer = refl
      same (register _ _) = refl
      same (resolve _ _ _) = refl
