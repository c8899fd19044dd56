-- ===== src/Retry/Operation.antt =====
-- The runs of a BRURetry (BromiumCoreUtils/BRURetry.m) against the operation that
-- BromiumCoreUtils/BRURetry.h describes.
use bromium_core_utils.Prelude.{
  ℕ, zero, suc, ◌+◌, ◌^◌, ◌<◌, ◌≡◌, ◌⊎◌, inl, inr, refl, sym, subst, Bool, true, Option, none, some,
  ◌∷◌, is_none, arith,
}
use bromium_core_utils.Prelude.Outcome.{Outcome, done, ◌>>=◌, Returns, Returns->>=, Returns-weaken}
use bromium_core_utils.Retry.{transient, final, Response, retry, stop, idle, Error, Timer, start}
use bromium_core_utils.Retry.System.{System, quiet, sleeping, fires, starts, step}
use bromium_core_utils.Retry.Safety.{Inv}
use bromium_core_utils.Retry.Attempts.{IsActing, IsClosed}
use bromium_core_utils.Retry.Contract.{
  Result, succeeded, failed, Policy, Ending, operation, judged, decided, waited, ending,
}
use bromium_core_utils.Retry.Driver.{
  Run, IsNapping, IsAwake, after_action, continued, drive, after_success, after_final, after_stop,
  after_retry, fires-IsAwake,
}

module _ {Interval : Type 0} where
  waited_some :
      (i : Interval) (o : Option (Ending Interval)) (e : Ending Interval)
      → waited i o ≡ some e
      → (e' : Ending Interval) × (o ≡ some e') × (e ≡ record e' { waits = i ∷ e'.waits })
  waited_some i none e q = absurd (ground arith)
  waited_some i (some e') e q = (e', refl, ground arith)

  module _ (equals : Interval → Interval → Bool) (action : ℕ → Result)
      (policy : Policy Interval) where
    -- How an attempt of the described operation can end it, or lead to the next one.
    abbrev IsVerdict :
        ℕ → Interval → Ending Interval → (Interval → Option (Ending Interval)) → Type 0
    IsVerdict k d e next =
        ((action k ≡ succeeded) × (e ≡ ending k none))
        ⊎ (((x : Error) × (action k ≡ failed x final) × (e ≡ ending k (some x)))
            ⊎ (((x : Error) × (i : Interval) × (action k ≡ failed x transient)
                  × (policy x k d ≡ (stop, i))
                  × (e ≡ ending k (some x)))
                ⊎ ((x : Error) × (i : Interval) × (e' : Ending Interval) × (action k
                      ≡ failed x transient)
                    × (policy x k d ≡ (retry, i))
                    × (next i ≡ some e')
                    × (e ≡ record e' { waits = i ∷ e'.waits }))))

    decided-IsVerdict :
        (k : ℕ) (d : Interval) (e : Ending Interval) (next : Interval → Option (Ending Interval))
        (x : Error) (reply : Response × Interval)
        → action k ≡ failed x transient
        → policy x k d ≡ reply
        → decided x k reply next ≡ some e
        → IsVerdict k d e next
    decided-IsVerdict k d e next x (stop, i) a p q = inr (inr (inl (x, i, a, p, ground arith)))
    decided-IsVerdict k d e next x (retry, i) a p q = inr (
        inr (
          inr
            (let (e', found, same) = waited_some i (next i) e q in (x, i, e', a, p, found, same))))

    judged-IsVerdict :
        (k : ℕ) (d : Interval) (e : Ending Interval) (next : Interval → Option (Ending Interval))
        (result : Result)
        → action k ≡ result
        → judged policy result k d next ≡ some e
        → IsVerdict k d e next
    judged-IsVerdict k d e next succeeded a q = inl (a, ground arith)
    judged-IsVerdict k d e next (failed x final) a q = inr (inl (x, a, ground arith))
    judged-IsVerdict k d e next (failed x transient) a q =
        decided-IsVerdict k d e next x (policy x k d) a refl q

    -- The run came to what is described.
    abbrev IsEnd : ℕ → System Interval → Ending Interval → Run Interval → Type 0
    IsEnd d s e r = IsClosed d e.error s r.system × (r.attempt ≡ e.attempt) × (r.waits ≡ e.waits)

    closed-IsEnd :
        (fuel d : ℕ) (err : Option Error) (s : System Interval) (e : Ending Interval)
        → e ≡ ending s.retry.attempt err
        → Returns (IsClosed d err s) (after_action equals action policy s)
        → Returns (IsEnd d s e) (drive equals action policy (suc fuel) s)
    unfolding drive
    closed-IsEnd fuel d err s e q h =
        Returns->>= (IsClosed d err s) (IsEnd d s e) (after_action equals action policy s) _ h
          λ t c. ground arith

    continued_napping :
        (next : System Interval → Outcome (Run Interval)) (k : ℕ) (s : System Interval)
        {t : Timer Interval}
        → s.phase ≡ sleeping t
        → continued equals action policy next s.phase k s ≡ (do
          s' ← step equals fires s
          r ← next s'
          done (record r { waits = t.interval ∷ r.waits }))
    continued_napping next k s e = rw e

    later-IsEnd :
        (d : ℕ) (i : Interval) (s u : System Interval) (e e' : Ending Interval) (r : Run Interval)
        → e ≡ record e' { waits = i ∷ e'.waits }
        → IsAwake d i s u
        → IsEnd d u e' r
        → IsEnd d s e (record r { waits = i ∷ r.waits })
    later-IsEnd d i s u e e' r q w h = ground arith

    napping-IsEnd :
        (fuel d : ℕ) (i : Interval) (s t : System Interval) (e e' : Ending Interval)
        → IsNapping d i s t
        → e ≡ record e' { waits = i ∷ e'.waits }
        → Returns (IsAwake d i s) (step equals fires t)
        → ((u : System Interval)
            → IsAwake d i s u
            → Returns (IsEnd d u e') (drive equals action policy fuel u))
        → Returns (IsEnd d s e) (
            continued equals action policy
              (drive equals action policy fuel)
              t.phase
              s.retry.attempt
              t)
    napping-IsEnd fuel d i s t e e' n same w ih =
        subst (Returns (IsEnd d s e))
          (sym (continued_napping (drive equals action policy fuel) s.retry.attempt t n.7))
          (Returns->>= (IsAwake d i s) (IsEnd d s e) (step equals fires t) _ w λ u a.
            Returns->>= (IsEnd d u e') (IsEnd d s e) (drive equals action policy fuel u) _ (ih u a)
              λ r h. later-IsEnd d i s u e e' r same a h)

    drive-IsEnd :
        (fuel d : ℕ) (s : System Interval) (e : Ending Interval)
        → equals s.retry.delay s.retry.delay ≡ true
        → IsActing d s
        → 0 < s.retry.attempt
        → s.retry.attempt + fuel < 2 ^ 64
        → operation action policy fuel s.retry.attempt s.retry.current_delay ≡ some e
        → Returns (IsEnd d s e) (drive equals action policy fuel s)
    unfolding operation drive
    drive-IsEnd zero d s e h a z b q = absurd (ground arith)
    drive-IsEnd (suc fuel) d s e h a z b q =
        let k = s.retry.attempt in
        elim (judged-IsVerdict k s.retry.current_delay e (operation action policy fuel (suc k))
          (action k) refl q) [
            | inl (ok, same) ↦
                closed-IsEnd fuel d none s e same (after_success equals action policy d s h a ok)
            | inr (inl (x, bad, same)) ↦
                closed-IsEnd fuel d (some x) s e same
                  (after_final equals action policy d x s h a bad)
            | inr (inr (inl (x, i, bad, p, same))) ↦
                closed-IsEnd fuel d (some x) s e same
                  (after_stop equals action policy d x i s h a bad p)
            | inr (inr (inr (x, i, e', bad, p, more, same))) ↦
                Returns->>= (IsNapping d i s) (IsEnd d s e) (after_action equals action policy s) _
                  (after_retry equals action policy d x i s a z bad p)
                  λ t n.
                    napping-IsEnd fuel d i s t e e' n same
                      (fires-IsAwake equals action policy d i s t (omega arith) n)
                      λ u w.
                        drive-IsEnd fuel d u e' (ground arith) w.0 (omega arith) (omega arith) (
                          subst (λ c. operation action policy fuel u.retry.attempt c ≡ some e')
                            (sym w.3)
                            (subst (λ m. operation action policy fuel m i ≡ some e') (sym w.1)
                              more))
          ]

    starts_driving :
        (delay : Interval) (u d : ℕ) (c : Option ℕ) (s : System Interval)
        → Inv delay s
        → s.retry.state ≡ idle
        → Returns
            (λ t.
              IsActing d t
              × (t.retry.attempt ≡ 1)
              × (t.retry.delay ≡ delay)
              × (t.retry.current_delay ≡ s.retry.current_delay)
              × (t.resolved ≡ s.resolved))
            (step equals (starts u d c) s)
    unfolding step start
    starts_driving delay u d c s v i = ground arith

    -- With the delay that the object holds.
    operation_from :
        (delay : Interval) (fuel u d : ℕ) (c : Option ℕ) (s : System Interval) (e : Ending Interval)
        → equals delay delay ≡ true
        → Inv delay s
        → s.retry.state ≡ idle
        → fuel + 1 < 2 ^ 64
        → operation action policy fuel 1 s.retry.current_delay ≡ some e
        → Returns
            (λ r.
              (r.system.retry.state ≡ idle)
              × (r.system.phase ≡ quiet)
              × (r.system.resolved ≡ (d, is_none e.error, e.error) ∷ s.resolved)
              × (r.attempt ≡ e.attempt)
              × (r.waits ≡ e.waits)
              × (r.system.retry.current_delay ≡ delay))
            (step equals (starts u d c) s >>= drive equals action policy fuel)
    operation_from delay fuel u d c s e h v i b q =
        Returns->>= _ _ (step equals (starts u d c) s) (drive equals action policy fuel)
          (starts_driving delay u d c s v i)
          λ t a.
            Returns-weaken (IsEnd d t e) _ (drive equals action policy fuel t)
              (drive-IsEnd fuel d t e (ground arith) a.0 (omega arith) (omega arith) (
                subst (λ x. operation action policy fuel t.retry.attempt x ≡ some e) (sym a.3)
                  (subst (λ m. operation action policy fuel m s.retry.current_delay ≡ some e)
                    (sym a.1) q)))
              λ r l. ground arith

    -- An operation started on an idle object that has its delay as the present one, with any action
    -- and any policy, is the operation that the comments describe: if that one, which starts with
    -- the delay given to the object, ends within the fuel (and its attempts stay below 2^64), so
    -- does the run of the object, with the same number of attempts and the same delays waited
    -- between them; the object is idle, nothing is owed, and the operation's deferred is resolved
    -- once, with the described error, or success. The object has its delay as the present one again. (A
    -- new object does not have it: its present delay is 0.) The delay must be equal to itself under
    -- BRUDoubleEquals.
    pub operation_refined :
        (delay : Interval) (fuel u d : ℕ) (c : Option ℕ) (s : System Interval) (e : Ending Interval)
        → equals delay delay ≡ true
        → Inv delay s
        → s.retry.state ≡ idle
        → s.retry.current_delay ≡ delay
        → fuel + 1 < 2 ^ 64
        → operation action policy fuel 1 delay ≡ some e
        → Returns
            (λ r.
              (r.system.retry.state ≡ idle)
              × (r.system.phase ≡ quiet)
              × (r.system.resolved ≡ (d, is_none e.error, e.error) ∷ s.resolved)
              × (r.attempt ≡ e.attempt)
              × (r.waits ≡ e.waits)
              × (r.system.retry.current_delay ≡ delay))
            (step equals (starts u d c) s >>= drive equals action policy fuel)
    operation_refined delay fuel u d c s e h v i k b q =
        operation_from delay fuel u d c s e h v i b
          (subst (λ x. operation action policy fuel 1 x ≡ some e) (sym k) q)
