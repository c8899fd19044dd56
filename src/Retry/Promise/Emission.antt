-- ===== src/Retry/Promise/Emission.antt =====
-- What a block on `syncQueue` leaves, and its messages (BromiumCoreUtils/BRURetry.m with
-- BromiumCoreUtils/BRUDeferred.m).
use bromium_core_utils.Prelude.{◌≡◌, refl, sym, subst, Bool, List, [], ◌∷◌, arith}
use bromium_core_utils.Prelude.Outcome.{Outcome, done, fatal, ◌>>=◌}
use bromium_core_utils.Retry.{Timer, Effect, start, cancel, continue, handle_result, timer_fired}
use bromium_core_utils.Retry.System.{
  System, Event, starts, cancels, continues, decides, rings, fires, fires_late, Phase, acting,
  deciding, sleeping, ringing, on_ring, on_late, quiet, deliver_all, step, consume, on_continue,
  on_decide, on_fire, opening,
}
use bromium_core_utils.Retry.Promise.{
  emit, emit_continue, emit_decide, emit_fire, emit_late, left, opened_after,
}

-- A result that is put together in one step or in two.
then_deliver :
    {A B C : Type 0} (o : Outcome A) (f : A → B) (g : B → C)
    → (o >>= λ a. done (g (f a))) ≡ ((o >>= λ a. done (f a)) >>= λ b. done (g b))
then_deliver (done a) f g = refl
then_deliver fatal f g = refl

module _ {Interval : Type 0} (equals : Interval → Interval → Bool) where
  abbrev pub delivered : System Interval × List (Effect Interval) → System Interval
  delivered (s, ms) = deliver_all ms s

  -- A step is what the block leaves, with its messages delivered.
  pub step-emit :
      (e : Event Interval) (s : System Interval)
      → step equals e s ≡ (emit equals e s >>= λ r. done (delivered r))
  unfolding step emit
  step-emit (starts u d c) s =
      then_deliver (start equals u d c s.retry)
        (λ r. left equals (record s { opened = opening s.retry.state d s.opened }) r.0) delivered
  step-emit (cancels i) s =
      then_deliver (cancel equals i s.retry) (λ r. left equals s r.0) delivered
  step-emit (continues b x st) s = by_phase s.phase
    where
      by_phase :
          (p : Phase Interval)
          → on_continue equals p b x st s
            ≡ (emit_continue equals p b x st s >>= λ r. done (delivered r))
      by_phase (acting a) =
          then_deliver (continue equals a b x st s.retry) (λ r. left equals (consume s) r) delivered
      by_phase quiet = refl
      by_phase (deciding _ _ _) = refl
      by_phase (sleeping _) = refl
      by_phase (ringing _) = refl
  step-emit (decides p x) s = by_phase s.phase
    where
      by_phase :
          (ph : Phase Interval)
          → on_decide equals ph p x s ≡ (emit_decide equals ph p x s >>= λ r. done (delivered r))
      by_phase (deciding b e a) =
          then_deliver (handle_result equals b e p x s.retry) (λ r. left equals (consume s) r)
            delivered
      by_phase quiet = refl
      by_phase (acting _) = refl
      by_phase (sleeping _) = refl
      by_phase (ringing _) = refl
  step-emit fires s = by_phase s.phase
    where
      by_phase :
          (p : Phase Interval)
          → on_fire equals p s ≡ (emit_fire equals p s >>= λ r. done (delivered r))
      by_phase (sleeping t) =
          then_deliver (timer_fired t s.retry) (λ r. left equals (consume s) r) delivered
      by_phase (ringing t) =
          then_deliver (timer_fired t s.retry) (λ r. left equals (consume s) r) delivered
      by_phase quiet = refl
      by_phase (acting _) = refl
      by_phase (deciding _ _ _) = refl
  step-emit rings s = refl
  step-emit fires_late s = by_late s.late
    where
      by_late :
          (ts : List (Timer Interval))
          → on_late equals ts s ≡ (emit_late equals ts s >>= λ r. done (delivered r))
      by_late [] = refl
      by_late (t ∷ ts) =
          then_deliver (timer_fired t s.retry) (λ r. left equals (record s { late = ts }) r)
            delivered

  -- Before its messages are delivered, an event changes none of what they change.
  abbrev pub Keeps :
      Event Interval → System Interval → System Interval × List (Effect Interval) → Type 0
  Keeps e s r =
      (r.0.resolved ≡ s.resolved)
      × (r.0.registered ≡ s.registered)
      × (r.0.opened ≡ opened_after equals e s)

  AllKeep :
      {A : Type 0} (e : Event Interval) (s : System Interval) (o : Outcome A)
      (f : A → System Interval × List (Effect Interval))
      → ((a : A) → Keeps e s (f a))
      → (r : System Interval × List (Effect Interval)) → (o >>= λ a. done (f a)) ≡ done r
      → Keeps e s r
  AllKeep e s (done a) f h r p = subst (Keeps e s) (unwrapped p) (h a)
    where
      unwrapped : done (f a) ≡ done r → f a ≡ r
      unwrapped q = ground arith
  AllKeep e s fatal f h r p = absurd (ground arith)

  same_kept :
      (e : Event Interval) (s : System Interval) (r : System Interval × List (Effect Interval))
      → opened_after equals e s ≡ s.opened
      → done (s, []) ≡ done r
      → Keeps e s r
  same_kept e s r o p = subst (Keeps e s) (unwrapped p) (refl, refl, sym o)
    where
      unwrapped : done (s, []) ≡ done r → (s, []) ≡ r
      unwrapped q = ground arith

  pub emit-Keeps :
      (e : Event Interval) (s : System Interval) (r : System Interval × List (Effect Interval))
      → emit equals e s ≡ done r
      → Keeps e s r
  unfolding emit
  emit-Keeps (starts u d c) s r p =
      AllKeep (starts u d c) s (start equals u d c s.retry)
        (λ x. left equals (record s { opened = opening s.retry.state d s.opened }) x.0)
        (λ x. (refl, refl, refl)) r p
  emit-Keeps (cancels i) s r p =
      AllKeep (cancels i) s (cancel equals i s.retry) (λ x. left equals s x.0)
        (λ x. (refl, refl, refl)) r p
  emit-Keeps (continues b x st) s r p = by_phase s.phase p
    where
      by_phase :
          (ph : Phase Interval)
          → emit_continue equals ph b x st s ≡ done r
          → Keeps (continues b x st) s r
      by_phase (acting a) q =
          AllKeep (continues b x st) s (continue equals a b x st s.retry)
            (λ y. left equals (consume s) y) (λ y. (refl, refl, refl)) r q
      by_phase quiet q = same_kept (continues b x st) s r refl q
      by_phase (deciding _ _ _) q = same_kept (continues b x st) s r refl q
      by_phase (sleeping _) q = same_kept (continues b x st) s r refl q
      by_phase (ringing _) q = same_kept (continues b x st) s r refl q
  emit-Keeps (decides p x) s r e = by_phase s.phase e
    where
      by_phase :
          (ph : Phase Interval) → emit_decide equals ph p x s ≡ done r → Keeps (decides p x) s r
      by_phase (deciding b y a) q =
          AllKeep (decides p x) s (handle_result equals b y p x s.retry)
            (λ z. left equals (consume s) z) (λ z. (refl, refl, refl)) r q
      by_phase quiet q = same_kept (decides p x) s r refl q
      by_phase (acting _) q = same_kept (decides p x) s r refl q
      by_phase (sleeping _) q = same_kept (decides p x) s r refl q
      by_phase (ringing _) q = same_kept (decides p x) s r refl q
  emit-Keeps fires s r e = by_phase s.phase e
    where
      by_phase : (ph : Phase Interval) → emit_fire equals ph s ≡ done r → Keeps fires s r
      by_phase (sleeping t) q =
          AllKeep fires s (timer_fired t s.retry) (λ z. left equals (consume s) z)
            (λ z. (refl, refl, refl)) r q
      by_phase (ringing t) q =
          AllKeep fires s (timer_fired t s.retry) (λ z. left equals (consume s) z)
            (λ z. (refl, refl, refl)) r q
      by_phase quiet q = same_kept fires s r refl q
      by_phase (acting _) q = same_kept fires s r refl q
      by_phase (deciding _ _ _) q = same_kept fires s r refl q
  emit-Keeps rings s r e = by_phase s.phase e
    where
      by_phase : (ph : Phase Interval) → done (on_ring equals ph s, []) ≡ done r → Keeps rings s r
      by_phase (sleeping t) q = ground arith
      by_phase (ringing _) q = same_kept rings s r refl q
      by_phase quiet q = same_kept rings s r refl q
      by_phase (acting _) q = same_kept rings s r refl q
      by_phase (deciding _ _ _) q = same_kept rings s r refl q
  emit-Keeps fires_late s r e = by_late s.late e
    where
      by_late : (ts : List (Timer Interval)) → emit_late equals ts s ≡ done r → Keeps fires_late s r
      by_late [] q = same_kept fires_late s r refl q
      by_late (t ∷ ts) q =
          AllKeep fires_late s (timer_fired t s.retry) (λ z. left equals (record s { late = ts }) z)
            (λ z. (refl, refl, refl)) r q
