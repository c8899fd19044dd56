-- ===== src/Retry/Safety.antt =====
-- What holds between two blocks on `syncQueue` of BromiumCoreUtils/BRURetry.m.
use bromium_core_utils.Prelude.{
  ℕ, ◌<◌, ◌≡◌, Bool, true, Option, none, some, List, [], ◌∷◌, ◌++◌, is_some, arith,
}
use bromium_core_utils.Prelude.Outcome.{Returns}
use bromium_core_utils.Retry.{
  State, idle, delaying, active_waiting, active_cancelling, Error, Retry, start, cancel, continue,
  handle_result, timer_fired, init, Status, Response,
}
use bromium_core_utils.Retry.System.{
  Phase, quiet, acting, deciding, sleeping, ringing, System, Event, starts, cancels, continues,
  decides, rings, fires, fires_late, step, Allowed, initial,
}

abbrev pub or_nil : Option ℕ → List ℕ
or_nil none = []
or_nil (some d) = d ∷ []

abbrev pub names : List (ℕ × Bool × Option Error) → List ℕ
names [] = []
names ((d, success, error) ∷ rest) = d ∷ names rest

module _ {Interval : Type 0} where
  -- The fields that belong to each state. (`currentDelay` is left out: a new object does not meet
  -- what `checkInvariants` asks of it.)
  abbrev pub IsFormed : State → Retry Interval → Type 0
  IsFormed idle r = (r.timer ≡ none) × (r.attempt ≡ 0) × (r.identifier ≡ none) × (r.deferred ≡ none)
  IsFormed delaying r =
      (is_some r.timer ≡ true)
      × (0 < r.attempt)
      × (is_some r.identifier ≡ true)
      × (is_some r.deferred ≡ true)
  IsFormed _ r =
      (r.timer ≡ none)
      × (0 < r.attempt)
      × (is_some r.identifier ≡ true)
      × (is_some r.deferred ≡ true)

  -- What the operation waits for fits its state.
  abbrev pub IsLinked : State → Phase Interval → Retry Interval → Type 0
  IsLinked idle quiet r = Unit
  IsLinked delaying (sleeping t) r = (r.timer ≡ some t) × (t.identifier ≡ r.identifier)
  IsLinked delaying (ringing t) r = (r.timer ≡ some t) × (t.identifier ≡ r.identifier)
  IsLinked active_waiting (acting a) r = a ≡ r.attempt
  IsLinked active_waiting (deciding success error a) r = a ≡ r.attempt
  IsLinked active_cancelling (acting a) r = a ≡ r.attempt
  IsLinked active_cancelling (deciding success error a) r = a ≡ r.attempt
  IsLinked _ _ r = ⊥

  -- Every deferred that was opened has been resolved once, but for the one in use.
  abbrev pub IsBalanced : System Interval → Type 0
  IsBalanced s = s.opened ≡ or_nil s.retry.deferred ++ names s.resolved

  pub record Inv (delay : Interval) (s : System Interval) : Type 0 where
    pub kept : s.retry.delay ≡ delay
    pub formed : IsFormed s.retry.state s.retry
    pub linked : IsLinked s.retry.state s.phase s.retry
    pub balanced : IsBalanced s
    pub punctual : s.late ≡ []

  pub initial-Inv : (z d : Interval) → Inv d (initial z d)
  unfolding init
  initial-Inv z d = ground arith

  module _ (equals : Interval → Interval → Bool) (delay : Interval) where
    starts-Inv :
        (u d : ℕ) (c : Option ℕ) (s : System Interval)
        → Allowed (starts u d c) s
        → Inv delay s
        → Returns (Inv delay) (step equals (starts u d c) s)
    unfolding step start
    starts-Inv u d c s h v = ground arith

    cancels-Inv :
        (i : ℕ) (s : System Interval)
        → equals delay delay ≡ true
        → Allowed (cancels i) s
        → Inv delay s
        → Returns (Inv delay) (step equals (cancels i) s)
    unfolding step cancel
    cancels-Inv i s h a v = ground arith

    fires-Inv :
        (s : System Interval)
        → Allowed fires s
        → Inv delay s
        → Returns (Inv delay) (step equals fires s)
    unfolding step timer_fired
    fires-Inv s h v = ground arith

    rings-Inv : (s : System Interval) → Inv delay s → Returns (Inv delay) (step equals rings s)
    unfolding step
    rings-Inv s v = ground arith

    fires_late-Inv :
        (s : System Interval) → Inv delay s → Returns (Inv delay) (step equals fires_late s)
    unfolding step
    fires_late-Inv s v = ground arith

    decides-Inv :
        (p : Response) (n : Interval) (s : System Interval)
        → equals delay delay ≡ true
        → Inv delay s
        → Returns (Inv delay) (step equals (decides p n) s)
    unfolding step handle_result
    decides-Inv p n s h v = ground arith

    continues-Inv :
        (b : Bool) (e : Option Error) (t : Status) (s : System Interval)
        → equals delay delay ≡ true
        → Allowed (continues b e t) s
        → Inv delay s
        → Returns (Inv delay) (step equals (continues b e t) s)
    unfolding step continue
    continues-Inv b e t s h a v = ground arith

    pub step-Inv :
        (e : Event Interval) (s : System Interval)
        → equals delay delay ≡ true
        → Allowed e s
        → Inv delay s
        → Returns (Inv delay) (step equals e s)
    step-Inv (starts u d c) s h a v = starts-Inv u d c s a v
    step-Inv (cancels i) s h a v = cancels-Inv i s h a v
    step-Inv (continues b e t) s h a v = continues-Inv b e t s h a v
    step-Inv (decides p n) s h a v = decides-Inv p n s h v
    step-Inv rings s h a v = rings-Inv s v
    step-Inv fires s h a v = fires-Inv s a v
    step-Inv fires_late s h a v = fires_late-Inv s v
