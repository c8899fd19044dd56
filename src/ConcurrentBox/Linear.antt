-- ===== src/ConcurrentBox/Linear.antt =====
-- Threads that share one BRUConcurrentBox see a sequence of documented calls
-- (BromiumCoreUtils/BRUConcurrentBox.m, BromiumCoreUtils/BRUConcurrentBox.h).
use bromium_core_utils.Prelude.{
  ◌≡◌, refl, subst, ◌⊎◌, inl, inr, Bool, true, false, Option, none, some, List, [], ◌∷◌, ◌++◌, All,
  All-append, All-split, arith,
}
use bromium_core_utils.ConcurrentBox.{
  Call, put, try_put, take, try_take, try_take_until, swap_with_value, try_swap_with_value,
  is_empty, Answer, value, Turn, waits, returns, turn, time_out,
}
use bromium_core_utils.ConcurrentBox.Threads.{
  Thread, ready, asleep, returned, System, wake_all, woken, after_turn, call, run, spurious,
  timeout, Reach, start, later,
}
use bromium_core_utils.ConcurrentBox.Contract.{Documented, Replays, Logged}

module _ {A : Type 0} where
  turn-Documented :
      (c : Call A) (o o' : Option A) (b : Bool) (a : Answer A)
      → turn c o ≡ returns o' b a
      → Documented c o o' a
  unfolding turn
  turn-Documented (put x) o o' b a e = ground arith
  turn-Documented (try_put x) o o' b a e = ground arith
  turn-Documented take none o' b a e = ground arith
  turn-Documented take (some y) o' b a e = (y, refl, ground arith, ground arith)
  turn-Documented try_take o o' b a e = ground arith
  turn-Documented try_take_until none o' b a e = ground arith
  turn-Documented try_take_until (some y) o' b a e = inl (y, refl, ground arith, ground arith)
  turn-Documented (swap_with_value x) none o' b a e = ground arith
  turn-Documented (swap_with_value x) (some y) o' b a e = (y, refl, ground arith, ground arith)
  turn-Documented (try_swap_with_value x) o o' b a e = ground arith
  turn-Documented is_empty o o' b a e = ground arith

  -- A method that has returned is in the history, or is a wait that timed out.
  abbrev pub IsExplained : List (Call A × Answer A) → Thread A → Type 0
  IsExplained log (returned c a) = Logged c a log ⊎ ((c ≡ try_take_until) × (a ≡ value none))
  IsExplained log t = Unit

  IsExplained-cons :
      (c : Call A) (a : Answer A) (log : List (Call A × Answer A)) (t : Thread A)
      → IsExplained log t
      → IsExplained ((c, a) ∷ log) t
  IsExplained-cons c a log (ready d) h = tt
  IsExplained-cons c a log (asleep d) h = tt
  IsExplained-cons c a log (returned d b) (inl h) = inl (inr h)
  IsExplained-cons c a log (returned d b) (inr h) = inr h

  all-IsExplained_cons :
      (c : Call A) (a : Answer A) (log : List (Call A × Answer A)) (ts : List (Thread A))
      → All (IsExplained log) ts
      → All (IsExplained ((c, a) ∷ log)) ts
  all-IsExplained_cons c a log [] h = tt
  all-IsExplained_cons c a log (t ∷ ts) h =
      (IsExplained-cons c a log t h.0, all-IsExplained_cons c a log ts h.1)

  wake_all-IsExplained :
      (log : List (Call A × Answer A)) (ts : List (Thread A))
      → All (IsExplained log) ts
      → All (IsExplained log) (wake_all ts)
  wake_all-IsExplained log [] h = tt
  wake_all-IsExplained log (ready d ∷ ts) h = (tt, wake_all-IsExplained log ts h.1)
  wake_all-IsExplained log (asleep d ∷ ts) h = (tt, wake_all-IsExplained log ts h.1)
  wake_all-IsExplained log (returned d b ∷ ts) h = (h.0, wake_all-IsExplained log ts h.1)

  woken-IsExplained :
      (b : Bool) (log : List (Call A × Answer A)) (ts : List (Thread A))
      → All (IsExplained log) ts
      → All (IsExplained log) (woken b ts)
  woken-IsExplained true log ts h = wake_all-IsExplained log ts h
  woken-IsExplained false log ts h = h

  pub record IsLinear (initial : Option A) (s : System A) : Type 0 where
    pub replays : Replays initial s.log s.content
    pub explained : All (IsExplained s.log) s.threads

  after_turn-IsLinear :
      (i : Option A) (c : Call A) (t : Turn A) (xs ys : List (Thread A)) (s : System A)
      → turn c s.content ≡ t
      → All (IsExplained s.log) xs
      → All (IsExplained s.log) ys
      → IsLinear i s
      → IsLinear i (after_turn c t xs ys s)
  unfolding after_turn
  after_turn-IsLinear i c waits xs ys s e hx hy h = record {
    replays = h.replays;
    explained = All-append (IsExplained s.log) xs (asleep c ∷ ys) hx (tt, hy);
  }
  after_turn-IsLinear i c (returns o b a) xs ys s e hx hy h =
      let log = (c, a) ∷ s.log in
      record {
        replays = (s.content, turn-Documented c s.content o b a e, h.replays);
        explained =
            All-append (IsExplained log) (woken b xs) (returned c a ∷ woken b ys)
              (woken-IsExplained b log xs (all-IsExplained_cons c a s.log xs hx))
              (
                inl (inl (refl, refl)),
                woken-IsExplained b log ys (all-IsExplained_cons c a s.log ys hy),
              );
      }

  -- A thread other than the moved one is as it was.
  replace-IsExplained :
      (log : List (Call A × Answer A)) (xs ys ts : List (Thread A)) (old new : Thread A)
      → ts ≡ xs ++ (old ∷ ys)
      → IsExplained log new
      → All (IsExplained log) ts
      → All (IsExplained log) (xs ++ (new ∷ ys))
  replace-IsExplained log xs ys ts old new e n h =
      let (hx, hy) =
        All-split (IsExplained log) xs (old ∷ ys) (subst (All (IsExplained log)) e h) in
      All-append (IsExplained log) xs (new ∷ ys) hx (n, hy.1)

  time_out_answer :
      (c : Call A) (a : Answer A) → time_out c ≡ some a → (c ≡ try_take_until) × (a ≡ value none)
  unfolding time_out
  time_out_answer c a e = ground arith

  -- In every state that the threads can reach, the box is linearizable: the calls that returned
  -- after a turn, in the order of their turns, are a sequence of calls that each do what their
  -- comment promises, from the first content of the box to its present content; and every method
  -- that has returned is one of them, with the answer that it has there, or a `tryTakeUntil:`
  -- whose wait timed out, with the answer nil.
  pub Reach-IsLinear : {initial : Option A} {s : System A} → Reach initial s → IsLinear initial s
  Reach-IsLinear start = record { replays = refl; explained = tt }
  Reach-IsLinear (later r (call c)) =
      let h = Reach-IsLinear r in record { replays = h.replays; explained = (tt, h.explained) }
  Reach-IsLinear {initial} (later {s = s} r (run xs ys c e)) =
      let h = Reach-IsLinear r in
      let (hx, hy) =
        All-split (IsExplained s.log) xs (ready c ∷ ys)
          (subst (All (IsExplained s.log)) e h.explained) in
      after_turn-IsLinear initial c (turn c s.content) xs ys s refl hx hy.1 h
  Reach-IsLinear (later {s = s} r (spurious xs ys c e)) =
      let h = Reach-IsLinear r in
      record {
        replays = h.replays;
        explained = replace-IsExplained s.log xs ys s.threads (asleep c) (ready c) e tt h.explained;
      }
  Reach-IsLinear (later {s = s} r (timeout xs ys c a e o)) =
      let h = Reach-IsLinear r in
      record {
        replays = h.replays;
        explained =
            replace-IsExplained s.log xs ys s.threads (asleep c) (returned c a) e
              (inr (time_out_answer c a o)) h.explained;
      }
