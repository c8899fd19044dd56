-- ===== src/ConcurrentBox/Threads.antt =====
-- Threads that share one BRUConcurrentBox, interleaved in any order
-- (BromiumCoreUtils/BRUConcurrentBox.m).
use bromium_core_utils.Prelude.{
  ◌≡◌, refl, sym, subst, ◌⊎◌, inl, inr, Bool, true, false, Option, some, List, [], ◌∷◌, ◌++◌, All,
  All-append, All-split, if◌then◌else◌, arith,
}
use bromium_core_utils.ConcurrentBox.{Call, Answer, Turn, waits, returns, turn, time_out}

-- A thread inside a method: about to take the lock, asleep on the condition, or returned.
pub data Thread (A : Type 0) : Type 0 where
  ready : Call A → Thread A
  asleep : Call A → Thread A
  returned : Call A → Answer A → Thread A

pub record System (A : Type 0) : Type 0 where
  pub content : Option A
  pub threads : List (Thread A)
  -- The calls that returned after a turn, newest first, with their answers.
  pub log : List (Call A × Answer A)

module _ {A : Type 0} where
  -- `broadcast` wakes every sleeper.
  abbrev pub wake : Thread A → Thread A
  wake (asleep c) = ready c
  wake t = t

  abbrev pub wake_all : List (Thread A) → List (Thread A)
  wake_all [] = []
  wake_all (t ∷ ts) = wake t ∷ wake_all ts

  abbrev pub woken : Bool → List (Thread A) → List (Thread A)
  woken b ts = if b then wake_all ts else ts

  -- The thread that took the lock, with the others around it.
  unfoldable pub after_turn :
      Call A → Turn A → List (Thread A) → List (Thread A) → System A → System A
  after_turn c waits xs ys s = record s { threads = xs ++ (asleep c ∷ ys) }
  after_turn c (returns content broadcast answer) xs ys s = record s {
    content = content;
    threads = woken broadcast xs ++ (returned c answer ∷ woken broadcast ys);
    log = (c, answer) ∷ s.log;
  }

  pub data Step (s : System A) : System A → Type 0 where
    call : (c : Call A) → Step s (record s { threads = ready c ∷ s.threads })
    run :
        (xs ys : List (Thread A)) (c : Call A)
        → s.threads ≡ xs ++ (ready c ∷ ys)
        → Step s (after_turn c (turn c s.content) xs ys s)
    spurious :
        (xs ys : List (Thread A)) (c : Call A)
        → s.threads ≡ xs ++ (asleep c ∷ ys)
        → Step s (record s { threads = xs ++ (ready c ∷ ys) })
    timeout :
        (xs ys : List (Thread A)) (c : Call A) (a : Answer A)
        → s.threads ≡ xs ++ (asleep c ∷ ys)
        → time_out c ≡ some a
        → Step s (record s { threads = xs ++ (returned c a ∷ ys) })

  pub data Reach (initial : Option A) : System A → Type 0 where
    start : Reach initial (record { content = initial; threads = []; log = [] })
    later : {s t : System A} → Reach initial s → Step s t → Reach initial t

  -- A sleeper would have to wait again.
  abbrev pub IsBlocked : Option A → Thread A → Type 0
  IsBlocked content (ready c) = Unit
  IsBlocked content (asleep c) = turn c content ≡ waits
  IsBlocked content (returned c a) = Unit

  wake_all-IsBlocked : (o : Option A) (ts : List (Thread A)) → All (IsBlocked o) (wake_all ts)
  wake_all-IsBlocked o [] = tt
  wake_all-IsBlocked o (ready c ∷ ts) = (tt, wake_all-IsBlocked o ts)
  wake_all-IsBlocked o (asleep c ∷ ts) = (tt, wake_all-IsBlocked o ts)
  wake_all-IsBlocked o (returned c a ∷ ts) = (tt, wake_all-IsBlocked o ts)

  abbrev pub AllBlocked : System A → Type 0
  AllBlocked s = All (IsBlocked s.content) s.threads

  -- Every turn that changes the content broadcasts.
  turn_broadcasts :
      (c : Call A) (o o' : Option A) (b : Bool) (a : Answer A)
      → turn c o ≡ returns o' b a
      → (b ≡ true) ⊎ ((b ≡ false) × (o' ≡ o))
  unfolding turn
  turn_broadcasts c o o' b a e = ground arith

  woken-IsBlocked :
      (o o' : Option A) (b : Bool) (ts : List (Thread A))
      → (b ≡ true) ⊎ ((b ≡ false) × (o' ≡ o))
      → All (IsBlocked o) ts
      → All (IsBlocked o') (woken b ts)
  woken-IsBlocked o o' true ts h k = wake_all-IsBlocked o' ts
  woken-IsBlocked o o' false ts (inl e) k = cc
  woken-IsBlocked o o' false ts (inr (_, e)) k = subst (λ x. All (IsBlocked x) ts) (sym e) k

  after_turn-AllBlocked :
      (c : Call A) (t : Turn A) (xs ys : List (Thread A)) (s : System A)
      → turn c s.content ≡ t
      → All (IsBlocked s.content) xs
      → All (IsBlocked s.content) ys
      → AllBlocked (after_turn c t xs ys s)
  unfolding after_turn
  after_turn-AllBlocked c waits xs ys s e hx hy =
      All-append (IsBlocked s.content) xs (asleep c ∷ ys) hx (e, hy)
  after_turn-AllBlocked c (returns o b a) xs ys s e hx hy =
      let w = turn_broadcasts c s.content o b a e in
      All-append (IsBlocked o) (woken b xs) (returned c a ∷ woken b ys)
        (woken-IsBlocked s.content o b xs w hx) (tt, woken-IsBlocked s.content o b ys w hy)

  -- The other threads are as they were; the moved one is not asleep.
  replace-IsBlocked :
      (o : Option A) (xs ys ts : List (Thread A)) (old new : Thread A)
      → ts ≡ xs ++ (old ∷ ys)
      → IsBlocked o new
      → All (IsBlocked o) ts
      → All (IsBlocked o) (xs ++ (new ∷ ys))
  replace-IsBlocked o xs ys ts old new e n h =
      let (hx, hy) = All-split (IsBlocked o) xs (old ∷ ys) (subst (All (IsBlocked o)) e h) in
      All-append (IsBlocked o) xs (new ∷ ys) hx (n, hy.1)

  pub Step-AllBlocked : {s t : System A} → Step s t → AllBlocked s → AllBlocked t
  Step-AllBlocked (call c) h = (tt, h)
  Step-AllBlocked {s} (run xs ys c e) h =
      let (hx, hy) =
        All-split (IsBlocked s.content) xs (ready c ∷ ys) (subst (All (IsBlocked s.content)) e h) in
      after_turn-AllBlocked c (turn c s.content) xs ys s refl hx hy.1
  Step-AllBlocked {s} (spurious xs ys c e) h =
      replace-IsBlocked s.content xs ys s.threads (asleep c) (ready c) e tt h
  Step-AllBlocked {s} (timeout xs ys c a e _) h =
      replace-IsBlocked s.content xs ys s.threads (asleep c) (returned c a) e tt h

  -- No wakeup is lost. In every state that the threads can reach from a box with any content, a
  -- thread that is asleep on the condition would have to wait again if it ran now: each change of
  -- the content has woken all sleepers, so a sleeper in `put` sees a full box, and a sleeper in
  -- `take`, `tryTakeUntil:` or `swapWithValue:` an empty one.
  pub Reach-AllBlocked : {initial : Option A} {s : System A} → Reach initial s → AllBlocked s
  Reach-AllBlocked start = tt
  Reach-AllBlocked (later r st) = Step-AllBlocked st (Reach-AllBlocked r)
