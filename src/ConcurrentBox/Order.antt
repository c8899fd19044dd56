-- ===== src/ConcurrentBox/Order.antt =====
-- What goes through a BRUConcurrentBox (BromiumCoreUtils/BRUConcurrentBox.m).
use mathlib.Core.List.{append-nil, append_assoc}
use bromium_core_utils.Prelude.{
  ◌≡◌, refl, sym, ap, ◌∙◌, Bool, true, Option, none, some, List, [], ◌∷◌, ◌++◌, arith,
}
use bromium_core_utils.ConcurrentBox.{
  Call, put, try_put, swap_with_value, try_swap_with_value, Answer, flag, value, Turn, waits,
  returns, turn,
}
use bromium_core_utils.ConcurrentBox.Threads.{
  System, call, run, spurious, timeout, Thread, Reach, start, later, after_turn,
}

module _ {A : Type 0} where
  abbrev pub or_nil : Option A → List A
  or_nil none = []
  or_nil (some x) = x ∷ []

  -- The value that a call put into the box, as its caller sees it.
  abbrev pub put_in : Call A → Answer A → List A
  put_in (put x) a = x ∷ []
  put_in (try_put x) (flag true) = x ∷ []
  put_in (swap_with_value x) a = x ∷ []
  put_in (try_swap_with_value x) a = x ∷ []
  put_in _ _ = []

  -- The value that a call took out.
  abbrev pub taken_out : Answer A → List A
  taken_out (value o) = or_nil o
  taken_out _ = []

  -- Newest first.
  abbrev pub all_put : List (Call A × Answer A) → List A
  all_put [] = []
  all_put ((c, a) ∷ log) = put_in c a ++ all_put log

  abbrev pub all_taken : List (Call A × Answer A) → List A
  all_taken [] = []
  all_taken ((c, a) ∷ log) = taken_out a ++ all_taken log

  turn_keeps :
      (c : Call A) (o o' : Option A) (b : Bool) (a : Answer A)
      → turn c o ≡ returns o' b a
      → put_in c a ++ or_nil o ≡ or_nil o' ++ taken_out a
  unfolding turn
  turn_keeps c o o' b a e = ground arith

  abbrev IsOrdered : Option A → System A → Type 0
  IsOrdered initial s = all_put s.log ++ or_nil initial ≡ or_nil s.content ++ all_taken s.log

  after_turn-IsOrdered :
      (i : Option A) (c : Call A) (t : Turn A) (xs ys : List (Thread A)) (s : System A)
      → turn c s.content ≡ t
      → IsOrdered i s
      → IsOrdered i (after_turn c t xs ys s)
  unfolding after_turn
  after_turn-IsOrdered i c waits xs ys s e h = h
  after_turn-IsOrdered i c (returns o b a) xs ys s e h =
      append_assoc (put_in c a) (all_put s.log) (or_nil i)
      ∙ ap (◌++◌ (put_in c a)) h
      ∙ sym (append_assoc (put_in c a) (or_nil s.content) (all_taken s.log))
      ∙ ap (λ l. l ++ all_taken s.log) (turn_keeps c s.content o b a e)
      ∙ append_assoc (or_nil o) (taken_out a) (all_taken s.log)

  -- Whatever the threads do, the values that callers have put into the box, newest first, with
  -- the box's first content behind them, are its present content followed by the values that
  -- callers have taken out: every value that is taken was put, none is taken twice, none is lost,
  -- and they come out in the order in which they went in. A call's value counts as put, and its
  -- result as taken, by what the call returned.
  pub put-eq-taken :
      {initial : Option A} {s : System A}
      → Reach initial s
      → all_put s.log ++ or_nil initial ≡ or_nil s.content ++ all_taken s.log
  put-eq-taken {initial} start = sym (append-nil (or_nil initial))
  put-eq-taken (later r (call c)) = put-eq-taken r
  put-eq-taken {initial} (later {s = s} r (run xs ys c e)) =
      after_turn-IsOrdered initial c (turn c s.content) xs ys s refl (put-eq-taken r)
  put-eq-taken (later r (spurious xs ys c e)) = put-eq-taken r
  put-eq-taken (later r (timeout xs ys c a e o)) = put-eq-taken r
