-- ===== src/ConcurrentVariable/Swaps.antt =====
-- Calls on one BRUConcurrentVariable, in the order in which its queue runs them
-- (BromiumCoreUtils/BRUConcurrentVariable.m).
use bromium_core_utils.Prelude.{◌≡◌, refl, Option, none, some, List, [], ◌∷◌}
use bromium_core_utils.Prelude.Outcome.{Outcome, done, ◌>>=◌}
use bromium_core_utils.ConcurrentVariable.{
  ConcurrentVariable, new_with_value, read_variable, write_variable, modify_variable, swap_variable,
}

pub data Call (A : Type 0) : Type 0 where
  read : Call A
  write : A → Call A
  swap : A → Call A
  modify : (A → A) → Call A

module _ {A : Type 0} where
  abbrev lifted : (A → A) → Option A → Option A
  lifted f none = none
  lifted f (some x) = some (f x)

  -- One call, with what it returns (`none` for `writeVariableWithValue:`).
  pub step : Call A → ConcurrentVariable A → Outcome (ConcurrentVariable A × Option A)
  step read v = do r ← read_variable v; done (v, r)
  step (write x) v = do v' ← write_variable (some x) v; done (v', none)
  step (swap x) v = swap_variable (some x) v
  step (modify f) v = modify_variable (lifted f) v

  pub run : List (Call A) → ConcurrentVariable A → Outcome (ConcurrentVariable A × List (Option A))
  run [] v = done (v, [])
  run (c ∷ cs) v = do (v', r) ← step c v; (v'', rs) ← run cs v'; done (v'', r ∷ rs)

  -- A plain variable.
  pub next : Call A → A → A
  next read x = x
  next (write y) x = y
  next (swap y) x = y
  next (modify f) x = f x

  pub answer : Call A → A → Option A
  answer (write y) x = none
  answer _ x = some x

  pub meaning : List (Call A) → A → A × List (Option A)
  meaning [] x = (x, [])
  meaning (c ∷ cs) x = let (y, rs) = meaning cs (next c x) in (y, answer c x ∷ rs)

  step_lem :
      (c : Call A) (x : A)
      → step c (record { current_value = some x })
        ≡ done (record { current_value = some (next c x) }, answer c x)
  unfolding step next answer read_variable write_variable modify_variable swap_variable
  step_lem read x = refl
  step_lem (write y) x = refl
  step_lem (swap y) x = refl
  step_lem (modify f) x = refl

  run-meaning :
      (cs : List (Call A)) (x : A)
      → run cs (record { current_value = some x })
        ≡ done (record { current_value = some (meaning cs x).0 }, (meaning cs x).1)
  unfolding run meaning
  run-meaning [] x = refl
  run-meaning (c ∷ cs) x = rw (step_lem c x, run-meaning cs (next c x))

  -- Any sequence of calls with values that are not nil, on a variable made with `newWithValue:`,
  -- runs without failing an assertion, and each call returns what it would return on a plain
  -- variable: reads, swaps and modifications the value that the calls before them left.
  pub run_lem :
      (cs : List (Call A)) (x : A)
      → (new_with_value (some x) >>= run cs)
        ≡ done (record { current_value = some (meaning cs x).0 }, (meaning cs x).1)
  unfolding new_with_value
  run_lem cs x = run-meaning cs x
