-- ===== src/ConcurrentVariable/Examples.antt =====
-- A few calls on a variable that holds a number (BromiumCoreUtils/BRUConcurrentVariable.m).
use bromium_core_utils.Prelude.{ℕ, ◌+◌, ◌≡◌, some, List, [], ◌∷◌}
use bromium_core_utils.Prelude.Outcome.{done, ◌>>=◌}
use bromium_core_utils.ConcurrentVariable.{new_with_value}
use bromium_core_utils.ConcurrentVariable.Swaps.{
  Call, read, write, swap, modify, run, meaning, run_lem,
}

abbrev some_calls : List (Call ℕ)
some_calls = read ∷ swap 5 ∷ modify (λ x. x + 1) ∷ write 9 ∷ read ∷ []

run_example :
    (new_with_value (some 3) >>= run some_calls)
    ≡ done (record { current_value = some (meaning some_calls 3).0 }, (meaning some_calls 3).1)
run_example = run_lem some_calls 3
