-- ===== src/ConcurrentBox/Examples.antt =====
-- A taker that waits on an empty box, and a `put` that wakes it
-- (BromiumCoreUtils/BRUConcurrentBox.m).
use bromium_core_utils.Prelude.{ℕ, ◌≡◌, refl, none, some, [], ◌∷◌, ◌++◌, Option}
use bromium_core_utils.ConcurrentBox.{put, take, unit, value, turn}
use bromium_core_utils.ConcurrentBox.Threads.{
  System, ready, asleep, returned, Reach, start, later, call, run, after_turn, AllBlocked,
  Reach-AllBlocked,
}
use bromium_core_utils.ConcurrentBox.Linear.{IsLinear, Reach-IsLinear}
use bromium_core_utils.ConcurrentBox.Order.{all_put, all_taken, or_nil, put-eq-taken}

abbrev nothing : Option ℕ
nothing = none

abbrev taker_asleep : System ℕ
taker_asleep = record { content = none; threads = asleep take ∷ []; log = [] }

abbrev taker_woken : System ℕ
taker_woken = record {
  content = some 5;
  threads = returned (put 5) unit ∷ (ready take ∷ []);
  log = (put 5, unit) ∷ [];
}

abbrev taker_done : System ℕ
taker_done = record {
  content = none;
  threads = returned (put 5) unit ∷ (returned take (value (some 5)) ∷ []);
  log = (take, value (some 5)) ∷ ((put 5, unit) ∷ []);
}

asleep-Reach : Reach nothing taker_asleep
unfolding turn after_turn
asleep-Reach = later (later start (call take)) (run [] [] take refl)

woken-Reach : Reach nothing taker_woken
unfolding turn after_turn
woken-Reach = later (later asleep-Reach (call (put 5))) (run [] (asleep take ∷ []) (put 5) refl)

done-Reach : Reach nothing taker_done
unfolding turn after_turn
done-Reach = later woken-Reach (run (returned (put 5) unit ∷ []) [] take refl)

Reach-AllBlocked_example : AllBlocked taker_asleep
Reach-AllBlocked_example = Reach-AllBlocked asleep-Reach

put-eq-taken_example :
    all_put taker_done.log ++ or_nil nothing ≡ or_nil taker_done.content ++ all_taken taker_done.log
put-eq-taken_example = put-eq-taken done-Reach

Reach-IsLinear_example : IsLinear nothing taker_done
Reach-IsLinear_example = Reach-IsLinear done-Reach
