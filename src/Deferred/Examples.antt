-- ===== src/Deferred/Examples.antt =====
-- A promise with a block, then resolved, after which the block runs
-- (BromiumCoreUtils/BRUDeferred.m).
use bromium_core_utils.Prelude.{ℕ, ◌+◌, ◌≡◌, refl, ◌⊎◌, none, some, [], ◌∷◌, ◌++◌, All}
use bromium_core_utils.Prelude.Outcome.{done, fatal}
use bromium_core_utils.Deferred.{pending, resolved, init, resolve, then_do, complete}
use bromium_core_utils.Deferred.System.{
  System, count, calls, Reach, start, later, resolves, thens, completes,
}
use bromium_core_utils.Deferred.Delivery.{resolution, then_called_once, resolve_exactly_once}

abbrev empty : System ℕ
empty = record {
  deferred = record { state = pending; value = none; then_blocks = [] };
  completions = [];
  called = [];
  registered = [];
  dispatched = [];
}

abbrev waiting : System ℕ
waiting = record empty {
  deferred = record { state = pending; value = none; then_blocks = 7 ∷ [] };
  registered = 7 ∷ [];
}

abbrev queued : System ℕ
queued = record waiting {
  deferred = record { state = resolved; value = some 3; then_blocks = [] };
  completions = 7 ∷ [];
  dispatched = 7 ∷ [];
}

abbrev finished : System ℕ
finished = record queued { completions = []; called = (7, some 3) ∷ [] }

waiting-Reach : Reach waiting
unfolding init then_do
waiting-Reach = later {s = empty} start (thens 7)

queued-Reach : Reach queued
unfolding resolve
queued-Reach = later waiting-Reach (resolves (some 3) (queued.deferred, 7 ∷ []) refl)

finished-Reach : Reach finished
unfolding complete
finished-Reach = later queued-Reach (completes [] [] 7 refl)

then_called_once_example :
    (count 7 finished.registered
      ≡ calls 7 finished.called
        + count 7 finished.completions
        + count 7 finished.deferred.then_blocks)
    × (finished.registered ≡ finished.dispatched ++ finished.deferred.then_blocks)
    × All (λ c. c.1 ≡ finished.deferred.value) finished.called
then_called_once_example = then_called_once 7 finished-Reach

resolve_exactly_once_example :
    ((queued.deferred.state ≡ pending)
      × (queued.called ≡ [])
      × (queued.completions ≡ [])
      × (resolve (some 4) queued.deferred ≡ done (resolution (some 4) queued.deferred)))
    ⊎ ((queued.deferred.state ≡ resolved)
        × (queued.deferred.then_blocks ≡ [])
        × (resolve (some 4) queued.deferred ≡ fatal))
resolve_exactly_once_example = resolve_exactly_once (some 4) queued-Reach
