-- ===== src/ResourceCleanup/Examples.antt =====
-- A world that lists the cleanups that ran, and blocks that fail or succeed
-- (BromiumCoreUtils/BRUResourceCleanup.m).
use bromium_core_utils.Prelude.{ℕ, ◌≡◌, refl, Bool, true, false, none, some, List, [], ◌∷◌}
use bromium_core_utils.Prelude.Outcome.{done, fatal, ◌>>=◌, Returns}
use bromium_core_utils.ResourceCleanup.{
  Cleanup, ResourceCleanup, init, add, run_all, discard_all, dealloc, non_fallible_block,
  closing_block, deleting_block,
}
use bromium_core_utils.ResourceCleanup.Acquisition.{
  Acquire, AllOrNothing, acquire_all, acquisition-AllOrNothing,
}
use bromium_core_utils.ResourceCleanup.Contract.{
  InitDocumented, Complies, NonFallibleDocumented, ClosingDocumented, DeletingDocumented,
  cleanup_documented,
}
use bromium_core_utils.ResourceCleanup.Unwinding.{
  unwinding, add_all, run_all_unwinds, finished_once,
}

abbrev drop_first : List ℕ → List ℕ
drop_first [] = []
drop_first (n ∷ w) = w

abbrev note : ℕ → Cleanup (List ℕ) ℕ
note n w = record { ok = true; wrote = none; world = n ∷ w }

abbrev fail : ℕ → Cleanup (List ℕ) ℕ
fail n w = record { ok = false; wrote = some n; world = n ∷ w }

abbrev blocks : List (Cleanup (List ℕ) ℕ)
blocks = note 1 ∷ fail 2 ∷ fail 3 ∷ []

run_all_example :
    (add_all blocks init >>= run_all [])
    ≡ done (record { cleanup_blocks = []; active = false }, unwinding blocks [])
run_all_example = run_all_unwinds blocks []

finished_once_example :
    Returns
      (λ r.
        (dealloc r ≡ fatal)
        × Returns
            (λ q.
              (add (note 4) q.0 ≡ fatal)
              × (run_all [] q.0 ≡ fatal)
              × (dealloc q.0 ≡ done tt)
              × (discard_all r ≡ q.0))
            (run_all [] r))
      (add_all blocks init)
finished_once_example = finished_once blocks (note 4) []

-- Resources on a stack of numbers: a block takes the last one away.
abbrev taking : ℕ → Acquire (List ℕ) ℕ
taking n w = some (n ∷ w, λ v. record { ok = true; wrote = none; world = drop_first v })

abbrev refused : Acquire (List ℕ) ℕ
refused w = none

acquisition-AllOrNothing_example :
    Returns
      (AllOrNothing none (9 ∷ []))
      (acquire_all (taking 1 ∷ taking 2 ∷ refused ∷ []) init (9 ∷ []))
acquisition-AllOrNothing_example =
    acquisition-AllOrNothing (taking 1 ∷ taking 2 ∷ refused ∷ []) (9 ∷ [])
      (λ w. refl, (λ w. refl, (λ w. tt, tt)))

abbrev held : ResourceCleanup (List ℕ) ℕ
held = record { cleanup_blocks = fail 2 ∷ note 3 ∷ []; active = true }

abbrev close_one : ℕ → List ℕ → Bool × ℕ × List ℕ
close_one fd w = (true, 9, fd ∷ w)

cleanup_documented_example :
    InitDocumented {World = List ℕ} {Error = ℕ} init
    × Complies (note 4) [] held
    × NonFallibleDocumented {Error = ℕ} drop_first (non_fallible_block drop_first)
    × ClosingDocumented close_one 7 (closing_block close_one (λ n. n) 7)
    × DeletingDocumented fail 8 (deleting_block fail 8)
cleanup_documented_example =
    cleanup_documented held (note 4) [] drop_first close_one (λ n. n) 7 fail 8
