-- ===== src/ResourceCleanup/Unwinding.antt =====
-- The order in which cleanup blocks run, and the life of the object
-- (BromiumCoreUtils/BRUResourceCleanup.m).
use mathlib.Core.List.{reverse-append, append-nil, append_assoc}
use bromium_core_utils.Prelude.{
  ◌≡◌, refl, sym, ap, ◌∙◌, Bool, true, false, ◌&&◌, Option, none, List, [], ◌∷◌, ◌++◌, reverse,
}
use bromium_core_utils.Prelude.Outcome.{Outcome, done, fatal, ◌>>=◌, Returns}
use bromium_core_utils.ResourceCleanup.{
  Cleanup, ResourceCleanup, Progress, init, add, run_block, run_blocks, run_all, discard_all,
  dealloc, written,
}

module _ {World Error : Type 0} where
  -- Acquisitions unwound like nested calls: what was acquired later is cleaned up first, and each
  -- block sees the world that the later ones left.
  unfoldable pub unwound : List (Cleanup World Error) → World → World
  unwound [] w = w
  unwound (b ∷ bs) w = (b (unwound bs w)).world

  -- Whether every block succeeds there.
  pub all_ok : List (Cleanup World Error) → World → Bool
  all_ok [] w = true
  all_ok (b ∷ bs) w = (b (unwound bs w)).ok && all_ok bs w

  -- The error of the last block that wrote one: the earliest acquisition's.
  pub last_error : List (Cleanup World Error) → World → Option Error
  last_error [] w = none
  last_error (b ∷ bs) w = written (b (unwound bs w)).wrote (last_error bs w)

  abbrev pub unwinding : List (Cleanup World Error) → World → Progress World Error
  unwinding bs w = record { success = all_ok bs w; error = last_error bs w; world = unwound bs w }

  run_blocks-append :
      (xs ys : List (Cleanup World Error)) (p : Progress World Error)
      → run_blocks (xs ++ ys) p ≡ run_blocks ys (run_blocks xs p)
  unfolding run_blocks
  run_blocks-append [] ys p = refl
  run_blocks-append (x ∷ xs) ys p = run_blocks-append xs ys (run_block x p)

  pub run_blocks-reverse :
      (bs : List (Cleanup World Error)) (w : World)
      → run_blocks (reverse bs) (record { success = true; error = none; world = w })
        ≡ unwinding bs w
  unfolding unwound all_ok last_error
  run_blocks-reverse [] w = unfold run_blocks in refl
  run_blocks-reverse (b ∷ bs) w =
      ap (λ l. run_blocks l start_state) (reverse-append (b ∷ []) bs)
      ∙ run_blocks-append (reverse bs) (b ∷ []) start_state
      ∙ ap (run_blocks (b ∷ [])) (run_blocks-reverse bs w)
      ∙ (unfold run_blocks in refl)
    where
      start_state : Progress World Error
      start_state = record { success = true; error = none; world = w }

  -- A sequence of acquisitions, each adding its block.
  pub add_all :
      List (Cleanup World Error)
      → ResourceCleanup World Error
      → Outcome (ResourceCleanup World Error)
  add_all [] r = done r
  add_all (b ∷ bs) r = add b r >>= add_all bs

  add_all_lem :
      (bs cs : List (Cleanup World Error))
      → add_all bs (record { cleanup_blocks = cs; active = true })
        ≡ done (record { cleanup_blocks = cs ++ bs; active = true })
  unfolding add_all add
  add_all_lem [] cs =
      ap (λ l. done (record { cleanup_blocks = l; active = true })) (sym (append-nil cs))
  add_all_lem (b ∷ bs) cs =
      add_all_lem bs (cs ++ (b ∷ []))
      ∙ ap (λ l. done (record { cleanup_blocks = l; active = true })) (append_assoc cs (b ∷ []) bs)

  -- The blocks of any acquisitions, added to a new object and run by `runAllCleanupsWithError:`,
  -- act on the world like an unwinding: the block that was added last runs first, every block
  -- runs once whether the others succeed or not, the result is YES exactly when all succeed, and
  -- the error is the one written by the earliest acquisition that wrote one. The object is then
  -- inactive and holds no blocks.
  pub run_all_unwinds :
      (bs : List (Cleanup World Error)) (w : World)
      → (add_all bs init >>= run_all w)
        ≡ done (record { cleanup_blocks = []; active = false }, unwinding bs w)
  unfolding init run_all
  run_all_unwinds bs w = rw (add_all_lem bs [], run_blocks-reverse bs w)

  -- Once the cleanups have run or were discarded, adding a block and running the cleanups fail an
  -- assertion, and deallocation does not; before that, deallocation fails one. Discarding runs no
  -- block.
  pub finished_once :
      (bs : List (Cleanup World Error)) (b : Cleanup World Error) (w : World)
      → Returns
          (λ r.
            (dealloc r ≡ fatal)
            × Returns
                (λ q.
                  (add b q.0 ≡ fatal)
                  × (run_all w q.0 ≡ fatal)
                  × (dealloc q.0 ≡ done tt)
                  × (discard_all r ≡ q.0))
                (run_all w r))
          (add_all bs init)
  unfolding init run_all add dealloc discard_all
  finished_once bs b w = rw (add_all_lem bs []) (refl, (refl, refl, refl, refl))
