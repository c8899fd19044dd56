-- ===== src/ResourceCleanup/Contract.antt =====
-- What BromiumCoreUtils/BRUResourceCleanup.h promises of each method, over the stack of blocks that an
-- object stands for.
use mathlib.Core.List.{reverse-append}
use bromium_core_utils.Prelude.{
  ℕ, ◌≡◌, refl, ap, ◌∙◌, Bool, true, false, not, ◌&&◌, Option, none, some, List, [], ◌∷◌, reverse,
  if◌then◌else◌, arith,
}
use bromium_core_utils.Prelude.Outcome.{Outcome, done, fatal, Returns}
use bromium_core_utils.ResourceCleanup.{
  Ran, Cleanup, ResourceCleanup, Progress, init, add, non_fallible_block, closing_block,
  deleting_block, run_block, run_blocks, run_all, discard_all, dealloc,
}

and_exchange : (x y z : Bool) → ((x && y) && z) ≡ (y && (x && z))
and_exchange x y z = ground arith

module _ {World Error : Type 0} where
  -- The blocks in the order in which they are to run, until the lifetime ends.
  abbrev pub stack : ResourceCleanup World Error → Option (List (Cleanup World Error))
  stack r = if r.active then some (reverse r.cleanup_blocks) else none

  -- The world when the blocks have run in this order, and whether all succeeded.
  pub in_order : List (Cleanup World Error) → World → World
  in_order [] w = w
  in_order (b ∷ bs) w = in_order bs (b w).world

  pub all_succeed : List (Cleanup World Error) → World → Bool
  all_succeed [] w = true
  all_succeed (b ∷ bs) w = (b w).ok && all_succeed bs (b w).world

  -- `init`: a new empty resource cleanup.
  abbrev pub InitDocumented : ResourceCleanup World Error → Type 0
  InitDocumented r = stack r ≡ some []

  -- `addResourceCleanupBlock:` and the three methods that make the block: it is to run first.
  abbrev pub AddDocumented :
      Option (List (Cleanup World Error))
      → Cleanup World Error
      → Outcome (ResourceCleanup World Error)
      → Type 0
  AddDocumented none b o = o ≡ fatal
  AddDocumented (some bs) b o = Returns (λ r. stack r ≡ some (b ∷ bs)) o

  -- The block of `addResourceNonFallibleCleanupBlock:` cannot fail.
  abbrev pub NonFallibleDocumented : (World → World) → Cleanup World Error → Type 0
  NonFallibleDocumented f b = (w : World) → ((b w).ok ≡ true) × ((b w).world ≡ f w)

  -- `addCleanupBlockForClosingFileDescriptor:`.
  abbrev pub ClosingDocumented :
      (close : ℕ → World → Bool × ℕ × World) (fd : ℕ) → Cleanup World Error → Type 0
  ClosingDocumented close fd b =
      (w : World) → ((b w).ok ≡ not (close fd w).0) × ((b w).world ≡ (close fd w).2)

  -- `addCleanupBlockForDeletingFileSystemItemAtPath:`.
  abbrev pub DeletingDocumented :
      {FilePath : Type 0} (remove : FilePath → World → Ran World Error) (path : FilePath)
      → Cleanup World Error
      → Type 0
  DeletingDocumented remove path b =
      (w : World) → ((b w).ok ≡ (remove path w).ok) × ((b w).world ≡ (remove path w).world)

  -- `runAllCleanupsWithError:` runs all blocks and ends the lifetime.
  abbrev pub RunAllDocumented :
      Option (List (Cleanup World Error))
      → World
      → Outcome (ResourceCleanup World Error × Progress World Error)
      → Type 0
  RunAllDocumented none w o = o ≡ fatal
  RunAllDocumented (some bs) w o =
      Returns
        (λ q. (stack q.0 ≡ none) × (q.1.world ≡ in_order bs w) × (q.1.success ≡ all_succeed bs w)) o

  -- `discardAllCleanups` ends the lifetime.
  abbrev pub DiscardDocumented : ResourceCleanup World Error → Type 0
  DiscardDocumented r = stack r ≡ none

  -- It is illegal to let go of an object whose lifetime has not ended.
  abbrev pub ScopeDocumented : Option (List (Cleanup World Error)) → Outcome (Unit {0}) → Type 0
  ScopeDocumented none o = o ≡ done tt
  ScopeDocumented (some bs) o = o ≡ fatal

  -- The calls on an object, in any state.
  abbrev pub Complies : Cleanup World Error → World → ResourceCleanup World Error → Type 0
  Complies b w r =
      AddDocumented (stack r) b (add b r)
      × RunAllDocumented (stack r) w (run_all w r)
      × DiscardDocumented (discard_all r)
      × ScopeDocumented (stack r) (dealloc r)

  run_blocks-in_order :
      (bs : List (Cleanup World Error)) (p : Progress World Error)
      → ((run_blocks bs p).world ≡ in_order bs p.world)
        × ((run_blocks bs p).success ≡ (p.success && all_succeed bs p.world))
  unfolding run_blocks in_order all_succeed run_block
  run_blocks-in_order [] p = (refl, ground arith)
  run_blocks-in_order (b ∷ bs) p =
      let (w, s) = run_blocks-in_order bs (run_block b p) in
      (w, s ∙ and_exchange (b p.world).ok p.success (all_succeed bs (b p.world).world))

  closing_block-ClosingDocumented :
      (close : ℕ → World → Bool × ℕ × World) (posix_error : ℕ → Error) (fd : ℕ)
      → ClosingDocumented close fd (closing_block close posix_error fd)
  unfolding closing_block
  closing_block-ClosingDocumented close posix_error fd w = (ground arith, ground arith)

  calls_documented :
      (b : Cleanup World Error) (w : World) (bs : List (Cleanup World Error)) (active : Bool)
      → Complies b w (record { cleanup_blocks = bs; active = active })
  unfolding add run_all dealloc discard_all
  calls_documented b w bs false = (refl, refl, refl, refl)
  calls_documented b w bs true =
      let (ran, ok) =
        run_blocks-in_order (reverse bs) (record { success = true; error = none; world = w }) in
      (ap some (reverse-append bs (b ∷ [])), (refl, ran, ok), refl, refl)

  -- Each method does what the header says, whether the lifetime of the object has ended or not: a new
  -- object is empty, a block that is added is to run before those added earlier, running all
  -- cleanups runs them in that order, reports whether all succeeded and ends the lifetime, as
  -- discarding them does, and deallocation fails an assertion exactly before the end. The blocks
  -- of the convenience methods do what they are for.
  pub cleanup_documented :
      (r : ResourceCleanup World Error) (b : Cleanup World Error) (w : World) (f : World → World)
      (close : ℕ → World → Bool × ℕ × World) (posix_error : ℕ → Error) (fd : ℕ) {FilePath : Type 0}
      (remove : FilePath → World → Ran World Error) (path : FilePath)
      → InitDocumented init
        × Complies b w r
        × NonFallibleDocumented f (non_fallible_block f)
        × ClosingDocumented close fd (closing_block close posix_error fd)
        × DeletingDocumented remove path (deleting_block remove path)
  unfolding init non_fallible_block deleting_block
  cleanup_documented r b w f close posix_error fd remove path = (
    refl,
    calls_documented b w r.cleanup_blocks r.active,
    λ v. (refl, refl),
    closing_block-ClosingDocumented close posix_error fd,
    λ v. (refl, refl),
  )
