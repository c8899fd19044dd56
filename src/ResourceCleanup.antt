-- ===== src/ResourceCleanup.antt =====
-- BromiumCoreUtils/BRUResourceCleanup.m: cleanup blocks that run when acquiring resources fails
-- midway. A block acts on the world outside, reports success or failure, and may write an error;
-- `close` and `remove` stand for close(2) with its errno and for `removeItemAtPath:error:`.
pub mod Unwinding
pub mod Acquisition
pub mod Contract
mod Examples
use bromium_core_utils.Prelude.{
  ℕ, Bool, true, false, not, ◌&&◌, Option, none, some, List, [], ◌∷◌, ◌++◌, reverse, if◌then◌else◌,
}
use bromium_core_utils.Prelude.Outcome.{Outcome, done, ◌>>=◌, ◌>>◌, bru_assert}

-- What a block leaves: its result, the error that it wrote, if any, and the world.
pub record Ran (World Error : Type 0) : Type 0 where
  pub ok : Bool
  pub wrote : Option Error
  pub world : World

abbrev pub Cleanup : Type 0 → Type 0 → Type 0
Cleanup World Error = World → Ran World Error

pub record ResourceCleanup (World Error : Type 0) : Type 0 where
  pub cleanup_blocks : List (Cleanup World Error)
  pub active : Bool

-- The variables `success` and `error` of the loop, and the world.
pub record Progress (World Error : Type 0) : Type 0 where
  pub success : Bool
  pub error : Option Error
  pub world : World

-- A block leaves `error` alone, or assigns it.
abbrev pub written : {Error : Type 0} → Option Error → Option Error → Option Error
written none old = old
written (some e) old = some e

module _ {World Error : Type 0} where
  unfoldable pub init : ResourceCleanup World Error
  init = record { cleanup_blocks = []; active = true }

  unfoldable pub add :
      Cleanup World Error → ResourceCleanup World Error → Outcome (ResourceCleanup World Error)
  add block r = do
    bru_assert r.active
    done (record r { cleanup_blocks = r.cleanup_blocks ++ (block ∷ []) })

  unfoldable pub non_fallible_block : (World → World) → Cleanup World Error
  non_fallible_block f w = record { ok = true; wrote = none; world = f w }

  -- The block of `addCleanupBlockForClosingFileDescriptor:`. `close` returns what close(2)
  -- returns, the errno and the world.
  unfoldable pub closing_block :
      (close : ℕ → World → Bool × ℕ × World) (posix_error : ℕ → Error) (fd : ℕ)
      → Cleanup World Error
  closing_block close posix_error fd w =
      let (failed, errno, w') = close fd w in
      if failed
      then record { ok = false; wrote = some (posix_error errno); world = w' }
      else record { ok = true; wrote = none; world = w' }

  -- The block of `addCleanupBlockForDeletingFileSystemItemAtPath:`.
  unfoldable pub deleting_block :
      {FilePath : Type 0} (remove : FilePath → World → Ran World Error) (path : FilePath)
      → Cleanup World Error
  deleting_block remove path w = remove path w

  -- One round of the loop: the block runs whatever `success` is.
  unfoldable pub run_block : Cleanup World Error → Progress World Error → Progress World Error
  run_block block p =
      let r = block p.world in
      record { success = r.ok && p.success; error = written r.wrote p.error; world = r.world }

  unfoldable pub run_blocks :
      List (Cleanup World Error) → Progress World Error → Progress World Error
  unfolding run_block
  run_blocks [] p = p
  run_blocks (block ∷ rest) p = run_blocks rest (run_block block p)

  -- `runAllCleanupsWithError:`.
  unfoldable pub run_all :
      World
      → ResourceCleanup World Error
      → Outcome (ResourceCleanup World Error × Progress World Error)
  unfolding run_blocks
  run_all w r = do
    bru_assert r.active
    done (
      record { cleanup_blocks = []; active = false },
      run_blocks (reverse r.cleanup_blocks) (record { success = true; error = none; world = w }),
    )

  unfoldable pub discard_all : ResourceCleanup World Error → ResourceCleanup World Error
  discard_all r = record { cleanup_blocks = []; active = false }

  unfoldable pub dealloc : ResourceCleanup World Error → Outcome (Unit {0})
  dealloc r = bru_assert (not r.active)
