-- ===== src/ResourceCleanup/Acquisition.antt =====
-- The acquisition of several resources, any of which can fail, with a BRUResourceCleanup
-- (the documentation of the class in BromiumCoreUtils/BRUResourceCleanup.h).
use bromium_core_utils.Prelude.{
  ◌≡◌, refl, ap, ◌∙◌, ◌⊎◌, inl, inr, Bool, true, false, Option, none, some, List, [], ◌∷◌, ◌++◌,
  All,
}
use bromium_core_utils.Prelude.Outcome.{Outcome, done, ◌>>=◌, Returns}
use bromium_core_utils.ResourceCleanup.{
  Cleanup, ResourceCleanup, init, add, run_all, discard_all, dealloc,
}
use bromium_core_utils.ResourceCleanup.Unwinding.{unwound, run_blocks-reverse}

-- A step of the acquisition: it fails, or leaves a world and the block that cleans it up.
abbrev pub Acquire : Type 0 → Type 0 → Type 0
Acquire World Error = World → Option (World × Cleanup World Error)

-- The object that is used, the world, and whether all steps succeeded.
pub record Acquired (World Error : Type 0) : Type 0 where
  pub cleanup : ResourceCleanup World Error
  pub world : World
  pub complete : Bool

module _ {World Error : Type 0} where
  -- After a step: its block is added, or, as it failed, all cleanups run.
  unfoldable pub after_step :
      Option (World × Cleanup World Error)
      → (next : ResourceCleanup World Error → World → Outcome (Acquired World Error))
      → ResourceCleanup World Error
      → World
      → Outcome (Acquired World Error)
  unfolding add run_all
  after_step none next r w = do
    (q, p) ← run_all w r
    done (record { cleanup = q; world = p.world; complete = false })
  after_step (some (v, block)) next r w = do q ← add block r; next q v

  -- Steps in order. When all have succeeded the blocks are discarded.
  unfoldable pub acquire_all :
      List (Acquire World Error)
      → ResourceCleanup World Error
      → World
      → Outcome (Acquired World Error)
  unfolding after_step discard_all
  acquire_all [] r w = done (record { cleanup = discard_all r; world = w; complete = true })
  acquire_all (s ∷ ss) r w = after_step (s w) (acquire_all ss) r w

  abbrev remaining_steps :
      Option (World × Cleanup World Error) → (World → Option World) → Option World
  remaining_steps none next = none
  remaining_steps (some (v, block)) next = next v

  -- The world behind all steps, unless one fails.
  abbrev pub all_steps : List (Acquire World Error) → World → Option World
  all_steps [] w = some w
  all_steps (s ∷ ss) w = remaining_steps (s w) (all_steps ss)

  -- Where a step succeeds, its block leads back to the world before it.
  abbrev pub LeadsBack : World → Option (World × Cleanup World Error) → Type 0
  LeadsBack w none = Unit
  LeadsBack w (some (v, block)) = (block v).world ≡ w

  abbrev pub IsUndone : Acquire World Error → Type 0
  IsUndone s = (w : World) → LeadsBack w (s w)

  -- The object is finished, and either everything was acquired or the world is as before.
  abbrev pub AllOrNothing :
      (expected : Option World) (before : World) → Acquired World Error → Type 0
  AllOrNothing expected before a =
      (dealloc a.cleanup ≡ done tt)
      × (((a.complete ≡ true) × (expected ≡ some a.world))
          ⊎ ((a.complete ≡ false) × (expected ≡ none) × (a.world ≡ before)))

  unwound-append :
      (bs : List (Cleanup World Error)) (b : Cleanup World Error) (w : World)
      → unwound (bs ++ (b ∷ [])) w ≡ unwound bs (b w).world
  unfolding unwound
  unwound-append [] b w = refl
  unwound-append (c ∷ bs) b w = ap (λ v. (c v).world) (unwound-append bs b w)

  after_step-AllOrNothing :
      (o : Option (World × Cleanup World Error)) (ss : List (Acquire World Error))
      (bs : List (Cleanup World Error)) (w before : World)
      → LeadsBack w o
      → unwound bs w ≡ before
      → ((cs : List (Cleanup World Error)) (v : World)
          → unwound cs v ≡ before
          → Returns
              (AllOrNothing (all_steps ss v) before)
              (acquire_all ss (record { cleanup_blocks = cs; active = true }) v))
      → Returns
          (AllOrNothing (remaining_steps o (all_steps ss)) before)
          (after_step o (acquire_all ss) (record { cleanup_blocks = bs; active = true }) w)
  unfolding after_step add run_all dealloc
  after_step-AllOrNothing none ss bs w before u e ih =
      rw (run_blocks-reverse bs w) (refl, inr (refl, refl, e))
  after_step-AllOrNothing (some (v, block)) ss bs w before u e ih =
      ih (bs ++ (block ∷ [])) v (unwound-append bs block v ∙ ap (unwound bs) u ∙ e)

  acquire_all-AllOrNothing :
      (ss : List (Acquire World Error)) (bs : List (Cleanup World Error)) (w before : World)
      → All IsUndone ss
      → unwound bs w ≡ before
      → Returns
          (AllOrNothing (all_steps ss w) before)
          (acquire_all ss (record { cleanup_blocks = bs; active = true }) w)
  unfolding acquire_all discard_all dealloc
  acquire_all-AllOrNothing [] bs w before u e = (refl, inl (refl, refl))
  acquire_all-AllOrNothing (s ∷ ss) bs w before (u, us) e =
      after_step-AllOrNothing (s w) ss bs w before (u w) e
        (λ cs v e'. acquire_all-AllOrNothing ss cs v before us e')

  -- Steps that can fail, each with a block that leads back to the world before it, are taken with
  -- a new object as the documentation says: the object can then be deallocated, and either all
  -- steps succeeded and their world is left as it is, or one failed and the world is the one from
  -- before the first step.
  pub acquisition-AllOrNothing :
      (ss : List (Acquire World Error)) (w : World)
      → All IsUndone ss
      → Returns (AllOrNothing (all_steps ss w) w) (acquire_all ss init w)
  unfolding init unwound
  acquisition-AllOrNothing ss w u = acquire_all-AllOrNothing ss [] w w u refl
