-- ===== src/DispatchUtils.antt =====
-- BromiumCoreUtils/BRUDispatchUtils.h: queues that are marked so that code can find out whether it
-- runs on one of them. `Dispatch` is libdispatch and strdup(3), as they are documented: each queue
-- holds a value (0 is NULL) for each key, and a block sees the values of the queue that it runs on,
-- then those of the queues that this one targets. No queue is released.
pub mod Marks
mod Examples
use bromium_core_utils.Prelude.{
  ℕ, ◌≡◌, ◌≢◌, ◌⊎◌, Bool, true, false, not, ◌&&◌, List, [], ◌∷◌, ◌==◌, if◌then◌else◌,
}
use bromium_core_utils.Prelude.Outcome.{Outcome, done, ◌>>=◌, ◌>>◌, bru_assert}

-- The first value that is not NULL, of the queues from a queue on to the last that it targets.
abbrev pub first_value : {Queue : Type 0} → (Queue → ℕ) → List Queue → ℕ
first_value value_of [] = 0
first_value value_of (q ∷ qs) = if value_of q == 0 then first_value value_of qs else value_of q

pub record Dispatch : Type 1 where
  pub Queue : Type 0
  pub World : Type 0
  -- The bits of a variable of the type dispatch_queue_t.
  pub bits : Queue → ℕ
  pub queue_create : World → Queue × World
  pub queue_get_specific : World → Queue → (key : ℕ) → ℕ
  pub queue_set_specific : Queue → (key context : ℕ) → World → World
  pub strdup : World → ℕ × World
  -- dispatch_get_specific, in a block on the first of these queues, each of which targets the next.
  pub get_specific : World → List Queue → (key : ℕ) → ℕ
  pub bits_nonzero : (q : Queue) → bits q ≢ 0
  pub bits_not_small : (q : Queue) → bits q ≢ 13
  pub bits_injective : (p q : Queue) → bits p ≡ bits q → p ≡ q
  pub get_set_same :
      (q : Queue) (key v : ℕ) (w : World)
      → queue_get_specific (queue_set_specific q key v w) q key ≡ v
  pub get_set_other :
      (q p : Queue) (key other v : ℕ) (w : World)
      → (p ≢ q) ⊎ (other ≢ key)
      → queue_get_specific (queue_set_specific q key v w) p other ≡ queue_get_specific w p other
  pub get-new :
      (w : World) (key : ℕ) → let (q, v) = queue_create w in queue_get_specific v q key ≡ 0
  pub get-old :
      (w : World) (p : Queue) (key : ℕ)
      → let (q, v) = queue_create w in
        p ≢ q → queue_get_specific v p key ≡ queue_get_specific w p key
  pub get-strdup :
      (w : World) (p : Queue) (key : ℕ)
      → queue_get_specific (strdup w).1 p key ≡ queue_get_specific w p key
  pub get_specific_first :
      (w : World) (qs : List Queue) (key : ℕ)
      → get_specific w qs key ≡ first_value (λ q. queue_get_specific w q key) qs

module _ (D : Dispatch) where
  open D use {
    Queue, World, bits, queue_create, queue_get_specific, queue_set_specific, strdup, get_specific,
  }

  -- `_bru_unretained_identifying_pointer_for_queue`: the assertion on the sizes holds on every
  -- platform that the code is built for, and memcpy copies the bits.
  unfoldable pub unretained_identifying_pointer_for_queue : Queue → ℕ
  unretained_identifying_pointer_for_queue q = bits q

  -- `_bru_is_on_queue`, in a block on the first of the queues `me`.
  unfoldable pub is_on_queue : Queue → (me : List Queue) → World → Bool × World
  unfolding unretained_identifying_pointer_for_queue
  is_on_queue q me w =
      let key_q_id = unretained_identifying_pointer_for_queue q in
      let found = queue_get_specific w q key_q_id in
      let ctx_q = if found == 0 then 1 else found in
      let marked = if found == 0 then queue_set_specific q key_q_id ctx_q w else w in
      let ctx_me = get_specific marked me key_q_id in
      if key_q_id == 0 then (false, w) else (not (ctx_q == 0) && ctx_q == ctx_me, marked)

  unfoldable pub bru_dispatch_queue_create : World → Queue × World
  unfolding unretained_identifying_pointer_for_queue
  bru_dispatch_queue_create w =
      let (q, created) = queue_create w in
      let queue_id_key = unretained_identifying_pointer_for_queue q in
      let (queue_id_value, copied) = strdup created in
      let identified = queue_set_specific q queue_id_key queue_id_value copied in
      let (queue_name_stored_as_specific, copied_name) = strdup identified in
      (q, queue_set_specific q 13 queue_name_stored_as_specific copied_name)

  -- `BRU_ASSERT_ON_QUEUE`, for a queue that is not nil, and `BRU_ASSERT_OFF_QUEUE`.
  unfoldable pub assert_on_queue : Queue → (me : List Queue) → World → Outcome World
  unfolding is_on_queue
  assert_on_queue q me w = let (on, marked) = is_on_queue q me w in do bru_assert on; done marked

  unfoldable pub assert_off_queue : Queue → (me : List Queue) → World → Outcome World
  unfolding is_on_queue
  assert_off_queue q me w =
      let (on, marked) = is_on_queue q me w in do bru_assert (not on); done marked

  -- `BRU_DISPATCH_SYNC_ASSERT_OFF_QUEUE`; `sync` is the call of dispatch_sync with the block.
  unfoldable pub dispatch_sync_assert_off_queue :
      {A : Type 0} → Queue → (me : List Queue) → (sync : World → Outcome A) → World → Outcome A
  unfolding assert_off_queue
  dispatch_sync_assert_off_queue q me sync w = do v ← assert_off_queue q me w; sync v
