-- ===== src/DispatchUtils/Marks.antt =====
-- A queue is recognised by the mark that only it holds (BromiumCoreUtils/BRUDispatchUtils.h).
use bromium_core_utils.Prelude.{
  ℕ, ◌≡◌, ◌≢◌, refl, sym, Bool-cases, ap, ◌∙◌, subst, ◌⊎◌, inl, inr, ◌↔◌, Bool, true, not, ◌&&◌,
  List, [], ◌∷◌, ◌==◌, ℕ_discrete, arith,
}
use bromium_core_utils.Prelude.Outcome.{Outcome, done, fatal}
use bromium_core_utils.DispatchUtils.{
  Dispatch, first_value, is_on_queue, bru_dispatch_queue_create, assert_on_queue, assert_off_queue,
  dispatch_sync_assert_off_queue,
}

module _ (D : Dispatch) where
  open D use {
    Queue, World, bits, queue_create, queue_get_specific, queue_set_specific, strdup, get_specific,
    bits_nonzero, bits_not_small, bits_injective, get_set_same, get_set_other, get-new, get-old,
    get-strdup, get_specific_first,
  }

  -- The queue is the one that runs the block, or a queue that this one targets.
  abbrev pub IsAmong : Queue → List Queue → Type 0
  IsAmong q [] = ⊥
  IsAmong q (p ∷ ps) = (bits p ≡ bits q) ⊎ IsAmong q ps

  -- Nothing but the queue itself holds a value under the key that identifies it.
  abbrev pub IsMarked : World → Type 0
  IsMarked w = (p q : Queue) → bits p ≢ bits q → queue_get_specific w p (bits q) ≡ 0

  first_value-IsAmong :
      (w : World) (q : Queue) (me : List Queue)
      → IsMarked w
      → queue_get_specific w q (bits q) ≢ 0
      → (IsAmong q me
          × (first_value (λ p. queue_get_specific w p (bits q)) me
              ≡ queue_get_specific w q (bits q)))
        ⊎ ((¬ IsAmong q me) × (first_value (λ p. queue_get_specific w p (bits q)) me ≡ 0))
  first_value-IsAmong w q [] h n = inr (λ x. x, refl)
  first_value-IsAmong w q (p ∷ ps) h n = elim (ℕ_discrete (bits p) (bits q)) [
    | yes e ↦
        let same : queue_get_specific w p (bits q) ≡ queue_get_specific w q (bits q) =
          ap (λ r. queue_get_specific w r (bits q)) (bits_injective p q e) in
        inl (inl e, ground arith)
    | no ne ↦
        let other = h p q ne in
        elim (first_value-IsAmong w q ps h n) [
          | inl (m, e) ↦ inl (inr m, ground arith)
          | inr (m, e) ↦ inr (ground arith, ground arith)
        ]
  ]

  -- A queue gets a value under its own key.
  set-IsMarked :
      (w : World) (q : Queue) (v : ℕ) → IsMarked w → IsMarked (queue_set_specific q (bits q) v w)
  set-IsMarked w q v h p r ne = elim (ℕ_discrete (bits p) (bits q)) [
    | yes e ↦ get_set_other q p (bits q) (bits r) v w (inr (λ k. ne (e ∙ sym k))) ∙ h p r ne
    | no n ↦ get_set_other q p (bits q) (bits r) v w (inl (λ k. n (ap bits k))) ∙ h p r ne
  ]

  -- A value under the key of the names.
  named-IsMarked :
      (w : World) (q : Queue) (v : ℕ) → IsMarked w → IsMarked (queue_set_specific q 13 v w)
  named-IsMarked w q v h p r ne =
      get_set_other q p 13 (bits r) v w (inr (bits_not_small r)) ∙ h p r ne

  strdup-IsMarked : (w : World) → IsMarked w → IsMarked (strdup w).1
  strdup-IsMarked w h p r ne = get-strdup w p (bits r) ∙ h p r ne

  create-IsMarked : (w : World) → IsMarked w → IsMarked (queue_create w).1
  create-IsMarked w h p r ne = elim (ℕ_discrete (bits p) (bits (queue_create w).0)) [
    | yes e ↦
        ap (λ s. queue_get_specific (queue_create w).1 s (bits r)) (bits_injective p _ e)
        ∙ get-new w (bits r)
    | no n ↦ get-old w p (bits r) (λ k. n (ap bits k)) ∙ h p r ne
  ]

  bru_dispatch_queue_create-IsMarked :
      (w : World) → IsMarked w → IsMarked (bru_dispatch_queue_create D w).1
  unfolding bru_dispatch_queue_create
  bru_dispatch_queue_create-IsMarked w h =
      let (q, created) = queue_create w in
      let (value, copied) = strdup created in
      named-IsMarked _ q _ (
        strdup-IsMarked _
          (set-IsMarked copied q value (strdup-IsMarked created (create-IsMarked w h))))

  -- Whether the queue is among those, decided as the code does, and what is marked afterwards.
  abbrev pub Tells : Queue → List Queue → Bool × World → Type 0
  Tells q me r = ((r.0 ≡ true) ↔ IsAmong q me) × IsMarked r.1

  compared :
      (w : World) (q : Queue) (me : List Queue)
      → IsMarked w
      → let v = queue_get_specific w q (bits q) in
        v ≢ 0 → ((not (v == 0) && v == get_specific w me (bits q)) ≡ true) ↔ IsAmong q me
  compared w q me h n =
      let first = get_specific_first w me (bits q) in
      elim (first_value-IsAmong w q me h n) [
        | inl (m, e) ↦ (λ _. m, λ _. ground arith)
        | inr (m, e) ↦ (λ x. absurd (ground arith), λ x. absurd (m x))
      ]

  -- A queue that has a mark is looked for; one that has none gets it first.
  is_on_queue-marked :
      (w : World) (q : Queue) (me : List Queue)
      → let v = queue_get_specific w q (bits q) in
        v ≢ 0 → is_on_queue D q me w ≡ (not (v == 0) && v == get_specific w me (bits q), w)
  unfolding is_on_queue
  is_on_queue-marked w q me n = ground (arith, bits_nonzero q)

  is_on_queue-unmarked :
      (w : World) (q : Queue) (me : List Queue)
      → queue_get_specific w q (bits q) ≡ 0
      → let marked = queue_set_specific q (bits q) 1 w in
        is_on_queue D q me w ≡ (not (1 == 0) && 1 == get_specific marked me (bits q), marked)
  unfolding is_on_queue
  is_on_queue-unmarked w q me e = ground (arith, bits_nonzero q)

  pub is_on_queue-Tells :
      (w : World) (q : Queue) (me : List Queue) → IsMarked w → Tells q me (is_on_queue D q me w)
  is_on_queue-Tells w q me h = elim (ℕ_discrete (queue_get_specific w q (bits q)) 0) [
    | yes e ↦
        let marked = queue_set_specific q (bits q) 1 w in
        let same = get_set_same q (bits q) 1 w in
        let k = set-IsMarked w q 1 h in
        let c = compared marked q me k (λ z. absurd (ground arith)) in
        subst (Tells q me) (sym (is_on_queue-unmarked w q me e)) (
          subst (λ v. (not (v == 0) && v == get_specific marked me (bits q)) ≡ true ↔ IsAmong q me)
              same c,
          k,
        )
    | no n ↦ subst (Tells q me) (sym (is_on_queue-marked w q me n)) (compared w q me h n, h)
  ]

  -- What the code of a process does with queues, from one state to another.
  pub data History (w : World) : World → Type 0 where
    start : History w w
    created : {v : World} → History w v → History w (bru_dispatch_queue_create D v).1
    asked :
        {v : World} (q : Queue) (me : List Queue) → History w v → History w (is_on_queue D q me v).1

  history-IsMarked : {w v : World} → IsMarked w → History w v → IsMarked v
  history-IsMarked h start = h
  history-IsMarked h (created {v} r) = bru_dispatch_queue_create-IsMarked v (history-IsMarked h r)
  history-IsMarked h (asked {v} q me r) = (is_on_queue-Tells v q me (history-IsMarked h r)).1

  -- In a process in which no queue held a value at first, after any creations and questions in any
  -- order: the answer for a queue, created with bru_dispatch_queue_create or not, is YES exactly
  -- when the block runs on that queue or on one that targets it, directly or not.
  pub history_recognised :
      {w v : World} (q : Queue) (me : List Queue)
      → ((p : Queue) (key : ℕ) → queue_get_specific w p key ≡ 0)
      → History w v
      → ((is_on_queue D q me v).0 ≡ true) ↔ IsAmong q me
  history_recognised {v} q me h r =
      (is_on_queue-Tells v q me (history-IsMarked (λ p r ne. h p (bits r)) r)).0

  -- The assertions for a queue, and the call of dispatch_sync that they guard: the one that the
  -- block runs on the queue passes and the other two fail, so that no block waits for its own
  -- queue; or the other way round, and the block is handed to dispatch_sync.
  pub assertions_exclusive :
      {A : Type 0} (q : Queue) (me : List Queue) (sync : World → Outcome A) (w : World)
      → IsMarked w
      → let marked = (is_on_queue D q me w).1 in
        (IsAmong q me
          × (assert_on_queue D q me w ≡ done marked)
          × (assert_off_queue D q me w ≡ fatal)
          × (dispatch_sync_assert_off_queue D q me sync w ≡ fatal))
        ⊎ ((¬ IsAmong q me)
            × (assert_on_queue D q me w ≡ fatal)
            × (assert_off_queue D q me w ≡ done marked)
            × (dispatch_sync_assert_off_queue D q me sync w ≡ sync marked))
  unfolding assert_on_queue assert_off_queue dispatch_sync_assert_off_queue
  assertions_exclusive q me sync w h =
      let (to, from) = (is_on_queue-Tells w q me h).0 in
      elim (Bool-cases (is_on_queue D q me w).0) [
        | inl e ↦ inl (to e, ground arith, ground arith, ground arith)
        | inr e ↦ inr ((λ i. absurd (ground arith)), ground arith, ground arith, ground arith)
      ]
