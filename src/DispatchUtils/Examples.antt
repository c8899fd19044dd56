-- ===== src/DispatchUtils/Examples.antt =====
-- Queues that are numbers, with the values in a function (BromiumCoreUtils/BRUDispatchUtils.h).
use bromium_core_utils.Prelude.{
  ℕ, suc, ◌+◌, ◌≡◌, ◌≢◌, refl, ◌⊎◌, ◌↔◌, true, ◌&&◌, [], ◌∷◌, ◌==◌, if◌then◌else◌, arith,
}
use bromium_core_utils.Prelude.Outcome.{done, fatal}
use bromium_core_utils.DispatchUtils.{
  Dispatch, first_value, is_on_queue, bru_dispatch_queue_create, assert_on_queue, assert_off_queue,
  dispatch_sync_assert_off_queue,
}
use bromium_core_utils.DispatchUtils.Marks.{
  IsAmong, start, created, asked, history_recognised, assertions_exclusive,
}

record Values : Type 0 where
  next : ℕ
  value_of : ℕ → ℕ → ℕ

abbrev value_at : Values → ℕ → ℕ → ℕ
value_at w q key = w.value_of q key

abbrev put_value : ℕ → ℕ → ℕ → Values → Values
put_value q key v w = record {
  next = w.next;
  value_of = λ p other. if p == q && other == key then v else w.value_of p other;
}

abbrev new_number : Values → ℕ × Values
new_number w = (
  w.next,
  record { next = suc w.next; value_of = λ p key. if p == w.next then 0 else w.value_of p key },
)

put_value_same : (q key v : ℕ) (w : Values) → value_at (put_value q key v w) q key ≡ v
put_value_same q key v w = ground arith

put_value_other :
    (q p key other v : ℕ) (w : Values)
    → (p ≢ q) ⊎ (other ≢ key)
    → value_at (put_value q key v w) p other ≡ value_at w p other
put_value_other q p key other v w h = ground arith

new_number_new : (w : Values) (key : ℕ) → value_at (new_number w).1 (new_number w).0 key ≡ 0
new_number_new w key = ground arith

new_number_old :
    (w : Values) (p key : ℕ)
    → p ≢ (new_number w).0
    → value_at (new_number w).1 p key ≡ value_at w p key
new_number_old w p key h = ground arith

abbrev numbered : Dispatch
numbered = record {
  Queue = ℕ;
  World = Values;
  bits = λ q. q + 100;
  queue_create = new_number;
  queue_get_specific = value_at;
  queue_set_specific = put_value;
  strdup = λ w. (500, w);
  get_specific = λ w qs key. first_value (λ q. value_at w q key) qs;
  bits_nonzero = λ q e. absurd (omega arith);
  bits_not_small = λ q e. absurd (omega arith);
  bits_injective = λ p q e. omega arith;
  get_set_same = put_value_same;
  get_set_other = put_value_other;
  get-new = new_number_new;
  get-old = new_number_old;
  get-strdup = λ w p key. refl;
  get_specific_first = λ w qs key. refl;
}

abbrev nothing : Values
nothing = record { next = 7; value_of = λ q key. 0 }

-- Queue 7 is created, and someone asks for a queue 3 that was not created with the function.
abbrev first_world : Values
first_world = (bru_dispatch_queue_create numbered nothing).1

abbrev second_world : Values
second_world = (is_on_queue numbered 3 (7 ∷ []) first_world).1

history_recognised_example :
    ((is_on_queue numbered 7 (9 ∷ (7 ∷ [])) second_world).0 ≡ true)
    ↔ IsAmong numbered 7 (9 ∷ (7 ∷ []))
history_recognised_example =
    history_recognised numbered {w = nothing} {v = second_world} 7 (9 ∷ (7 ∷ [])) (λ p key. refl)
      (asked 3 (7 ∷ []) (created start))

assertions_exclusive_example :
    (IsAmong numbered 7 (7 ∷ [])
      × (assert_on_queue numbered 7 (7 ∷ []) nothing
          ≡ done (is_on_queue numbered 7 (7 ∷ []) nothing).1)
      × (assert_off_queue numbered 7 (7 ∷ []) nothing ≡ fatal)
      × (dispatch_sync_assert_off_queue numbered 7 (7 ∷ []) done nothing ≡ fatal))
    ⊎ ((¬ IsAmong numbered 7 (7 ∷ []))
        × (assert_on_queue numbered 7 (7 ∷ []) nothing ≡ fatal)
        × (assert_off_queue numbered 7 (7 ∷ []) nothing
            ≡ done (is_on_queue numbered 7 (7 ∷ []) nothing).1)
        × (dispatch_sync_assert_off_queue numbered 7 (7 ∷ []) done nothing
            ≡ done (is_on_queue numbered 7 (7 ∷ []) nothing).1))
assertions_exclusive_example =
    assertions_exclusive numbered 7 (7 ∷ []) done nothing (λ p q ne. refl)
