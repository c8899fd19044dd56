-- ===== src/ConcurrentBox/Contract.antt =====
-- What the comments of BromiumCoreUtils/BRUConcurrentBox.h promise of a box: a synchronising
-- variable that is empty or full, whose methods take effect one after another.
use bromium_core_utils.Prelude.{◌≡◌, ◌⊎◌, true, false, Option, none, some, List, [], ◌∷◌, is_none}
use bromium_core_utils.ConcurrentBox.{
  Call, put, try_put, take, try_take, try_take_until, swap_with_value, try_swap_with_value,
  is_empty, Answer, unit, flag, value,
}

module _ {A : Type 0} where
  -- A call that does not block any more: the content before and after it, and what it returns.
  abbrev pub Documented : Call A → (before after : Option A) → Answer A → Type 0
  Documented (put x) before after a = (before ≡ none) × (after ≡ some x) × (a ≡ unit)
  Documented (try_put x) before after a =
      ((before ≡ none) × (after ≡ some x) × (a ≡ flag true))
      ⊎ ((y : A) × (before ≡ some y) × (after ≡ some y) × (a ≡ flag false))
  Documented take before after a =
      (y : A) × (before ≡ some y) × (after ≡ none) × (a ≡ value (some y))
  Documented try_take before after a = (after ≡ none) × (a ≡ value before)
  -- The value if the box used to be full, or nil if the timeout hit.
  Documented try_take_until before after a =
      ((y : A) × (before ≡ some y) × (after ≡ none) × (a ≡ value (some y)))
      ⊎ ((after ≡ before) × (a ≡ value none))
  Documented (swap_with_value x) before after a =
      (y : A) × (before ≡ some y) × (after ≡ some x) × (a ≡ value (some y))
  Documented (try_swap_with_value x) before after a = (after ≡ some x) × (a ≡ value before)
  Documented is_empty before after a = (after ≡ before) × (a ≡ flag (is_none before))

  -- Calls one after another, newest first, from one content to another.
  abbrev pub Replays : Option A → List (Call A × Answer A) → Option A → Type 0
  Replays initial [] content = content ≡ initial
  Replays initial ((c, a) ∷ log) content =
      (before : Option A) × Documented c before content a × Replays initial log before

  -- A call and its answer are in a history.
  abbrev pub Logged : Call A → Answer A → List (Call A × Answer A) → Type 0
  Logged c a [] = ⊥
  Logged c a ((d, b) ∷ log) = ((d ≡ c) × (b ≡ a)) ⊎ Logged c a log
