-- ===== src/Deferred/System.antt =====
-- A BRUDeferred with the queue that its blocks go to: `resolve:`, `then:` and the blocks on
-- `completionQueue`, in any order (BromiumCoreUtils/BRUDeferred.m).
use bromium_core_utils.Prelude.{
  ℕ, suc, ◌+◌, ◌<◌, ◌≡◌, Option, List, [], ◌∷◌, ◌++◌, ◌==◌, if◌then◌else◌, arith,
}
use bromium_core_utils.Prelude.Outcome.{done}
use bromium_core_utils.Deferred.{Deferred, init, resolve, then_do, complete}

pub record System (A : Type 0) : Type 0 where
  pub deferred : Deferred A
  -- On `completionQueue`, not yet run.
  pub completions : List ℕ
  -- What blocks were called with.
  pub called : List (ℕ × Option A)
  -- The blocks of all calls of `then:`, in order.
  pub registered : List ℕ
  -- The blocks in the order in which they came to `completionQueue`.
  pub dispatched : List ℕ

abbrev pub count : ℕ → List ℕ → ℕ
count b [] = 0
count b (c ∷ cs) = if c == b then suc (count b cs) else count b cs

pub count-append : (b : ℕ) (xs ys : List ℕ) → count b (xs ++ ys) ≡ count b xs + count b ys
count-append b [] ys = omega arith
count-append b (x ∷ xs) ys = ground (arith, count-append b xs ys)

pub count_self : (b : ℕ) (xs : List ℕ) → 0 < count b (b ∷ xs)
count_self b xs = ground arith

module _ {A : Type 0} where
  abbrev pub calls : ℕ → List (ℕ × Option A) → ℕ
  calls b [] = 0
  calls b ((c, v) ∷ cs) = if c == b then suc (calls b cs) else calls b cs

  abbrev pub sent : Deferred A × List ℕ → System A → System A
  sent (d, blocks) s = record s {
    deferred = d;
    completions = s.completions ++ blocks;
    dispatched = s.dispatched ++ blocks;
  }

  pub data Step (s : System A) : System A → Type 0 where
    resolves :
        (v : Option A) (r : Deferred A × List ℕ) → resolve v s.deferred ≡ done r → Step s (sent r s)
    thens :
        (b : ℕ)
        → Step s (sent (then_do b s.deferred) (record s { registered = s.registered ++ (b ∷ []) }))
    completes :
        (xs ys : List ℕ) (b : ℕ)
        → s.completions ≡ xs ++ (b ∷ ys)
        → Step s (record s { completions = xs ++ ys; called = complete b s.deferred ∷ s.called })

  pub data Reach : System A → Type 0 where
    start : Reach (record {
      deferred = init;
      completions = [];
      called = [];
      registered = [];
      dispatched = [];
    })
    later : {s t : System A} → Reach s → Step s t → Reach t
