-- ===== src/Prelude/Outcome.antt =====
-- What a call that may fail an assertion gives. `BRUAssert`, `BRUParameterAssert` and
-- `BRUAssertAlwaysFatal` end the process when their condition is false (BromiumCoreUtils/BRUAsserts.h).
use mathlib.Core.Path.{◌≡◌, sym, subst}
use mathlib.Core.Bool.{Bool, true, false}
use bromium_core_utils.Prelude.Tests.{if◌then◌else◌}

pub data Outcome {ℓ} (A : Type ℓ) : Type ℓ where
  done : A → Outcome A
  fatal : Outcome A

infixl 5 ◌>>=◌ ◌>>◌
abbrev pub ◌>>=◌ {ℓ κ} : {A : Type ℓ} {B : Type κ} → Outcome A → (A → Outcome B) → Outcome B
done a >>= f = f a
fatal >>= f = fatal

abbrev pub ◌>>◌ {ℓ} : {B : Type ℓ} → Outcome (Unit {0}) → Outcome B → Outcome B
m >> k = m >>= λ _. k

-- The assertion macros.
abbrev pub bru_assert : Bool → Outcome (Unit {0})
bru_assert true = done tt
bru_assert false = fatal

-- The call returns, and its result satisfies `P`.
abbrev pub Returns {ℓ} : {A : Type ℓ} → (A → Type 0) → Outcome A → Type 0
Returns P (done a) = P a
Returns P fatal = ⊥

pub Returns-done {ℓ} :
    {A : Type ℓ} (P : A → Type 0) {o : Outcome A} {a : A} → o ≡ done a → Returns P o → P a
Returns-done P e h = subst (Returns P) e h

-- A chain returns what its second part guarantees, given what the first does.
pub Returns->>= {ℓ κ} :
    {A : Type ℓ} {B : Type κ} (P : A → Type 0) (Q : B → Type 0) (m : Outcome A) (f : A → Outcome B)
    → Returns P m
    → ((a : A) → P a → Returns Q (f a))
    → Returns Q (m >>= f)
Returns->>= P Q (done a) f h k = k a h
Returns->>= P Q fatal f h k = absurd h

pub Returns-weaken {ℓ} :
    {A : Type ℓ} (P Q : A → Type 0) (m : Outcome A)
    → Returns P m
    → ((a : A) → P a → Q a)
    → Returns Q m
Returns-weaken P Q (done a) h k = k a h
Returns-weaken P Q fatal h k = absurd h

pub Returns-if_true {ℓ} :
    {A : Type ℓ} (P : A → Type 0) (b : Bool) (x y : Outcome A)
    → b ≡ true
    → Returns P x
    → Returns P (if b then x else y)
Returns-if_true P b x y e h = subst (λ c. Returns P (if c then x else y)) (sym e) h

pub Returns-if_false {ℓ} :
    {A : Type ℓ} (P : A → Type 0) (b : Bool) (x y : Outcome A)
    → b ≡ false
    → Returns P y
    → Returns P (if b then x else y)
Returns-if_false P b x y e h = subst (λ c. Returns P (if c then x else y)) (sym e) h
