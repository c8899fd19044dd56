-- ===== src/Arithmetic/Contract.antt =====
-- What the comments of BromiumCoreUtils/BRUArithmetic.h promise of the integer functions, one
-- predicate for each function: its arguments, and the result with the out-parameter's content.
use bromium_core_utils.Prelude.{ℕ, ◌+◌, ◌-◌, ◌*◌, ◌^◌, ◌<◌, ◌≤◌, ◌≡◌, ◌⊎◌, Bool, true, false}
use bromium_core_utils.Prelude.Int.{ℤ, pos, negsuc, ◌+ℤ◌, ◌*ℤ◌}
use bromium_core_utils.Arithmetic.Builtins.{size_mod, uint_mod, IsPtrdiff}

-- The return value says whether the operation could be completed safely: it is true, with the exact
-- value stored, on the safe inputs, and false on the others.
abbrev pub Completes : {A : Type 0} → (safe : Type 0) → (exact : A) → Bool × A → Type 0
Completes safe exact r = (safe × (r ≡ (true, exact))) ⊎ (¬ safe × (r.0 ≡ false))

abbrev pub int32_limit : ℕ
int32_limit = 2 ^ 31

-- Bounded by 0 and INT32_MAX.
abbrev pub SizeToInt32 : ℕ → Bool × ℤ → Type 0
SizeToInt32 a = Completes (a < int32_limit) (pos a)

abbrev pub SizeToGlsizei : ℕ → Bool × ℤ → Type 0
SizeToGlsizei a = Completes (a < int32_limit) (pos a)

-- The value of an integer that is not negative.
abbrev pub IsUnsigned : ℤ → ℕ → Type 0
IsUnsigned (pos n) limit = n < limit
IsUnsigned (negsuc n) limit = ⊥

abbrev pub magnitude : ℤ → ℕ
magnitude (pos n) = n
magnitude (negsuc n) = 0

abbrev pub GlsizeiToSize : ℤ → Bool × ℕ → Type 0
GlsizeiToSize a = Completes (IsUnsigned a int32_limit) (magnitude a)

abbrev pub PtrdiffToSize : ℤ → Bool × ℕ → Type 0
PtrdiffToSize a = Completes (IsUnsigned a int32_limit) (magnitude a)

-- Bounded by PTRDIFF_MAX.
abbrev pub SizeToPtrdiff : ℕ → Bool × ℤ → Type 0
SizeToPtrdiff a = Completes (a < 2 ^ 63) (pos a)

-- The sum of an address and an offset, as an address.
abbrev pub OffsetPointer : ℕ → ℤ → Bool × ℕ → Type 0
OffsetPointer base offset =
    Completes (IsUnsigned (pos base +ℤ offset) size_mod) (magnitude (pos base +ℤ offset))

-- Completed without overflowing.
abbrev pub PtrdiffAdd2 : ℤ → ℤ → Bool × ℤ → Type 0
PtrdiffAdd2 a b = Completes (IsPtrdiff (a +ℤ b)) (a +ℤ b)

abbrev pub UnsignedLongAdd2 : ℕ → ℕ → Bool × ℕ → Type 0
UnsignedLongAdd2 a b = Completes (a + b < size_mod) (a + b)

abbrev pub SizeAdd2 : ℕ → ℕ → Bool × ℕ → Type 0
SizeAdd2 a b = Completes (a + b < size_mod) (a + b)

abbrev pub SizeSubtract2 : ℕ → ℕ → Bool × ℕ → Type 0
SizeSubtract2 a b = Completes (b ≤ a) (a - b)

abbrev pub SizeSubtract3 : ℕ → ℕ → ℕ → Bool × ℕ → Type 0
SizeSubtract3 a b c = Completes (b + c ≤ a) (a - b - c)

abbrev pub PtrdiffMultiply2 : ℤ → ℤ → Bool × ℤ → Type 0
PtrdiffMultiply2 a b = Completes (IsPtrdiff (a *ℤ b)) (a *ℤ b)

abbrev pub PtrdiffMultiply3 : ℤ → ℤ → ℤ → Bool × ℤ → Type 0
PtrdiffMultiply3 a b c = Completes (IsPtrdiff (a *ℤ b *ℤ c)) (a *ℤ b *ℤ c)

abbrev pub UintMultiply2 : ℕ → ℕ → Bool × ℕ → Type 0
UintMultiply2 a b = Completes (a * b < uint_mod) (a * b)

abbrev pub UintMultiply3 : ℕ → ℕ → ℕ → Bool × ℕ → Type 0
UintMultiply3 a b c = Completes (a * b * c < uint_mod) (a * b * c)

abbrev pub SizeMultiply2 : ℕ → ℕ → Bool × ℕ → Type 0
SizeMultiply2 a b = Completes (a * b < size_mod) (a * b)

abbrev pub SizeMultiply3 : ℕ → ℕ → ℕ → Bool × ℕ → Type 0
SizeMultiply3 a b c = Completes (a * b * c < size_mod) (a * b * c)
