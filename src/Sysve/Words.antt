-- ===== src/Sysve/Words.antt =====
-- The conversions between C integers and the 64-bit words of a system call.
use libsysve.Prelude.{ℕ, ◌-◌, ◌^◌, ◌%◌, ◌≡◌, ltb, if◌then◌else◌, arith}
use libsysve.Prelude.Int.{ℤ, pos, negsuc, ◌≤ℤ◌}

-- `(uint64_t)` of an `int` or a `long long`: the sign is extended.
unfoldable pub word_of : ℤ → ℕ
word_of (pos n) = n
word_of (negsuc n) = 2 ^ 64 - 1 - n

-- `int ret = ..`: the low 32 bits.
unfoldable pub int_of : ℕ → ℤ
int_of w = let low = w % 2 ^ 32 in if ltb low (2 ^ 31) then pos low else negsuc (2 ^ 32 - 1 - low)

unfoldable pub long_of : ℕ → ℤ
long_of w = if ltb w (2 ^ 63) then pos w else negsuc (2 ^ 64 - 1 - w)

abbrev pub FitsInt : ℤ → Type 0
FitsInt z = (negsuc (2 ^ 31 - 1) ≤ℤ z) × (z ≤ℤ pos (2 ^ 31 - 1))

abbrev pub FitsLong : ℤ → Type 0
FitsLong z = (negsuc (2 ^ 63 - 1) ≤ℤ z) × (z ≤ℤ pos (2 ^ 63 - 1))

pub int_of-word_of : (z : ℤ) → FitsInt z → int_of (word_of z) ≡ z
unfolding int_of word_of
int_of-word_of (pos n) (low, high) = ground arith
int_of-word_of (negsuc n) (low, high) = ground arith

pub long_of-word_of : (z : ℤ) → FitsLong z → long_of (word_of z) ≡ z
unfolding long_of word_of
long_of-word_of (pos n) (low, high) = ground arith
long_of-word_of (negsuc n) (low, high) = ground arith

pub FitsInt-FitsLong : (z : ℤ) → FitsInt z → FitsLong z
FitsInt-FitsLong z (low, high) = (omega arith, omega arith)
