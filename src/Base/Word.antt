-- ===== src/Base/Word.antt =====
-- Machine words as native numbers: the widths of the emulator's types, shifts, and the two
-- readings of a bit pattern (uint32, int32 and int64 of src/common.hpp).
use Prim.Native.Nat.{ℕ, ◌+◌, ◌-◌, ◌*◌, ◌/◌, ◌%◌, ◌^◌}
use vemips.Base.Tests.{ltb, if◌then◌else◌}
use vemips.Base.Int.{ℤ, pos, negsuc, pos_part, neg_part}

abbrev pub u8 : ℕ → ℕ
u8 n = n % 2 ^ 8

abbrev pub u32 : ℕ → ℕ
u32 n = n % 2 ^ 32

abbrev pub u64 : ℕ → ℕ
u64 n = n % 2 ^ 64

infixl 75 ◌<<<◌ ◌>>>◌
abbrev pub ◌<<<◌ : ℕ → ℕ → ℕ
x <<< k = x * 2 ^ k

abbrev pub ◌>>>◌ : ℕ → ℕ → ℕ
x >>> k = x / 2 ^ k

-- uint32 a + b and a - b.
abbrev pub add32 : ℕ → ℕ → ℕ
add32 a b = (a + b) % 2 ^ 32

abbrev pub sub32 : ℕ → ℕ → ℕ
sub32 a b = (a + 2 ^ 32 - b) % 2 ^ 32

-- ~a, for a below 2 ^ 32.
abbrev pub not32 : ℕ → ℕ
not32 a = 2 ^ 32 - 1 - a

-- The value of an int32 whose bit pattern is `w`.
abbrev pub signed32 : ℕ → ℤ
signed32 w = if ltb w (2 ^ 31) then pos w else negsuc (2 ^ 32 - w - 1)

-- The low 32 bits of an integer, as a bit pattern.
abbrev pub pattern32 : ℤ → ℕ
pattern32 z = (pos_part z + (2 ^ 32 - neg_part z % 2 ^ 32)) % 2 ^ 32
