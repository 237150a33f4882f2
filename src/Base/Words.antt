-- ===== src/Base/Words.antt =====
-- Machine words as native numbers: the types of kernel/libk/types.h wrap by `%`.
-- The mask `& ~(n - 1)` at a power of two `n` clears the digits below `n`.
use Prim.Native.Nat.{ℕ, ◌+◌, ◌-◌, ◌*◌, ◌/◌, ◌%◌, ◌^◌}

abbrev pub u8 : ℕ → ℕ
u8 x = x % 2 ^ 8

abbrev pub u16 : ℕ → ℕ
u16 x = x % 2 ^ 16

abbrev pub u32 : ℕ → ℕ
u32 x = x % 2 ^ 32

abbrev pub u64 : ℕ → ℕ
u64 x = x % 2 ^ 64

-- `a - b` at a width of 64 bits
abbrev pub sub64 : ℕ → ℕ → ℕ
sub64 a b = (a + 2 ^ 64 - b) % 2 ^ 64

-- `ROUNDDOWN2N(a, n)` of kernel/libk/utils.h, for a power of two `n`
abbrev pub round_down : ℕ → ℕ → ℕ
round_down a n = a / n * n

-- `ROUNDUP2N(a, n)` of kernel/libk/utils.h on 64-bit operands, for a power of two `n`
abbrev pub round_up : ℕ → ℕ → ℕ
round_up a n = round_down (u64 (a + n - 1)) n
