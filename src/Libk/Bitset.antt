-- ===== src/Libk/Bitset.antt =====
-- kernel/libcppk/bitset.hpp, and `fill` of kernel/libcppk/array.hpp. The test of a position against
-- `N` has an empty body in the code; `none` is an access outside the array of blocks.
pub mod Blocks
pub mod Laws
mod Tests
use java_script_os.Base.{
  ℕ, zero, suc, ◌+◌, ◌-◌, ◌/◌, ◌%◌, Bool, Option, none, some, List, [], ◌∷◌, ◌==◌, if◌then◌else◌,
  not, get_elem?, set, ◌>>=◌,
}
use java_script_os.Base.Bitwise.{shift_right, shift_left, bitwise, or_digit, and_digit, complement}

-- the loop of `array::fill`, from an index on
unfoldable pub fill_from : (left i value : ℕ) → List ℕ → List ℕ
fill_from zero i value elems = elems
fill_from (suc left) i value elems = fill_from left (i + 1) value (set elems i value)

-- `array::fill`, of `n` elements
abbrev pub fill : ℕ → ℕ → List ℕ → List ℕ
fill n value elems = fill_from n 0 value elems

-- `BITS_PER_BLOCK`
abbrev pub bits_per_block : ℕ
bits_per_block = 64

-- `NUM_BLOCKS`, for `N` bits
abbrev pub num_blocks : ℕ → ℕ
num_blocks n = (n + bits_per_block - 1) / bits_per_block

abbrev pub block_index : ℕ → ℕ
block_index pos = pos / bits_per_block

abbrev pub bit_position : ℕ → ℕ
bit_position pos = pos % bits_per_block

-- the constructor, on the blocks that the memory holds
unfoldable pub bitset : ℕ → List ℕ → List ℕ
unfolding fill_from
bitset n blocks = fill (num_blocks n) 0 blocks

-- the operator `[]` that only reads
unfoldable pub read : List ℕ → ℕ → Option Bool
unfolding shift_right
read blocks pos = do
  block ← get_elem? blocks (block_index pos)
  some (not (shift_right block (bit_position pos) % 2 == 0))

-- `set(pos, value)`; the shift of 1 by less than 64 does not wrap
unfoldable pub set_bit : ℕ → Bool → List ℕ → Option (List ℕ)
unfolding shift_left bitwise complement
set_bit pos value blocks = do
  block ← get_elem? blocks (block_index pos)
  let one = shift_left 1 (bit_position pos)
  some (
      set blocks (block_index pos) (
        if value
        then bitwise or_digit 64 block one
        else bitwise and_digit 64 block (complement 64 one)))
