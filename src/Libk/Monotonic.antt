-- ===== src/Libk/Monotonic.antt =====
-- `monotonic_buffer_resource` of kernel/libcppk/memory_resource.hpp. `hlt` is one instruction, behind
-- which the code goes on: when the space is too small it waits for an interrupt and then hands out
-- the space all the same.
pub mod Laws
mod Tests
use java_script_os.Base.{ℕ, zero, suc, ◌+◌, ◌-◌, ◌%◌, Bool, ◌==◌, ltb, if◌then◌else◌, u64, sub64}
use java_script_os.Base.Bitwise.{bitwise, and_digit}

-- `m_current` and `m_end`
pub record Resource : Type 0 where
  pub current : ℕ
  pub end : ℕ

-- the constructor
unfoldable pub resource : (buffer buffer_size : ℕ) → Resource
resource buffer buffer_size = record { current = buffer; end = buffer + buffer_size }

-- `align_forward_adjustment`, with `address & (alignment - 1)`
unfoldable pub align_forward_adjustment : (address alignment : ℕ) → ℕ
unfolding bitwise
align_forward_adjustment address alignment =
    let misalignment = bitwise and_digit 64 address (sub64 alignment 1) in
    if misalignment == 0 then 0 else sub64 alignment misalignment

-- what `allocate` does: whether it went through `hlt`, the resource that it leaves, and its result
pub record Result : Type 0 where
  pub halted : Bool
  pub left : Resource
  pub returned : ℕ

unfoldable pub allocate : (bytes alignment : ℕ) → Resource → Result
unfolding align_forward_adjustment
allocate bytes alignment r =
    let adjustment = align_forward_adjustment r.current alignment in
    record {
      halted = ltb (sub64 r.end r.current) (u64 (adjustment + bytes));
      left = record r { current = r.current + u64 (adjustment + bytes) };
      returned = r.current + adjustment;
    }
