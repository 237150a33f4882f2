-- ===== src/Pci/Bar/Laws.antt =====
-- What the base address of a register says about its fields.
use java_script_os.Base.{ℕ, ◌+◌, ◌-◌, ◌*◌, ◌/◌, ◌%◌, ◌^◌, ◌<◌, ◌≡◌, ◌==◌, if◌then◌else◌, arith}
use java_script_os.Pci.Bar.{memory_of_raw, memory_base_addr, io_of_raw, base_addr}

-- The two ways of `memory_space_bar` to a base address agree: the function gives the field, moved up
-- by its 4 bits.
pub memory_base_addr-memory_of_raw :
    (r : ℕ) → r < 2 ^ 32 → memory_base_addr r ≡ (memory_of_raw r).base_addr_mem * 2 ^ 4
unfolding memory_base_addr memory_of_raw
memory_base_addr-memory_of_raw r h = omega arith

-- `BAR_t::base_addr` has the masks of the two spaces the wrong way round. For a memory space
-- register it is the base address of `memory_space_bar` with the high bit of the type and the
-- prefetchable bit left in it; for an input and output space register it is the base address of
-- `io_space_bar` with the address bits 2 and 3 lost.
pub base_addr-of_space :
    (r : ℕ)
    → r < 2 ^ 32
    → base_addr r ≡ (
        if r % 2 == 0
        then memory_base_addr r
          + (memory_of_raw r).type / 2 * 2 ^ 2
          + (memory_of_raw r).prefetchable * 2 ^ 3
        else (io_of_raw r).base_addr * 2 ^ 2 - (io_of_raw r).base_addr % 2 ^ 2 * 2 ^ 2)
unfolding base_addr memory_base_addr memory_of_raw io_of_raw
base_addr-of_space r h = ground arith
