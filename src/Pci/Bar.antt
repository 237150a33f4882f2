-- ===== src/Pci/Bar.antt =====
-- Base address registers: the unions of kernel/devices/pci/Device.hpp and `get_BAR_space_type` of
-- kernel/devices/pci/API.cpp.
pub mod Laws
mod Tests
use java_script_os.Base.{ℕ, ◌/◌, ◌%◌, ◌^◌, ◌==◌, if◌then◌else◌, round_down}

-- the union `memory_space_bar`
pub record MemorySpaceBar : Type 0 where
  pub always1 : ℕ
  pub type : ℕ
  pub prefetchable : ℕ
  pub base_addr_mem : ℕ

unfoldable pub memory_of_raw : ℕ → MemorySpaceBar
memory_of_raw r = record {
  always1 = r % 2;
  type = r / 2 % 2 ^ 2;
  prefetchable = r / 2 ^ 3 % 2;
  base_addr_mem = r / 2 ^ 4 % 2 ^ 28;
}

-- `memory_space_bar::base_addr`
unfoldable pub memory_base_addr : ℕ → ℕ
memory_base_addr r = round_down r 16

-- the union `io_space_bar`
pub record IoSpaceBar : Type 0 where
  pub always0 : ℕ
  pub rsrv0 : ℕ
  pub base_addr : ℕ

unfoldable pub io_of_raw : ℕ → IoSpaceBar
io_of_raw r = record { always0 = r % 2; rsrv0 = r / 2 % 2; base_addr = r / 2 ^ 2 % 2 ^ 30 }

-- `BAR_t::base_addr`
unfoldable pub base_addr : ℕ → ℕ
base_addr r = if r % 2 == 1 then round_down r 16 else round_down r 4

-- `BARSpaceType`
pub data BarSpaceType : Type 0 where
  io_space memory16_bit_space memory32_bit_space memory64_bit_space : BarSpaceType

-- The code prints a message and executes `hlt` before its last `return`; the processor goes on at the
-- next interrupt. The value it returns is modelled.
unfoldable pub get_bar_space_type : ℕ → BarSpaceType
unfolding memory_of_raw
get_bar_space_type r =
    let type = (memory_of_raw r).type in
    if r % 2 == 1
    then io_space
    else if type == 0
    then memory32_bit_space
    else if type == 1
    then memory16_bit_space
    else if type == 2
    then memory64_bit_space
    else io_space
