-- ===== src/Pci/Address.antt =====
-- `config_space_address` of kernel/devices/pci/Device.hpp and `pci_config_address` of
-- kernel/devices/pci.c. The mask `& ~0b11` on a byte clears the two low bits.
pub mod Laws
use java_script_os.Base.{ℕ, ◌+◌, ◌*◌, ◌/◌, ◌%◌, ◌^◌, u8, round_down}

-- the bit fields, the lowest first
pub record ConfigSpaceAddress : Type 0 where
  pub offset : ℕ
  pub function : ℕ
  pub device : ℕ
  pub bus : ℕ
  pub reserved : ℕ
  pub enable : ℕ

-- The constructor from bus, device and function; a bit field keeps its low bits.
unfoldable pub address : ℕ → ℕ → ℕ → ConfigSpaceAddress
address bus device function = record {
  offset = 0;
  function = function % 2 ^ 3;
  device = device % 2 ^ 5;
  bus = u8 bus;
  reserved = 0;
  enable = 1;
}

-- the `raw` member of the union
unfoldable pub raw : ConfigSpaceAddress → ℕ
raw a =
    a.offset
    + a.function * 2 ^ 8
    + a.device * 2 ^ 11
    + a.bus * 2 ^ 16
    + a.reserved * 2 ^ 24
    + a.enable * 2 ^ 31

-- The constructor from a 32-bit number.
unfoldable pub of_raw : ℕ → ConfigSpaceAddress
of_raw r = record {
  offset = r % 2 ^ 8;
  function = r / 2 ^ 8 % 2 ^ 3;
  device = r / 2 ^ 11 % 2 ^ 5;
  bus = r / 2 ^ 16 % 2 ^ 8;
  reserved = r / 2 ^ 24 % 2 ^ 7;
  enable = r / 2 ^ 31 % 2;
}

unfoldable pub base : ConfigSpaceAddress → ConfigSpaceAddress
unfolding address
base a = address a.bus a.device a.function

unfoldable pub set_offset : ConfigSpaceAddress → ℕ → ConfigSpaceAddress
set_offset a offset = record a { offset = round_down (u8 offset) 4 }

-- `operator+`: the sum of the offsets wraps at a byte.
unfoldable pub add_offset : ConfigSpaceAddress → ℕ → ConfigSpaceAddress
add_offset a offset = record a { offset = u8 (a.offset + round_down (u8 offset) 4) }

-- `pci_config_address` of kernel/devices/pci.c
unfoldable pub pci_config_address : ℕ → ℕ → ℕ → ℕ → ℕ
unfolding raw
pci_config_address bus device function offset = raw (record {
  offset = round_down (u8 offset) 4;
  function = function % 2 ^ 3;
  device = device % 2 ^ 5;
  bus = u8 bus;
  reserved = 0;
  enable = 1;
})
