-- ===== src/Pci/Address/Laws.antt =====
-- The packed form of a configuration address.
use java_script_os.Base.{ℕ, ◌/◌, ◌%◌, ◌^◌, ◌≤◌, ◌<◌, ◌≡◌, arith}
use java_script_os.Pci.Address.{
  ConfigSpaceAddress, address, raw, of_raw, add_offset, pci_config_address,
}

-- Every field is within its width.
pub record IsPacked (a : ConfigSpaceAddress) : Type 0 where
  pub offset : a.offset < 2 ^ 8
  pub function : a.function < 2 ^ 3
  pub device : a.device < 2 ^ 5
  pub bus : a.bus < 2 ^ 8
  pub reserved : a.reserved < 2 ^ 7
  pub enable : a.enable < 2

-- Packing and unpacking give an address back whose fields are within their widths.
pub of_raw-raw : (a : ConfigSpaceAddress) → IsPacked a → of_raw (raw a) ≡ a
unfolding raw of_raw
of_raw-raw a v = ground arith

-- Unpacking and packing give any 32-bit number back.
pub raw-of_raw : (r : ℕ) → r < 2 ^ 32 → raw (of_raw r) ≡ r
unfolding raw of_raw
raw-of_raw r h = omega arith

-- The C and the C++ code form the same number, for any bus, device, function and register offset:
-- it has the enable bit, fits 32 bits and names an aligned register.
pub pci_config_address-raw :
    (bus device function offset : ℕ)
    → (pci_config_address bus device function offset
        ≡ raw (add_offset (address bus device function) offset))
      × (2 ^ 31 ≤ pci_config_address bus device function offset)
      × (pci_config_address bus device function offset < 2 ^ 32)
      × (pci_config_address bus device function offset % 4 ≡ 0)
unfolding pci_config_address add_offset address
pci_config_address-raw bus device function offset = omega arith

-- Two addresses in range are formed alike only for the same bus, device, function and register.
pub pci_config_address-injective :
    (b d f o b' d' f' o' : ℕ)
    → (b < 256) × (d < 32) × (f < 8) × (o < 256)
    → (b' < 256) × (d' < 32) × (f' < 8) × (o' < 256)
    → pci_config_address b d f o ≡ pci_config_address b' d' f' o'
    → (b ≡ b') × (d ≡ d') × (f ≡ f') × (o / 4 ≡ o' / 4)
unfolding pci_config_address
pci_config_address-injective b d f o b' d' f' o' h h' e = omega arith
