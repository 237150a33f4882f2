-- ===== src/Pci/Tests.antt =====
-- Configuration addresses and registers on concrete numbers.
use java_script_os.Base.{◌≡◌, refl, arith}
use java_script_os.Pci.Address.{ConfigSpaceAddress, raw, pci_config_address}
use java_script_os.Pci.Address.Laws.{IsPacked}
use java_script_os.Pci.Register.{Ports}

abbrev bridge : ConfigSpaceAddress
bridge = record { offset = 24; function = 1; device = 30; bus = 3; reserved = 0; enable = 1 }

bridge-IsPacked : IsPacked bridge
bridge-IsPacked = record {
  offset = omega arith;
  function = omega arith;
  device = omega arith;
  bus = omega arith;
  reserved = omega arith;
  enable = omega arith;
}

alike : pci_config_address 3 30 1 24 ≡ pci_config_address 3 30 1 26
unfolding pci_config_address raw
alike = refl

abbrev ports : Ports
ports = record { latch = 0; config = λ a. 0x12345678 }
