-- ===== src/Pci/EnableMsix/Tests.antt =====
-- Capabilities at 0x40 and 0x50, of which the second is MSI-X.
use java_script_os.Base.{ℕ, ◌/◌, ◌%◌, ◌==◌, if◌then◌else◌}
use java_script_os.Pci.Register.{Ports}
use java_script_os.Pci.EnableMsix.{MsixDef}

-- as the PCI specification has it
abbrev standard : MsixDef
standard = record {
  status_reg_offset = 0x06;
  capabilities_pointer_reg_offset = 0x34;
  bar0_offset = 0x10;
  msix_bir_offset = 4;
  msix = 0x11;
  memory_space_bar_64_bit = 2;
  capabilities_list = λ r. r / 16 % 2 == 1;
  capability_id = λ r. r % 256;
  next_capability_pointer = λ r. r / 256;
  is_io_space = λ r. r % 2 == 1;
  bar_type = λ r. r / 2 % 4;
}

-- the registers of the function, for what the one at 0x40 holds
abbrev registers : ℕ → ℕ → ℕ
registers capability a =
    if a == 0x80000004
    then 0x00100000
    else if a == 0x80000034
    then 0x40
    else if a == 0x80000040
    then capability
    else if a == 0x80000050
    then 0x11
    else if a == 0x80000010
    then 0xfe000004
    else 0

abbrev ports : ℕ → Ports
ports capability = record { latch = 0; config = registers capability }
