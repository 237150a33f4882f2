-- ===== src/Pci/EnableMsix.antt =====
-- `enable_msix` of kernel/devices/pci.c. The header pcidef.h, which it takes constants and unions
-- from, is not in the repository; `MsixDef` stands for it. Its messages are kept as its outcome, and
-- `none` is the end of the fuel of the walk over the capability list.
pub mod Walk
mod Tests
use java_script_os.Base.{
  ℕ, zero, suc, ◌+◌, Bool, true, false, Option, none, some, ◌==◌, if◌then◌else◌, u8, ◌>>=◌,
}
use java_script_os.Pci.Register.{
  Ports, pci_read_register8, pci_read_register16, pci_read_register32,
}

-- what `enable_msix` uses of pcidef.h: constants, and fields of unions from their `raw`
pub record MsixDef : Type 0 where
  pub status_reg_offset : ℕ
  pub capabilities_pointer_reg_offset : ℕ
  pub bar0_offset : ℕ
  pub msix_bir_offset : ℕ
  pub msix : ℕ
  pub memory_space_bar_64_bit : ℕ
  pub capabilities_list : ℕ → Bool
  pub capability_id : ℕ → ℕ
  pub next_capability_pointer : ℕ → ℕ
  pub is_io_space : ℕ → Bool
  pub bar_type : ℕ → ℕ

-- how the function ends: by one of its messages, or after the last test
pub data Outcome : Type 0 where
  no_capabilities_list no_msix_capability io_space_bar bar_not_64_bit usable_bar : Outcome

module _ (def : MsixDef) (bus device function : ℕ) where
  -- the loop `while (cap_off)`: the ports, and the offset of the capability or 0
  unfoldable pub walk : ℕ → ℕ → Ports → Option (Ports × ℕ)
  unfolding pci_read_register16
  walk zero cap_off p = none
  walk (suc fuel) cap_off p =
      let (p', cap) = pci_read_register16 bus device function cap_off p in
      let rest = walk fuel (u8 (def.next_capability_pointer cap)) p' in
      if cap_off == 0
      then some (p, 0)
      else if def.capability_id cap == def.msix
      then some (p', cap_off)
      else rest

  -- what follows a capability found at `cap_off`
  unfoldable pub examine_bar : ℕ → Ports → Ports × Outcome
  unfolding pci_read_register8 pci_read_register32
  examine_bar cap_off p =
      let (p1, bir) =
        pci_read_register8 bus device function (u8 (cap_off + def.msix_bir_offset)) p in
      let (p2, bar) = pci_read_register32 bus device function (u8 (def.bar0_offset + bir)) p1 in
      (
        p2,
        if def.is_io_space bar
            then io_space_bar
            else if def.bar_type bar == def.memory_space_bar_64_bit
            then usable_bar
            else bar_not_64_bit,
      )

  unfoldable pub enable_msix : ℕ → Ports → Option (Ports × Outcome)
  unfolding walk examine_bar pci_read_register8 pci_read_register16
  enable_msix fuel p =
      let (p1, status) = pci_read_register16 bus device function def.status_reg_offset p in
      let (p2, first) =
        pci_read_register8 bus device function def.capabilities_pointer_reg_offset p1 in
      let walked : Option (Ports × Outcome) = walk fuel first p2 >>= λ (r : Ports × ℕ).
      some (if r.1 == 0 then (r.0, no_msix_capability) else examine_bar r.1 r.0) in
      if def.capabilities_list status then walked else some (p1, no_capabilities_list)
