-- ===== src/Pci/Enumerate.antt =====
-- kernel/devices/pci.c: the enumeration in C. The header pcidef.h, which it takes constants and the
-- union of the header type register from, is not in the repository; `Pcidef` stands for it. What
-- the code prints about a function that it finds is the function; its other messages are left out.
-- `none` is undefined behaviour, an access past the end of `enumerated_buses`, or the end of the
-- fuel.
pub mod Agree
pub mod Equivalence
mod Tests
use java_script_os.Base.{
  ℕ, zero, suc, ◌+◌, Bool, true, false, ◌&&◌, Option, none, some, List, [], ◌∷◌, ◌==◌, ltb,
  if◌then◌else◌,
}
use java_script_os.Pci.Register.{pci_read_register8, pci_read_register16}
use java_script_os.Pci.HostController.{Device, Visited, Gen, nothing, one, and_then, mark}

-- what `enumerate_…` uses of pcidef.h
pub record Pcidef : Type 0 where
  pub vendor_id_reg_offset : ℕ
  pub class_code_reg_offset : ℕ
  pub subclass_reg_offset : ℕ
  pub header_type_reg_offset : ℕ
  pub secondary_bus_num_reg_offset : ℕ
  pub vendor_id_invalid : ℕ
  pub bridge_device : ℕ
  pub pci_to_pci : ℕ
  -- the field of `pci_header_type_reg`, from its `raw`
  pub is_multi_function : ℕ → Bool

module _ (def : Pcidef) (config : ℕ → ℕ) where
  -- registers of a function, by what the functions that read them return
  pub read8 : ℕ → ℕ → ℕ → ℕ → ℕ
  unfolding pci_read_register8
  read8 b d f offset = (pci_read_register8 b d f offset (record { latch = 0; config = config })).1

  pub read16 : ℕ → ℕ → ℕ → ℕ → ℕ
  unfolding pci_read_register16
  read16 b d f offset = (pci_read_register16 b d f offset (record { latch = 0; config = config })).1

  pub is_valid : ℕ → ℕ → ℕ → Bool
  unfolding read16
  is_valid b d f =
      if read16 b d f def.vendor_id_reg_offset == def.vendor_id_invalid then false else true

  pub is_bridge : ℕ → ℕ → ℕ → Bool
  unfolding read8
  is_bridge b d f =
      (read8 b d f def.class_code_reg_offset == def.bridge_device)
      && (read8 b d f def.subclass_reg_offset == def.pci_to_pci)

  pub has_functions : ℕ → ℕ → ℕ → Bool
  unfolding read8
  has_functions b d f = def.is_multi_function (read8 b d f def.header_type_reg_offset)

  pub enumerate_function : (ℕ → Gen) → ℕ → ℕ → ℕ → Gen
  unfolding and_then is_bridge read8
  enumerate_function bus_gen b d f =
      let found = one (record { bus = b; deviceno = d; function = f }) in
      if is_bridge b d f
      then and_then found (bus_gen (read8 b d f def.secondary_bus_num_reg_offset))
      else found

  -- the loop of `enumerate_device` from `function` on, with `left` rounds to go
  pub functions_from : (ℕ → Gen) → ℕ → ℕ → ℕ → ℕ → Gen
  unfolding enumerate_function is_valid
  functions_from bus_gen b d zero f = nothing
  functions_from bus_gen b d (suc left) f =
      and_then (if is_valid b d f then enumerate_function bus_gen b d f else nothing)
        (functions_from bus_gen b d left (f + 1))

  pub enumerate_device : (ℕ → Gen) → ℕ → ℕ → Gen
  unfolding functions_from has_functions
  enumerate_device bus_gen b d =
      if is_valid b d 0
      then and_then (enumerate_function bus_gen b d 0)
          (if has_functions b d 0 then functions_from bus_gen b d 7 1 else nothing)
      else nothing

  -- the loop of `enumerate_pci_bus` from `device` on, with `left` rounds to go
  pub devices_from : (ℕ → Gen) → ℕ → ℕ → ℕ → Gen
  unfolding enumerate_device
  devices_from bus_gen b zero d = nothing
  devices_from bus_gen b (suc left) d =
      and_then (enumerate_device bus_gen b d) (devices_from bus_gen b left (d + 1))

  -- `enumerated_buses` has 8 entries.
  pub enumerate_pci_bus : ℕ → ℕ → Gen
  unfolding devices_from
  enumerate_pci_bus zero b v = none
  enumerate_pci_bus (suc fuel) b v =
      let rest = devices_from (enumerate_pci_bus fuel) b 32 0 (mark b v) in
      let inside : Option (List Device × Visited) = if v b then nothing v else rest in
      if ltb b 8 then inside else none

  -- the loop of `enumerate_all_pci_buses` from `bus_as_function_number` on
  pub buses_from : (ℕ → Gen) → ℕ → ℕ → Gen
  buses_from bus_gen zero b = nothing
  buses_from bus_gen (suc left) b = and_then (bus_gen b) (buses_from bus_gen left (b + 1))

  pub enumerate_all_pci_buses : ℕ → Gen
  unfolding enumerate_pci_bus has_functions buses_from
  enumerate_all_pci_buses fuel =
      if has_functions 0 0 0
      then buses_from (enumerate_pci_bus fuel) 8 0
      else enumerate_pci_bus fuel 0
