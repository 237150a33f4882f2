-- ===== src/Pci/HostController.antt =====
-- kernel/devices/pci/HostController.cpp: the generators that enumerate the devices behind the host
-- bridge. A generator is the list of what it yields; `enumerated_buses` is passed through, and
-- `none` means that the fuel ran out. The messages that the code prints are left out.
-- `header_type()->` writes the byte that it read back when its temporary dies, which leaves a
-- register that keeps what is written to it as it was.
pub mod Yields
pub mod Loops
pub mod Enumeration
mod Tests
use java_script_os.Base.{
  ℕ, zero, suc, ◌+◌, ◌*◌, ◌/◌, ◌%◌, ◌^◌, Bool, true, false, ◌&&◌, Option, none, some, List, [], ◌∷◌,
  ◌++◌, ◌==◌, if◌then◌else◌, u8, u16, ◌>>=◌,
}
use java_script_os.Pci.Address.{address}
use java_script_os.Pci.Register.{Ports, proxy_read}

-- `DeviceBase`, by what it was made from
pub record Device : Type 0 where
  pub bus : ℕ
  pub deviceno : ℕ
  pub function : ℕ

-- `std::bitset<256> enumerated_buses`
abbrev pub Visited : Type 0
Visited = ℕ → Bool

abbrev pub Gen : Type 0
Gen = Visited → Option (List Device × Visited)

-- `co_return` at once, `co_yield device`, and one generator after another
abbrev pub nothing : Gen
nothing v = some ([], v)

abbrev pub one : Device → Gen
one d v = some (d ∷ [], v)

unfoldable pub and_then : Gen → Gen → Gen
and_then a b v = do (xs, v') ← a v; (ys, v'') ← b v'; some (xs ++ ys, v'')

-- `VendorID::DeviceNotPresent`, `DeviceClass::BridgeDevice`, `Bridge::SubclassID::PCI_TO_PCI`
abbrev pub device_not_present : ℕ
device_not_present = 0xffff

abbrev pub bridge_device : ℕ
bridge_device = 0x06

abbrev pub pci_to_pci : ℕ
pci_to_pci = 0x04

-- `enumerated_buses[bus] = 1`
abbrev pub mark : ℕ → Visited → Visited
mark b v x = if x == b then true else v x

module _ (config : ℕ → ℕ) where
  -- a register of a function, as `read_register` returns it
  unfoldable pub register : ℕ → ℕ → ℕ → ℕ → ℕ
  unfolding proxy_read address
  register bus deviceno function offset =
      (proxy_read (address bus deviceno function) offset (record { latch = 0; config = config })).1

  -- the accessors of `DeviceBase` and `PCIToPCIBridge` that the enumeration uses
  unfoldable pub vendor_id : ℕ → ℕ → ℕ → ℕ
  unfolding register
  vendor_id b d f = u16 (register b d f 0x00)

  unfoldable pub subclass_id : ℕ → ℕ → ℕ → ℕ
  unfolding register
  subclass_id b d f = u8 (register b d f 0x0a)

  unfoldable pub class_id : ℕ → ℕ → ℕ → ℕ
  unfolding register
  class_id b d f = u8 (register b d f 0x0b)

  unfoldable pub is_multi_function : ℕ → ℕ → ℕ → Bool
  unfolding register
  is_multi_function b d f = u8 (register b d f 0x0e) / 2 ^ 7 == 1

  unfoldable pub secondary_bus : ℕ → ℕ → ℕ → ℕ
  unfolding register
  secondary_bus b d f = u8 (register b d f 0x19)

  unfoldable pub is_present : ℕ → ℕ → ℕ → Bool
  unfolding vendor_id
  is_present b d f = if vendor_id b d f == device_not_present then false else true

  unfoldable pub is_bridge : ℕ → ℕ → ℕ → Bool
  unfolding class_id subclass_id
  is_bridge b d f = (class_id b d f == bridge_device) && (subclass_id b d f == pci_to_pci)

  -- `enumerate_function`; `bus_gen` is `enumerate_pci_bus`.
  unfoldable pub enumerate_function : (ℕ → Gen) → ℕ → ℕ → ℕ → Gen
  unfolding and_then is_bridge secondary_bus
  enumerate_function bus_gen b d f =
      let device = one (record { bus = b; deviceno = d; function = f }) in
      if is_bridge b d f then and_then device (bus_gen (secondary_bus b d f)) else device

  -- the loop of `enumerate_device` from `function` on, with `left` rounds to go
  unfoldable pub functions_from : (ℕ → Gen) → ℕ → ℕ → ℕ → ℕ → Gen
  unfolding enumerate_function is_present
  functions_from bus_gen b d zero f = nothing
  functions_from bus_gen b d (suc left) f =
      and_then (if is_present b d f then enumerate_function bus_gen b d f else nothing)
        (functions_from bus_gen b d left (f + 1))

  unfoldable pub enumerate_device : (ℕ → Gen) → ℕ → ℕ → Gen
  unfolding functions_from is_multi_function
  enumerate_device bus_gen b d =
      if is_present b d 0
      then and_then (enumerate_function bus_gen b d 0)
          (if is_multi_function b d 0 then functions_from bus_gen b d 7 1 else nothing)
      else nothing

  -- the loop of `enumerate_pci_bus` from `device` on, with `left` rounds to go
  unfoldable pub devices_from : (ℕ → Gen) → ℕ → ℕ → ℕ → Gen
  unfolding enumerate_device
  devices_from bus_gen b zero d = nothing
  devices_from bus_gen b (suc left) d =
      and_then (enumerate_device bus_gen b d) (devices_from bus_gen b left (d + 1))

  unfoldable pub enumerate_pci_bus : ℕ → ℕ → Gen
  unfolding devices_from
  enumerate_pci_bus zero b v = none
  enumerate_pci_bus (suc fuel) b v =
      let rest = devices_from (enumerate_pci_bus fuel) b 32 0 (mark b v) in
      if v b then nothing v else rest

  -- `HostController::attached_devices`: the loop over the functions of a host bridge with several
  -- has its `co_yield_from` commented out, and yields nothing.
  unfoldable pub attached_devices : ℕ → Gen
  unfolding enumerate_pci_bus is_multi_function
  attached_devices fuel = if is_multi_function 0 0 0 then nothing else enumerate_pci_bus fuel 0
