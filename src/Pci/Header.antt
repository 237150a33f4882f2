-- ===== src/Pci/Header.antt =====
-- The registers of the configuration headers: the accessors of `DeviceBase`, `Device`,
-- `PCIToPCIBridge` and `PCIToCardBusBridge` in kernel/devices/pci/Device.hpp, each with its offset and
-- the size of its type, and `create_device`, which picks the header. A register of a base
-- class is one of each header. `legacy_mode_base_addr` is `_16_bit_pc_card_legacy_mode_base_addr`.
pub mod Order
pub mod Laws
mod Tests
use java_script_os.Base.{ℕ, ◌%◌, ◌^◌, Option, none, some, ◌==◌, if◌then◌else◌, u8}
use java_script_os.Pci.Address.{ConfigSpaceAddress, address}
use java_script_os.Pci.Register.{Ports, proxy_read, Size, byte, word, dword}
use java_script_os.Pci.Layout.{header_type_of_raw}

-- an offset and a size, as `ACCESSOR` has them
pub data Place : Type 0 where
  at : ℕ → Size → Place

abbrev pub start : Place → ℕ
start (at o s) = o

abbrev pub size : Place → Size
size (at o s) = s

-- the accessors of `DeviceBase`
pub data BaseRegister : Type 0 where
  vendor_id device_id command_reg status_reg revision_id prog_if subclass_id class_id
        cache_line_size latency_timer header_type bist interrupt_line interrupt_pin :
      BaseRegister

unfoldable pub base_place : BaseRegister → Place
base_place vendor_id = at 0x00 word
base_place device_id = at 0x02 word
base_place command_reg = at 0x04 word
base_place status_reg = at 0x06 word
base_place revision_id = at 0x08 byte
base_place prog_if = at 0x09 byte
base_place subclass_id = at 0x0a byte
base_place class_id = at 0x0b byte
base_place cache_line_size = at 0x0c byte
base_place latency_timer = at 0x0d byte
base_place header_type = at 0x0e byte
base_place bist = at 0x0f byte
base_place interrupt_line = at 0x3c byte
base_place interrupt_pin = at 0x3d byte

-- the accessors of `Device`
pub data DeviceRegister : Type 0 where
  of_device : BaseRegister → DeviceRegister
  cardbus_cis_ptr subsystem_vendor_id subsystem_id expansion_rom_base_addr min_grant max_latency :
      DeviceRegister

unfoldable pub device_place : DeviceRegister → Place
unfolding base_place
device_place (of_device r) = base_place r
device_place cardbus_cis_ptr = at 0x28 dword
device_place subsystem_vendor_id = at 0x2c word
device_place subsystem_id = at 0x2e word
device_place expansion_rom_base_addr = at 0x30 dword
device_place min_grant = at 0x3e byte
device_place max_latency = at 0x3f byte

-- the accessors of `PCIToPCIBridge`
pub data BridgeRegister : Type 0 where
  of_bridge : BaseRegister → BridgeRegister
  bridge_primary_bus bridge_secondary_bus bridge_subordinate_bus bridge_secondary_latency_timer
        bridge_io_base_lower bridge_io_limit_lower bridge_secondary_status bridge_memory_base
        bridge_memory_limit bridge_prefetchable_memory_base bridge_prefetchable_memory_limit
        bridge_prefetchable_base_upper bridge_prefetchable_limit_upper bridge_io_base_upper
        bridge_io_limit_upper bridge_expansion_rom_base_addr bridge_control :
      BridgeRegister

unfoldable pub bridge_place : BridgeRegister → Place
unfolding base_place
bridge_place (of_bridge r) = base_place r
bridge_place bridge_primary_bus = at 0x18 byte
bridge_place bridge_secondary_bus = at 0x19 byte
bridge_place bridge_subordinate_bus = at 0x1a byte
bridge_place bridge_secondary_latency_timer = at 0x1b byte
bridge_place bridge_io_base_lower = at 0x1c byte
bridge_place bridge_io_limit_lower = at 0x1d byte
bridge_place bridge_secondary_status = at 0x1e word
bridge_place bridge_memory_base = at 0x20 word
bridge_place bridge_memory_limit = at 0x22 word
bridge_place bridge_prefetchable_memory_base = at 0x24 word
bridge_place bridge_prefetchable_memory_limit = at 0x26 word
bridge_place bridge_prefetchable_base_upper = at 0x28 dword
bridge_place bridge_prefetchable_limit_upper = at 0x2c dword
bridge_place bridge_io_base_upper = at 0x30 word
bridge_place bridge_io_limit_upper = at 0x32 word
bridge_place bridge_expansion_rom_base_addr = at 0x38 dword
bridge_place bridge_control = at 0x3e word

-- the accessors of `PCIToCardBusBridge`
pub data CardbusRegister : Type 0 where
  of_cardbus : BaseRegister → CardbusRegister
  cardbus_socket_slash_exca_base_addr cardbus_secondary_status cardbus_pci_bus_num cardbus_bus_num
        cardbus_subordinate_bus_num cardbus_latency_timer cardbus_memory_base0 cardbus_memory_limit0
        cardbus_memory_base1 cardbus_memory_limit1 cardbus_io_base0 cardbus_io_limit0
        cardbus_io_base1 cardbus_io_limit1 cardbus_bridge_control cardbus_subsystem_device_id
        cardbus_subsystem_vendor_id cardbus_legacy_mode_base_addr :
      CardbusRegister

unfoldable pub cardbus_place : CardbusRegister → Place
unfolding base_place
cardbus_place (of_cardbus r) = base_place r
cardbus_place cardbus_socket_slash_exca_base_addr = at 0x10 dword
cardbus_place cardbus_secondary_status = at 0x16 word
cardbus_place cardbus_pci_bus_num = at 0x18 byte
cardbus_place cardbus_bus_num = at 0x19 byte
cardbus_place cardbus_subordinate_bus_num = at 0x1a byte
cardbus_place cardbus_latency_timer = at 0x1b byte
cardbus_place cardbus_memory_base0 = at 0x1c dword
cardbus_place cardbus_memory_limit0 = at 0x20 dword
cardbus_place cardbus_memory_base1 = at 0x24 dword
cardbus_place cardbus_memory_limit1 = at 0x28 dword
cardbus_place cardbus_io_base0 = at 0x2c dword
cardbus_place cardbus_io_limit0 = at 0x30 dword
cardbus_place cardbus_io_base1 = at 0x34 dword
cardbus_place cardbus_io_limit1 = at 0x38 dword
cardbus_place cardbus_bridge_control = at 0x3e word
cardbus_place cardbus_subsystem_device_id = at 0x40 word
cardbus_place cardbus_subsystem_vendor_id = at 0x42 word
cardbus_place cardbus_legacy_mode_base_addr = at 0x44 dword

-- the class that `create_device` makes
pub data Header : Type 0 where
  general bridge cardbus : Header

abbrev pub Register : Header → Type 0
Register general = DeviceRegister
Register bridge = BridgeRegister
Register cardbus = CardbusRegister

unfoldable pub place : (h : Header) → Register h → Place
unfolding device_place bridge_place cardbus_place
place general r = device_place r
place bridge r = bridge_place r
place cardbus r = cardbus_place r

-- `header_type`
abbrev pub header_of : ℕ → Option Header
header_of type =
    if type == 0x00
    then some general
    else if type == 0x01
    then some bridge
    else if type == 0x02
    then some cardbus
    else none

-- `create_device`: `none` is a bare `DeviceBase`.
unfoldable pub create_device : (bus device function : ℕ) → Ports → Ports × Option Header
unfolding proxy_read base_place header_type_of_raw
create_device bus device function p =
    let (p', raw) = proxy_read (address bus device function) (start (base_place header_type)) p in
    (p', header_of (header_type_of_raw (u8 raw)).type)
