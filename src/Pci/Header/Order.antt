-- ===== src/Pci/Header/Order.antt =====
-- The registers of each header in the order of their offsets.
use java_script_os.Base.{ℕ, List, [], ◌∷◌, ◌≡◌, some, get_elem?, arith}
use java_script_os.Pci.Header.{
  vendor_id, device_id, command_reg, status_reg, revision_id, prog_if, subclass_id, class_id,
  cache_line_size, latency_timer, header_type, bist, interrupt_line, interrupt_pin, DeviceRegister,
  of_device, cardbus_cis_ptr, subsystem_vendor_id, subsystem_id, expansion_rom_base_addr, min_grant,
  max_latency, BridgeRegister, of_bridge, bridge_primary_bus, bridge_secondary_bus,
  bridge_subordinate_bus, bridge_secondary_latency_timer, bridge_io_base_lower,
  bridge_io_limit_lower, bridge_secondary_status, bridge_memory_base, bridge_memory_limit,
  bridge_prefetchable_memory_base, bridge_prefetchable_memory_limit, bridge_prefetchable_base_upper,
  bridge_prefetchable_limit_upper, bridge_io_base_upper, bridge_io_limit_upper,
  bridge_expansion_rom_base_addr, bridge_control, CardbusRegister, of_cardbus,
  cardbus_socket_slash_exca_base_addr, cardbus_secondary_status, cardbus_pci_bus_num,
  cardbus_bus_num, cardbus_subordinate_bus_num, cardbus_latency_timer, cardbus_memory_base0,
  cardbus_memory_limit0, cardbus_memory_base1, cardbus_memory_limit1, cardbus_io_base0,
  cardbus_io_limit0, cardbus_io_base1, cardbus_io_limit1, cardbus_bridge_control,
  cardbus_subsystem_device_id, cardbus_subsystem_vendor_id, cardbus_legacy_mode_base_addr, Header,
  general, bridge, cardbus, Register,
}

abbrev pub device_order : List DeviceRegister
device_order =
    of_device vendor_id
    ∷ of_device device_id
    ∷ of_device command_reg
    ∷ of_device status_reg
    ∷ of_device revision_id
    ∷ of_device prog_if
    ∷ of_device subclass_id
    ∷ of_device class_id
    ∷ of_device cache_line_size
    ∷ of_device latency_timer
    ∷ of_device header_type
    ∷ of_device bist
    ∷ cardbus_cis_ptr
    ∷ subsystem_vendor_id
    ∷ subsystem_id
    ∷ expansion_rom_base_addr
    ∷ of_device interrupt_line
    ∷ of_device interrupt_pin
    ∷ min_grant
    ∷ max_latency
    ∷ []

abbrev pub device_rank : DeviceRegister → ℕ
device_rank (of_device vendor_id) = 0
device_rank (of_device device_id) = 1
device_rank (of_device command_reg) = 2
device_rank (of_device status_reg) = 3
device_rank (of_device revision_id) = 4
device_rank (of_device prog_if) = 5
device_rank (of_device subclass_id) = 6
device_rank (of_device class_id) = 7
device_rank (of_device cache_line_size) = 8
device_rank (of_device latency_timer) = 9
device_rank (of_device header_type) = 10
device_rank (of_device bist) = 11
device_rank cardbus_cis_ptr = 12
device_rank subsystem_vendor_id = 13
device_rank subsystem_id = 14
device_rank expansion_rom_base_addr = 15
device_rank (of_device interrupt_line) = 16
device_rank (of_device interrupt_pin) = 17
device_rank min_grant = 18
device_rank max_latency = 19

abbrev pub bridge_order : List BridgeRegister
bridge_order =
    of_bridge vendor_id
    ∷ of_bridge device_id
    ∷ of_bridge command_reg
    ∷ of_bridge status_reg
    ∷ of_bridge revision_id
    ∷ of_bridge prog_if
    ∷ of_bridge subclass_id
    ∷ of_bridge class_id
    ∷ of_bridge cache_line_size
    ∷ of_bridge latency_timer
    ∷ of_bridge header_type
    ∷ of_bridge bist
    ∷ bridge_primary_bus
    ∷ bridge_secondary_bus
    ∷ bridge_subordinate_bus
    ∷ bridge_secondary_latency_timer
    ∷ bridge_io_base_lower
    ∷ bridge_io_limit_lower
    ∷ bridge_secondary_status
    ∷ bridge_memory_base
    ∷ bridge_memory_limit
    ∷ bridge_prefetchable_memory_base
    ∷ bridge_prefetchable_memory_limit
    ∷ bridge_prefetchable_base_upper
    ∷ bridge_prefetchable_limit_upper
    ∷ bridge_io_base_upper
    ∷ bridge_io_limit_upper
    ∷ bridge_expansion_rom_base_addr
    ∷ of_bridge interrupt_line
    ∷ of_bridge interrupt_pin
    ∷ bridge_control
    ∷ []

abbrev pub bridge_rank : BridgeRegister → ℕ
bridge_rank (of_bridge vendor_id) = 0
bridge_rank (of_bridge device_id) = 1
bridge_rank (of_bridge command_reg) = 2
bridge_rank (of_bridge status_reg) = 3
bridge_rank (of_bridge revision_id) = 4
bridge_rank (of_bridge prog_if) = 5
bridge_rank (of_bridge subclass_id) = 6
bridge_rank (of_bridge class_id) = 7
bridge_rank (of_bridge cache_line_size) = 8
bridge_rank (of_bridge latency_timer) = 9
bridge_rank (of_bridge header_type) = 10
bridge_rank (of_bridge bist) = 11
bridge_rank bridge_primary_bus = 12
bridge_rank bridge_secondary_bus = 13
bridge_rank bridge_subordinate_bus = 14
bridge_rank bridge_secondary_latency_timer = 15
bridge_rank bridge_io_base_lower = 16
bridge_rank bridge_io_limit_lower = 17
bridge_rank bridge_secondary_status = 18
bridge_rank bridge_memory_base = 19
bridge_rank bridge_memory_limit = 20
bridge_rank bridge_prefetchable_memory_base = 21
bridge_rank bridge_prefetchable_memory_limit = 22
bridge_rank bridge_prefetchable_base_upper = 23
bridge_rank bridge_prefetchable_limit_upper = 24
bridge_rank bridge_io_base_upper = 25
bridge_rank bridge_io_limit_upper = 26
bridge_rank bridge_expansion_rom_base_addr = 27
bridge_rank (of_bridge interrupt_line) = 28
bridge_rank (of_bridge interrupt_pin) = 29
bridge_rank bridge_control = 30

abbrev pub cardbus_order : List CardbusRegister
cardbus_order =
    of_cardbus vendor_id
    ∷ of_cardbus device_id
    ∷ of_cardbus command_reg
    ∷ of_cardbus status_reg
    ∷ of_cardbus revision_id
    ∷ of_cardbus prog_if
    ∷ of_cardbus subclass_id
    ∷ of_cardbus class_id
    ∷ of_cardbus cache_line_size
    ∷ of_cardbus latency_timer
    ∷ of_cardbus header_type
    ∷ of_cardbus bist
    ∷ cardbus_socket_slash_exca_base_addr
    ∷ cardbus_secondary_status
    ∷ cardbus_pci_bus_num
    ∷ cardbus_bus_num
    ∷ cardbus_subordinate_bus_num
    ∷ cardbus_latency_timer
    ∷ cardbus_memory_base0
    ∷ cardbus_memory_limit0
    ∷ cardbus_memory_base1
    ∷ cardbus_memory_limit1
    ∷ cardbus_io_base0
    ∷ cardbus_io_limit0
    ∷ cardbus_io_base1
    ∷ cardbus_io_limit1
    ∷ of_cardbus interrupt_line
    ∷ of_cardbus interrupt_pin
    ∷ cardbus_bridge_control
    ∷ cardbus_subsystem_device_id
    ∷ cardbus_subsystem_vendor_id
    ∷ cardbus_legacy_mode_base_addr
    ∷ []

abbrev pub cardbus_rank : CardbusRegister → ℕ
cardbus_rank (of_cardbus vendor_id) = 0
cardbus_rank (of_cardbus device_id) = 1
cardbus_rank (of_cardbus command_reg) = 2
cardbus_rank (of_cardbus status_reg) = 3
cardbus_rank (of_cardbus revision_id) = 4
cardbus_rank (of_cardbus prog_if) = 5
cardbus_rank (of_cardbus subclass_id) = 6
cardbus_rank (of_cardbus class_id) = 7
cardbus_rank (of_cardbus cache_line_size) = 8
cardbus_rank (of_cardbus latency_timer) = 9
cardbus_rank (of_cardbus header_type) = 10
cardbus_rank (of_cardbus bist) = 11
cardbus_rank cardbus_socket_slash_exca_base_addr = 12
cardbus_rank cardbus_secondary_status = 13
cardbus_rank cardbus_pci_bus_num = 14
cardbus_rank cardbus_bus_num = 15
cardbus_rank cardbus_subordinate_bus_num = 16
cardbus_rank cardbus_latency_timer = 17
cardbus_rank cardbus_memory_base0 = 18
cardbus_rank cardbus_memory_limit0 = 19
cardbus_rank cardbus_memory_base1 = 20
cardbus_rank cardbus_memory_limit1 = 21
cardbus_rank cardbus_io_base0 = 22
cardbus_rank cardbus_io_limit0 = 23
cardbus_rank cardbus_io_base1 = 24
cardbus_rank cardbus_io_limit1 = 25
cardbus_rank (of_cardbus interrupt_line) = 26
cardbus_rank (of_cardbus interrupt_pin) = 27
cardbus_rank cardbus_bridge_control = 28
cardbus_rank cardbus_subsystem_device_id = 29
cardbus_rank cardbus_subsystem_vendor_id = 30
cardbus_rank cardbus_legacy_mode_base_addr = 31

abbrev pub order : (h : Header) → List (Register h)
order general = device_order
order bridge = bridge_order
order cardbus = cardbus_order

abbrev pub rank : (h : Header) → Register h → ℕ
rank general r = device_rank r
rank bridge r = bridge_rank r
rank cardbus r = cardbus_rank r

pub order-rank : (h : Header) (r : Register h) → get_elem? (order h) (rank h r) ≡ some r
order-rank general r = ground arith
order-rank bridge r = ground arith
order-rank cardbus r = ground arith
