-- ===== src/Pci/Layout.antt =====
-- The bit-field unions of kernel/devices/pci/Device.hpp. A union is the record of its fields, the
-- lowest first, with `…_raw` for its member `raw` and `…_of_raw` for the fields that a raw number
-- has. The structs are packed, and a field that is not a bit field starts at the next byte.
pub mod Laws
use java_script_os.Base.{ℕ, ◌+◌, ◌*◌, ◌/◌, ◌%◌, ◌^◌}

-- the union `command`
pub record Command : Type 0 where
  pub io_space : ℕ
  pub memory_space : ℕ
  pub bus_master : ℕ
  pub special_cycles : ℕ
  pub memory_write_and_invalidate : ℕ
  pub vga_palette_snoop : ℕ
  pub parity_error_response : ℕ
  pub rsrv0 : ℕ
  pub serr : ℕ
  pub fast_back_to_back : ℕ
  pub interrupt_disable : ℕ
  pub rsrv1 : ℕ

unfoldable pub command_raw : Command → ℕ
command_raw c =
    c.io_space
    + c.memory_space * 2
    + c.bus_master * 2 ^ 2
    + c.special_cycles * 2 ^ 3
    + c.memory_write_and_invalidate * 2 ^ 4
    + c.vga_palette_snoop * 2 ^ 5
    + c.parity_error_response * 2 ^ 6
    + c.rsrv0 * 2 ^ 7
    + c.serr * 2 ^ 8
    + c.fast_back_to_back * 2 ^ 9
    + c.interrupt_disable * 2 ^ 10
    + c.rsrv1 * 2 ^ 11

unfoldable pub command_of_raw : ℕ → Command
command_of_raw r = record {
  io_space = r % 2;
  memory_space = r / 2 % 2;
  bus_master = r / 2 ^ 2 % 2;
  special_cycles = r / 2 ^ 3 % 2;
  memory_write_and_invalidate = r / 2 ^ 4 % 2;
  vga_palette_snoop = r / 2 ^ 5 % 2;
  parity_error_response = r / 2 ^ 6 % 2;
  rsrv0 = r / 2 ^ 7 % 2;
  serr = r / 2 ^ 8 % 2;
  fast_back_to_back = r / 2 ^ 9 % 2;
  interrupt_disable = r / 2 ^ 10 % 2;
  rsrv1 = r / 2 ^ 11 % 2 ^ 5;
}

-- the union `status`
pub record Status : Type 0 where
  pub rsrv0 : ℕ
  pub interrupt_status : ℕ
  pub has_capabilities_list : ℕ
  pub capable_66mhz : ℕ
  pub rsrv1 : ℕ
  pub fast_back_to_back_capable : ℕ
  pub master_data_parity_error : ℕ
  pub devsel_timing : ℕ
  pub signaled_target_abort : ℕ
  pub received_target_abort : ℕ
  pub received_master_abort : ℕ
  pub signaled_system_error : ℕ
  pub detected_parity_error : ℕ

unfoldable pub status_raw : Status → ℕ
status_raw s =
    s.rsrv0
    + s.interrupt_status * 2 ^ 3
    + s.has_capabilities_list * 2 ^ 4
    + s.capable_66mhz * 2 ^ 5
    + s.rsrv1 * 2 ^ 6
    + s.fast_back_to_back_capable * 2 ^ 7
    + s.master_data_parity_error * 2 ^ 8
    + s.devsel_timing * 2 ^ 9
    + s.signaled_target_abort * 2 ^ 11
    + s.received_target_abort * 2 ^ 12
    + s.received_master_abort * 2 ^ 13
    + s.signaled_system_error * 2 ^ 14
    + s.detected_parity_error * 2 ^ 15

unfoldable pub status_of_raw : ℕ → Status
status_of_raw r = record {
  rsrv0 = r % 2 ^ 3;
  interrupt_status = r / 2 ^ 3 % 2;
  has_capabilities_list = r / 2 ^ 4 % 2;
  capable_66mhz = r / 2 ^ 5 % 2;
  rsrv1 = r / 2 ^ 6 % 2;
  fast_back_to_back_capable = r / 2 ^ 7 % 2;
  master_data_parity_error = r / 2 ^ 8 % 2;
  devsel_timing = r / 2 ^ 9 % 2 ^ 2;
  signaled_target_abort = r / 2 ^ 11 % 2;
  received_target_abort = r / 2 ^ 12 % 2;
  received_master_abort = r / 2 ^ 13 % 2;
  signaled_system_error = r / 2 ^ 14 % 2;
  detected_parity_error = r / 2 ^ 15 % 2;
}

-- the union `device_header_type`
pub record DeviceHeaderType : Type 0 where
  pub type : ℕ
  pub is_multi_function : ℕ

unfoldable pub header_type_raw : DeviceHeaderType → ℕ
header_type_raw h = h.type + h.is_multi_function * 2 ^ 7

unfoldable pub header_type_of_raw : ℕ → DeviceHeaderType
header_type_of_raw r = record { type = r % 2 ^ 7; is_multi_function = r / 2 ^ 7 % 2 }

-- the union `msix_message_control`
pub record MsixMessageControl : Type 0 where
  pub table_size : ℕ
  pub rsrv0 : ℕ
  pub function_mask : ℕ
  pub enable : ℕ

unfoldable pub message_control_raw : MsixMessageControl → ℕ
message_control_raw m =
    m.table_size + m.rsrv0 * 2 ^ 11 + m.function_mask * 2 ^ 14 + m.enable * 2 ^ 15

unfoldable pub message_control_of_raw : ℕ → MsixMessageControl
message_control_of_raw r = record {
  table_size = r % 2 ^ 11;
  rsrv0 = r / 2 ^ 11 % 2 ^ 3;
  function_mask = r / 2 ^ 14 % 2;
  enable = r / 2 ^ 15 % 2;
}
