-- ===== src/Pci/Layout/Laws.antt =====
-- The fields of a bit-field union and its raw number determine each other.
use java_script_os.Base.{ℕ, ◌^◌, ◌<◌, ◌≡◌, arith}
use java_script_os.Pci.Layout.{
  command_raw, command_of_raw, status_raw, status_of_raw, header_type_raw, header_type_of_raw,
  message_control_raw, message_control_of_raw,
}

pub command_raw-command_of_raw : (r : ℕ) → r < 2 ^ 16 → command_raw (command_of_raw r) ≡ r
unfolding command_raw command_of_raw
command_raw-command_of_raw r h = omega arith

pub status_raw-status_of_raw : (r : ℕ) → r < 2 ^ 16 → status_raw (status_of_raw r) ≡ r
unfolding status_raw status_of_raw
status_raw-status_of_raw r h = omega arith

pub header_type_raw-header_type_of_raw :
    (r : ℕ) → r < 2 ^ 8 → header_type_raw (header_type_of_raw r) ≡ r
unfolding header_type_raw header_type_of_raw
header_type_raw-header_type_of_raw r h = omega arith

pub message_control_raw-message_control_of_raw :
    (r : ℕ) → r < 2 ^ 16 → message_control_raw (message_control_of_raw r) ≡ r
unfolding message_control_raw message_control_of_raw
message_control_raw-message_control_of_raw r h = omega arith
