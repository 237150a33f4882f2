-- ===== src/Pci/Bar/Tests.antt =====
-- A base address register, a message and a status register on concrete numbers.
use java_script_os.Base.{◌+◌, ◌/◌, ◌%◌, ◌^◌, ◌<◌, ◌≡◌, arith}
use java_script_os.Pci.Bar.{base_addr, memory_base_addr, memory_of_raw}
use java_script_os.Pci.Bar.Laws.{base_addr-of_space}
use java_script_os.Pci.Msi.{
  MsiMessageAddress, MsiMessageData, message_data_raw, delivery_mode, trigger_level, trigger_mode,
  fixed, assert, level,
}
use java_script_os.Pci.Msi.Laws.{message_data_raw-fields}

-- a 64-bit prefetchable memory register
base_addr-of_space_example : base_addr 0xfebc000c ≡ 0xfebc0000 + 4 + 8
unfolding memory_base_addr memory_of_raw
base_addr-of_space_example = base_addr-of_space 0xfebc000c (omega arith)

abbrev to_cpu_0 : MsiMessageAddress
to_cpu_0 = record {
  rsrv0z = 0;
  destination_mode = 0;
  redirection_hint = 0;
  rsrv1 = 0;
  destination_id = 0;
  x0fee = 0x0fee;
}

abbrev message : MsiMessageData
message = record {
  vector = 0x41;
  mode = fixed;
  rsrv0 = 0;
  level_of = assert;
  trigger = level;
  rsrv1 = 0;
}

message_data_raw-fields_example :
    (message_data_raw message % 2 ^ 8 ≡ 0x41)
    × (message_data_raw message / 2 ^ 8 % 2 ^ 3 ≡ 0)
    × (message_data_raw message / 2 ^ 14 % 2 ≡ 1)
    × (message_data_raw message / 2 ^ 15 % 2 ≡ 1)
    × (message_data_raw message < 2 ^ 32)
unfolding delivery_mode trigger_level trigger_mode
message_data_raw-fields_example = message_data_raw-fields message (omega arith) (omega arith)
