-- ===== src/Pci/Msi.antt =====
-- The message-signalled interrupts of kernel/devices/pci/Device.hpp: the message address and data
-- registers of the processor and an entry of the MSI-X table.
pub mod Laws
use java_script_os.Base.{ℕ, ◌+◌, ◌*◌, ◌/◌, ◌%◌, ◌^◌, u8, u32}

-- the union `x86_64_msi_message_address_reg`: `rsrv1` and `destination_id` are whole bytes, so they
-- start at the bits 8 and 16, and the last field starts at bit 24, of which the union's `raw` holds
-- the low 8 bits
pub record MsiMessageAddress : Type 0 where
  pub rsrv0z : ℕ
  pub destination_mode : ℕ
  pub redirection_hint : ℕ
  pub rsrv1 : ℕ
  pub destination_id : ℕ
  pub x0fee : ℕ

unfoldable pub message_address_raw : MsiMessageAddress → ℕ
message_address_raw a =
    a.rsrv0z
    + a.destination_mode * 2 ^ 2
    + a.redirection_hint * 2 ^ 3
    + u8 a.rsrv1 * 2 ^ 8
    + u8 a.destination_id * 2 ^ 16
    + u8 a.x0fee * 2 ^ 24

pub data DeliveryMode : Type 0 where
  fixed lowest_priority smi nmi init extint : DeliveryMode

unfoldable pub delivery_mode : DeliveryMode → ℕ
delivery_mode fixed = 0
delivery_mode lowest_priority = 1
delivery_mode smi = 2
delivery_mode nmi = 4
delivery_mode init = 5
delivery_mode extint = 7

pub data TriggerLevel : Type 0 where
  deassert assert : TriggerLevel

unfoldable pub trigger_level : TriggerLevel → ℕ
trigger_level deassert = 0
trigger_level assert = 1

pub data TriggerMode : Type 0 where
  edge level : TriggerMode

unfoldable pub trigger_mode : TriggerMode → ℕ
trigger_mode edge = 0
trigger_mode level = 1

-- the union `x86_64_msi_message_data_reg`
pub record MsiMessageData : Type 0 where
  pub vector : ℕ
  pub mode : DeliveryMode
  pub rsrv0 : ℕ
  pub level_of : TriggerLevel
  pub trigger : TriggerMode
  pub rsrv1 : ℕ

unfoldable pub message_data_raw : MsiMessageData → ℕ
unfolding delivery_mode trigger_level trigger_mode
message_data_raw d =
    u8 d.vector
    + delivery_mode d.mode * 2 ^ 8
    + d.rsrv0 * 2 ^ 11
    + trigger_level d.level_of * 2 ^ 14
    + trigger_mode d.trigger * 2 ^ 15
    + d.rsrv1 * 2 ^ 16
