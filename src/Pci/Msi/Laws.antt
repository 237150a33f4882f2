-- ===== src/Pci/Msi/Laws.antt =====
-- What a message address and a message data register hold.
use java_script_os.Base.{◌/◌, ◌%◌, ◌^◌, ◌<◌, ◌≡◌, ◌≢◌, arith}
use java_script_os.Pci.Msi.{
  MsiMessageAddress, message_address_raw, DeliveryMode, delivery_mode, TriggerLevel, trigger_level,
  TriggerMode, trigger_mode, MsiMessageData, message_data_raw,
}

-- The processor takes a message address for an interrupt when its high 12 bits are 0x0fee.
-- No address that the union describes is one: the bits of the field `_0x0fee` do
-- not reach that place, for any values of the fields.
pub message_address_raw-not_0xfee :
    (a : MsiMessageAddress)
    → a.rsrv0z < 2 ^ 2
    → a.destination_mode < 2
    → a.redirection_hint < 2
    → a.x0fee ≡ 0x0fee
    → message_address_raw a / 2 ^ 20 ≢ 0x0fee
unfolding message_address_raw
message_address_raw-not_0xfee a h0 h1 h2 h3 e = omega arith

delivery_mode-bound : (m : DeliveryMode) → delivery_mode m < 2 ^ 3
unfolding delivery_mode
delivery_mode-bound m = ground arith

trigger_level-bound : (m : TriggerLevel) → trigger_level m < 2
unfolding trigger_level
trigger_level-bound m = ground arith

trigger_mode-bound : (m : TriggerMode) → trigger_mode m < 2
unfolding trigger_mode
trigger_mode-bound m = ground arith

-- A message data register holds the vector, the delivery mode, the level and the trigger mode at the
-- places where the processor looks for them, and the whole number fits 32 bits.
pub message_data_raw-fields :
    (d : MsiMessageData)
    → d.rsrv0 < 2 ^ 3
    → d.rsrv1 < 2 ^ 16
    → (message_data_raw d % 2 ^ 8 ≡ d.vector % 2 ^ 8)
      × (message_data_raw d / 2 ^ 8 % 2 ^ 3 ≡ delivery_mode d.mode)
      × (message_data_raw d / 2 ^ 14 % 2 ≡ trigger_level d.level_of)
      × (message_data_raw d / 2 ^ 15 % 2 ≡ trigger_mode d.trigger)
      × (message_data_raw d < 2 ^ 32)
unfolding message_data_raw
message_data_raw-fields d h0 h1 = (
  omega (
    arith,
    delivery_mode-bound d.mode,
    trigger_level-bound d.level_of,
    trigger_mode-bound d.trigger,
  ),
  omega (
    arith,
    delivery_mode-bound d.mode,
    trigger_level-bound d.level_of,
    trigger_mode-bound d.trigger,
  ),
  omega (
    arith,
    delivery_mode-bound d.mode,
    trigger_level-bound d.level_of,
    trigger_mode-bound d.trigger,
  ),
  omega (
    arith,
    delivery_mode-bound d.mode,
    trigger_level-bound d.level_of,
    trigger_mode-bound d.trigger,
  ),
  omega (
    arith,
    delivery_mode-bound d.mode,
    trigger_level-bound d.level_of,
    trigger_mode-bound d.trigger,
  ),
)
