-- ===== src/Devices/Uart/Registers.antt =====
-- The registers of kernel/devices/uart.h: a union is the record of its bit fields, the lowest first.
use java_script_os.Base.{ℕ, ◌+◌, ◌*◌, ◌/◌, ◌%◌, ◌^◌}

-- the union `interrupt_enable`
pub record InterruptEnable : Type 0 where
  pub data_available : ℕ
  pub transmitter_empty : ℕ
  pub receiver_line_status : ℕ
  pub modem_status : ℕ
  pub rsrv0 : ℕ

unfoldable pub interrupt_enable_raw : InterruptEnable → ℕ
interrupt_enable_raw r =
    r.data_available
    + r.transmitter_empty * 2
    + r.receiver_line_status * 2 ^ 2
    + r.modem_status * 2 ^ 3
    + r.rsrv0 * 2 ^ 4

pub data DataBits : Type 0 where
  data_bits_5 data_bits_6 data_bits_7 data_bits_8 : DataBits

unfoldable pub data_bits_value : DataBits → ℕ
data_bits_value data_bits_5 = 0
data_bits_value data_bits_6 = 1
data_bits_value data_bits_7 = 2
data_bits_value data_bits_8 = 3

pub data StopBits : Type 0 where
  stop_bits_1 stop_bits_2 : StopBits

unfoldable pub stop_bits_value : StopBits → ℕ
stop_bits_value stop_bits_1 = 0
stop_bits_value stop_bits_2 = 1

pub data Parity : Type 0 where
  parity_none parity_odd parity_even parity_mark parity_space : Parity

unfoldable pub parity_value : Parity → ℕ
parity_value parity_none = 0
parity_value parity_odd = 1
parity_value parity_even = 3
parity_value parity_mark = 5
parity_value parity_space = 7

-- the union `line_control`
pub record LineControl : Type 0 where
  pub data_bits : DataBits
  pub stop_bits : StopBits
  pub parity : Parity
  pub break_enable : ℕ
  pub dlab : ℕ

unfoldable pub line_control_raw : LineControl → ℕ
unfolding data_bits_value stop_bits_value parity_value
line_control_raw r =
    data_bits_value r.data_bits
    + stop_bits_value r.stop_bits * 2 ^ 2
    + parity_value r.parity * 2 ^ 3
    + r.break_enable * 2 ^ 6
    + r.dlab * 2 ^ 7

pub data FifoTriggerLevel : Type 0 where
  trigger_1b trigger_4b trigger_8b trigger_14b : FifoTriggerLevel

unfoldable pub trigger_level_value : FifoTriggerLevel → ℕ
trigger_level_value trigger_1b = 0
trigger_level_value trigger_4b = 1
trigger_level_value trigger_8b = 2
trigger_level_value trigger_14b = 3

-- the union `fifo_control`
pub record FifoControl : Type 0 where
  pub en : ℕ
  pub clear_receive_fifo : ℕ
  pub clear_transmit_fifo : ℕ
  pub dma_mode_select : ℕ
  pub rsrv0 : ℕ
  pub interrupt_trigger_level : FifoTriggerLevel

unfoldable pub fifo_control_raw : FifoControl → ℕ
unfolding trigger_level_value
fifo_control_raw r =
    r.en
    + r.clear_receive_fifo * 2
    + r.clear_transmit_fifo * 2 ^ 2
    + r.dma_mode_select * 2 ^ 3
    + r.rsrv0 * 2 ^ 4
    + trigger_level_value r.interrupt_trigger_level * 2 ^ 6

-- the union `modem_control`
pub record ModemControl : Type 0 where
  pub data_terminal_ready : ℕ
  pub request_to_send : ℕ
  pub out1 : ℕ
  pub out2 : ℕ
  pub loopback_enable : ℕ
  pub ignored : ℕ

unfoldable pub modem_control_raw : ModemControl → ℕ
modem_control_raw r =
    r.data_terminal_ready
    + r.request_to_send * 2
    + r.out1 * 2 ^ 2
    + r.out2 * 2 ^ 3
    + r.loopback_enable * 2 ^ 4
    + r.ignored * 2 ^ 5

-- the union `line_status`
pub record LineStatus : Type 0 where
  pub data_ready : ℕ
  pub overrun_error : ℕ
  pub parity_error : ℕ
  pub framing_error : ℕ
  pub break_indicator : ℕ
  pub transmitter_buffer_empty : ℕ
  pub transmitter_empty : ℕ
  pub input_error : ℕ

unfoldable pub line_status_of_raw : ℕ → LineStatus
line_status_of_raw r = record {
  data_ready = r % 2;
  overrun_error = r / 2 % 2;
  parity_error = r / 2 ^ 2 % 2;
  framing_error = r / 2 ^ 3 % 2;
  break_indicator = r / 2 ^ 4 % 2;
  transmitter_buffer_empty = r / 2 ^ 5 % 2;
  transmitter_empty = r / 2 ^ 6 % 2;
  input_error = r / 2 ^ 7 % 2;
}
