-- ===== src/Devices/Uart.antt =====
-- kernel/devices/uart.c and uart.h: the serial line. The writes to the ports are kept as a list, the
-- last one last; what the reads of the line status return is a list argument, and `none` means
-- that it ended while the code still waited. The message on a failed test is left out.
pub mod Registers
pub mod Laws
mod Tests
use java_script_os.Base.{
  ℕ, ◌+◌, ◌/◌, ◌^◌, Bool, true, false, not, Option, none, some, List, [], ◌∷◌, ◌++◌, ◌==◌,
  if◌then◌else◌, u8, u16, ◌>>=◌,
}
use java_script_os.X86.Ioapic.{Ioapic, ioapic_route}
use java_script_os.Devices.Uart.Registers.{
  InterruptEnable, interrupt_enable_raw, LineControl, line_control_raw, data_bits_8, stop_bits_1,
  parity_none, data_bits_5, FifoControl, fifo_control_raw, trigger_1b, ModemControl,
  modem_control_raw, line_status_of_raw,
}

abbrev pub com1_port : ℕ
com1_port = 0x3f8

-- the register offsets
abbrev pub data_reg : ℕ
data_reg = 0

abbrev pub interrupt_enable : ℕ
interrupt_enable = 1

abbrev pub divisor_lsb : ℕ
divisor_lsb = 0

abbrev pub divisor_msb : ℕ
divisor_msb = 1

abbrev pub fifo_control : ℕ
fifo_control = 2

abbrev pub line_control : ℕ
line_control = 3

abbrev pub modem_control : ℕ
modem_control = 4

abbrev pub irq_com1 : ℕ
irq_com1 = 4

-- `uart_present`, the writes to ports, and the I/O APIC
pub record Uart : Type 0 where
  pub present : Bool
  pub written : List (ℕ × ℕ)
  pub ioapic : Ioapic

-- `out8(COM1_PORT + offset, value)`
unfoldable pub uart_write_reg : ℕ → ℕ → Uart → Uart
uart_write_reg offset value s = record s {
  written = s.written ++ ((u16 (com1_port + offset), u8 value) ∷ []);
}

-- the wait of `uart_putc` and the write behind it
unfoldable pub send : List ℕ → ℕ → Uart → Option (List ℕ × Uart)
unfolding uart_write_reg line_status_of_raw
send [] c s = none
send (status ∷ later) c s =
    let rest = send later c s in
    if (line_status_of_raw status).transmitter_buffer_empty == 0
    then rest
    else some (later, uart_write_reg data_reg c s)

unfoldable pub uart_putc : List ℕ → ℕ → Uart → Option (List ℕ × Uart)
unfolding send
uart_putc statuses c s = if not s.present then some (statuses, s) else send statuses c s

-- `uart_getc` when the line status reads `status` and then the data reads `received`; `none` is -1
unfoldable pub uart_getc : (status received : ℕ) → Uart → Option ℕ
unfolding line_status_of_raw
uart_getc status received s =
    if not s.present
    then none
    else if (line_status_of_raw status).data_ready == 0
    then none
    else some (u8 received)

-- `for (char *s = …; *s; ++s) uart_putc(*s);`
unfoldable pub put_all : List ℕ → List ℕ → Uart → Option (List ℕ × Uart)
unfolding uart_putc
put_all statuses [] s = some (statuses, s)
put_all statuses (c ∷ cs) s = do (later, s') ← uart_putc statuses c s; put_all later cs s'

abbrev pub baud_rate_max : ℕ
baud_rate_max = 115200

abbrev pub baud_rate_desired : ℕ
baud_rate_desired = 9600

-- `init_uart` up to the loopback test
unfoldable pub configure : Uart → Uart
unfolding uart_write_reg interrupt_enable_raw line_control_raw fifo_control_raw modem_control_raw
configure s =
    let divisor = baud_rate_max / baud_rate_desired in
    let line : ℕ → LineControl = λ dlab. record {
      data_bits = if dlab == 1 then data_bits_5 else data_bits_8;
      stop_bits = stop_bits_1;
      parity = parity_none;
      break_enable = 0;
      dlab = dlab;
    } in
    let s1 =
      uart_write_reg fifo_control
        (fifo_control_raw (record {
          en = 0;
          clear_receive_fifo = 0;
          clear_transmit_fifo = 0;
          dma_mode_select = 0;
          rsrv0 = 0;
          interrupt_trigger_level = trigger_1b;
        }))
        s in
    let s2 = uart_write_reg line_control (line_control_raw (line 1)) s1 in
    let s3 = uart_write_reg divisor_lsb divisor s2 in
    let s4 = uart_write_reg divisor_msb (divisor / 2 ^ 8) s3 in
    let s5 = uart_write_reg line_control (line_control_raw (line 0)) s4 in
    let s6 =
      uart_write_reg interrupt_enable
        (interrupt_enable_raw (record {
          data_available = 1;
          transmitter_empty = 0;
          receiver_line_status = 0;
          modem_status = 0;
          rsrv0 = 0;
        }))
        s5 in
    let s7 =
      uart_write_reg modem_control
        (modem_control_raw (record {
          data_terminal_ready = 0;
          request_to_send = 1;
          out1 = 1;
          out2 = 1;
          loopback_enable = 1;
          ignored = 0;
        }))
        s6 in
    uart_write_reg data_reg 0xae s7

-- the string `UART initialized` and a newline
abbrev pub initialized : List ℕ
initialized =
    85 ∷ 65 ∷ 82 ∷ 84 ∷ 32 ∷ 105 ∷ 110 ∷ 105 ∷ 116 ∷ 105 ∷ 97 ∷ 108 ∷ 105 ∷ 122 ∷ 101 ∷ 100 ∷ 10
    ∷ []

-- `init_uart`, when the loopback test reads `echo`; `IRQ_INTERRUPT_OFFSET` is declared nowhere
unfoldable pub init_uart : (irq_interrupt_offset echo : ℕ) → List ℕ → Uart → Option (List ℕ × Uart)
unfolding configure uart_write_reg ioapic_route put_all
init_uart irq_interrupt_offset echo statuses s =
    let s1 = configure s in
    let s2 = uart_write_reg modem_control 0 (record s1 { present = true }) in
    let s3 = record s2 { ioapic = ioapic_route irq_interrupt_offset irq_com1 0 0 s2.ioapic } in
    if not (u8 echo == 0xae) then some (statuses, s1) else put_all statuses initialized s3
