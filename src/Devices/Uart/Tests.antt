-- ===== src/Devices/Uart/Tests.antt =====
-- A serial line that is busy once.
use java_script_os.Base.{◌∷◌, [], true, replicate, refl, arith}
use java_script_os.Devices.Uart.{Uart, put_all, init_uart}
use java_script_os.Devices.Uart.Registers.{line_status_of_raw}
use java_script_os.Devices.Uart.Laws.{Sent, after, started, put_all-Sent, init_uart-Sent}

abbrev line : Uart
line = record { present = true; written = []; ioapic = record { ioregsel = 0; reg = λ r. 0 } }

put_all-Sent_example :
    Sent 2
      (0 ∷ 0x60 ∷ 0x60 ∷ [])
      (after (79 ∷ 75 ∷ []) line)
      (put_all (0 ∷ 0x60 ∷ 0x60 ∷ []) (79 ∷ 75 ∷ []) line)
unfolding line_status_of_raw
put_all-Sent_example = put_all-Sent (0 ∷ 0x60 ∷ 0x60 ∷ []) (79 ∷ 75 ∷ []) line refl (omega arith)

init_uart-Sent_example :
    Sent 17 (replicate 17 0x60) (started 32 line) (init_uart 32 0xae (replicate 17 0x60) line)
unfolding line_status_of_raw
init_uart-Sent_example = init_uart-Sent 32 0xae (replicate 17 0x60) line (omega arith)
