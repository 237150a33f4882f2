-- ===== src/X86/Timer/Tests.antt =====
-- The timers on concrete numbers.
use java_script_os.Base.{true, false, replicate, arith}
use java_script_os.X86.Timer.{Timer, calibrate_lapic_timer}
use java_script_os.X86.Timer.Laws.{Calibrated, calibrate_lapic_timer-Calibrated}

abbrev timer : Timer
timer = record {
  pit_ticks = 7;
  lapic_timer_ticks_per_ms = 0;
  lapic_timer_divider = 0;
  lapic = record {
    using_x2apic_mode = false;
    apic_mmio_base = 0xfee00000;
    memory = λ a. 0;
    msr = λ r. 0;
    port = λ p. 0;
  };
  ioapic = record { ioregsel = 0; reg = λ r. 0 };
}

calibrate_lapic_timer-Calibrated_example :
    Calibrated 1000000 (calibrate_lapic_timer (replicate 30 true) 4264967290 timer)
calibrate_lapic_timer-Calibrated_example =
    calibrate_lapic_timer-Calibrated (replicate 30 true) timer 1000000 5 (omega arith) (omega arith)
      (omega arith) (omega arith)
