-- ===== src/X86/Lapic/Tests.antt =====
-- The local APIC on concrete numbers.
use java_script_os.Base.{◌≡◌, true, false, arith}
use java_script_os.X86.Lapic.{Lapic, lapic_is_x2apic_mode, init_lapic, msr_ia32_apic_base}
use java_script_os.X86.Lapic.Laws.{init_lapic-mode}

abbrev fresh : Lapic
fresh = record {
  using_x2apic_mode = false;
  apic_mmio_base = 0xfee00000;
  memory = λ a. 0;
  msr = λ r. 0xfee00900;
  port = λ p. 0;
}

init_lapic-mode_example :
    (lapic_is_x2apic_mode (init_lapic 0 fresh) ≡ true)
    × ((init_lapic 0 fresh).msr msr_ia32_apic_base ≡ 0xfee00900)
    × ((init_lapic 0 fresh).port 0x21 ≡ 0)
    × ((init_lapic 0 fresh).port 0xa1 ≡ 0)
init_lapic-mode_example = init_lapic-mode 0 fresh (omega arith)
