-- ===== src/X86/Ioapic/Tests.antt =====
-- An I/O APIC with 24 pins.
use java_script_os.Base.{◌+◌, ◌^◌, ◌≡◌, ◌≤◌, ◌==◌, if◌then◌else◌, arith}
use java_script_os.X86.Ioapic.{Ioapic, max_irq, init_ioapic}
use java_script_os.X86.Ioapic.Laws.{init_ioapic-reg}

abbrev device : Ioapic
device = record { ioregsel = 0; reg = λ r. if r == 1 then 0x170011 else 0x10000 }

pins : max_irq device ≤ 120
unfolding max_irq
pins = omega arith

init_ioapic-reg_example : (init_ioapic 32 device).reg 18 ≡ 33 + 2 ^ 15 + 2 ^ 16
unfolding max_irq
init_ioapic-reg_example = init_ioapic-reg 32 device 18 pins
