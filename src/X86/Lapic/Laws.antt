-- ===== src/X86/Lapic/Laws.antt =====
-- The registers of the local APIC, and the mode that `init_lapic` picks.
use java_script_os.Base.{ℕ, ◌+◌, ◌%◌, ◌^◌, ◌<◌, ◌≡◌, true, false, ◌==◌, if◌then◌else◌, u32, arith}
use java_script_os.X86.Lapic.{
  Lapic, lapid_read_register, lapic_write_register, lapic_is_x2apic_mode, init_lapic, enable_lapic,
  disable_pic, out8, spurious_raw, wrmsr, has_x2apic, has_apic, msr_ia32_apic_base,
}

-- In either mode a register reads as the 32 bits that were written to it, and a write leaves the
-- other registers as they were: the offsets of registers are multiples of 16 within a page, which
-- the mapped page holds without wrapping around.
pub lapic_write_register-read :
    (o o' v : ℕ) (s : Lapic)
    → o % 16 ≡ 0
    → o' % 16 ≡ 0
    → o < 4096
    → o' < 4096
    → s.apic_mmio_base + 4096 < 2 ^ 64
    → lapid_read_register o' (lapic_write_register o v s)
      ≡ (if o' == o then u32 v else lapid_read_register o' s)
unfolding lapid_read_register lapic_write_register wrmsr
lapic_write_register-read o o' v s h h' lt lt' fit = ground arith

-- After `init_lapic` the kernel takes the processor to be in x2APIC mode exactly when `cpuid` says
-- that there is no such mode, unless neither test passes and nothing is changed. In no case is the
-- mode enabled in the base register, and the mask registers of the two interrupt controllers, the
-- ports 0x21 and 0xa1, keep what they hold.
pub init_lapic-mode :
    (ecx : ℕ) (s : Lapic)
    → s.msr msr_ia32_apic_base < 2 ^ 64
    → (lapic_is_x2apic_mode (init_lapic ecx s)
        ≡ (if has_x2apic ecx then if has_apic ecx then false else s.using_x2apic_mode else true))
      × ((init_lapic ecx s).msr msr_ia32_apic_base ≡ s.msr msr_ia32_apic_base)
      × ((init_lapic ecx s).port 0x21 ≡ s.port 0x21)
      × ((init_lapic ecx s).port 0xa1 ≡ s.port 0xa1)
unfolding init_lapic lapic_is_x2apic_mode enable_lapic disable_pic out8 spurious_raw wrmsr
    lapic_write_register
init_lapic-mode ecx s h = (ground arith, ground arith, ground arith, ground arith)
