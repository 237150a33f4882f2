-- ===== src/X86/Lapic.antt =====
-- kernel/arch/x86/lapic.c and lapic.h, with the base register of msr.h. The memory behind the
-- registers, the model-specific registers and the ports keep what is written to them; what `cpuid`
-- returns is an argument. `timer.c` calls `lapic_read_register`, which lapic.c spells
-- `lapid_read_register`.
pub mod Laws
mod Tests
use java_script_os.Base.{
  ℕ, ◌+◌, ◌*◌, ◌/◌, ◌%◌, ◌^◌, Bool, true, false, not, ◌==◌, if◌then◌else◌, u8, u32, u64,
}

-- `using_x2apic_mode`, `apic_mmio_base`, and the devices that the code writes to
pub record Lapic : Type 0 where
  pub using_x2apic_mode : Bool
  pub apic_mmio_base : ℕ
  pub memory : ℕ → ℕ
  pub msr : ℕ → ℕ
  pub port : ℕ → ℕ

-- the cells of a memory, of the model-specific registers or of the ports after a store
abbrev pub store : (ℕ → ℕ) → ℕ → ℕ → ℕ → ℕ
store m a v x = if x == a then v else m x

unfoldable pub wrmsr : ℕ → ℕ → Lapic → Lapic
wrmsr r v s = record s { msr = store s.msr r (u64 v) }

unfoldable pub out8 : ℕ → ℕ → Lapic → Lapic
out8 p v s = record s { port = store s.port p (u8 v) }

-- `lapic_spurious_interrupt_vector_reg_t`
pub record SpuriousInterruptVector : Type 0 where
  pub vector : ℕ
  pub apic_software_enable : ℕ
  pub no_focus_processor_checking : ℕ
  pub rsrv0 : ℕ
  pub no_eoi_broadcast : ℕ
  pub rsrv2 : ℕ

unfoldable pub spurious_raw : SpuriousInterruptVector → ℕ
spurious_raw r =
    u8 r.vector
    + r.apic_software_enable * 2 ^ 8
    + r.no_focus_processor_checking * 2 ^ 9
    + r.rsrv0 * 2 ^ 10
    + r.no_eoi_broadcast * 2 ^ 12
    + r.rsrv2 * 2 ^ 13

abbrev pub lapic_id_reg_offset : ℕ
lapic_id_reg_offset = 0x20

abbrev pub lapic_spurious_interrupt_vector_reg_offset : ℕ
lapic_spurious_interrupt_vector_reg_offset = 0xf0

abbrev pub lapic_eoi_reg_offset : ℕ
lapic_eoi_reg_offset = 0xb0

unfoldable pub lapid_read_register : ℕ → Lapic → ℕ
lapid_read_register offset s =
    if s.using_x2apic_mode
    then u32 (s.msr (u32 (0x800 + offset / 2 ^ 4)))
    else s.memory (u64 (s.apic_mmio_base + offset))

unfoldable pub lapic_write_register : ℕ → ℕ → Lapic → Lapic
unfolding wrmsr
lapic_write_register offset value s =
    if s.using_x2apic_mode
    then wrmsr (u32 (0x800 + offset / 2 ^ 4)) value s
    else record s { memory = store s.memory (u64 (s.apic_mmio_base + offset)) (u32 value) }

-- `lapic_xapic_id_reg_t` has the identifier in the last byte.
unfoldable pub lapicid : Lapic → ℕ
unfolding lapid_read_register
lapicid s =
    if s.using_x2apic_mode
    then lapid_read_register lapic_id_reg_offset s
    else lapid_read_register lapic_id_reg_offset s / 2 ^ 24 % 2 ^ 8

unfoldable pub lapic_eoi : Lapic → Lapic
unfolding lapic_write_register
lapic_eoi s = lapic_write_register lapic_eoi_reg_offset 0 s

unfoldable pub lapic_is_x2apic_mode : Lapic → Bool
lapic_is_x2apic_mode s = s.using_x2apic_mode

-- `PIC1_DATA_PORT` and `PIC2_DATA_PORT`
unfoldable pub disable_pic : Lapic → Lapic
unfolding out8
disable_pic s = out8 0xa0 0xff (out8 0x20 0xff s)

abbrev pub msr_ia32_apic_base : ℕ
msr_ia32_apic_base = 0x1b

-- `msr_ia32_apic_base_t::mmio_base`: the struct is not packed, so the 24 bits that do not fit behind
-- the first 12 start at bit 32.
abbrev pub mmio_base : ℕ → ℕ
mmio_base v = v / 2 ^ 32 % 2 ^ 24

-- `CPUID_01_ECX_X2APIC` and `CPUID_01_EDX_APIC`, both tested in `ecx`
abbrev pub has_x2apic : ℕ → Bool
has_x2apic ecx = ecx / 2 ^ 21 % 2 == 1

abbrev pub has_apic : ℕ → Bool
has_apic ecx = ecx / 2 ^ 9 % 2 == 1

-- what `init_lapic` does after it has picked the mode
unfoldable pub enable_lapic : Lapic → Lapic
unfolding lapic_write_register spurious_raw disable_pic
enable_lapic s =
    let sivr = spurious_raw (record {
      vector = 255;
      apic_software_enable = 1;
      no_focus_processor_checking = 0;
      rsrv0 = 0;
      no_eoi_broadcast = 0;
      rsrv2 = 0;
    }) in
    disable_pic (lapic_write_register lapic_spurious_interrupt_vector_reg_offset sivr s)

-- `init_lapic` for the `ecx` that `cpuid` gives. The bit `x2apic_enable` is set in a copy, and the
-- register is written with the number that was read.
unfoldable pub init_lapic : ℕ → Lapic → Lapic
unfolding enable_lapic wrmsr
init_lapic ecx s =
    let apic_base_v = s.msr msr_ia32_apic_base in
    if not (has_x2apic ecx)
    then enable_lapic (wrmsr msr_ia32_apic_base apic_base_v (record s { using_x2apic_mode = true }))
    else if has_apic ecx
    then enable_lapic
        (record s { using_x2apic_mode = false; apic_mmio_base = mmio_base apic_base_v })
    else s
