-- ===== src/X86/Descriptor.antt =====
-- Gates of the interrupt descriptor table (kernel/arch/x86/idt.c, `idtdesc` of idt.h), segment
-- descriptors (kernel/arch/x86/segmentation.hpp) and the descriptor of the task state segment
-- (kernel/arch/x86/tss.c). `N_VECTORS`, `T_SYSCALL` and the addresses of the stubs and of
-- `kernel_tss` are parameters; `lidt` and `ltr` are instructions, and left out. A gate
-- is the values of its fields: gcc gives `segsel` 4 bytes and so `idtdesc` 18, and what a processor that
-- reads gates of 16 bytes makes of the table is not modelled.
pub mod Laws
use java_script_os.Base.{ℕ, zero, suc, ◌+◌, ◌*◌, ◌/◌, ◌%◌, ◌^◌, ◌==◌, if◌then◌else◌, u8, u16, u32}

-- `enum sysdesc_type`
abbrev pub tss_avail : ℕ
tss_avail = 9

abbrev pub int_gate : ℕ
int_gate = 14

abbrev pub trap_gate : ℕ
trap_gate = 15

-- `enum class DPL`
abbrev pub dpl_kernel : ℕ
dpl_kernel = 0

abbrev pub dpl_user : ℕ
dpl_user = 3

-- `segsel`, by its 16 bits
unfoldable pub segsel : ℕ → ℕ → ℕ → ℕ
segsel rpl ti index = rpl % 4 + ti % 2 * 2 ^ 2 + index % 2 ^ 13 * 2 ^ 3

-- the index of `SEGSEL_KCODE` and of `SEGSEL_TSS_LOW`
abbrev pub segidx_kcode : ℕ
segidx_kcode = 1

abbrev pub segidx_tss_low : ℕ
segidx_tss_low = 5

-- `idtdesc`
pub record IdtDesc : Type 0 where
  pub offset_low : ℕ
  pub cs : ℕ
  pub ist : ℕ
  pub zero1 : ℕ
  pub type : ℕ
  pub zero2 : ℕ
  pub dpl : ℕ
  pub p : ℕ
  pub offset_mid : ℕ
  pub offset_high : ℕ
  pub rsrv : ℕ

-- The bit fields that are not set keep what they were.
unfoldable pub setidtdesc : IdtDesc → (type cs off dpl : ℕ) → IdtDesc
setidtdesc gate type cs off dpl = record gate {
  offset_low = off % 2 ^ 16;
  cs = cs;
  type = type % 2 ^ 4;
  dpl = dpl % 2 ^ 2;
  p = 1;
  offset_mid = u16 (off / 2 ^ 16);
  offset_high = u32 (off / 2 ^ 32);
}

abbrev pub set_gate : (ℕ → IdtDesc) → ℕ → IdtDesc → ℕ → IdtDesc
set_gate idt i gate j = if j == i then gate else idt j

module _ (vectors : ℕ → ℕ) where
  -- the loop of `init_idt` from `i` on, with `left` rounds to go
  unfoldable pub gates_from : ℕ → ℕ → (ℕ → IdtDesc) → ℕ → IdtDesc
  unfolding setidtdesc segsel
  gates_from zero i idt = idt
  gates_from (suc left) i idt = gates_from left (i + 1) (
      set_gate idt i (setidtdesc (idt i) int_gate (segsel 0 0 segidx_kcode) (vectors i) dpl_kernel))

  unfoldable pub init_idt : (n_vectors t_syscall : ℕ) → (ℕ → IdtDesc) → ℕ → IdtDesc
  unfolding gates_from setidtdesc segsel
  init_idt n t idt =
      let filled = gates_from n 0 idt in
      set_gate filled t
        (setidtdesc (filled t) trap_gate (segsel 0 0 segidx_kcode) (vectors t) dpl_user)

-- `segdesc`, the lowest field first
pub record SegDesc : Type 0 where
  pub lim_15_0 : ℕ
  pub base_23_0 : ℕ
  pub type : ℕ
  pub s : ℕ
  pub dpl : ℕ
  pub p : ℕ
  pub lim_19_16 : ℕ
  pub avail : ℕ
  pub lm : ℕ
  pub db : ℕ
  pub g : ℕ
  pub base_31_24 : ℕ

-- its 64 bits in memory
unfoldable pub segdesc_raw : SegDesc → ℕ
segdesc_raw d =
    d.lim_15_0
    + d.base_23_0 * 2 ^ 16
    + d.type * 2 ^ 40
    + d.s * 2 ^ 44
    + d.dpl * 2 ^ 45
    + d.p * 2 ^ 47
    + d.lim_19_16 * 2 ^ 48
    + d.avail * 2 ^ 52
    + d.lm * 2 ^ 53
    + d.db * 2 ^ 54
    + d.g * 2 ^ 55
    + d.base_31_24 * 2 ^ 56

unfoldable pub segdesc_of_raw : ℕ → SegDesc
segdesc_of_raw r = record {
  lim_15_0 = r % 2 ^ 16;
  base_23_0 = r / 2 ^ 16 % 2 ^ 24;
  type = r / 2 ^ 40 % 2 ^ 4;
  s = r / 2 ^ 44 % 2;
  dpl = r / 2 ^ 45 % 4;
  p = r / 2 ^ 47 % 2;
  lim_19_16 = r / 2 ^ 48 % 2 ^ 4;
  avail = r / 2 ^ 52 % 2;
  lm = r / 2 ^ 53 % 2;
  db = r / 2 ^ 54 % 2;
  g = r / 2 ^ 55 % 2;
  base_31_24 = r / 2 ^ 56 % 2 ^ 8;
}

-- `load_tss`: the two descriptors for a segment of `size` bytes at `kernel_tss`
unfoldable pub load_tss : (size kernel_tss : ℕ) → SegDesc × SegDesc
unfolding segdesc_of_raw
load_tss size kernel_tss = (
  record {
    lim_15_0 = u16 size;
    base_23_0 = kernel_tss % 2 ^ 24;
    type = tss_avail;
    s = 0;
    dpl = 0;
    p = 1;
    lim_19_16 = u8 (size / 2 ^ 16) % 2 ^ 4;
    avail = 0;
    lm = 0;
    db = 0;
    g = 0;
    base_31_24 = u8 (kernel_tss / 2 ^ 24);
  },
  segdesc_of_raw (u32 (kernel_tss / 2 ^ 32)),
)

-- The selector that `load_tss` loads into the task register.
abbrev pub tss_selector : ℕ
tss_selector = segsel 0 0 segidx_tss_low
