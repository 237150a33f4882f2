-- ===== src/X86/Paging/Kernel.antt =====
-- The kernel's own tables: `init_vmm` of kernel/memory/vmm.cpp and `cr3` of
-- kernel/arch/x86/paging.h. The addresses of `kpml4` and `kpdpe` are arguments. `lcr3`, an
-- instruction, stores its operand.
use java_script_os.Base.{ℕ, zero, suc, ◌-◌, ◌*◌, ◌/◌, ◌^◌, u64}
use java_script_os.X86.Paging.{Pte, zero_pte, kv2p, pa_to_pte_addr, kva_to_pte_addr, Vm, set_pte}

-- `PTE_PER_PT`
abbrev pub pte_per_pt : ℕ
pte_per_pt = 4096 / 8

abbrev pub one_gb : ℕ
one_gb = 2 ^ 30

-- the entry for the page of 1 GB at a physical address
abbrev pub large_pte : ℕ → Pte
large_pte pa = record zero_pte { p = 1; w = 1; large = 1; addr = pa_to_pte_addr pa }

-- the loop of `init_vmm`, for the entries below `n`
unfoldable pub fill_kpdpe : (n kpdpe : ℕ) → (ℕ → ℕ → Pte) → ℕ → ℕ → Pte
fill_kpdpe zero kpdpe f = f
fill_kpdpe (suc i) kpdpe f = set_pte (fill_kpdpe i kpdpe f) kpdpe i (large_pte (u64 (i * one_gb)))

-- the tables and the register `cr3`, as its `raw`
pub record Mmu : Type 0 where
  pub vm : Vm
  pub cr3 : ℕ

unfoldable pub init_vmm : (kpml4 kpdpe : ℕ) → Mmu → Mmu
unfolding fill_kpdpe
init_vmm kpml4 kpdpe s =
    let f0 = fill_kpdpe (pte_per_pt - 2) kpdpe s.vm.pte in
    let f1 = set_pte f0 kpdpe (pte_per_pt - 2) (large_pte 0) in
    let f2 = set_pte f1 kpdpe (pte_per_pt - 1) (large_pte one_gb) in
    let f3 =
      set_pte f2 kpml4 511 (record zero_pte { p = 1; w = 1; addr = kva_to_pte_addr kpdpe }) in
    record { vm = record s.vm { pte = f3 }; cr3 = kv2p kpml4 }
