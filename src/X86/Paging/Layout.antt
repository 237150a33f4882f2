-- ===== src/X86/Paging/Layout.antt =====
-- Where gcc puts the fields of `pte_t` of kernel/arch/x86/paging.h, whose inner struct is not packed:
-- a field does not cross a boundary of its type, so `addr` begins at bit 32, and an entry takes 12
-- bytes. The processor reads entries of 8 bytes.
use java_script_os.Base.{ℕ, ◌+◌, ◌*◌, ◌/◌, ◌%◌, ◌^◌, ◌≤◌, ◌<◌, ◌≡◌, arith}
use java_script_os.Base.Bytes.{load_bytes}
use java_script_os.X86.Paging.{
  Pte, kva_kernel_begin, p2kv, pte_addr, kva_to_pte_addr, set_pte, pte_size,
}

-- the 12 bytes of an entry as a number
unfoldable pub pte_raw : Pte → ℕ
pte_raw e =
    e.p
    + e.w * 2
    + e.u * 2 ^ 2
    + e.pwt * 2 ^ 3
    + e.pcd * 2 ^ 4
    + e.accessed * 2 ^ 5
    + e.dirty * 2 ^ 6
    + e.large * 2 ^ 7
    + e.global * 2 ^ 8
    + e.layer * 2 ^ 9
    + e.addr * 2 ^ 32
    + e.rsrv0 * 2 ^ 64
    + e.avail2 * 2 ^ 80
    + e.pk * 2 ^ 88
    + e.nx * 2 ^ 92

-- byte `k` of a table
abbrev pub table_byte : (ℕ → Pte) → ℕ → ℕ
table_byte entries k = pte_raw (entries (k / pte_size)) / 256 ^ (k % pte_size) % 256

-- the entry of 8 bytes that the processor reads at an index of a table
unfoldable pub hw_entry : (ℕ → Pte) → ℕ → ℕ
unfolding pte_raw
hw_entry entries i = load_bytes 8 (table_byte entries) (8 * i)

-- the writes behind the loop
abbrev written : (ℕ → ℕ → Pte) → (kpml4 kpdpe : ℕ) → (a b c : Pte) → ℕ → ℕ → Pte
written f kpml4 kpdpe a b c = set_pte (set_pte (set_pte f kpdpe 510 a) kpdpe 511 b) kpml4 511 c

-- A table that `P2KV` and `KV2P` reach: aligned, and in the window of the kernel.
pub record IsKernelTable (t : ℕ) : Type 0 where
  pub aligned : t % 2 ^ 12 ≡ 0
  pub above : kva_kernel_begin ≤ t
  pub inside : t < 2 ^ 64

pub pte_addr-table :
    (t : ℕ) (e : Pte) → IsKernelTable t → e.addr ≡ kva_to_pte_addr t → p2kv (pte_addr e) ≡ t
pte_addr-table t e i h = omega arith
