-- ===== src/X86/Paging.antt =====
-- Page tables: kernel/arch/x86/paging.h, kernel/arch/x86/memlayout.h and kernel/memory/vmm.cpp. A
-- table is known by its address, an entry by its table and index. A page that is in use as a table
-- is not on the free list of kernel/memory/pmm.cpp, whose links lie in free pages only.
pub mod Laws
pub mod Kernel
pub mod Layout
pub mod Mapping
pub mod Mapped
mod Tests
use java_script_os.Base.{
  ℕ, zero, suc, ◌+◌, ◌-◌, ◌*◌, ◌/◌, ◌%◌, ◌^◌, Option, none, some, ◌&&◌, ◌==◌, leb, ltb,
  if◌then◌else◌, u32, u64, sub64, round_down, ◌>>=◌,
}
use java_script_os.Memory.Pmm.{Kmem, pmm_alloc, page_size}

-- `va_4k`
pub record Va4k : Type 0 where
  pub offset : ℕ
  pub pti : ℕ
  pub pdi : ℕ
  pub pdpti : ℕ
  pub pml4i : ℕ
  pub sgn : ℕ

-- The fields of a virtual address of 64 bits.
unfoldable pub va_4k : ℕ → Va4k
va_4k va = record {
  offset = va % 2 ^ 12;
  pti = va / 2 ^ 12 % 2 ^ 9;
  pdi = va / 2 ^ 21 % 2 ^ 9;
  pdpti = va / 2 ^ 30 % 2 ^ 9;
  pml4i = va / 2 ^ 39 % 2 ^ 9;
  sgn = va / 2 ^ 48 % 2 ^ 16;
}

-- `VA_4K`, for indices and an offset within their widths
abbrev pub make_va_4k : (pml4 pdpt pd pt offset : ℕ) → ℕ
make_va_4k pml4 pdpt pd pt offset =
    pml4 * 2 ^ 39 + pdpt * 2 ^ 30 + pd * 2 ^ 21 + pt * 2 ^ 12 + offset

-- `pte_t`
pub record Pte : Type 0 where
  pub p : ℕ
  pub w : ℕ
  pub u : ℕ
  pub pwt : ℕ
  pub pcd : ℕ
  pub accessed : ℕ
  pub dirty : ℕ
  pub large : ℕ
  pub global : ℕ
  pub layer : ℕ
  pub addr : ℕ
  pub rsrv0 : ℕ
  pub avail2 : ℕ
  pub pk : ℕ
  pub nx : ℕ

abbrev pub zero_pte : Pte
zero_pte = record {
  p = 0;
  w = 0;
  u = 0;
  pwt = 0;
  pcd = 0;
  accessed = 0;
  dirty = 0;
  large = 0;
  global = 0;
  layer = 0;
  addr = 0;
  rsrv0 = 0;
  avail2 = 0;
  pk = 0;
  nx = 0;
}

-- `KVA_KERNEL_BEGIN`, `KV2P` and `P2KV`
abbrev pub kva_kernel_begin : ℕ
kva_kernel_begin = 0xFFFFFFFF80000000

abbrev pub kv2p : ℕ → ℕ
kv2p a = sub64 a kva_kernel_begin

abbrev pub p2kv : ℕ → ℕ
p2kv a = u64 (a + kva_kernel_begin)

-- `PTE_ADDR`; `KVA_TO_PTE_ADDR` and `PA_TO_PTE_ADDR` into the 28 bits of `addr`
abbrev pub pte_addr : Pte → ℕ
pte_addr e = e.addr * 2 ^ 12

abbrev pub pa_to_pte_addr : ℕ → ℕ
pa_to_pte_addr a = u32 (a / 2 ^ 12) % 2 ^ 28

abbrev pub kva_to_pte_addr : ℕ → ℕ
kva_to_pte_addr a = pa_to_pte_addr (kv2p a)

-- the page allocator and the entries of all tables
pub record Vm : Type 0 where
  pub kmem : Kmem
  pub pte : ℕ → ℕ → Pte

abbrev pub set_pte : (ℕ → ℕ → Pte) → ℕ → ℕ → Pte → ℕ → ℕ → Pte
set_pte f t i e t' i' = if (t' == t) && (i' == i) then e else f t' i'

-- `sizeof(pte_t)`, and how many entries of a table lie whole in its page: the 512 of `pt_t` take 6144
-- bytes. Entries are kept by table and index, so nothing is said here of what lies behind a page.
abbrev pub pte_size : ℕ
pte_size = 12

abbrev pub whole_entries : ℕ
whole_entries = 4096 / pte_size

-- `memset` of a page: it takes the low byte of `PTE_LAYER(…)`, which is 0.
abbrev pub clear : (ℕ → ℕ → Pte) → ℕ → ℕ → ℕ → Pte
clear f t t' i' = if (t' == t) && ltb i' whole_entries then zero_pte else f t' i'

-- The table behind entry `i` of table `t`, or 0; `alloc` is 0 or 1.
unfoldable pub derefpte : (t i alloc : ℕ) → Vm → Vm × ℕ
derefpte t i alloc s =
    let e = s.pte t i in
    let (k, pt) = pmm_alloc s.kmem in
    let made = record zero_pte { p = 1; w = 1; addr = kva_to_pte_addr pt } in
    if e.p == 1
    then (s, p2kv (pte_addr e))
    else if alloc == 0
    then (s, 0)
    else if pt == 0
    then (record s { kmem = k }, 0)
    else (record { kmem = k; pte = set_pte (clear s.pte pt) t i made }, pt)

-- `struct kmap`
pub record Kmap : Type 0 where
  pub va_begin : ℕ
  pub pa_begin : ℕ
  pub pa_end : ℕ
  pub w : ℕ

-- `mem64` is the number in the 8 bytes of memory at an address.
module _ (mem64 : ℕ → ℕ) where
  -- `getaddrpte`: the entry for `va`, as table and index. The code takes the indices from the `va_4k`
  -- that lies in memory at the address `va`, not from the address. `none` is an access through a null
  -- table.
  unfoldable pub getaddrpte : (pml4 va alloc : ℕ) → Vm → Option (Vm × ℕ × ℕ)
  unfolding derefpte va_4k
  getaddrpte pml4 va alloc s =
      let v = va_4k (mem64 va) in
      let (s1, pdpt) = derefpte pml4 v.pml4i alloc s in
      let (s2, pd) = derefpte pdpt v.pdpti alloc s1 in
      let (s3, pt) = derefpte pd v.pdi alloc s2 in
      if pdpt == 0
      then none
      else if (s1.pte pdpt v.pdpti).large == 1
      then some (s1, pdpt, v.pdpti)
      else if pd == 0
      then none
      else if (s2.pte pd v.pdi).large == 1
      then some (s2, pd, v.pdi)
      else if pt == 0
      then none
      else some (s3, pt, v.pti)

  -- the body of the loop of `mappages`
  unfoldable pub map_page : (pml4 va pa w u : ℕ) → Vm → Option Vm
  unfolding getaddrpte
  map_page pml4 va pa w u s = do
    (s1, t, i) ← getaddrpte pml4 va 1 s
    some (record s1 {
      pte =
          set_pte s1.pte t i
            (record (s1.pte t i) { w = w % 2; u = u % 2; addr = pa_to_pte_addr pa; p = 1 });
    })

  -- the loop from `va` on; `none` also when the fuel runs out
  pub map_from : ℕ → (pml4 va last_page pa w u : ℕ) → Vm → Option Vm
  unfolding map_page
  map_from zero pml4 va last_page pa w u s = none
  map_from (suc fuel) pml4 va last_page pa w u s =
      let rest : Vm → Option Vm =
        map_from fuel pml4 (u64 (va + page_size)) last_page (pa + page_size) w u in
      if leb va last_page then map_page pml4 va pa w u s >>= rest else some s

  -- `mappages`; the result is 0. An entry is never null, so the code's `return 1` is not reached.
  pub mappages : ℕ → (pml4 va size pa w u : ℕ) → Vm → Option (Vm × ℕ)
  unfolding map_from
  mappages fuel pml4 va size pa w u s = do
    s' ←
        map_from fuel pml4 (round_down va page_size) (round_down (sub64 (va + size) 1) page_size) pa
          w u s
    some (s', 0)

  -- one round of the loop of `setupkvm`: goes on with `rest`, or gives up with 0
  unfoldable pub kmap_entry : ℕ → (pml4 : ℕ) → Kmap → (Vm → Option (Vm × ℕ)) → Vm → Option (Vm × ℕ)
  unfolding mappages
  kmap_entry fuel pml4 k rest s = do
    (s', r) ← mappages fuel pml4 k.va_begin (sub64 k.pa_end k.pa_begin) k.pa_begin k.w 0 s
    if r == 0 then some (s', 0) else rest s'

  -- `setupkvm` with the two entries of `kmap`
  unfoldable pub setupkvm : ℕ → Kmap → Kmap → Vm → Option (Vm × ℕ)
  unfolding kmap_entry
  setupkvm fuel k0 k1 s =
      let (kmem', pml4) = pmm_alloc s.kmem in
      let s' : Vm = record { kmem = kmem'; pte = clear s.pte pml4 } in
      if pml4 == 0
      then some (record s { kmem = kmem' }, 0)
      else kmap_entry fuel pml4 k0 (kmap_entry fuel pml4 k1 (λ t. some (t, pml4))) s'
