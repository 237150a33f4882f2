-- ===== src/Memory/Pmm.antt =====
-- kernel/memory/pmm.cpp: the free list of physical pages. A free page holds the pointer to the
-- next one in its first eight bytes; `next` is that part of memory, by the page's address. The
-- lock of `kmem` is declared and never taken, and has no field here.
pub mod FreeList
pub mod Range
mod Tests
use java_script_os.Base.{ℕ, zero, suc, ◌+◌, Option, none, some, ◌==◌, if◌then◌else◌, leb, round_up}

-- `PGSIZE` of kernel/arch/x86/paging.h
abbrev pub page_size : ℕ
page_size = 4096

pub record Kmem : Type 0 where
  pub freelist : ℕ
  pub next : ℕ → ℕ

abbrev pub update : (ℕ → ℕ) → ℕ → ℕ → ℕ → ℕ
update f p v q = if q == p then v else f q

unfoldable pub pmm_free : Kmem → ℕ → Kmem
pmm_free k va = record { freelist = va; next = update k.next va k.freelist }

-- The result is the page's address, or 0 if no page is left.
unfoldable pub pmm_alloc : Kmem → Kmem × ℕ
pmm_alloc k =
    let node = k.freelist in
    if node == 0 then (k, node) else (record k { freelist = k.next node }, node)

-- The loop of `pmm_free_range` from `p` on; `none` means that the fuel ran out.
pub free_loop : ℕ → Kmem → ℕ → ℕ → Option Kmem
free_loop zero k p vend = none
free_loop (suc fuel) k p vend =
    let rest = free_loop fuel (pmm_free k p) (p + page_size) vend in
    if leb (p + page_size) vend then rest else some k

pub pmm_free_range : ℕ → Kmem → ℕ → ℕ → Option Kmem
unfolding free_loop
pmm_free_range fuel k vstart vend = free_loop fuel k (round_up vstart page_size) vend
