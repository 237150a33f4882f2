-- ===== src/X86/Paging/Tests.antt =====
-- Tables on pages in the window of the kernel.
use java_script_os.Base.{◌==◌, if◌then◌else◌, ℕ, ◌+◌, ◌≡◌, refl, arith, some, none, Option, [], ◌∷◌}
use java_script_os.Memory.Pmm.{Kmem, pmm_free, pmm_alloc}
use java_script_os.Memory.Pmm.FreeList.{IsFreeList, pmm_free-cons}
use java_script_os.X86.Paging.{
  va_4k, zero_pte, Vm, derefpte, getaddrpte, map_page, map_from, mappages, Kmap, kmap_entry,
  setupkvm,
}
use java_script_os.X86.Paging.Kernel.{Mmu}

abbrev no_pages : Kmem
no_pages = record { freelist = 0; next = λ p. 0 }

abbrev page : ℕ
page = 0xFFFFFFFF80200000

abbrev one_page : Vm
one_page = record { kmem = pmm_free no_pages page; pte = λ t i. zero_pte }

one_page-IsFreeList : IsFreeList one_page.kmem (page ∷ [])
one_page-IsFreeList = pmm_free-cons no_pages [] page refl (λ e. omega arith) refl

abbrev five_pages : Vm
five_pages = record {
  kmem =
      pmm_free
        (pmm_free (pmm_free (pmm_free (pmm_free no_pages page) (page + 4096)) (page + 8192))
          (page + 12288))
        (page + 16384);
  pte = λ t i. zero_pte;
}

abbrev two : Kmap
two = record { va_begin = 0xFFFFFFFF80000000; pa_begin = 0; pa_end = 8192; w = 1 }

-- Null pages and then a fault never come up with five free pages.
vm_of : Option (Vm × ℕ) → Vm
vm_of none = five_pages
vm_of (some (s, r)) = s

abbrev after : Vm
after = vm_of (setupkvm (λ a. 0) 4 two two five_pages)

running : setupkvm (λ a. 0) 4 two two five_pages ≡ some (after, 0)
unfolding setupkvm kmap_entry mappages map_from map_page getaddrpte derefpte va_4k pmm_alloc vm_of
    pmm_free
running = refl

-- The tables of the kernel at two pages of its image, in a memory of empty tables.
abbrev bare : Mmu
bare = record { vm = one_page; cr3 = 0 }

-- Three free pages, and a first table in the kernel's image.
abbrev three_pages : Vm
three_pages = record {
  kmem = pmm_free (pmm_free (pmm_free no_pages page) (page + 4096)) (page + 8192);
  pte = λ t i. zero_pte;
}

-- at the address 0x7000 lie the indices 0, 1, 2 and 7
abbrev memory : ℕ → ℕ
memory a = if a == 0x7000 then 0x40407000 else 0
