-- ===== src/Memory/Pmm/Tests.antt =====
-- The page allocator on concrete addresses.
use java_script_os.Base.{◌≡◌, refl, some, [], ◌∷◌, arith}
use java_script_os.Memory.Pmm.{Kmem, pmm_free, pmm_free_range}
use java_script_os.Memory.Pmm.FreeList.{IsFreeList, pmm_free-cons}
use java_script_os.Memory.Pmm.Range.{
  stack_pages, ArePages, pmm_free_range-pages, alloc_many, alloc_many-pages,
}

abbrev empty : Kmem
empty = record { freelist = 0; next = λ p. 0 }

abbrev two_pages : Kmem
two_pages = pmm_free (pmm_free empty 8192) 12288

one-IsFreeList : IsFreeList (pmm_free empty 8192) (8192 ∷ [])
one-IsFreeList = pmm_free-cons empty [] 8192 refl (λ e. omega arith) refl

two_pages-IsFreeList : IsFreeList two_pages (12288 ∷ 8192 ∷ [])
two_pages-IsFreeList =
    pmm_free-cons (pmm_free empty 8192) (8192 ∷ []) 12288 one-IsFreeList (λ e. omega arith) refl

pmm_free_range-pages_example :
    (k' : Kmem) × (pmm_free_range 4 empty 5000 20000 ≡ some k')
    × IsFreeList k' (stack_pages 8192 2 [])
    × ArePages 5000 20000 (stack_pages 8192 2 [])
pmm_free_range-pages_example =
    pmm_free_range-pages 4 empty 5000 20000 refl (λ e. omega arith) (omega arith) (omega arith)
      (omega arith) (omega arith)

alloc_many-pages_example : alloc_many 3 two_pages ≡ 12288 ∷ 8192 ∷ 0 ∷ []
alloc_many-pages_example = alloc_many-pages two_pages (12288 ∷ 8192 ∷ []) two_pages-IsFreeList
