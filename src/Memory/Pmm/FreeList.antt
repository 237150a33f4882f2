-- ===== src/Memory/Pmm/FreeList.antt =====
-- The free list as a stack of pages.
use java_script_os.Base.{ℕ, ◌≡◌, ◌≢◌, refl, Bool, false, ◌||◌, List, [], ◌∷◌, arith, ◌==◌}
use java_script_os.Memory.Pmm.{Kmem, update, pmm_free, pmm_alloc}

abbrev pub has : ℕ → List ℕ → Bool
has a [] = false
has a (x ∷ xs) = (a == x) || has a xs

-- From `p` the stored pointers lead through the distinct pages `xs` to 0.
abbrev pub Chain : (ℕ → ℕ) → ℕ → List ℕ → Type 0
Chain next p [] = p ≡ 0
Chain next p (x ∷ xs) = (p ≡ x) × (x ≢ 0) × (has x xs ≡ false) × Chain next (next x) xs

abbrev pub IsFreeList : Kmem → List ℕ → Type 0
IsFreeList k xs = Chain k.next k.freelist xs

-- A write to a page that is not in the chain leaves the chain alone.
pub Chain-update :
    (next : ℕ → ℕ) (p a v : ℕ) (xs : List ℕ)
    → Chain next p xs
    → has a xs ≡ false
    → Chain (update next a v) p xs
Chain-update next p a v [] c out = c
Chain-update next p a v (x ∷ xs) c out =
    (c.0, c.1, c.2, ground (arith, Chain-update next (next x) a v xs))

-- Freeing a page that is not free, and not null, puts it in front of the free list.
pub pmm_free-cons :
    (k : Kmem) (xs : List ℕ) (va : ℕ)
    → IsFreeList k xs
    → va ≢ 0
    → has va xs ≡ false
    → IsFreeList (pmm_free k va) (va ∷ xs)
unfolding pmm_free
pmm_free-cons k xs va c ne out =
    (refl, ne, out, ground (arith, Chain-update k.next k.freelist va k.freelist xs))

-- What `pmm_alloc` must return and leave, by the pages that are free.
abbrev pub Allocated : List ℕ → Kmem × ℕ → Type 0
Allocated [] (k, page) = (page ≡ 0) × IsFreeList k []
Allocated (x ∷ xs) (k, page) = (page ≡ x) × IsFreeList k xs

-- `pmm_alloc` returns the first page of the free list and leaves the others free; when no page is
-- free it returns 0 and leaves none free.
pub pmm_alloc-Allocated : (k : Kmem) (xs : List ℕ) → IsFreeList k xs → Allocated xs (pmm_alloc k)
unfolding pmm_alloc
pmm_alloc-Allocated k [] c = ground arith
pmm_alloc-Allocated k (x ∷ xs) c = ground arith
