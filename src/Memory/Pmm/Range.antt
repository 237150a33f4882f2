-- ===== src/Memory/Pmm/Range.antt =====
-- `pmm_free_range` and `init_pmm`: which pages become free, and in which order they are given out.
use java_script_os.Base.{
  ℕ, zero, suc, ◌+◌, ◌-◌, ◌/◌, ◌%◌, ◌^◌, ◌≤◌, ◌<◌, ◌≡◌, ◌≢◌, refl, false, Option, some, List, [],
  ◌∷◌, ◌++◌, arith, round_up, length,
}
use java_script_os.Memory.Pmm.{page_size, Kmem, pmm_free, pmm_alloc, free_loop, pmm_free_range}
use java_script_os.Memory.Pmm.FreeList.{has, IsFreeList, pmm_free-cons, pmm_alloc-Allocated}

-- The pages `p`, `p + page_size`, … , `n` of them, put one by one in front of `xs`.
abbrev pub stack_pages : ℕ → ℕ → List ℕ → List ℕ
stack_pages p zero xs = xs
stack_pages p (suc n) xs = stack_pages (p + page_size) n (p ∷ xs)

-- All of `xs` are whole pages between `lo` and `hi`.
abbrev pub ArePages : ℕ → ℕ → List ℕ → Type 0
ArePages lo hi [] = Unit {0}
ArePages lo hi (x ∷ xs) = (x % page_size ≡ 0) × (lo ≤ x) × (x + page_size ≤ hi) × ArePages lo hi xs

not-has_of_le : (lo hi a : ℕ) (xs : List ℕ) → ArePages lo hi xs → hi ≤ a → has a xs ≡ false
not-has_of_le lo hi a [] h q = refl
not-has_of_le lo hi a (x ∷ xs) h q = ground (arith, not-has_of_le lo hi a xs h.3)

ArePages-mono : (lo hi hi' : ℕ) (xs : List ℕ) → ArePages lo hi xs → hi ≤ hi' → ArePages lo hi' xs
ArePages-mono lo hi hi' [] h q = tt
ArePages-mono lo hi hi' (x ∷ xs) h q = (h.0, h.1, omega arith, ArePages-mono lo hi hi' xs h.3 q)

record Freed (lo p n vend : ℕ) (xs : List ℕ) (out : Option Kmem) : Type 0 where
  kmem : Kmem
  returns : out ≡ some kmem
  chain : IsFreeList kmem (stack_pages p n xs)
  pages : ArePages lo vend (stack_pages p n xs)

free_loop-Freed :
    (n fuel : ℕ) (k : Kmem) (lo p vend : ℕ) (xs : List ℕ)
    → IsFreeList k xs
    → ArePages lo p xs
    → p % page_size ≡ 0
    → p ≢ 0
    → lo ≤ p
    → p ≤ vend
    → n ≡ (vend - p) / page_size
    → n < fuel
    → Freed lo p n vend xs (free_loop fuel k p vend)
unfolding free_loop
free_loop-Freed n zero k lo p vend xs c ps al ne le le' e f = absurd (omega arith)
free_loop-Freed zero (suc fuel) k lo p vend xs c ps al ne le le' e f = record {
  kmem = k;
  returns = ground arith;
  chain = c;
  pages = ArePages-mono lo p vend xs ps le';
}
free_loop-Freed (suc n) (suc fuel) k lo p vend xs c ps al ne le le' e f =
    let rest =
      free_loop-Freed n fuel (pmm_free k p) lo (p + page_size) vend (p ∷ xs)
        (pmm_free-cons k xs p c ne (not-has_of_le lo p p xs ps (omega arith)))
        (al, le, omega arith, ArePages-mono lo p (p + page_size) xs ps (omega arith)) (omega arith)
        (omega arith) (omega arith) (omega arith) (omega arith) (omega arith) in
    record {
      kmem = rest.kmem;
      returns = ground (arith, rest.returns);
      chain = rest.chain;
      pages = rest.pages;
    }

-- The number of whole pages between the addresses.
abbrev pub page_count : ℕ → ℕ → ℕ
page_count vstart vend = (vend - round_up vstart page_size) / page_size

-- Started with nothing free, `pmm_free_range` on a range that does not begin at 0, holds an aligned
-- address and does not reach the end of the address space returns when it has more fuel than the
-- range has pages. Free are then exactly the aligned pages of the range, the last one first, each
-- wholly inside the range.
pub pmm_free_range-pages :
    (fuel : ℕ) (k : Kmem) (vstart vend : ℕ)
    → k.freelist ≡ 0
    → vstart ≢ 0
    → round_up vstart page_size ≤ vend
    → vend + page_size ≤ 2 ^ 64
    → vstart ≤ vend
    → page_count vstart vend < fuel
    → (k' : Kmem) × (pmm_free_range fuel k vstart vend ≡ some k')
      × IsFreeList k' (stack_pages (round_up vstart page_size) (page_count vstart vend) [])
      × ArePages vstart vend (stack_pages (round_up vstart page_size) (page_count vstart vend) [])
unfolding pmm_free_range
pmm_free_range-pages fuel k vstart vend e ne le top ord f =
    let r =
      free_loop-Freed (page_count vstart vend) fuel k vstart (round_up vstart page_size) vend [] e
        tt (omega arith) (omega arith) (omega arith) le refl f in
    (r.kmem, r.returns, r.chain, r.pages)

-- The results of `n` calls of `pmm_alloc`.
abbrev pub alloc_many : ℕ → Kmem → List ℕ
alloc_many zero k = []
alloc_many (suc n) k = let (k', page) = pmm_alloc k in page ∷ alloc_many n k'

-- Calls of `pmm_alloc` hand out the free pages in order, each once, and the call after the last
-- page returns 0.
pub alloc_many-pages :
    (k : Kmem) (xs : List ℕ) → IsFreeList k xs → alloc_many (suc (length xs)) k ≡ xs ++ (0 ∷ [])
alloc_many-pages k [] c = ground (arith, pmm_alloc-Allocated k [] c)
alloc_many-pages k (x ∷ xs) c =
    let here = pmm_alloc-Allocated k (x ∷ xs) c in
    rw (here.0, alloc_many-pages (pmm_alloc k).0 xs here.1)
