-- ===== src/X86/Paging/Mapping.antt =====
-- What `mappages` makes of one page behind an entry of the first table that is absent.
use java_script_os.Base.{
  ℕ, suc, ◌+◌, ◌%◌, ◌^◌, ◌<◌, ◌≡◌, ◌≢◌, refl, some, true, false, List, ◌∷◌, ◌==◌, leb, u64, sub64,
  round_down, arith, ◌∙◌,
}
use java_script_os.Memory.Pmm.{pmm_alloc, page_size}
use java_script_os.Memory.Pmm.FreeList.{IsFreeList, pmm_alloc-Allocated}
use java_script_os.X86.Paging.{
  va_4k, Pte, zero_pte, pa_to_pte_addr, kva_to_pte_addr, p2kv, pte_addr, Vm, set_pte, clear,
  derefpte, getaddrpte, map_page, map_from, mappages,
}

-- the entry of a table that `derefpte` has made
abbrev pub table_entry : ℕ → Pte
table_entry page = record zero_pte { p = 1; w = 1; addr = kva_to_pte_addr page }

-- the state after a table on `page` was put behind entry `i` of table `t`
unfoldable pub grown : (t i page : ℕ) → Vm → Vm
grown t i page s = record {
  kmem = (pmm_alloc s.kmem).0;
  pte = set_pte (clear s.pte page) t i (table_entry page);
}

pub set_pte_self : (f : ℕ → ℕ → Pte) (t i : ℕ) (e : Pte) → set_pte f t i e t i ≡ e
set_pte_self f t i e = ground arith

pub set_pte-other :
    (f : ℕ → ℕ → Pte) (t i t' i' : ℕ) (e : Pte) → t' ≢ t → set_pte f t i e t' i' ≡ f t' i'
set_pte-other f t i t' i' e h = ground arith

pub set_pte-entry : (f : ℕ → ℕ → Pte) (t i j : ℕ) (e : Pte) → j ≢ i → set_pte f t i e t j ≡ f t j
set_pte-entry f t i j e h = ground arith

pub clear_self : (f : ℕ → ℕ → Pte) (t i : ℕ) → i < 341 → clear f t t i ≡ zero_pte
clear_self f t i h = ground arith

pub clear-other : (f : ℕ → ℕ → Pte) (t t' i : ℕ) → t' ≢ t → clear f t t' i ≡ f t' i
clear-other f t t' i h = ground arith

-- an entry of the fresh table
pub grown-fresh :
    (t i page : ℕ) (s : Vm) (j : ℕ) → page ≢ t → j < 341 → (grown t i page s).pte page j ≡ zero_pte
unfolding grown
grown-fresh t i page s j h lt =
    set_pte-other (clear s.pte page) t i page j (table_entry page) h ∙ clear_self s.pte page j lt

-- the entry that leads to it
pub grown_self : (t i page : ℕ) (s : Vm) → (grown t i page s).pte t i ≡ table_entry page
unfolding grown
grown_self t i page s = set_pte_self (clear s.pte page) t i (table_entry page)

-- another entry of its table
pub grown-entry :
    (t i page : ℕ) (s : Vm) (j : ℕ) → t ≢ page → j ≢ i → (grown t i page s).pte t j ≡ s.pte t j
unfolding grown
grown-entry t i page s j h k =
    set_pte-entry (clear s.pte page) t i j (table_entry page) k ∙ clear-other s.pte page t j h

-- an entry of another table
pub grown-other :
    (t i page : ℕ) (s : Vm) (t' j : ℕ)
    → t' ≢ t
    → t' ≢ page
    → (grown t i page s).pte t' j ≡ s.pte t' j
unfolding grown
grown-other t i page s t' j h k =
    set_pte-other (clear s.pte page) t i t' j (table_entry page) h ∙ clear-other s.pte page t' j k

pub derefpte-grown :
    (t i page : ℕ) (rest : List ℕ) (s : Vm)
    → (s.pte t i).p ≡ 0
    → IsFreeList s.kmem (page ∷ rest)
    → derefpte t i 1 s ≡ (grown t i page s, page)
unfolding derefpte grown
derefpte-grown t i page rest s absent free =
    let e : (pmm_alloc s.kmem).1 ≡ page = (pmm_alloc-Allocated s.kmem (page ∷ rest) free).0 in
    let z : (page == 0) ≡ false = ground (arith, free.1) in rw (absent, e, z) refl

pub grown-IsFreeList :
    (t i page : ℕ) (rest : List ℕ) (s : Vm)
    → IsFreeList s.kmem (page ∷ rest)
    → IsFreeList (grown t i page s).kmem rest
unfolding grown
grown-IsFreeList t i page rest s free = (pmm_alloc-Allocated s.kmem (page ∷ rest) free).1

-- an entry that is there
pub derefpte-present :
    (t i alloc pt : ℕ) (s : Vm)
    → (s.pte t i).p ≡ 1
    → p2kv (pte_addr (s.pte t i)) ≡ pt
    → derefpte t i alloc s ≡ (s, pt)
unfolding derefpte
derefpte-present t i alloc pt s h e = rw (h, e) refl

-- three tables behind the first, none of their entries large
pub getaddrpte-tables :
    (mem64 : ℕ → ℕ) (pml4 va alloc pdpt pd pt : ℕ) (s s1 s2 s3 : Vm)
    → derefpte pml4 (va_4k (mem64 va)).pml4i alloc s ≡ (s1, pdpt)
    → derefpte pdpt (va_4k (mem64 va)).pdpti alloc s1 ≡ (s2, pd)
    → derefpte pd (va_4k (mem64 va)).pdi alloc s2 ≡ (s3, pt)
    → pdpt ≢ 0
    → pd ≢ 0
    → pt ≢ 0
    → (s1.pte pdpt (va_4k (mem64 va)).pdpti).large ≡ 0
    → (s2.pte pd (va_4k (mem64 va)).pdi).large ≡ 0
    → getaddrpte mem64 pml4 va alloc s ≡ some (s3, pt, (va_4k (mem64 va)).pti)
unfolding getaddrpte
getaddrpte-tables mem64 pml4 va alloc pdpt pd pt s s1 s2 s3 d1 d2 d3 n1 n2 n3 z2 z3 =
    let e1 : (pdpt == 0) ≡ false = ground arith in
    let e2 : (pd == 0) ≡ false = ground arith in
    let e3 : (pt == 0) ≡ false = ground arith in rw (d1, d2, d3, e1, z2, e2, z3, e3) refl

-- the entry that `mappages` writes
abbrev pub leaf : (pa w u : ℕ) → Pte → Pte
leaf pa w u e = record e { w = w % 2; u = u % 2; addr = pa_to_pte_addr pa; p = 1 }

unfoldable pub with_leaf : (t i pa w u : ℕ) → Vm → Vm
with_leaf t i pa w u s = record s { pte = set_pte s.pte t i (leaf pa w u (s.pte t i)) }

pub with_leaf-other :
    (t i pa w u : ℕ) (s : Vm) (t' j : ℕ) → t' ≢ t → (with_leaf t i pa w u s).pte t' j ≡ s.pte t' j
unfolding with_leaf
with_leaf-other t i pa w u s t' j h = set_pte-other s.pte t i t' j (leaf pa w u (s.pte t i)) h

pub with_leaf_self :
    (t i pa w u : ℕ) (s : Vm) → (with_leaf t i pa w u s).pte t i ≡ leaf pa w u (s.pte t i)
unfolding with_leaf
with_leaf_self t i pa w u s = set_pte_self s.pte t i (leaf pa w u (s.pte t i))

pub with_leaf-kmem : (t i pa w u : ℕ) (s : Vm) → (with_leaf t i pa w u s).kmem ≡ s.kmem
unfolding with_leaf
with_leaf-kmem t i pa w u s = refl

pub map_page-leaf :
    (mem64 : ℕ → ℕ) (pml4 va pa w u t i : ℕ) (s s1 : Vm)
    → getaddrpte mem64 pml4 va 1 s ≡ some (s1, t, i)
    → map_page mem64 pml4 va pa w u s ≡ some (with_leaf t i pa w u s1)
unfolding map_page with_leaf
map_page-leaf mem64 pml4 va pa w u t i s s1 e = rw e refl

pub mappages-page :
    (mem64 : ℕ → ℕ) (fuel pml4 va pa w u : ℕ) (s s' : Vm)
    → va % page_size ≡ 0
    → va < 2 ^ 48
    → map_page mem64 pml4 va pa w u s ≡ some s'
    → mappages mem64 (suc (suc fuel)) pml4 va page_size pa w u s ≡ some (s', 0)
unfolding mappages map_from
mappages-page mem64 fuel pml4 va pa w u s s' aligned low e =
    let first : round_down va page_size ≡ va = omega arith in
    let last : round_down (sub64 (va + page_size) 1) page_size ≡ va = omega arith in
    let next : u64 (va + page_size) ≡ va + page_size = omega arith in
    let go : leb va va ≡ true = ground arith in
    let stop : leb (va + page_size) va ≡ false = ground arith in
    rw (first, last, next, go, e, stop) refl
