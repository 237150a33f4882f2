-- ===== src/X86/Paging/Mapped.antt =====
-- What `getaddrpte` finds of a page that `mappages` has mapped.
use java_script_os.Base.{ℕ, ◌<◌, ◌≡◌, ◌≢◌, false, List, ◌∷◌}
use java_script_os.Memory.Pmm.FreeList.{has, IsFreeList}
use java_script_os.X86.Paging.{Va4k, va_4k, Vm}
use java_script_os.X86.Paging.Mapping.{grown, with_leaf}

-- three pages for tables, apart from each other and from the first table
record Apart (pml4 p1 p2 p3 : ℕ) : Type 0 where
  ne10 : p1 ≢ pml4
  ne20 : p2 ≢ pml4
  ne30 : p3 ≢ pml4
  ne21 : p2 ≢ p1
  ne31 : p3 ≢ p1
  ne32 : p3 ≢ p2

-- the state that `mappages` leaves
abbrev pub mapped : (n : Va4k) (pml4 pa w u p1 p2 p3 : ℕ) → Vm → Vm
mapped n pml4 pa w u p1 p2 p3 s =
    with_leaf p3 n.pti pa w u (grown p2 n.pdi p3 (grown p1 n.pdpti p2 (grown pml4 n.pml4i p1 s)))

-- The indices of entries that lie whole in the page of their table.
pub record Within (n : Va4k) : Type 0 where
  pub pml4i_in : n.pml4i < 341
  pub pdpti_in : n.pdpti < 341
  pub pdi_in : n.pdi < 341
  pub pti_in : n.pti < 341

module _ (mem64 : ℕ → ℕ) (pml4 va pa w u p1 p2 p3 : ℕ) (rest : List ℕ) (s : Vm)
    (absent : (s.pte pml4 (va_4k (mem64 va)).pml4i).p ≡ 0)
    (free : IsFreeList s.kmem (p1 ∷ p2 ∷ p3 ∷ rest)) (used : has pml4 (p1 ∷ p2 ∷ p3 ∷ rest) ≡ false)
    (inside : Within (va_4k (mem64 va))) where
  abbrev v : Va4k
  v = va_4k (mem64 va)
