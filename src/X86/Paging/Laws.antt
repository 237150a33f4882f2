-- ===== src/X86/Paging/Laws.antt =====
-- Addresses, entries and tables.
use java_script_os.Base.{ℕ, ◌^◌, ◌<◌, ◌≡◌, some, arith}
use java_script_os.X86.Paging.{va_4k, make_va_4k, Vm, mappages, Kmap, kmap_entry, setupkvm}

-- The fields of an address put together by `VA_4K` are the ones it was made from.
pub va_4k-make_va_4k :
    (pml4 pdpt pd pt offset : ℕ)
    → (pml4 < 2 ^ 9) × (pdpt < 2 ^ 9) × (pd < 2 ^ 9) × (pt < 2 ^ 9) × (offset < 2 ^ 12)
    → va_4k (make_va_4k pml4 pdpt pd pt offset)
      ≡ record { offset = offset; pti = pt; pdi = pd; pdpti = pdpt; pml4i = pml4; sgn = 0 }
unfolding va_4k
va_4k-make_va_4k pml4 pdpt pd pt offset h = ground arith

-- Whatever the tables, `setupkvm` never returns the table that it made: when it ends without an
-- invalid access, its result is null.
pub setupkvm-null :
    (mem64 : ℕ → ℕ) (fuel : ℕ) (k0 k1 : Kmap) (s s' : Vm) (r : ℕ)
    → setupkvm mem64 fuel k0 k1 s ≡ some (s', r)
    → r ≡ 0
unfolding setupkvm kmap_entry mappages
setupkvm-null mem64 fuel k0 k1 s s' r h = ground arith
