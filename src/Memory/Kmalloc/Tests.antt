-- ===== src/Memory/Kmalloc/Tests.antt =====
-- The kernel heap in an array at address 4096.
use java_script_os.Base.{ℕ, ◌+◌, ◌≡◌, some, arith}
use java_script_os.Memory.Kmalloc.{Heap, header_size, kmalloc}
use java_script_os.Memory.Kmalloc.First.{fresh, Allocated, kmalloc-Allocated}

abbrev zeros : Heap
zeros = record { mem = λ q. 0; freelist = 4096; bytes_allocated = 0 }

kmalloc-Allocated_example :
    (p : ℕ) × (h : Heap) × (kmalloc 4096 3 10 (fresh 4096 0) ≡ some (p + header_size, h))
    × Allocated 4096 12 0 p h
kmalloc-Allocated_example =
    kmalloc-Allocated 4096 2 10 0 (λ e. omega arith) (omega arith) (omega arith)
