-- ===== src/Boot/Tests.antt =====
-- The kernel started with its heap at 0x200000.
use java_script_os.Base.{ℕ, ◌+◌, ◌≡◌, refl, true, some, [], arith}
use java_script_os.Memory.Kmalloc.{Heap, header_size}
use java_script_os.Memory.Kmalloc.First.{Allocated}
use java_script_os.Memory.Kmalloc.Operators.{operator_new}
use java_script_os.Boot.{Boot, in_hlt_loop, kernel_main}
use java_script_os.Boot.Laws.{messages, kernel_main-Allocated}

abbrev off : Boot
off = record {
  written = [];
  heap = record { mem = λ q. 0; freelist = 0x200000; bytes_allocated = 0 };
}

kernel_main-Allocated_example :
    (s' : Boot) × (p : ℕ) × (h : Heap) × (kernel_main 0x200000 true 0x10000 0x36d76289 off
      ≡ some (in_hlt_loop, s'))
    × (s'.written ≡ messages true)
    × (operator_new 0x200000 1 100 s'.heap ≡ some (p + header_size, h))
    × Allocated 0x200000 100 0 p h
kernel_main-Allocated_example =
    kernel_main-Allocated 0x200000 0x10000 0 100 0 true off refl refl refl (λ q. refl)
      (λ e. omega arith) (omega arith) (omega arith)
