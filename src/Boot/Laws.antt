-- ===== src/Boot/Laws.antt =====
-- What the kernel has done when it waits in its loop.
use java_script_os.Base.{
  true, false, ◌++◌, append_assoc, ℕ, suc, ◌+◌, ◌%◌, ◌≤◌, ◌≡◌, ◌≢◌, refl, Bool, some, List,
  if◌then◌else◌, round_up, ap, ◌∙◌,
}
use java_script_os.Memory.Kmalloc.{Heap, init_kheap, header_size}
use java_script_os.Memory.Kmalloc.First.{fresh, Allocated, init_kheap-fresh}
use java_script_os.Memory.Kmalloc.Operators.{operator_new, operator_new-Allocated}
use java_script_os.X86.Paging.{p2kv}
use java_script_os.Boot.Console.{bochs_debug_output-append}
use java_script_os.Boot.{
  Boot, in_hlt_loop, kernel_main, multiboot2_bootloader_magic, print, hello, checks_passed,
  pages_supported, pages_not_supported, bochs_debug_output,
}

heap_eq :
    (h g : Heap)
    → ((q : ℕ) → h.mem q ≡ g.mem q)
    → h.freelist ≡ g.freelist
    → h.bytes_allocated ≡ g.bytes_allocated
    → h ≡ g
heap_eq h g m f b = λ i. record { mem = λ q. m q i; freelist = f i; bytes_allocated = b i }

init_kheap_lem :
    (kmem b : ℕ) (h : Heap)
    → h.freelist ≡ kmem
    → h.bytes_allocated ≡ b
    → ((q : ℕ) → h.mem q ≡ 0)
    → init_kheap kmem h ≡ some (tt, fresh kmem b)
init_kheap_lem kmem b h e e' zeros =
    let (h', r, f, c, m) = init_kheap-fresh kmem b h e e' zeros in
    r ∙ ap (λ (x : Heap). some (tt, x)) (heap_eq h' (fresh kmem b) m f c)

-- the bytes that are shown
abbrev pub messages : Bool → List ℕ
messages supports_1g_pages =
    hello ++ (checks_passed ++ (if supports_1g_pages then pages_supported else pages_not_supported))

-- what `kernel_main` leaves
abbrev booted : (kmem b : ℕ) → Bool → List ℕ → Boot
booted kmem b supports_1g_pages written = record {
  written =
      bochs_debug_output (if supports_1g_pages then pages_supported else pages_not_supported)
        (bochs_debug_output checks_passed (bochs_debug_output hello written));
  heap = fresh kmem b;
}

booted-written :
    (kmem b : ℕ) (supports_1g_pages : Bool) (written : List ℕ)
    → (booted kmem b supports_1g_pages written).written ≡ written ++ messages supports_1g_pages
booted-written kmem b true written =
    bochs_debug_output-append pages_supported _
    ∙ ap (λ l. l ++ pages_supported)
        (bochs_debug_output-append checks_passed _
          ∙ ap (λ l. l ++ checks_passed) (bochs_debug_output-append hello written))
    ∙ append_assoc (written ++ hello) checks_passed pages_supported
    ∙ append_assoc written hello (checks_passed ++ pages_supported)
booted-written kmem b false written =
    bochs_debug_output-append pages_not_supported _
    ∙ ap (λ l. l ++ pages_not_supported)
        (bochs_debug_output-append checks_passed _
          ∙ ap (λ l. l ++ checks_passed) (bochs_debug_output-append hello written))
    ∙ append_assoc (written ++ hello) checks_passed pages_not_supported
    ∙ append_assoc written hello (checks_passed ++ pages_not_supported)

kernel_main-booted :
    (kmem info b : ℕ) (supports_1g_pages : Bool) (s : Boot)
    → p2kv info % 8 ≡ 0
    → s.heap.freelist ≡ kmem
    → s.heap.bytes_allocated ≡ b
    → ((q : ℕ) → s.heap.mem q ≡ 0)
    → kernel_main kmem supports_1g_pages info multiboot2_bootloader_magic s
      ≡ some (in_hlt_loop, booted kmem b supports_1g_pages s.written)
unfolding kernel_main print
kernel_main-booted kmem info b supports_1g_pages s aligned f c zeros =
    rw (aligned, init_kheap_lem kmem b s.heap f c zeros) refl

-- Started with the magic number of the loader and aligned information, and with the array of the heap
-- all zeros and not at address 0, the kernel prints the bytes of its three messages behind what was
-- written before, sets up its heap and ends in its loop of `hlt`. The first `new` on the heap that it
-- leaves, of 5 to 65524 bytes, gives the block that such an allocation takes on a fresh heap, whatever
-- the fuel of the search from 1 on.
pub kernel_main-Allocated :
    (kmem info b n fuel : ℕ) (supports_1g_pages : Bool) (s : Boot)
    → p2kv info % 8 ≡ 0
    → s.heap.freelist ≡ kmem
    → s.heap.bytes_allocated ≡ b
    → ((q : ℕ) → s.heap.mem q ≡ 0)
    → kmem ≢ 0
    → 5 ≤ n
    → n ≤ 65524
    → (s' : Boot) × (p : ℕ) × (h : Heap) × (kernel_main kmem supports_1g_pages info
          multiboot2_bootloader_magic s
        ≡ some (in_hlt_loop, s'))
      × (s'.written ≡ s.written ++ messages supports_1g_pages)
      × (operator_new kmem (suc fuel) n s'.heap ≡ some (p + header_size, h))
      × Allocated kmem (round_up n 4) b p h
kernel_main-Allocated kmem info b n fuel supports_1g_pages s aligned f c zeros ne lo hi =
    let (p, h, e, a) = operator_new-Allocated kmem fuel n b ne lo hi in
    (
      booted kmem b supports_1g_pages s.written,
      p,
      h,
      kernel_main-booted kmem info b supports_1g_pages s aligned f c zeros,
      booted-written kmem b supports_1g_pages s.written,
      e,
      a,
    )
