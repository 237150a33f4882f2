-- ===== src/Boot.antt =====
-- kernel/kernel_main.cpp and kernel/console.cpp: what the kernel does when it is started, up to the
-- loop that it does not leave; what stands behind that loop is not reached. The console is the list
-- of bytes written to its port, the last one last.
pub mod Laws
pub mod Console
pub mod Madt
mod Tests
use java_script_os.Base.{
  ℕ, zero, suc, ◌+◌, ◌%◌, Bool, Option, none, some, List, [], ◌∷◌, ◌++◌, ◌==◌, ltb, if◌then◌else◌,
  u8, ◌>>=◌,
}
use java_script_os.Memory.Kmalloc.{Heap, init_kheap}
use java_script_os.X86.Paging.{p2kv}
use java_script_os.Libc.Stdio.{Arg, vsprintf}

-- `bochs_debug_output` of a string, which ends at its terminator
unfoldable pub bochs_debug_output : List ℕ → List ℕ → List ℕ
bochs_debug_output [] written = written
bochs_debug_output (c ∷ s) written = bochs_debug_output s (written ++ (u8 c ∷ []))

-- the string at an address, by as many reads as there is fuel
unfoldable pub string_at : ℕ → (ℕ → ℕ) → ℕ → Option (List ℕ)
string_at zero mem a = none
string_at (suc fuel) mem a =
    let rest = string_at fuel mem (a + 1) >>= λ (s : List ℕ). some (mem a ∷ s) in
    if mem a == 0 then some [] else rest

-- `sizeof(buf)` in `debug_printf`
abbrev pub buf_size : ℕ
buf_size = 1024

-- what `debug_printf` does with what `vsprintf` returns; `none` is a write past the end of `buf`.
abbrev pub print_from : ℕ → List ℕ → (ℕ → ℕ) × ℕ → Option (List ℕ)
print_from buf written (mem, n) =
    let shown =
      string_at buf_size mem buf >>= λ (s : List ℕ). some (bochs_debug_output s written) in
    if ltb n buf_size then shown else none

-- `debug_printf`, with `buf` at an address
unfoldable pub debug_printf : ℕ → List ℕ → List Arg → (ℕ → ℕ) → List ℕ → Option (List ℕ)
unfolding vsprintf string_at bochs_debug_output
debug_printf buf fmt args mem written = vsprintf buf fmt args mem >>= print_from buf written

-- `MULTIBOOT2_BOOTLOADER_MAGIC`
abbrev pub multiboot2_bootloader_magic : ℕ
multiboot2_bootloader_magic = 0x36d76289

-- the console and the kernel heap
pub record Boot : Type 0 where
  pub written : List ℕ
  pub heap : Heap

-- `kernel_main` returns, or it is in its loop of `hlt` for good.
pub data End : Type 0 where
  returned in_hlt_loop : End

-- `Hello, Kernel!`, `Checks Passed.`, `1G pages supported.` and `1G pages not supported.`, each with
-- a newline
abbrev pub hello : List ℕ
hello = 72 ∷ 101 ∷ 108 ∷ 108 ∷ 111 ∷ 44 ∷ 32 ∷ 75 ∷ 101 ∷ 114 ∷ 110 ∷ 101 ∷ 108 ∷ 33 ∷ 10 ∷ []

abbrev pub checks_passed : List ℕ
checks_passed =
    67 ∷ 104 ∷ 101 ∷ 99 ∷ 107 ∷ 115 ∷ 32 ∷ 80 ∷ 97 ∷ 115 ∷ 115 ∷ 101 ∷ 100 ∷ 46 ∷ 10 ∷ []

abbrev pub pages_supported : List ℕ
pages_supported =
    49 ∷ 71 ∷ 32 ∷ 112 ∷ 97 ∷ 103 ∷ 101 ∷ 115 ∷ 32 ∷ 115 ∷ 117 ∷ 112 ∷ 112 ∷ 111 ∷ 114 ∷ 116 ∷ 101
    ∷ 100 ∷ 46 ∷ 10 ∷ []

abbrev pub pages_not_supported : List ℕ
pages_not_supported =
    49 ∷ 71 ∷ 32 ∷ 112 ∷ 97 ∷ 103 ∷ 101 ∷ 115 ∷ 32 ∷ 110 ∷ 111 ∷ 116 ∷ 32 ∷ 115 ∷ 117 ∷ 112 ∷ 112
    ∷ 111 ∷ 114 ∷ 116 ∷ 101 ∷ 100 ∷ 46 ∷ 10 ∷ []

unfoldable pub print : List ℕ → Boot → Boot
unfolding bochs_debug_output
print s b = record b { written = bochs_debug_output s b.written }

-- `kernel_main`, for the array `kmem` and what `cpuid::supports_1g_pages` returns
unfoldable pub kernel_main :
    (kmem : ℕ) (supports_1g_pages : Bool) (multiboot2_info magic : ℕ) → Boot → Option (End × Boot)
unfolding print
kernel_main kmem supports_1g_pages multiboot2_info magic b =
    let b1 = print hello b in
    let b2 = print checks_passed b1 in
    let b3 = print (if supports_1g_pages then pages_supported else pages_not_supported) b2 in
    let started : Option (End × Boot) = init_kheap kmem b3.heap >>= λ (r : Unit {0} × Heap).
    some (in_hlt_loop, record b3 { heap = r.1 }) in
    if magic == multiboot2_bootloader_magic
    then if p2kv multiboot2_info % 8 == 0 then started else some (returned, b1)
    else some (returned, b1)
