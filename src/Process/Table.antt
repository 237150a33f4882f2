-- ===== src/Process/Table.antt =====
-- kernel/process/proc.h and `create_proc` of kernel/process/proc.c. A pointer into the table is an
-- index; other pointers are addresses, 0 for null. Bytes of the pages that are in use are in `mem`.
pub mod Create
pub mod Pids
mod Tests
use java_script_os.Base.{
  ℕ, zero, suc, ◌+◌, ◌-◌, ◌*◌, ◌/◌, ◌%◌, ◌^◌, ◌≡◌, Bool, true, false, Option, none, some, List, [],
  ◌∷◌, ◌==◌, if◌then◌else◌, get_elem?, set, u8, u64, ◌>>=◌,
}
use java_script_os.Base.Bytes.{store_bytes}
use java_script_os.Memory.Pmm.{Kmem, pmm_alloc}

-- `enum procstate`
pub data ProcState : Type 0 where
  unused embryo sleeping runnable running zombie : ProcState

abbrev pub is_unused : ProcState → Bool
is_unused unused = true
is_unused _ = false

-- `struct proc`
pub record Proc : Type 0 where
  pub sz : ℕ
  pub pml4 : ℕ
  pub kstack : ℕ
  pub state : ProcState
  pub pid : ℕ
  pub parent : Option ℕ
  pub tf : ℕ
  pub context : ℕ
  pub chan : ℕ
  pub killed : ℕ
  pub cwd : ℕ
  pub name : List ℕ

-- `KSTACKSIZE`, and the sizes of `trapframe`, of a pointer and of `context`
abbrev pub kstack_size : ℕ
kstack_size = 4096

abbrev pub trapframe_size : ℕ
trapframe_size = 184

abbrev pub pointer_size : ℕ
pointer_size = 8

abbrev pub context_size : ℕ
context_size = 40

-- `context`, in the order of its fields in memory
pub record Context : Type 0 where
  pub rdi : ℕ
  pub rsi : ℕ
  pub rbx : ℕ
  pub rbp : ℕ
  pub rip : ℕ

-- `ptable.procs`, `nextpid`, the page allocator and memory
pub record Kernel : Type 0 where
  pub procs : List Proc
  pub nextpid : ℕ
  pub kmem : Kmem
  pub mem : ℕ → ℕ

-- the five words of a `context` at address `a`
unfoldable pub store_context : (ℕ → ℕ) → ℕ → Context → ℕ → ℕ
store_context mem a c =
    let m1 = store_bytes 8 mem a c.rdi in
    let m2 = store_bytes 8 m1 (a + 8) c.rsi in
    let m3 = store_bytes 8 m2 (a + 16) c.rbx in
    let m4 = store_bytes 8 m3 (a + 24) c.rbp in store_bytes 8 m4 (a + 32) c.rip

-- The first loop of `create_proc`: the index of the first unused slot.
pub find_unused : List Proc → Option ℕ
find_unused [] = none
find_unused (p ∷ ps) =
    let rest = find_unused ps in
    if is_unused p.state then some 0 else elim rest [ none ↦ none | some i ↦ some (suc i) ]

-- The stack of a new process on the page at `kstack`: the trap frame on top, below it the return
-- address, below that the context. `*kstack = (uintptr_t)trapret` goes through a pointer to `u8`,
-- so one byte of the address is stored.
pub setup_stack : (trapret procstart : ℕ) → Kernel → ℕ → Proc → Kernel × Proc
unfolding store_context
setup_stack trapret procstart k kstack p =
    let top = kstack + kstack_size in
    let tf = top - trapframe_size in
    let ret = tf - pointer_size in
    let ctx = ret - context_size in
    let m = store_bytes 1 k.mem ret trapret in
    let c : Context = record { rdi = 0; rsi = 0; rbx = 0; rbp = 0; rip = procstart } in
    (record k { mem = store_context m ctx c }, record p { kstack = kstack; tf = tf; context = ctx })

-- The rest of `create_proc`, with `page` from `pmm_alloc` and `kmem'` what that left.
pub place : (trapret procstart i page : ℕ) → Kernel → Kmem → Proc → Kernel × Option ℕ
unfolding setup_stack
place trapret procstart i page k kmem' p =
    let q = record p { state = embryo; pid = k.nextpid } in
    let k' = record k { nextpid = k.nextpid + 1; kmem = kmem' } in
    let (k'', r) = setup_stack trapret procstart k' page q in
    if page == 0
    then (record k' { procs = set k.procs i (record q { state = unused; kstack = page }) }, none)
    else (record k'' { procs = set k.procs i r }, some i)

-- `create_proc`: the slot of the new process, or `none` inside for the null result. The outer
-- `none` is undefined behaviour: with no slot unused the code reads `procs[MAX_PROC]`, and a pid
-- past the largest `int` overflows.
pub create_proc : (trapret procstart : ℕ) → Kernel → Option (Kernel × Option ℕ)
unfolding find_unused place
create_proc trapret procstart k = do
  i ← find_unused k.procs
  p ← get_elem? k.procs i
  if k.nextpid == 2 ^ 31 - 1
      then none
      else (let (kmem', page) = pmm_alloc k.kmem in some (place trapret procstart i page k kmem' p))
