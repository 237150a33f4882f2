-- ===== src/Process/Table/Tests.antt =====
-- `create_proc` on a table of two slots, the second one unused.
use java_script_os.Base.{
  ℕ, ◌≡◌, refl, none, some, List, [], ◌∷◌, arith, set, get_elem?, false, ◌<◌, zero, suc,
}
use java_script_os.Memory.Pmm.{Kmem, pmm_free, pmm_alloc}
use java_script_os.Memory.Pmm.FreeList.{IsFreeList, pmm_free-cons}
use java_script_os.Process.Table.{
  ProcState, unused, running, is_unused, place, Proc, Kernel, find_unused, create_proc,
}
use java_script_os.Process.Table.Create.{Created, IsFirstUnused, create_proc-Created}
use java_script_os.Process.Table.Pids.{PidsAreUnique, create_proc-PidsAreUnique}

abbrev proc : ProcState → ℕ → Proc
proc s n = record {
  sz = 0;
  pml4 = 0;
  kstack = 0;
  state = s;
  pid = n;
  parent = none;
  tf = 0;
  context = 0;
  chan = 0;
  killed = 0;
  cwd = 0;
  name = [];
}

abbrev table : List Proc
table = proc running 1 ∷ proc unused 0 ∷ []

abbrev no_pages : Kmem
no_pages = record { freelist = 0; next = λ p. 0 }

abbrev one_page : Kmem
one_page = pmm_free no_pages 8192

one_page-IsFreeList : IsFreeList one_page (8192 ∷ [])
one_page-IsFreeList = pmm_free-cons no_pages [] 8192 refl (λ e. omega arith) refl

abbrev kernel : Kmem → List Proc → Kernel
kernel m ps = record { procs = ps; nextpid = 2; kmem = m; mem = λ a. 0 }

found : find_unused table ≡ some 1
unfolding find_unused
found = refl

create_proc-Created_example :
    (i : ℕ) × (p : Proc) × IsFirstUnused table i p
    × Created 300 400 8192 []
        (kernel one_page table)
        i
        (create_proc 300 400 (kernel one_page table))
create_proc-Created_example =
    create_proc-Created 300 400 (kernel one_page table) 1 (proc unused 0) 8192 [] refl refl
      (λ e. omega arith) one_page-IsFreeList (omega arith)

table-PidsAreUnique : PidsAreUnique table 2
table-PidsAreUnique = record { below = below; distinct = distinct }
  where
    below : (i : ℕ) (p : Proc) → get_elem? table i ≡ some p → is_unused p.state ≡ false → p.pid < 2
    below zero p e u = ground arith
    below (suc zero) p e u = ground arith
    below (suc (suc i)) p e u = ground arith

    distinct :
        (i j : ℕ) (p q : Proc)
        → get_elem? table i ≡ some p
        → get_elem? table j ≡ some q
        → is_unused p.state ≡ false
        → is_unused q.state ≡ false
        → p.pid ≡ q.pid
        → i ≡ j
    distinct zero zero p q a b c d e = refl
    distinct zero (suc zero) p q a b c d e = ground arith
    distinct zero (suc (suc j)) p q a b c d e = ground arith
    distinct (suc zero) zero p q a b c d e = ground arith
    distinct (suc zero) (suc zero) p q a b c d e = refl
    distinct (suc zero) (suc (suc j)) p q a b c d e = ground arith
    distinct (suc (suc i)) j p q a b c d e = ground arith

abbrev failed : Kernel
failed = record {
  procs = set table 1 (record (proc unused 2) { kstack = 0 });
  nextpid = 3;
  kmem = no_pages;
  mem = λ a. 0;
}

failing : create_proc 300 400 (kernel no_pages table) ≡ some (failed, none)
unfolding create_proc find_unused place pmm_alloc
failing = refl

create_proc-PidsAreUnique_example : PidsAreUnique failed.procs failed.nextpid
create_proc-PidsAreUnique_example =
    create_proc-PidsAreUnique 300 400 (kernel no_pages table) failed none table-PidsAreUnique
      failing
