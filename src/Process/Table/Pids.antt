-- ===== src/Process/Table/Pids.antt =====
-- Process ids: no two live processes share one.
use java_script_os.Base.{
  ℕ, ◌+◌, ◌<◌, ◌≡◌, refl, inl, inr, false, Option, some, List, arith, ◌==◌, get_elem?, set,
  Bool-cases, get_elem?-set, >>=-eq-some,
}
use java_script_os.Memory.Pmm.{Kmem, pmm_alloc}
use java_script_os.Process.Table.{
  unused, embryo, is_unused, Proc, Kernel, find_unused, setup_stack, place, create_proc,
}

-- The pid of a slot in use was handed out before, and no other slot in use has it.
pub record PidsAreUnique (procs : List Proc) (nextpid : ℕ) : Type 0 where
  pub below :
      (i : ℕ) (p : Proc) → get_elem? procs i ≡ some p → is_unused p.state ≡ false → p.pid < nextpid
  pub distinct :
      (i j : ℕ) (p q : Proc)
      → get_elem? procs i ≡ some p
      → get_elem? procs j ≡ some q
      → is_unused p.state ≡ false
      → is_unused q.state ≡ false
      → p.pid ≡ q.pid
      → i ≡ j

-- Writing a slot with the next pid, in use or not, keeps pids unique.
set-PidsAreUnique :
    (ps : List Proc) (n i : ℕ) (old new : Proc)
    → PidsAreUnique ps n
    → get_elem? ps i ≡ some old
    → new.pid ≡ n
    → PidsAreUnique (set ps i new) (n + 1)
set-PidsAreUnique ps n i old new u h e = record {
  below = λ j p g used. ground (arith, get_elem?-set ps i j new old h, u.below j p);
  distinct = λ a b p q ga gb ua ub same. ground (
    arith,
    get_elem?-set ps i a new old h,
    get_elem?-set ps i b new old h,
    u.below a p,
    u.below b q,
    u.distinct a b p q,
  );
}

-- Whatever its outcome, `create_proc` writes one slot, with the next pid, and spends that pid.
record Wrote (k k' : Kernel) : Type 0 where
  slot : ℕ
  old : Proc
  new : Proc
  was : get_elem? k.procs slot ≡ some old
  procs : k'.procs ≡ set k.procs slot new
  pid : new.pid ≡ k.nextpid
  next : k'.nextpid ≡ k.nextpid + 1

-- The last part of `create_proc`, by the page that it got.
placed-Wrote :
    (trapret procstart i page : ℕ) (k : Kernel) (kmem' : Kmem) (p : Proc) (k' : Kernel)
    (r : Option ℕ)
    → get_elem? k.procs i ≡ some p
    → place trapret procstart i page k kmem' p ≡ (k', r)
    → Wrote k k'
unfolding place setup_stack
placed-Wrote trapret procstart i page k kmem' p k' r was h = elim (Bool-cases (page == 0)) [
  | inl e ↦ record {
    slot = i;
    old = p;
    new = record p { state = unused; pid = k.nextpid; kstack = page };
    was = was;
    procs = ground arith;
    pid = refl;
    next = ground arith;
  }
  | inr e ↦ record {
    slot = i;
    old = p;
    new =
        (setup_stack trapret procstart (record k { nextpid = k.nextpid + 1; kmem = kmem' }) page
          (record p { state = embryo; pid = k.nextpid })).1;
    was = was;
    procs = ground arith;
    pid = refl;
    next = ground arith;
  }
]

create_proc-Wrote :
    (trapret procstart : ℕ) (k k' : Kernel) (r : Option ℕ)
    → create_proc trapret procstart k ≡ some (k', r)
    → Wrote k k'
unfolding create_proc
create_proc-Wrote trapret procstart k k' r h =
    let (i, found, h1) = >>=-eq-some (find_unused k.procs) _ h in
    let (p, was, h2) = >>=-eq-some (get_elem? k.procs i) _ h1 in
    placed-Wrote trapret procstart i (pmm_alloc k.kmem).1 k (pmm_alloc k.kmem).0 p k' r was
      (ground arith)

-- `create_proc` keeps pids unique, whether or not it gets a page.
pub create_proc-PidsAreUnique :
    (trapret procstart : ℕ) (k k' : Kernel) (r : Option ℕ)
    → PidsAreUnique k.procs k.nextpid
    → create_proc trapret procstart k ≡ some (k', r)
    → PidsAreUnique k'.procs k'.nextpid
create_proc-PidsAreUnique trapret procstart k k' r u h =
    let w = create_proc-Wrote trapret procstart k k' r h in
    rw (w.procs, w.next) (set-PidsAreUnique k.procs k.nextpid w.slot w.old w.new u w.was w.pid)
