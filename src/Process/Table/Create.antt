-- ===== src/Process/Table/Create.antt =====
-- What `create_proc` does to the table, the free pages and the new process's stack.
use java_script_os.Base.{
  ℕ, zero, suc, ◌+◌, ◌-◌, ◌%◌, ◌^◌, ◌≤◌, ◌<◌, ◌≡◌, ◌≢◌, refl, ◌⊎◌, inl, inr, true, false, Option,
  none, some, List, [], ◌∷◌, arith, get_elem?, set, ◌∙◌, Bool-cases, Option-cases, subst, Bool,
}
use java_script_os.Base.Bytes.{
  load_bytes, Fits, load_bytes-store_bytes, store_bytes-outside, store_bytes,
}
use java_script_os.Memory.Pmm.{pmm_alloc}
use java_script_os.Memory.Pmm.FreeList.{IsFreeList, pmm_alloc-Allocated}
use java_script_os.Process.Table.{
  embryo, is_unused, Proc, Context, Kernel, store_context, find_unused, setup_stack, create_proc,
  kstack_size, trapframe_size, pointer_size, context_size,
}

-- `i` is the first unused slot, and `p` what it holds.
pub record IsFirstUnused (ps : List Proc) (i : ℕ) (p : Proc) : Type 0 where
  pub slot : get_elem? ps i ≡ some p
  pub free : is_unused p.state ≡ true
  pub first : (j : ℕ) (q : Proc) → j < i → get_elem? ps j ≡ some q → is_unused q.state ≡ false

clash : {b : Bool} → b ≡ true → b ≡ false → ⊥
clash e e' = cc

-- What the loop's outcome says of the table.
pub Searched : List Proc → Option ℕ → Type 0
Searched ps none = (j : ℕ) (q : Proc) → get_elem? ps j ≡ some q → is_unused q.state ≡ false
Searched ps (some i) = (p : Proc) × IsFirstUnused ps i p

all_used-cons :
    (x : Proc) (ps : List Proc)
    → is_unused x.state ≡ false
    → Searched ps none
    → Searched (x ∷ ps) none
unfolding Searched
all_used-cons x ps e s zero q h = ground arith
all_used-cons x ps e s (suc j) q h = s j q h

IsFirstUnused-cons :
    (x : Proc) (ps : List Proc) (i : ℕ) (p : Proc)
    → is_unused x.state ≡ false
    → IsFirstUnused ps i p
    → IsFirstUnused (x ∷ ps) (suc i) p
IsFirstUnused-cons x ps i p e s = record { slot = s.slot; free = s.free; first = first }
  where
    first :
        (j : ℕ) (q : Proc) → j < suc i → get_elem? (x ∷ ps) j ≡ some q → is_unused q.state ≡ false
    first zero q lt h = ground arith
    first (suc j) q lt h = s.first j q (omega arith) h

Searched-cons :
    (x : Proc) (ps : List Proc) (o : Option ℕ)
    → is_unused x.state ≡ false
    → Searched ps o
    → Searched (x ∷ ps) (elim o [ none ↦ none | some i ↦ some (suc i) ])
unfolding Searched
Searched-cons x ps none e s = all_used-cons x ps e s
Searched-cons x ps (some i) e s = (s.0, IsFirstUnused-cons x ps i s.0 e s.1)

-- The loop of `create_proc` finds the first unused slot, and finds none only if every slot is in use.
pub find_unused-Searched : (ps : List Proc) → Searched ps (find_unused ps)
unfolding find_unused Searched
find_unused-Searched [] = λ j q h. cc
find_unused-Searched (x ∷ ps) = elim (Bool-cases (is_unused x.state)) [
  | inl e ↦ rw e (x, record { slot = refl; free = e; first = λ j q lt h. absurd (omega arith) })
  | inr e ↦ rw e (Searched-cons x ps (find_unused ps) e (find_unused-Searched ps))
]

-- What `create_proc` has done when it used slot `i` and the page `page`.
pub record Created (trapret procstart page : ℕ) (rest : List ℕ) (k : Kernel) (i : ℕ)
    (out : Option (Kernel × Option ℕ)) : Type 0 where
  pub kernel : Kernel
  pub proc : Proc
  pub returns : out ≡ some (kernel, some i)
  pub procs : kernel.procs ≡ set k.procs i proc
  pub state : proc.state ≡ embryo
  pub pid : (proc.pid ≡ k.nextpid) × (kernel.nextpid ≡ k.nextpid + 1)
  pub pages : IsFreeList kernel.kmem rest
  pub stack :
      (page ≤ proc.context)
      × (proc.context + context_size + pointer_size ≡ proc.tf)
      × (proc.tf + trapframe_size ≡ page + kstack_size)
  pub return_address : kernel.mem (proc.context + context_size) ≡ trapret % 2 ^ 8
  pub rip : load_bytes 8 kernel.mem (proc.context + 32) ≡ procstart
  pub outside : (q : ℕ) → (q < page) ⊎ (page + kstack_size ≤ q) → kernel.mem q ≡ k.mem q

store_context-outside :
    (mem : ℕ → ℕ) (a : ℕ) (c : Context) (q : ℕ)
    → (q < a) ⊎ (a + context_size ≤ q)
    → store_context mem a c q ≡ mem q
unfolding store_context
store_context-outside mem a c q h =
    store_bytes-outside 8 _ (a + 32) c.rip q (ground arith)
    ∙ store_bytes-outside 8 _ (a + 24) c.rbp q (ground arith)
    ∙ store_bytes-outside 8 _ (a + 16) c.rbx q (ground arith)
    ∙ store_bytes-outside 8 _ (a + 8) c.rsi q (ground arith)
    ∙ store_bytes-outside 8 mem a c.rdi q (ground arith)

rip-store_context :
    (mem : ℕ → ℕ) (a : ℕ) (c : Context)
    → Fits 8 c.rip
    → load_bytes 8 (store_context mem a c) (a + 32) ≡ c.rip
unfolding store_context
rip-store_context mem a c fits = load_bytes-store_bytes 8 _ (a + 32) c.rip fits

stored_byte : (mem : ℕ → ℕ) (a v q : ℕ) → q ≡ a → store_bytes 1 mem a v q ≡ v % 2 ^ 8
unfolding store_bytes
stored_byte mem a v q e = ground arith

create_proc_at :
    (trapret procstart : ℕ) (k : Kernel) (i : ℕ) (p : Proc) (page : ℕ) (rest : List ℕ)
    → find_unused k.procs ≡ some i
    → get_elem? k.procs i ≡ some p
    → k.nextpid ≢ 2 ^ 31 - 1
    → IsFreeList k.kmem (page ∷ rest)
    → Fits 8 procstart
    → Created trapret procstart page rest k i (create_proc trapret procstart k)
unfolding create_proc
create_proc_at trapret procstart k i p page rest found slot pid free fits =
    let got = pmm_alloc-Allocated k.kmem (page ∷ rest) free in
    let k1 = record k { nextpid = k.nextpid + 1; kmem = (pmm_alloc k.kmem).0 } in
    let q1 = record p { state = embryo; pid = k.nextpid } in
    let made = setup_stack trapret procstart k1 page q1 in
    record {
      kernel = record (made.0) { procs = set k.procs i made.1 };
      proc = made.1;
      returns = ground (arith, got.0, free.1);
      procs = refl;
      state = refl;
      pid = (refl, refl);
      pages = got.1;
      stack = omega arith;
      return_address =
          store_context-outside _ _ _ _ (omega arith)
          ∙ stored_byte k.mem (page + kstack_size - trapframe_size - pointer_size) trapret _
              (omega arith);
      rip = rip-store_context _ _ _ fits;
      outside = λ q h.
          store_context-outside _ _ _ q (omega arith)
          ∙ store_bytes-outside 1 k.mem _ trapret q (omega arith);
    }

-- With an UNUSED slot, a pid left and a free page, `create_proc` takes the first slot
-- that is UNUSED, makes it EMBRYO with the next pid, takes the first free page, lays trap frame,
-- return address and context out below the top of that page and inside it, stores the low byte of
-- `trapret` at the return address and `procstart` as the context's `rip`, and writes no other slot and
-- no byte outside the page.
pub create_proc-Created :
    (trapret procstart : ℕ) (k : Kernel) (j : ℕ) (q : Proc) (page : ℕ) (rest : List ℕ)
    → get_elem? k.procs j ≡ some q
    → is_unused q.state ≡ true
    → k.nextpid ≢ 2 ^ 31 - 1
    → IsFreeList k.kmem (page ∷ rest)
    → Fits 8 procstart
    → (i : ℕ) × (p : Proc) × IsFirstUnused k.procs i p
      × Created trapret procstart page rest k i (create_proc trapret procstart k)
unfolding Searched
create_proc-Created trapret procstart k j q page rest slot free_slot pid free fits =
    elim (Option-cases (find_unused k.procs)) [
      | inl e ↦
          let full = subst (λ o. Searched k.procs o) e (find_unused-Searched k.procs) in
          absurd (clash free_slot (full j q slot))
      | inr (i, e) ↦
          let found = subst (λ o. Searched k.procs o) e (find_unused-Searched k.procs) in
          (
            i,
            found.0,
            found.1,
            create_proc_at trapret procstart k i found.0 page rest e found.1.slot pid free fits,
          )
    ]

-- With every slot in use, `create_proc` is undefined: it reads the slot behind the table.
pub create_proc-full :
    (trapret procstart : ℕ) (k : Kernel)
    → ((j : ℕ) (q : Proc) → get_elem? k.procs j ≡ some q → is_unused q.state ≡ false)
    → create_proc trapret procstart k ≡ none
unfolding create_proc Searched
create_proc-full trapret procstart k used = elim (Option-cases (find_unused k.procs)) [
  | inl e ↦ rw e
  | inr (i, e) ↦
      let found = subst (λ o. Searched k.procs o) e (find_unused-Searched k.procs) in
      absurd (clash found.1.free (used i found.0 found.1.slot))
]
