-- ===== src/Memory/Kmalloc.antt =====
-- kernel/memory/kmalloc.cpp: the kernel heap in the array `kmem`. A pointer is an address, 0 for
-- null, and `kmem` is the address of the array. The code reads and writes 16-bit numbers through its
-- block pointers: `mem` holds the one at each even offset into the array. Every access is checked:
-- `none` is an access outside the array or at an odd offset, undefined behaviour. In a header the
-- low bit is `left_allocated` and the next `allocated`; the rest, a multiple of 4, is the size.
pub mod Access
pub mod First
pub mod Operators
mod Tests
use java_script_os.Base.{
  ℕ, zero, suc, ◌+◌, ◌-◌, ◌*◌, ◌/◌, ◌%◌, ◌^◌, Bool, true, false, ◌&&◌, ◌||◌, Option, none, some,
  ◌==◌, leb, ltb, if◌then◌else◌, u16, u64, sub64, round_up,
}

-- `MAX_ALLOC`, `sizeof(block_header)`, `sizeof(free_block)`, `MIN_BLOCK_SIZE`
abbrev pub max_alloc : ℕ
max_alloc = 65535

abbrev pub header_size : ℕ
header_size = 2

abbrev pub free_block_size : ℕ
free_block_size = 6

abbrev pub min_block_size : ℕ
min_block_size = 8

-- the globals: memory, `freelist` and `bytes_allocated`
pub record Heap : Type 0 where
  pub mem : ℕ → ℕ
  pub freelist : ℕ
  pub bytes_allocated : ℕ

-- What an operation ends in: its value with the new heap, or undefined behaviour.
abbrev pub Outcome : Type 0 → Type 0
Outcome A = Option (A × Heap)

abbrev pub bind : {A B : Type 0} → Outcome A → (A → Heap → Outcome B) → Outcome B
bind none f = none
bind (some (a, h)) f = f a h

abbrev pub Op : Type 0 → Type 0
Op A = Heap → Outcome A

infixl 5 ◌>>=◌ ◌>>◌
abbrev pub ◌>>=◌ : {A B : Type 0} → Op A → (A → Op B) → Op B
◌>>=◌ first rest h = bind (first h) rest

abbrev pub ◌>>◌ : {B : Type 0} → Op (Unit {0}) → Op B → Op B
first >> rest = first >>= λ _. rest

abbrev pub pure : {A : Type 0} → A → Op A
pure value h = some (value, h)

pub get_freelist : Op ℕ
get_freelist h = some (h.freelist, h)

pub set_freelist : ℕ → Op (Unit {0})
set_freelist p h = some (tt, record h { freelist = p })

-- `bytes_allocated += n`, and `-=` with `2 ^ 16 - n`
pub add_allocated : ℕ → Op (Unit {0})
add_allocated n h = some (tt, record h { bytes_allocated = u16 (h.bytes_allocated + n) })

-- the size that `kmalloc` looks for: a multiple of 4, and at least a free block
abbrev pub rounded : ℕ → ℕ
rounded n = if ltb (round_up n 4) free_block_size then free_block_size else round_up n 4

module _ (kmem : ℕ) where
  pub in_range : ℕ → Bool
  in_range a = leb kmem a && leb (a + 2) (kmem + max_alloc) && ((a - kmem) % 2 == 0)

  pub load : ℕ → Op ℕ
  unfolding in_range
  load a h = if in_range a then some (h.mem a, h) else none

  pub store : ℕ → ℕ → Op (Unit {0})
  unfolding in_range
  store a v h =
      if in_range a
      then some (tt, record h { mem = λ q. if q == a then u16 v else h.mem q })
      else none

  -- `size()`, and `proxy::operator=`
  pub size : ℕ → Op ℕ
  unfolding load
  size p = do w ← load p; pure (w / 4 * 4)

  pub set_size : ℕ → ℕ → Op (Unit {0})
  unfolding load store
  set_size p v = do w ← load p; store p (u16 v / 4 * 4 + w % 4)

  pub left_allocated : ℕ → Op ℕ
  unfolding load
  left_allocated p = do w ← load p; pure (w % 2)

  pub set_left_allocated : ℕ → ℕ → Op (Unit {0})
  unfolding load store
  set_left_allocated p b = do w ← load p; store p (w / 2 * 2 + b)

  pub allocated : ℕ → Op ℕ
  unfolding load
  allocated p = do w ← load p; pure (w / 2 % 2)

  pub set_allocated : ℕ → ℕ → Op (Unit {0})
  unfolding load store
  set_allocated p b = do w ← load p; store p (w / 4 * 4 + b * 2 + w % 2)

  -- the members `prev` and `next` of a `free_block`
  pub prev : ℕ → Op ℕ
  unfolding load
  prev p = load (p + 2)

  pub set_prev : ℕ → ℕ → Op (Unit {0})
  unfolding store
  set_prev p v = store (p + 2) v

  pub next : ℕ → Op ℕ
  unfolding load
  next p = load (p + 4)

  pub set_next : ℕ → ℕ → Op (Unit {0})
  unfolding store
  set_next p v = store (p + 4) v

  pub copy_header_to_footer : ℕ → Op (Unit {0})
  unfolding size load store
  copy_header_to_footer block = do n ← size block; w ← load block; store (block + n - header_size) w

  pub init_kheap : Op (Unit {0})
  unfolding get_freelist set_size set_prev set_next
  init_kheap = do f ← get_freelist; set_size f max_alloc; set_prev f 0; set_next f 0

  -- The difference of two pointers, cut to 16 bits.
  pub block_idx : ℕ → ℕ
  block_idx block = u16 (sub64 block kmem)

  pub insert_into_free_list : ℕ → Op (Unit {0})
  unfolding get_freelist set_freelist set_next block_idx
  insert_into_free_list block = do
    previous ← get_freelist
    set_freelist block
    set_next block (block_idx previous)

  -- the write of the second `if` of `remove_from_free_list`
  pub unlink_next : ℕ → Op (Unit {0})
  unfolding next prev set_prev
  unlink_next block = do
    n ← next block
    p ← prev block
    if n == 0 then pure tt else set_prev (kmem + n) p

  -- the writes of the first
  pub unlink_prev : ℕ → Op (Unit {0})
  unfolding next prev set_next set_freelist
  unlink_prev block = do
    p ← prev block
    n ← next block
    if p == 0 then set_freelist (if n == 0 then 0 else kmem + n) else set_next (kmem + p) n

  pub remove_from_free_list : ℕ → Op (Unit {0})
  unfolding unlink_prev unlink_next
  remove_from_free_list block = unlink_prev block >> unlink_next block

  -- The allocated block and, on a split, the free block left of it.
  pub split : ℕ → ℕ → ℕ → Op ℕ
  unfolding set_size set_left_allocated set_allocated copy_header_to_footer insert_into_free_list
  split block n alloc_size = do
    let right = block + n - alloc_size
    set_size right alloc_size
    set_left_allocated right 0
    set_size block (n - alloc_size)
    set_allocated block 0
    copy_header_to_footer block
    insert_into_free_list block
    pure right

  pub use_whole : ℕ → ℕ → Op ℕ
  unfolding set_size set_left_allocated
  use_whole block n = do set_size block n; set_left_allocated block 1; pure block

  -- `place`
  pub place : ℕ → ℕ → Op ℕ
  unfolding size remove_from_free_list split use_whole set_allocated set_left_allocated
      add_allocated
  place block alloc_size = do
    remove_from_free_list block
    n ← size block
    right ←
        if leb min_block_size (sub64 n alloc_size)
        then split block n alloc_size
        else use_whole block n
    set_allocated right 1
    m ← size right
    set_left_allocated (right + m) 1
    add_allocated m
    pure right

  -- The search of `kmalloc`, from the index stored at `cur` on; 0 if no block is large enough.
  pub find_block : ℕ → ℕ → ℕ → Op ℕ
  unfolding load size
  find_block zero alloc_size cur h = none
  find_block (suc fuel) alloc_size cur h =
      let step : Op ℕ = (do
        idx ← load cur
        n ← size (kmem + idx)
        if leb (alloc_size + header_size) n
            then pure (kmem + idx)
            else if idx == 0
            then pure 0
            else find_block fuel alloc_size (kmem + idx + 4)) in
      step h

  pub kmalloc : ℕ → ℕ → Op ℕ
  unfolding find_block get_freelist place
  kmalloc fuel alloc_size = if (alloc_size == 0) || ltb max_alloc alloc_size then pure 0 else (do
    f ← get_freelist
    block ← find_block fuel (rounded alloc_size) (f + 4)
    if block == 0
        then pure 0
        else (do p ← place block (rounded alloc_size); pure (p + header_size)))

  -- `coalesce`, in three parts: the block on the left, the block on the right, the new free block.
  pub coalesce_left : ℕ → ℕ → Op (ℕ × ℕ)
  unfolding left_allocated size remove_from_free_list
  coalesce_left block n = do
    left ← left_allocated block
    if left == 1 then pure (block, n) else (do
      m ← size (block - header_size)
      remove_from_free_list (block - m)
      pure (block - m, u16 (n + m)))

  pub coalesce_right : ℕ → ℕ → Op ℕ
  unfolding allocated size remove_from_free_list set_left_allocated
  coalesce_right right n = do
    used ← allocated right
    if used == 1
        then (do set_left_allocated right 0; pure n)
        else (do m ← size right; remove_from_free_list right; pure (u16 (n + m)))

  pub make_free : ℕ → ℕ → Op (Unit {0})
  unfolding set_size set_allocated set_left_allocated copy_header_to_footer insert_into_free_list
  make_free block n = do
    set_size block n
    set_allocated block 0
    set_left_allocated block 1
    copy_header_to_footer block
    insert_into_free_list block

  pub coalesce : ℕ → Op (Unit {0})
  unfolding size coalesce_left coalesce_right make_free
  coalesce block = do
    n ← size block
    (block', n') ← coalesce_left block n
    n'' ← coalesce_right (block + n) n'
    make_free block' n''

  pub kfree : ℕ → Op (Unit {0})
  unfolding size add_allocated coalesce
  kfree ptr = if ptr == 0 then pure tt else (do
    n ← size (ptr - header_size)
    add_allocated (2 ^ 16 - n)
    coalesce (ptr - header_size))
