-- ===== src/Memory/Kmalloc/First.antt =====
-- The first allocation from a fresh heap.
use java_script_os.Base.{
  ℕ, ◌+◌, ◌-◌, ◌*◌, ◌/◌, ◌%◌, ◌^◌, ◌≤◌, ◌<◌, ◌≡◌, ◌≢◌, refl, true, some, arith, u16, sub64, ◌==◌,
  if◌then◌else◌, suc, ltb, leb, false, ◌||◌, round_up,
}
use java_script_os.Memory.Kmalloc.{
  Heap, in_range, load, store, size, set_size, set_left_allocated, set_allocated, kmalloc, rounded,
  init_kheap, get_freelist, set_freelist, add_allocated, prev, next, set_prev, set_next,
  copy_header_to_footer, block_idx, insert_into_free_list, unlink_next, unlink_prev,
  remove_from_free_list, split, place, find_block, header_size, max_alloc, min_block_size,
}

abbrev put : ℕ → ℕ → Heap → Heap
put p w h = record h { mem = λ q. if q == p then w else h.mem q }

-- the heap that `init_kheap` leaves of an array of zeros
abbrev pub fresh : ℕ → ℕ → Heap
fresh kmem b = record {
  mem = λ q. if q == kmem then 65532 else 0;
  freelist = kmem;
  bytes_allocated = b;
}

module _ (kmem : ℕ) where
  size-ok :
      (p w n : ℕ) (h : Heap)
      → in_range kmem p ≡ true
      → h.mem p ≡ w
      → w / 4 * 4 ≡ n
      → size kmem p h ≡ some (n, h)
  unfolding size load
  size-ok p w n h ok e e' = ground arith

  set_size-ok :
      (p v w w' : ℕ) (h : Heap)
      → in_range kmem p ≡ true
      → h.mem p ≡ w
      → u16 v / 4 * 4 + w % 4 ≡ w'
      → set_size kmem p v h ≡ some (tt, put p w' h)
  unfolding set_size load store
  set_size-ok p v w w' h ok e e' = ground arith

  set_allocated-ok :
      (p b w w' : ℕ) (h : Heap)
      → in_range kmem p ≡ true
      → h.mem p ≡ w
      → w / 4 * 4 + b * 2 + w % 2 ≡ w'
      → w' < 2 ^ 16
      → set_allocated kmem p b h ≡ some (tt, put p w' h)
  unfolding set_allocated load store
  set_allocated-ok p b w w' h ok e e' lt = ground arith

  set_left_allocated-ok :
      (p b w w' : ℕ) (h : Heap)
      → in_range kmem p ≡ true
      → h.mem p ≡ w
      → w / 2 * 2 + b ≡ w'
      → w' < 2 ^ 16
      → set_left_allocated kmem p b h ≡ some (tt, put p w' h)
  unfolding set_left_allocated load store
  set_left_allocated-ok p b w w' h ok e e' lt = ground arith

  set_next-ok :
      (p v : ℕ) (h : Heap)
      → in_range kmem (p + 4) ≡ true
      → v < 2 ^ 16
      → set_next kmem p v h ≡ some (tt, put (p + 4) v h)
  unfolding set_next store
  set_next-ok p v h ok lt = ground arith

  copy-ok :
      (p w : ℕ) (h : Heap)
      → in_range kmem p ≡ true
      → h.mem p ≡ w
      → w % 4 ≡ 0
      → w < 2 ^ 16
      → in_range kmem (p + w - header_size) ≡ true
      → copy_header_to_footer kmem p h ≡ some (tt, put (p + w - header_size) w h)
  unfolding copy_header_to_footer size load store
  copy-ok p w h ok e al lt ok' = ground arith

  at : (d : ℕ) → d + 2 ≤ max_alloc → d % 2 ≡ 0 → in_range kmem (kmem + d) ≡ true
  unfolding in_range
  at d le even = ground arith

  right_ok : (a : ℕ) → a % 4 ≡ 0 → 8 ≤ a → a + 8 ≤ 65532 → in_range kmem (kmem + 65532 - a) ≡ true
  unfolding in_range
  right_ok a al lo hi = ground arith

  foot_ok :
      (a : ℕ)
      → a % 4 ≡ 0
      → 8 ≤ a
      → a + 8 ≤ 65532
      → in_range kmem (kmem + (65532 - a) - header_size) ≡ true
  unfolding in_range
  foot_ok a al lo hi = ground arith

  last_ok : (a : ℕ) → a + 8 ≤ 65532 → in_range kmem (kmem + 65532 - a + a) ≡ true
  unfolding in_range
  last_ok a hi = ground arith

  first_ok : in_range kmem kmem ≡ true
  unfolding in_range
  first_ok = ground arith

  find_block-fresh :
      (a b fuel : ℕ)
      → a + 2 ≤ 65532
      → find_block kmem (suc fuel) a (kmem + 4) (fresh kmem b) ≡ some (kmem, fresh kmem b)
  unfolding find_block load size in_range
  find_block-fresh a b fuel le = ground arith

  remove-fresh :
      (b : ℕ)
      → remove_from_free_list kmem kmem (fresh kmem b)
        ≡ some (tt, record (fresh kmem b) { freelist = 0 })
  unfolding remove_from_free_list unlink_prev unlink_next set_freelist prev next load in_range
  remove-fresh b = ground arith

  -- the heap that a first allocation of `a` bytes leaves when it has split the only block
  split_heap : ℕ → ℕ → Heap
  split_heap a b =
      let h2 = put (kmem + 65532 - a) a (record (fresh kmem b) { freelist = 0 }) in
      let h5 = put (kmem + (65532 - a) - header_size) (65532 - a) (put kmem (65532 - a) h2) in
      put (kmem + 4) (u16 (sub64 0 kmem)) (record h5 { freelist = kmem })

  split-fresh :
      (a b : ℕ)
      → a % 4 ≡ 0
      → 8 ≤ a
      → a + 8 ≤ 65532
      → (h : Heap) × (split kmem kmem 65532 a (record (fresh kmem b) { freelist = 0 })
          ≡ some (kmem + 65532 - a, h))
        × (h.freelist ≡ kmem)
        × (h.bytes_allocated ≡ b)
        × ((q : ℕ) → h.mem q ≡ (split_heap a b).mem q)
  unfolding split insert_into_free_list get_freelist set_freelist block_idx split_heap
  split-fresh a b al lo hi =
      let r = kmem + 65532 - a in
      let m = 65532 - a in
      let right = right_ok a al lo hi in
      let h0 = record (fresh kmem b) { freelist = 0 } in
      let h1 = put r a h0 in
      let h2 = put r a h1 in
      let h3 = put kmem m h2 in
      let h4 = put kmem m h3 in
      let h5 = put (kmem + m - header_size) m h4 in
      let h6 = record h5 { freelist = kmem } in
      let h7 = put (kmem + 4) (u16 (sub64 0 kmem)) h6 in
      (
        h7,
        rw (
          set_size-ok r a 0 a h0 right (ground arith) (omega arith),
          set_left_allocated-ok r 0 a a h1 right (ground arith) (omega arith) (omega arith),
          set_size-ok kmem m 65532 m h2 first_ok (ground arith) (omega arith),
          set_allocated-ok kmem 0 m m h3 first_ok (ground arith) (omega arith) (omega arith),
          copy-ok kmem m h4 first_ok (ground arith) (omega arith) (omega arith)
              (foot_ok a al lo hi),
          set_next-ok kmem (u16 (sub64 0 kmem)) h6 (at 4 (omega arith) refl) (omega arith),
        ),
        refl,
        refl,
        λ q. ground arith,
      )

  -- What a first allocation has done: the block that it gives, the free block that is left, and the
  -- globals.
  pub record Allocated (a b : ℕ) (p : ℕ) (h : Heap) : Type 0 where
    pub place : p ≡ kmem + 65532 - a
    pub header : h.mem p ≡ a + 2
    pub free_header : h.mem kmem ≡ 65532 - a
    pub free_footer : h.mem (p - header_size) ≡ 65532 - a
    pub sentinel : h.mem (kmem + 65532) ≡ 1
    pub list : h.freelist ≡ kmem
    pub counted : h.bytes_allocated ≡ u16 (b + a)

  place-fresh :
      (a b : ℕ)
      → a % 4 ≡ 0
      → 8 ≤ a
      → a + 8 ≤ 65532
      → (p : ℕ) × (h : Heap) × (place kmem kmem a (fresh kmem b) ≡ some (p, h)) × Allocated a b p h
  unfolding place add_allocated split_heap
  place-fresh a b al lo hi =
      let (h, made, list, bytes, cells) = split-fresh a b al lo hi in
      let r = kmem + 65532 - a in
      let right = right_ok a al lo hi in
      let h0 = record (fresh kmem b) { freelist = 0 } in
      let fits : leb min_block_size (sub64 65532 a) ≡ true = ground arith in
      let h1 = put r (a + 2) h in
      let h2 = put (r + a) 1 h1 in
      let here : h.mem r ≡ a = ground (arith, cells r) in
      let last : h.mem (r + a) ≡ 0 = ground (arith, cells (r + a)) in
      let in_last : in_range kmem (r + a) ≡ true = last_ok a hi in
      (
        r,
        record h2 { bytes_allocated = u16 (b + a) },
        rw (
          remove-fresh b,
          size-ok kmem 65532 65532 h0 first_ok (ground arith) refl,
          fits,
          made,
          set_allocated-ok r 1 a (a + 2) h right here (omega arith) (omega arith),
          size-ok r (a + 2) a h1 right (ground arith) (omega arith),
          set_left_allocated-ok (r + a) 1 0 1 h1 (last_ok a hi) (ground arith) refl (omega arith),
          bytes,
        ),
        record {
          place = refl;
          header = ground arith;
          free_header = ground (arith, cells kmem);
          free_footer = ground (arith, cells (r - header_size));
          sentinel = ground arith;
          list = list;
          counted = refl;
        },
      )

accepted : (n : ℕ) → 5 ≤ n → n ≤ 65524 → ((n == 0) || ltb max_alloc n) ≡ false
accepted n lo hi = ground arith

rounded_lem : (n : ℕ) → 5 ≤ n → n ≤ 65524 → rounded n ≡ round_up n 4
rounded_lem n lo hi = ground arith

not_null : (a : ℕ) → a ≢ 0 → (a == 0) ≡ false
not_null a ne = ground arith

-- On the heap that `init_kheap` leaves of an array of zeros, not at address 0, a request of 5 to 65524 bytes
-- succeeds, whatever the fuel from 1 on. With `a` the request rounded up to a multiple of 4, it
-- returns the address behind the header of the last `a` bytes before the array's end marker; that
-- header has size `a` and says that the block is in use and the one on its left is free; the
-- first `65532 - a` bytes are a free block with the same header and footer, first of the free
-- list; the end marker says that the block on its left is in use; and `a` bytes are counted.
pub kmalloc-Allocated :
    (kmem fuel n b : ℕ)
    → kmem ≢ 0
    → 5 ≤ n
    → n ≤ 65524
    → (p : ℕ) × (h : Heap) × (kmalloc kmem (suc fuel) n (fresh kmem b) ≡ some (p + header_size, h))
      × Allocated kmem (round_up n 4) b p h
unfolding kmalloc get_freelist
kmalloc-Allocated kmem fuel n b ne lo hi =
    let a = round_up n 4 in
    let (p, h, placed, done) = place-fresh kmem a b (omega arith) (omega arith) (omega arith) in
    (
      p,
      h,
      rw (
        accepted n lo hi,
        rounded_lem n lo hi,
        find_block-fresh kmem a b fuel (omega arith),
        not_null kmem ne,
        placed,
      ),
      done,
    )

-- `init_kheap` makes that heap of an array of zeros.
pub init_kheap-fresh :
    (kmem b : ℕ) (h : Heap)
    → h.freelist ≡ kmem
    → h.bytes_allocated ≡ b
    → ((q : ℕ) → h.mem q ≡ 0)
    → (h' : Heap) × (init_kheap kmem h ≡ some (tt, h'))
      × (h'.freelist ≡ kmem)
      × (h'.bytes_allocated ≡ b)
      × ((q : ℕ) → h'.mem q ≡ (fresh kmem b).mem q)
unfolding init_kheap get_freelist set_size set_prev set_next load store in_range
init_kheap-fresh kmem b h e e' zeros =
    let h1 = put kmem 65532 h in
    (
      put (kmem + 4) 0 (put (kmem + 2) 0 h1),
      ground (arith, zeros kmem),
      e,
      e',
      λ q. ground (arith, zeros q),
    )
