-- ===== src/BufferCache/Laws.antt =====
-- Which buffer `buffer_get` returns.
use java_script_os.Base.{
  ℕ, zero, suc, ◌+◌, ◌<◌, ◌≡◌, ◌≢◌, Bool, true, false, ◌&&◌, none, some, ◌==◌, refl, arith,
}
use java_script_os.BufferCache.{
  Buffer, Cache, push_front, push_from, init_buffer_cache, holds, is_free, find_from, recycle,
  buffer_get,
}

-- Following `next` from `b`, the buffer `i` is the first that passes the test, `n` links further on;
-- `start` is not met on the way.
abbrev pub Leads : (Buffer → Bool) → (start : ℕ) → Cache → ℕ → ℕ → ℕ → Type 0
Leads test start c zero b i = (b ≡ i) × (test (c.bufs i) ≡ true)
Leads test start c (suc n) b i =
    (test (c.bufs b) ≡ false)
    × ((m : ℕ) × ((c.bufs b).next ≡ some m) × (m ≢ start) × Leads test start c n m i)

-- Following `next` from `b`, no buffer passes the test on the way back to `start`, `n` links further.
abbrev pub Fails : (Buffer → Bool) → (start : ℕ) → Cache → ℕ → ℕ → Type 0
Fails test start c zero b = (test (c.bufs b) ≡ false) × ((c.bufs b).next ≡ some start)
Fails test start c (suc n) b =
    (test (c.bufs b) ≡ false)
    × ((m : ℕ) × ((c.bufs b).next ≡ some m) × (m ≢ start) × Fails test start c n m)

find_from-Leads :
    (test : Buffer → Bool) (start : ℕ) (c : Cache) (n fuel b i : ℕ)
    → Leads test start c n b i
    → n < fuel
    → find_from fuel test start b c ≡ some (some i)
unfolding find_from
find_from-Leads test start c zero zero b i h lt = absurd (omega arith)
find_from-Leads test start c zero (suc fuel) b i (e, t) lt = ground arith
find_from-Leads test start c (suc n) zero b i h lt = absurd (omega arith)
find_from-Leads test start c (suc n) (suc fuel) b i (t, (m, e, ne, h)) lt =
    ground (arith, find_from-Leads test start c n fuel m i h (omega arith))

find_from-Fails :
    (test : Buffer → Bool) (start : ℕ) (c : Cache) (n fuel b : ℕ)
    → Fails test start c n b
    → n < fuel
    → find_from fuel test start b c ≡ some none
unfolding find_from
find_from-Fails test start c n zero b h lt = absurd (omega arith)
find_from-Fails test start c zero (suc fuel) b (t, e) lt = ground arith
find_from-Fails test start c (suc n) (suc fuel) b (t, (m, e, ne, h)) lt =
    ground (arith, find_from-Fails test start c n fuel m h (omega arith))

-- When the links from the most recently used buffer lead to one that holds the block, `buffer_get`
-- returns the first such buffer, and changes nothing: not even the buffer's count of references.
pub buffer_get-cached :
    (fuel dev blockno n i : ℕ) (c : Cache)
    → Leads (holds dev blockno) c.mru c n c.mru i
    → n < fuel
    → buffer_get fuel dev blockno c ≡ some (c, some i)
unfolding buffer_get
buffer_get-cached fuel dev blockno n i c h lt =
    rw (find_from-Leads (holds dev blockno) c.mru c n fuel c.mru i h lt)

-- The buffer `i` of `c'` is for this block, not valid, not dirty and referenced once; its links, all
-- other buffers and the two ends of the list are as in `c`.
pub record Recycled (d block i : ℕ) (c c' : Cache) : Type 0 where
  pub dev : (c'.bufs i).dev ≡ d
  pub blockno : (c'.bufs i).blockno ≡ block
  pub state : ((c'.bufs i).valid ≡ false) × ((c'.bufs i).dirty ≡ false)
  pub refcnt : (c'.bufs i).refcnt ≡ 1
  pub links : ((c'.bufs i).next ≡ (c.bufs i).next) × ((c'.bufs i).prev ≡ (c.bufs i).prev)
  pub others : (j : ℕ) → j ≢ i → c'.bufs j ≡ c.bufs j
  pub ends : (c'.mru ≡ c.mru) × (c'.lru ≡ c.lru)

Leads-test :
    (test : Buffer → Bool) (start : ℕ) (c : Cache) (n b i : ℕ)
    → Leads test start c n b i
    → test (c.bufs i) ≡ true
Leads-test test start c zero b i h = h.1
Leads-test test start c (suc n) b i (t, (m, e, ne, h)) = Leads-test test start c n m i h

recycle-Recycled :
    (dev blockno i : ℕ) (c : Cache)
    → is_free (c.bufs i) ≡ true
    → Recycled dev blockno i c (recycle dev blockno i c)
recycle-Recycled dev blockno i c free = record {
  dev = ground arith;
  blockno = ground arith;
  state = ground arith;
  refcnt = ground arith;
  links = ground arith;
  others = λ j ne. ground arith;
  ends = (refl, refl);
}

-- When the links are a ring in which no buffer holds the block, and lead from the least recently used
-- one to a buffer that is not referenced and not dirty, `buffer_get` returns the first such buffer:
-- it is now for the block, not valid and referenced once, and nothing else has changed.
pub buffer_get-Recycled :
    (fuel dev blockno m n i : ℕ) (c : Cache)
    → Fails (holds dev blockno) c.mru c m c.mru
    → m < fuel
    → Leads is_free c.lru c n c.lru i
    → n < fuel
    → (c' : Cache) × (buffer_get fuel dev blockno c ≡ some (c', some i))
      × Recycled dev blockno i c c'
unfolding buffer_get
buffer_get-Recycled fuel dev blockno m n i c miss lm h ln = (
  recycle dev blockno i c,
  rw (
    find_from-Fails (holds dev blockno) c.mru c m fuel c.mru miss lm,
    find_from-Leads is_free c.lru c n fuel c.lru i h ln,
  ),
  recycle-Recycled dev blockno i c (Leads-test is_free c.lru c n c.lru i h),
)

-- No buffer is linked to another, and every buffer is for block 0 of device 0.
record Unlinked (c : Cache) : Type 0 where
  next : (i : ℕ) → (c.bufs i).next ≡ none
  dev : (i : ℕ) → (c.bufs i).dev ≡ 0
  blockno : (i : ℕ) → (c.bufs i).blockno ≡ 0

push_front-Unlinked : (b : ℕ) (c : Cache) → Unlinked c → Unlinked (push_front b c)
unfolding push_front
push_front-Unlinked b c u = record {
  next = λ i. ground (arith, u.next i, u.next b, u.next c.mru);
  dev = λ i. ground (arith, u.dev i, u.dev b, u.dev c.mru);
  blockno = λ i. ground (arith, u.blockno i, u.blockno b, u.blockno c.mru);
}

push_from-Unlinked : (n b : ℕ) (c : Cache) → Unlinked c → Unlinked (push_from n b c)
unfolding push_from
push_from-Unlinked zero b c u = u
push_from-Unlinked (suc n) b c u = push_from-Unlinked n (b + 1) _ (push_front-Unlinked b c u)

init_buffer_cache-Unlinked : (c : Cache) → Unlinked c → Unlinked (init_buffer_cache c)
unfolding init_buffer_cache
init_buffer_cache-Unlinked c u =
    push_from-Unlinked 64 0 (record c { mru = 0; lru = 0 })
      (record { next = u.next; dev = u.dev; blockno = u.blockno })

buffer_get_null :
    (fuel dev blockno : ℕ) (c : Cache)
    → find_from fuel (holds dev blockno) c.mru c.mru c ≡ none
    → buffer_get fuel dev blockno c ≡ none
unfolding buffer_get
buffer_get_null fuel dev blockno c h = rw h

find_from_null :
    (fuel dev blockno : ℕ) (c : Cache)
    → Unlinked c
    → ((0 == dev) && (0 == blockno)) ≡ false
    → find_from fuel (holds dev blockno) c.mru c.mru c ≡ none
unfolding find_from
find_from_null zero dev blockno c u other = refl
find_from_null (suc fuel) dev blockno c u other =
    let missed : holds dev blockno (c.bufs c.mru) ≡ false =
      rw (u.dev c.mru, u.blockno c.mru) other in
    rw (missed, u.next c.mru)

-- On buffers that are all zeros, as at the start of the kernel, `init_buffer_cache` links nothing: the
-- `next` of each buffer is null. The most recently used one does not hold any block but block 0 of
-- device 0, so `buffer_get` of such a block follows that null pointer in its first round.
pub buffer_get-init_buffer_cache :
    (fuel dev blockno i : ℕ) (c : Cache)
    → ((j : ℕ) → ((c.bufs j).next ≡ none) × ((c.bufs j).dev ≡ 0) × ((c.bufs j).blockno ≡ 0))
    → ((0 == dev) && (0 == blockno)) ≡ false
    → (((init_buffer_cache c).bufs i).next ≡ none)
      × (holds dev blockno ((init_buffer_cache c).bufs (init_buffer_cache c).mru) ≡ false)
      × (buffer_get (suc fuel) dev blockno (init_buffer_cache c) ≡ none)
buffer_get-init_buffer_cache fuel dev blockno i c zeros other =
    faults (init_buffer_cache c) (init_buffer_cache-Unlinked c start)
  where
    start : Unlinked c
    start = record { next = λ j. (zeros j).0; dev = λ j. (zeros j).1; blockno = λ j. (zeros j).2 }

    faults :
        (c' : Cache)
        → Unlinked c'
        → ((c'.bufs i).next ≡ none)
          × (holds dev blockno (c'.bufs c'.mru) ≡ false)
          × (buffer_get (suc fuel) dev blockno c' ≡ none)
    faults c' u = (
      u.next i,
      rw (u.dev c'.mru, u.blockno c'.mru) other,
      buffer_get_null (suc fuel) dev blockno c' (find_from_null (suc fuel) dev blockno c' u other),
    )
