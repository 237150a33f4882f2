-- ===== src/Memory/Kmalloc/Access.antt =====
-- The fields of a block's header in memory.
use java_script_os.Base.{
  ℕ, ◌+◌, ◌*◌, ◌/◌, ◌%◌, ◌^◌, ◌<◌, ◌≡◌, ◌≢◌, refl, true, some, arith, u16, ◌==◌, if◌then◌else◌,
}
use java_script_os.Memory.Kmalloc.{
  Heap, in_range, load, store, size, set_size, left_allocated, set_left_allocated, allocated,
  set_allocated,
}

-- What a write to a header at `p` left: the fields as they are read afterwards, and the rest of memory.
pub record Header (kmem p s a l : ℕ) (h h' : Heap) : Type 0 where
  pub reads_size : size kmem p h' ≡ some (s, h')
  pub reads_allocated : allocated kmem p h' ≡ some (a, h')
  pub reads_left : left_allocated kmem p h' ≡ some (l, h')
  pub elsewhere : (q : ℕ) → q ≢ p → h'.mem q ≡ h.mem q
  pub globals : (h'.freelist ≡ h.freelist) × (h'.bytes_allocated ≡ h.bytes_allocated)

-- A write to one field of the header of a block inside the array is read back, a size without its two
-- low bits, and changes neither the two other fields nor any other memory.
pub set_size-Header :
    (kmem p v b c : ℕ) (h : Heap)
    → in_range kmem p ≡ true
    → h.mem p < 2 ^ 16
    → b < 2
    → c < 2
    → ((h' : Heap) × (set_size kmem p v h ≡ some (tt, h'))
        × Header kmem p (u16 v / 4 * 4) (h.mem p / 2 % 2) (h.mem p % 2) h h')
      × ((h' : Heap) × (set_allocated kmem p b h ≡ some (tt, h'))
          × Header kmem p (h.mem p / 4 * 4) b (h.mem p % 2) h h')
      × ((h' : Heap) × (set_left_allocated kmem p c h ≡ some (tt, h'))
          × Header kmem p (h.mem p / 4 * 4) (h.mem p / 2 % 2) c h h')
unfolding load store size allocated left_allocated set_size set_allocated set_left_allocated
set_size-Header kmem p v b c h ok lt lb lc = (
  (
    record h { mem = λ q. if q == p then u16 (u16 v / 4 * 4 + h.mem p % 4) else h.mem q },
    ground arith,
    made _ (ground arith) (ground arith) (ground arith),
  ),
  (
    record h { mem = λ q. if q == p then u16 (h.mem p / 4 * 4 + b * 2 + h.mem p % 2) else h.mem q },
    ground arith,
    made _ (ground arith) (ground arith) (ground arith),
  ),
  (
    record h { mem = λ q. if q == p then u16 (h.mem p / 2 * 2 + c) else h.mem q },
    ground arith,
    made _ (ground arith) (ground arith) (ground arith),
  ),
)
  where
    made :
        {s a l : ℕ} (w : ℕ)
        → w / 4 * 4 ≡ s
        → w / 2 % 2 ≡ a
        → w % 2 ≡ l
        → Header kmem p s a l h (record h { mem = λ q. if q == p then w else h.mem q })
    made w es ea el = record {
      reads_size = ground arith;
      reads_allocated = ground arith;
      reads_left = ground arith;
      elsewhere = λ q ne. ground arith;
      globals = (refl, refl);
    }
