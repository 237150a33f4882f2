-- ===== src/BufferCache.antt =====
-- kernel/buffercache.c and kernel/Buffer.h: the buffers of disk blocks. A pointer to a buffer is its
-- index, `none` for null. The data of a block is behind `sata_sync`, which the repository declares in
-- kernel/sata.h and defines nowhere: a parameter.
pub mod Laws
mod Tests
use java_script_os.Base.{
  ℕ, zero, suc, ◌+◌, ◌-◌, ◌^◌, Bool, true, false, ◌&&◌, not, Option, none, some, ◌==◌,
  if◌then◌else◌, ◌>>=◌,
}

abbrev pub buffer_cache_size : ℕ
buffer_cache_size = 64

-- `buffer`
pub record Buffer : Type 0 where
  pub dirty : Bool
  pub valid : Bool
  pub dev : ℕ
  pub blockno : ℕ
  pub refcnt : ℕ
  pub next : Option ℕ
  pub prev : Option ℕ

-- the globals
pub record Cache : Type 0 where
  pub bufs : ℕ → Buffer
  pub mru : ℕ
  pub lru : ℕ

abbrev pub put : ℕ → Buffer → Cache → Cache
put i b c = record c { bufs = λ j. if j == i then b else c.bufs j }

-- `doubly_linked_list_push_front`
unfoldable pub push_front : ℕ → Cache → Cache
push_front b c =
    let c1 = put b (record (c.bufs b) { next = (c.bufs c.mru).next }) c in
    let c2 = put b (record (c1.bufs b) { prev = some c1.mru }) c1 in
    let c3 = put c2.mru (record (c2.bufs c2.mru) { prev = some b }) c2 in record c3 { mru = b }

-- `doubly_linked_list_remove`; `none` is a null pointer that is followed.
unfoldable pub list_remove : ℕ → Cache → Option Cache
list_remove b c = do
  p ← (c.bufs b).prev
  let c1 = put p (record (c.bufs p) { next = (c.bufs b).next }) c
  n ← (c1.bufs b).next
  some (put n (record (c1.bufs n) { prev = (c1.bufs b).prev }) c1)

-- the loop of `init_buffer_cache` from `b` on, with `left` rounds to go
unfoldable pub push_from : ℕ → ℕ → Cache → Cache
unfolding push_front
push_from zero b c = c
push_from (suc left) b c = push_from left (b + 1) (push_front b c)

unfoldable pub init_buffer_cache : Cache → Cache
unfolding push_from
init_buffer_cache c = push_from buffer_cache_size 0 (record c { mru = 0; lru = 0 })

abbrev pub holds : ℕ → ℕ → Buffer → Bool
holds dev blockno b = (b.dev == dev) && (b.blockno == blockno)

abbrev pub is_free : Buffer → Bool
is_free b = (b.refcnt == 0) && not b.dirty

-- A loop of `buffer_get`: from `b` along `next` to the first buffer with the property, until the loop
-- is back at `start`. The result is `none` when a null pointer is followed or the fuel runs out, and
-- `some none` when the loop ends without a find.
unfoldable pub find_from : ℕ → (Buffer → Bool) → (start b : ℕ) → Cache → Option (Option ℕ)
find_from zero test start b c = none
find_from (suc fuel) test start b c =
    let rest : ℕ → Option (Option ℕ) =
      λ n. let more = find_from fuel test start n c in if n == start then some none else more in
    if test (c.bufs b) then some (some b) else (c.bufs b).next >>= rest

-- what the second loop does with the buffer that it found
abbrev pub recycle : (dev blockno i : ℕ) → Cache → Cache
recycle dev blockno i c =
    put i (record (c.bufs i) { dev = dev; blockno = blockno; valid = false; refcnt = 1 }) c

abbrev pub take_free : (dev blockno : ℕ) → Cache → Option ℕ → Cache × Option ℕ
take_free dev blockno c none = (c, none)
take_free dev blockno c (some i) = (recycle dev blockno i c, some i)

abbrev pub take_cached : Cache → Option ℕ → Option (Cache × Option ℕ) → Option (Cache × Option ℕ)
take_cached c none other = other
take_cached c (some i) other = some (c, some i)

unfoldable pub buffer_get : ℕ → (dev blockno : ℕ) → Cache → Option (Cache × Option ℕ)
unfolding find_from
buffer_get fuel dev blockno c = do
  cached ← find_from fuel (holds dev blockno) c.mru c.mru c
  take_cached c cached
      (do free ← find_from fuel is_free c.lru c.lru c; some (take_free dev blockno c free))

module _ (sata_sync : ℕ → Cache → Cache) where
  -- `buffer_read`: the null result of `buffer_get` is followed.
  pub buffer_read : ℕ → (dev blockno : ℕ) → Cache → Option (Cache × ℕ)
  unfolding buffer_get
  buffer_read fuel dev blockno c = do
    (c', r) ← buffer_get fuel dev blockno c
    b ← r
    some (if (c'.bufs b).valid then (c', b) else (sata_sync b c', b))

  pub buffer_write : ℕ → Cache → Cache
  buffer_write b c = sata_sync b (put b (record (c.bufs b) { dirty = true }) c)

-- `buffer_release`; the count is of 32 bits and wraps.
unfoldable pub buffer_release : ℕ → Cache → Option Cache
unfolding list_remove push_front
buffer_release b c =
    let left = if (c.bufs b).refcnt == 0 then 2 ^ 32 - 1 else (c.bufs b).refcnt - 1 in
    let c1 = put b (record (c.bufs b) { refcnt = left }) c in
    if left == 0 then list_remove b c1 >>= (λ c2. some (push_front b c2)) else some c1
