-- ===== src/BufferCache/Tests.antt =====
-- A ring of two buffers.
use java_script_os.Base.{ℕ, ◌≡◌, refl, true, false, none, some, ◌==◌, if◌then◌else◌, arith}
use java_script_os.BufferCache.{Buffer, Cache, buffer_get, holds, init_buffer_cache}
use java_script_os.BufferCache.Laws.{buffer_get-cached, buffer_get-init_buffer_cache}

abbrev buffer : ℕ → ℕ → ℕ → Buffer
buffer dev refs next = record {
  dirty = false;
  valid = true;
  dev = dev;
  blockno = 0;
  refcnt = refs;
  next = some next;
  prev = some next;
}

abbrev ring : Cache
ring = record { bufs = λ i. if i == 0 then buffer 1 1 1 else buffer 2 0 0; mru = 0; lru = 0 }

abbrev zeros : Cache
zeros = record {
  bufs = λ i. record (buffer 0 0 0) { valid = false; next = none; prev = none };
  mru = 0;
  lru = 0;
}

buffer_get-cached_example : buffer_get 5 2 0 ring ≡ some (ring, some 1)
buffer_get-cached_example =
    buffer_get-cached 5 2 0 1 1 ring (refl, (1, refl, (λ e. omega arith), (refl, refl)))
      (omega arith)

buffer_get-init_buffer_cache_example :
    (((init_buffer_cache zeros).bufs 3).next ≡ none)
    × (holds 1 5 ((init_buffer_cache zeros).bufs (init_buffer_cache zeros).mru) ≡ false)
    × (buffer_get 9 1 5 (init_buffer_cache zeros) ≡ none)
buffer_get-init_buffer_cache_example =
    buffer_get-init_buffer_cache 8 1 5 3 zeros (λ i. (refl, refl, refl)) refl
