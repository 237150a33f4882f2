-- ===== src/Memory/Kmalloc/Operators.antt =====
-- The operators `new` and `delete` of kernel/memory/kmalloc.cpp. `ASSERTHALT` of a null pointer waits
-- in `hlt` for an interrupt, and then the code goes on: `new` returns null.
use java_script_os.Base.{ℕ, suc, ◌+◌, ◌≤◌, ◌≡◌, ◌≢◌, refl, some, round_up}
use java_script_os.Memory.Kmalloc.{Heap, Op, ◌>>=◌, pure, kmalloc, kfree, header_size}
use java_script_os.Memory.Kmalloc.First.{fresh, Allocated, kmalloc-Allocated}

-- `ASSERTHALT(ptr)`, which leaves the heap as it is whether it waits or not
abbrev pub assert_halt : ℕ → Op (Unit {0})
assert_halt ptr h = some (tt, h)

module _ (kmem : ℕ) where
  -- `operator new` and `operator new[]`
  unfoldable pub operator_new : ℕ → ℕ → Op ℕ
  unfolding kmalloc
  operator_new fuel size =
      kmalloc kmem fuel size >>= λ (ptr : ℕ). assert_halt ptr >>= λ (u : Unit {0}). pure ptr

  -- the same with `std::nothrow`
  unfoldable pub operator_new_nothrow : ℕ → ℕ → Op ℕ
  unfolding kmalloc
  operator_new_nothrow fuel size = kmalloc kmem fuel size

  -- `operator delete` and `operator delete[]`, with and without a size
  unfoldable pub operator_delete : ℕ → Op (Unit {0})
  unfolding kfree
  operator_delete ptr = kfree kmem ptr

-- On a fresh heap `new` returns what `kmalloc` does.
pub operator_new-Allocated :
    (kmem fuel n b : ℕ)
    → kmem ≢ 0
    → 5 ≤ n
    → n ≤ 65524
    → (p : ℕ) × (h : Heap) × (operator_new kmem (suc fuel) n (fresh kmem b)
        ≡ some (p + header_size, h))
      × Allocated kmem (round_up n 4) b p h
unfolding operator_new
operator_new-Allocated kmem fuel n b ne lo hi =
    let (p, h, e, a) = kmalloc-Allocated kmem fuel n b ne lo hi in (p, h, rw e refl, a)
