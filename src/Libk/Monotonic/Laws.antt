-- ===== src/Libk/Monotonic/Laws.antt =====
-- What `allocate` returns.
use java_script_os.Base.{ℕ, ◌+◌, ◌%◌, ◌≤◌, ◌≡◌, ltb}
use java_script_os.Libk.Monotonic.{Resource, Result}

-- An allocation of `bytes` bytes took the space `[p, p + bytes)` behind the old pointer.
pub record Allocation (bytes alignment : ℕ) (r : Resource) (out : Result) : Type 0 where
  pub aligned : out.returned % alignment ≡ 0
  pub least : (q : ℕ) → r.current ≤ q → q % alignment ≡ 0 → out.returned ≤ q
  pub after : (r.current ≤ out.returned) × (out.returned + bytes ≡ out.left.current)
  pub end : out.left.end ≡ r.end
  pub halts : out.halted ≡ ltb r.end (out.returned + bytes)
