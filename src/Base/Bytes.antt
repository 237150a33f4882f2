-- ===== src/Base/Bytes.antt =====
-- Little-endian numbers in byte memory.
use Prim.Native.Nat.{ℕ, zero, suc, ◌+◌, ◌*◌, ◌/◌, ◌≤◌, ◌<◌}
use mathlib.Core.Path.{◌≡◌, refl, sym}
use mathlib.Core.Logic.{◌⊎◌}
use native.Mathlib.Omega.{arith}
use java_script_os.Base.Tests.{◌==◌, if◌then◌else◌}
use java_script_os.Base.Words.{u8}

-- `n` bytes of `v` from address `a` on, the lowest first
unfoldable pub store_bytes : ℕ → (ℕ → ℕ) → ℕ → ℕ → ℕ → ℕ
store_bytes zero mem a v = mem
store_bytes (suc n) mem a v = store_bytes n (λ q. if q == a then u8 v else mem q) (a + 1) (v / 256)

-- the number in the `n` bytes from address `a` on
unfoldable pub load_bytes : ℕ → (ℕ → ℕ) → ℕ → ℕ
load_bytes zero mem a = 0
load_bytes (suc n) mem a = mem a + 256 * load_bytes n mem (a + 1)

-- `v` fits into `n` bytes.
abbrev pub Fits : ℕ → ℕ → Type 0
Fits zero v = v ≡ 0
Fits (suc n) v = Fits n (v / 256)

pub store_bytes-outside :
    (n : ℕ) (mem : ℕ → ℕ) (a v q : ℕ) → (q < a) ⊎ (a + n ≤ q) → store_bytes n mem a v q ≡ mem q
unfolding store_bytes
store_bytes-outside zero mem a v q h = refl
store_bytes-outside (suc n) mem a v q h =
    ground (arith, store_bytes-outside n (λ q. if q == a then u8 v else mem q) (a + 1) (v / 256) q)

pub load_bytes-store_bytes :
    (n : ℕ) (mem : ℕ → ℕ) (a v : ℕ) → Fits n v → load_bytes n (store_bytes n mem a v) a ≡ v
unfolding store_bytes load_bytes
load_bytes-store_bytes zero mem a v h = sym h
load_bytes-store_bytes (suc n) mem a v h = ground (
  arith,
  load_bytes-store_bytes n (λ q. if q == a then u8 v else mem q) (a + 1) (v / 256) h,
  store_bytes-outside n (λ q. if q == a then u8 v else mem q) (a + 1) (v / 256) a,
)

-- What is stored elsewhere is not read.
pub load_bytes-outside :
    (m n : ℕ) (mem : ℕ → ℕ) (a v b : ℕ)
    → (b + m ≤ a) ⊎ (a + n ≤ b)
    → load_bytes m (store_bytes n mem a v) b ≡ load_bytes m mem b
unfolding load_bytes
load_bytes-outside zero n mem a v b h = refl
load_bytes-outside (suc m) n mem a v b h =
    ground (arith, store_bytes-outside n mem a v b, load_bytes-outside m n mem a v (b + 1))
