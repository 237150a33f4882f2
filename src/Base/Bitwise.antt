-- ===== src/Base/Bitwise.antt =====
-- The operators of C on the bits of unsigned numbers, by their digits from the lowest on; a shift by
-- `b` is `b` times a halving or a doubling.
use Prim.Native.Nat.{ℕ, zero, suc, ◌+◌, ◌-◌, ◌*◌, ◌/◌, ◌%◌, ◌<◌}
use mathlib.Core.Path.{◌≡◌, refl, ap, ◌∙◌}
use native.Mathlib.Omega.{arith}
use java_script_os.Base.Tests.{◌==◌, if◌then◌else◌}

unfoldable pub shift_right : ℕ → ℕ → ℕ
shift_right x zero = x
shift_right x (suc b) = shift_right (x / 2) b

unfoldable pub shift_left : ℕ → ℕ → ℕ
shift_left x zero = x
shift_left x (suc b) = 2 * shift_left x b

-- an operator on digits, on numbers of `w` bits
unfoldable pub bitwise : (ℕ → ℕ → ℕ) → ℕ → ℕ → ℕ → ℕ
bitwise f zero x y = 0
bitwise f (suc w) x y = f (x % 2) (y % 2) + 2 * bitwise f w (x / 2) (y / 2)

abbrev pub or_digit : ℕ → ℕ → ℕ
or_digit a b = a + b - a * b

abbrev pub and_digit : ℕ → ℕ → ℕ
and_digit a b = a * b

-- `~x` of `w` bits
unfoldable pub complement : ℕ → ℕ → ℕ
complement zero x = 0
complement (suc w) x = 1 - x % 2 + 2 * complement w (x / 2)

-- the bit at a position
abbrev pub bit : ℕ → ℕ → ℕ
bit x c = shift_right x c % 2

pub bit-zero : (c : ℕ) → bit 0 c ≡ 0
unfolding shift_right
bit-zero zero = refl
bit-zero (suc c) = bit-zero c

pub bit-lt : (x c : ℕ) → bit x c < 2
bit-lt x c = omega arith

pub bit-shift_left : (b c : ℕ) → bit (shift_left 1 b) c ≡ (if b == c then 1 else 0)
unfolding shift_left shift_right
bit-shift_left zero zero = ground arith
bit-shift_left zero (suc c) = bit-zero c ∙ ground arith
bit-shift_left (suc b) zero = ground arith
bit-shift_left (suc b) (suc c) = ap (λ x. bit x c) (omega arith) ∙ bit-shift_left b c ∙ ground arith

pub bit-complement : (w x c : ℕ) → c < w → bit (complement w x) c ≡ 1 - bit x c
unfolding complement shift_right
bit-complement zero x c h = absurd (omega arith)
bit-complement (suc w) x zero h = omega arith
bit-complement (suc w) x (suc c) h =
    ap (λ y. bit y c) (omega arith) ∙ bit-complement w (x / 2) c (omega arith)

pub bit-bitwise :
    (f : ℕ → ℕ → ℕ)
    → ((a b : ℕ) → a < 2 → b < 2 → f a b < 2)
    → (w x y c : ℕ) → c < w
    → bit (bitwise f w x y) c ≡ f (bit x c) (bit y c)
unfolding bitwise shift_right
bit-bitwise f small zero x y c h = absurd (omega arith)
bit-bitwise f small (suc w) x y zero h =
    let s = small (x % 2) (y % 2) (omega arith) (omega arith) in omega (arith, s)
bit-bitwise f small (suc w) x y (suc c) h =
    let s = small (x % 2) (y % 2) (omega arith) (omega arith) in
    ap (λ z. bit z c) (omega (arith, s)) ∙ bit-bitwise f small w (x / 2) (y / 2) c (omega arith)
