-- ===== src/Libc/Stdio/Digits.antt =====
-- The digits that `sprintbase` writes denote the number.
use java_script_os.Base.{
  ℕ, zero, suc, ◌+◌, ◌-◌, ◌*◌, ◌/◌, ◌%◌, ◌^◌, ◌<◌, ◌≤◌, ◌≡◌, ◌≢◌, ◌==◌, ltb, leb, ◌&&◌,
  if◌then◌else◌, refl, arith, ap, ◌∙◌, inl, inr, ==_iff, ltb→lt, ◌||◌, Bool, true, false,
  Bool-cases, ◌⊎◌,
}
use native.Mathlib.Nat.{mul-div-le}
use java_script_os.Libc.Stdio.{
  put, digit_char, put_digits, reverse_loop, sprintbase_within, sprintbase,
}

-- the value of a digit's character
abbrev pub char_digit : ℕ → ℕ
char_digit c = if ltb c 58 then c - 48 else c - 87

-- The character is a digit of the base: `0` to `9` or `a` to `f`, and its value is below the base.
abbrev pub is_digit : (base c : ℕ) → Bool
is_digit base c = ((leb 48 c && ltb c 58) || (leb 97 c && ltb c 103)) && ltb (char_digit c) base

-- The number denoted by the `n` characters from address `a` on, the highest digit first.
abbrev pub value : (base : ℕ) → (ℕ → ℕ) → ℕ → ℕ → ℕ
value base mem a zero = 0
value base mem a (suc n) = value base mem a n * base + char_digit (mem (a + n))

-- The same with the lowest digit first.
abbrev low_value : (base : ℕ) → (ℕ → ℕ) → ℕ → ℕ → ℕ
low_value base mem a zero = 0
low_value base mem a (suc n) = low_value base mem (a + 1) n * base + char_digit (mem a)

value-low_value :
    (base : ℕ) (mem mem' : ℕ → ℕ) (n a b : ℕ)
    → ((i : ℕ) → i < n → mem' (a + i) ≡ mem (b + (n - 1 - i)))
    → value base mem' a n ≡ low_value base mem b n
value-low_value base mem mem' zero a b h = refl
value-low_value base mem mem' (suc n) a b h =
    let last : b + (suc n - 1 - n) ≡ b = omega arith in
    rw (
      value-low_value base mem mem' n a (b + 1) (λ i lt. h i (omega arith) ∙ ap mem (omega arith)),
      h n (omega arith) ∙ ap mem last,
    )

-- what reversing the memory from `l` to `r` leaves at `q`
abbrev mirrored : (ℕ → ℕ) → ℕ → ℕ → ℕ → ℕ
mirrored mem l r q = if leb l q && leb q r then mem (l + r - q) else mem q

-- Swapping the ends and reversing what is between them reverses the whole.
mirrored-put :
    (mem : ℕ → ℕ) (l r q : ℕ)
    → l < r
    → mirrored (put (put mem l (mem r)) r (mem l)) (l + 1) (r - 1) q ≡ mirrored mem l r q
mirrored-put mem l r q h = elim (Bool-cases (q == l)) [
  | inl e ↦
      let at : q ≡ l = (==_iff q l).0 e in
      let far : l + r - l ≡ r = omega arith in rw (at, far) (ground arith)
  | inr e ↦ elim (Bool-cases (q == r)) [
    | inl e' ↦
        let at : q ≡ r = (==_iff q r).0 e' in
        let far : l + r - r ≡ l = omega arith in rw (at, far) (ground arith)
    | inr e' ↦ between (ground arith) (ground arith)
  ]
]
  where
    between :
        q ≢ l
        → q ≢ r
        → mirrored (put (put mem l (mem r)) r (mem l)) (l + 1) (r - 1) q ≡ mirrored mem l r q
    between nl nr =
        let same : l + 1 + (r - 1) - q ≡ l + r - q = omega arith in rw same (ground arith)

mirrored_short : (mem : ℕ → ℕ) (l r q : ℕ) → r ≤ l → mem q ≡ mirrored mem l r q
mirrored_short mem l r q h = elim (Bool-cases (leb l q && leb q r)) [
  | inl e ↦ let same : l + r - q ≡ q = ground arith in rw (e, same)
  | inr e ↦ rw e
]

reverse_loop-mem :
    (fuel l r : ℕ) (mem : ℕ → ℕ) (q : ℕ)
    → r < l + 2 * fuel
    → reverse_loop fuel l r mem q ≡ mirrored mem l r q
unfolding reverse_loop
reverse_loop-mem zero l r mem q h = mirrored_short mem l r q (omega arith)
reverse_loop-mem (suc fuel) l r mem q h = elim (Bool-cases (ltb l r)) [
  | inl e ↦ rw e (
      reverse_loop-mem fuel (l + 1) (r - 1) (put (put mem l (mem r)) r (mem l)) q
        (omega (arith, ltb→lt l r e))
      ∙ mirrored-put mem l r q (ltb→lt l r e))
  | inr e ↦ rw e (mirrored_short mem l r q (ground arith))
]

-- 2 to the power `n`
abbrev pow2 : ℕ → ℕ
pow2 zero = 1
pow2 (suc n) = 2 * pow2 n

half_lem : (n b p : ℕ) → 2 ≤ b → n < 2 * p → n / b < p
half_lem n b p lo h = grind (arith, mul-div-le n b)

char_digit-digit_char : (d : ℕ) → d < 16 → char_digit (digit_char d) ≡ d
char_digit-digit_char d h = ground arith

is_digit-digit_char : (base d : ℕ) → d < 16 → d < base → is_digit base (digit_char d) ≡ true
is_digit-digit_char base d h lt = ground arith

put_self : (mem : ℕ → ℕ) (a c : ℕ) → put mem a c a ≡ c
put_self mem a c = ground arith

put_ne : (mem : ℕ → ℕ) (a c q : ℕ) → q ≢ a → put mem a c q ≡ mem q
put_ne mem a c q ne = ground arith

mod_lt_lem : (n b : ℕ) → 2 ≤ b → n % b < b
mod_lt_lem n b lo = grind arith

mod_lem : (n b : ℕ) → n / b * b + n % b ≡ n
mod_lem n b = grind arith

record Digits (base number buf fuel : ℕ) (mem : ℕ → ℕ) (out : (ℕ → ℕ) × ℕ) : Type 0 where
  len : ℕ
  end : out.1 ≡ buf + len
  short : len ≤ fuel
  some_digit : number ≢ 0 → 1 ≤ len
  denotes : low_value base out.0 buf len ≡ number
  chars : (i : ℕ) → i < len → is_digit base (out.0 (buf + i)) ≡ true
  below : (q : ℕ) → q < buf → out.0 q ≡ mem q

-- A first digit and the digits behind it.
chars_suc :
    (base buf len : ℕ) (out : ℕ → ℕ)
    → is_digit base (out buf) ≡ true
    → ((i : ℕ) → i < len → is_digit base (out (buf + 1 + i)) ≡ true)
    → (i : ℕ) → i < suc len
    → is_digit base (out (buf + i)) ≡ true
chars_suc base buf len out first rest zero lt = let e : buf + 0 ≡ buf = omega arith in rw e first
chars_suc base buf len out first rest (suc i) lt =
    let e : buf + suc i ≡ buf + 1 + i = omega arith in rw e (rest i (omega arith))

put_digits-Digits :
    (fuel base number buf : ℕ) (mem : ℕ → ℕ)
    → 2 ≤ base
    → base ≤ 16
    → number < pow2 fuel
    → Digits base number buf fuel mem (put_digits fuel base number buf mem)
unfolding put_digits
put_digits-Digits zero base number buf mem lo hi h = record {
  len = 0;
  end = omega arith;
  short = omega arith;
  some_digit = λ ne. absurd (ne (omega arith));
  denotes = omega arith;
  chars = λ i lt. absurd (omega arith);
  below = λ q lt. refl;
}
put_digits-Digits (suc fuel) base number buf mem lo hi h = elim (Bool-cases (number == 0)) [
  | inl e ↦ rw e (record {
    len = 0;
    end = omega arith;
    short = omega arith;
    some_digit = λ ne. absurd (ground arith);
    denotes = ground arith;
    chars = λ i lt. absurd (omega arith);
    below = λ q lt. refl;
  })
  | inr e ↦
      let rest =
        put_digits-Digits fuel base (number / base) (buf + 1)
          (put mem buf (digit_char (number % base))) lo hi
          (half_lem number base (pow2 fuel) lo h) in
      rw e (record {
        len = suc rest.len;
        end = omega (arith, rest.end);
        short = omega (arith, rest.short);
        some_digit = λ ne. omega arith;
        denotes =
            rw
              (
                rest.denotes,
                rest.below buf (omega arith) ∙ put_self mem buf (digit_char (number % base)),
                char_digit-digit_char (number % base) (omega (arith, mod_lt_lem number base lo)),
              )
              (mod_lem number base);
        chars =
            chars_suc base buf rest.len
              (put_digits fuel base (number / base) (buf + 1)
                (put mem buf (digit_char (number % base)))).0
              (ap (is_digit base)
                  (rest.below buf (omega arith) ∙ put_self mem buf (digit_char (number % base)))
                ∙ is_digit-digit_char base (number % base)
                    (omega (arith, mod_lt_lem number base lo)) (mod_lt_lem number base lo))
              rest.chars;
        below = λ q lt. rest.below q (omega arith) ∙ ground arith;
      })
]

-- What `sprintbase` has written: a number of at most `fuel` digits, the highest first, and a terminator.
pub record Printed (fuel buf number base : ℕ) (mem : ℕ → ℕ) (out : (ℕ → ℕ) × ℕ) : Type 0 where
  pub denotes : value base out.0 buf out.1 ≡ number
  pub digits : (i : ℕ) → i < out.1 → is_digit base (out.0 (buf + i)) ≡ true
  pub long : 1 ≤ out.1
  pub short : out.1 ≤ fuel
  pub terminated : out.0 (buf + out.1) ≡ 0
  pub before : (q : ℕ) → q < buf → out.0 q ≡ mem q

-- The text from `buf` to the terminator, reversed.
reversed-Printed :
    (fuel buf number base : ℕ) (mem mem1 : ℕ → ℕ) (len : ℕ)
    → 1 ≤ len
    → len ≤ fuel
    → low_value base mem1 buf len ≡ number
    → ((i : ℕ) → i < len → is_digit base (mem1 (buf + i)) ≡ true)
    → ((q : ℕ) → q < buf → mem1 q ≡ mem q)
    → Printed fuel buf number base mem
        (reverse_loop fuel buf (buf + len - 1) (put mem1 (buf + len) 0), len)
reversed-Printed fuel buf number base mem mem1 len long short low chars before = record {
  denotes =
      value-low_value base mem1 (reverse_loop fuel buf (buf + len - 1) (put mem1 (buf + len) 0)) len
        buf buf inside
      ∙ low;
  digits = λ i lt. ap (is_digit base) (inside i lt) ∙ chars (len - 1 - i) (omega arith);
  long = long;
  short = short;
  terminated =
      at (buf + len) ∙ outside (buf + len) (inr (omega arith)) ∙ put_self mem1 (buf + len) 0;
  before =
      λ q lt. at q ∙ outside q (inl lt) ∙ put_ne mem1 (buf + len) 0 q (omega arith) ∙ before q lt;
}
  where
    at :
        (q : ℕ)
        → reverse_loop fuel buf (buf + len - 1) (put mem1 (buf + len) 0) q
          ≡ mirrored (put mem1 (buf + len) 0) buf (buf + len - 1) q
    at q = reverse_loop-mem fuel buf (buf + len - 1) (put mem1 (buf + len) 0) q (omega arith)

    outside :
        (q : ℕ)
        → (q < buf) ⊎ (buf + len ≤ q)
        → mirrored (put mem1 (buf + len) 0) buf (buf + len - 1) q ≡ put mem1 (buf + len) 0 q
    outside q out = rw (not_in q out)
      where
        not_in :
            (q : ℕ) → (q < buf) ⊎ (buf + len ≤ q) → (leb buf q && leb q (buf + len - 1)) ≡ false
        not_in q out = ground arith

    inside :
        (i : ℕ)
        → i < len
        → reverse_loop fuel buf (buf + len - 1) (put mem1 (buf + len) 0) (buf + i)
          ≡ mem1 (buf + (len - 1 - i))
    inside i lt =
        let within : (leb buf (buf + i) && leb (buf + i) (buf + len - 1)) ≡ true = ground arith in
        let opposite : buf + (buf + len - 1) - (buf + i) ≡ buf + (len - 1 - i) = omega arith in
        at (buf + i) ∙ rw (within, opposite) (put_ne mem1 (buf + len) 0 _ (omega arith))

put_digits_zero : (fuel base buf : ℕ) (mem : ℕ → ℕ) → put_digits fuel base 0 buf mem ≡ (mem, buf)
unfolding put_digits
put_digits_zero zero base buf mem = refl
put_digits_zero (suc fuel) base buf mem = refl

zero_lem : (base : ℕ) (mem : ℕ → ℕ) (buf : ℕ) → low_value base (put mem buf 48) buf 1 ≡ 0
zero_lem base mem buf = rw (put_self mem buf 48) (omega arith)

zero_digit :
    (base : ℕ) (mem : ℕ → ℕ) (buf i : ℕ)
    → 2 ≤ base
    → i < 1
    → is_digit base (put mem buf 48 (buf + i)) ≡ true
zero_digit base mem buf i lo lt =
    let e : buf + i ≡ buf = omega arith in rw (e, put_self mem buf 48) (ground arith)

-- with enough fuel for the digits
sprintbase_within-Printed :
    (fuel buf number base : ℕ) (mem : ℕ → ℕ)
    → 1 ≤ fuel
    → 2 ≤ base
    → base ≤ 16
    → number < pow2 fuel
    → Printed fuel buf number base mem (sprintbase_within fuel buf number base mem)
unfolding sprintbase_within
sprintbase_within-Printed fuel buf number base mem one lo hi h = elim (Bool-cases (number == 0)) [
  | inl e ↦
      let z : number ≡ 0 = (==_iff number 0).0 e in
      let one_long : buf + 1 - buf ≡ 1 = omega arith in
      rw (z, put_digits_zero fuel base (buf + 1) (put mem buf 48), one_long)
        (reversed-Printed fuel buf 0 base mem (put mem buf 48) 1 (omega arith) one
          (zero_lem base mem buf) (λ i lt. zero_digit base mem buf i lo lt)
          (λ q lt. put_ne mem buf 48 q (omega arith)))
  | inr e ↦
      let d = put_digits-Digits fuel base number buf mem lo hi h in
      let len_eq : buf + d.len - buf ≡ d.len = omega arith in
      rw (e, d.end, len_eq)
        (reversed-Printed fuel buf number base mem (put_digits fuel base number buf mem).0 d.len
          (d.some_digit (ground arith)) d.short d.denotes d.chars d.below)
]

-- `sprintbase` of a number of 64 bits in a base from 2 to 16 writes 1 to 64 characters, each of
-- them a digit of the base (`0` to `9`, `a` to `f`), which denote the number, the highest first, and a terminator behind them; it returns how many digits, and changes
-- nothing in front of the buffer.
pub sprintbase-Printed :
    (buf number base : ℕ) (mem : ℕ → ℕ)
    → 2 ≤ base
    → base ≤ 16
    → number < 2 ^ 64
    → Printed 64 buf number base mem (sprintbase buf number base mem)
unfolding sprintbase
sprintbase-Printed buf number base mem lo hi h =
    sprintbase_within-Printed 64 buf number base mem (omega arith) lo hi h
