-- ===== src/Libc/Stdio.antt =====
-- libc/stdio.c: strings in memory, by address. A `char` is a number below 256; the text of a format
-- and of a string argument is a list of nonzero characters.
pub mod Digits
pub mod Format
mod Tests
use java_script_os.Base.{
  ℕ, zero, suc, ◌+◌, ◌-◌, ◌*◌, ◌/◌, ◌%◌, ◌^◌, Option, none, some, List, [], ◌∷◌, ◌==◌, ltb,
  if◌then◌else◌, u32, u64,
}

abbrev pub put : (ℕ → ℕ) → ℕ → ℕ → ℕ → ℕ
put mem a c q = if q == a then c else mem q

-- `strcpy`, with the address of the terminator that it returns
unfoldable pub strcpy : ℕ → List ℕ → (ℕ → ℕ) → (ℕ → ℕ) × ℕ
strcpy dst [] mem = (put mem dst 0, dst)
strcpy dst (c ∷ src) mem = strcpy (dst + 1) src (put mem dst c)

-- `digits[digit]`
abbrev pub digit_char : ℕ → ℕ
digit_char d = if ltb d 10 then 48 + d else 87 + d

-- The first loop of `sprintbase`: the lowest digit first. Out of fuel it stops, which it does not
-- with as many rounds as the number has digits.
unfoldable pub put_digits : (fuel base number buf : ℕ) → (ℕ → ℕ) → (ℕ → ℕ) × ℕ
put_digits zero base number buf mem = (mem, buf)
put_digits (suc fuel) base number buf mem =
    let rest =
      put_digits fuel base (number / base) (buf + 1) (put mem buf (digit_char (number % base))) in
    if number == 0 then (mem, buf) else rest

-- The second loop, which swaps from both ends.
unfoldable pub reverse_loop : (fuel bufleft buf : ℕ) → (ℕ → ℕ) → ℕ → ℕ
reverse_loop zero bufleft buf mem = mem
reverse_loop (suc fuel) bufleft buf mem =
    let rest =
      reverse_loop fuel (bufleft + 1) (buf - 1)
        (put (put mem bufleft (mem buf)) buf (mem bufleft)) in
    if ltb bufleft buf then rest else mem

-- `sprintbase` with this fuel for each loop, and the length that it returns
unfoldable pub sprintbase_within : (fuel buf number base : ℕ) → (ℕ → ℕ) → (ℕ → ℕ) × ℕ
unfolding put_digits reverse_loop
sprintbase_within fuel buf number base mem =
    let start = if number == 0 then put mem buf 48 else mem in
    let first = if number == 0 then buf + 1 else buf in
    let (mem1, end) = put_digits fuel base number first start in
    (reverse_loop fuel buf (end - 1) (put mem1 end 0), end - buf)

-- `sprintbase`: a number of 64 bits has at most 64 digits, which are reversed in less than 64 swaps.
unfoldable pub sprintbase : (buf number base : ℕ) → (ℕ → ℕ) → (ℕ → ℕ) × ℕ
unfolding sprintbase_within
sprintbase buf number base mem = sprintbase_within 64 buf number base mem

-- the arguments of a call
pub data Arg : Type 0 where
  num : ℕ → Arg
  str : List ℕ → Arg

-- `int number = va_arg(args, unsigned long)`, passed on as an `unsigned long`
abbrev pub through_int : ℕ → ℕ
through_int n = if ltb (u32 n) (2 ^ 31) then u32 n else u32 n + (2 ^ 64 - 2 ^ 32)

-- The loop of `vsprintf`; the result is the memory and the end of the text. `none` is undefined
-- behaviour: a `%` at the end of the format, after which the code reads past the terminator, and an
-- argument that is missing or of another type. An unknown conversion prints nothing.
unfoldable pub format : List ℕ → List Arg → ℕ → (ℕ → ℕ) → Option ((ℕ → ℕ) × ℕ)
unfolding sprintbase strcpy
format [] args buf mem = some (put mem buf 0, buf)
format (c ∷ []) args buf mem =
    if c == 37 then none else some (put (put mem buf c) (buf + 1) 0, buf + 1)
format (c ∷ d ∷ fmt) [] buf mem =
    let plain = format (d ∷ fmt) [] (buf + 1) (put mem buf c) in
    let ignored = format fmt [] buf mem in
    if c == 37
    then if (d == 117) then none else if d == 120 then none else if d == 115 then none else ignored
    else plain
format (c ∷ d ∷ fmt) (num n ∷ args) buf mem =
    let plain = format (d ∷ fmt) (num n ∷ args) (buf + 1) (put mem buf c) in
    let ignored = format fmt (num n ∷ args) buf mem in
    let (mem_u, len_u) = sprintbase buf (through_int n) 10 mem in
    let (mem_x, len_x) =
      sprintbase (buf + 2) (through_int n) 16 (put (put mem buf 48) (buf + 1) 120) in
    let decimal = format fmt args (buf + len_u) mem_u in
    let hexadecimal = format fmt args (buf + 2 + len_x) mem_x in
    if c == 37
    then if d == 117
      then decimal
      else if d == 120
      then hexadecimal
      else if d == 115
      then none
      else ignored
    else plain
format (c ∷ d ∷ fmt) (str s ∷ args) buf mem =
    let plain = format (d ∷ fmt) (str s ∷ args) (buf + 1) (put mem buf c) in
    let ignored = format fmt (str s ∷ args) buf mem in
    let (mem', end) = strcpy buf s mem in
    let copied = format fmt args end mem' in
    if c == 37
    then if d == 117 then none else if d == 120 then none else if d == 115 then copied else ignored
    else plain

-- `return buf - bufstart`
abbrev pub from_start : ℕ → Option ((ℕ → ℕ) × ℕ) → Option ((ℕ → ℕ) × ℕ)
from_start bufstart none = none
from_start bufstart (some (mem, buf)) = some (mem, buf - bufstart)

-- `vsprintf`, with the length that it returns
unfoldable pub vsprintf : ℕ → List ℕ → List Arg → (ℕ → ℕ) → Option ((ℕ → ℕ) × ℕ)
unfolding format
vsprintf buf fmt args mem = from_start buf (format fmt args buf mem)
