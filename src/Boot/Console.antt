-- ===== src/Boot/Console.antt =====
-- What the console shows.
use java_script_os.Base.{
  append-nil, append_assoc, ℕ, zero, suc, ◌+◌, ◌<◌, ◌≤◌, ◌≡◌, refl, Bool, true, false, none, some,
  List, [], ◌∷◌, ◌++◌, map, ◌==◌, ltb, if◌then◌else◌, u8, length, arith, sym, ◌∙◌, Bool-cases, inl,
  inr,
}
use java_script_os.Libc.Stdio.{put, strcpy, Arg}
use java_script_os.Libc.Stdio.Format.{has_percent, vsprintf-strcpy}
use java_script_os.Boot.{bochs_debug_output, string_at, buf_size, debug_printf}

-- the string holds characters other than the terminator
abbrev pub has_zero : List ℕ → Bool
has_zero [] = false
has_zero (c ∷ s) = if c == 0 then true else has_zero s

strcpy-below : (s : List ℕ) (a q : ℕ) (mem : ℕ → ℕ) → q < a → (strcpy a s mem).0 q ≡ mem q
unfolding strcpy
strcpy-below [] a q mem h = ground arith
strcpy-below (c ∷ s) a q mem h = ground (arith, strcpy-below s (a + 1) q (put mem a c))

string_at-strcpy :
    (s : List ℕ) (fuel a : ℕ) (mem : ℕ → ℕ)
    → has_zero s ≡ false
    → length s < fuel
    → string_at fuel (strcpy a s mem).0 a ≡ some s
unfolding string_at strcpy
string_at-strcpy s zero a mem h lt = absurd (omega arith)
string_at-strcpy [] (suc fuel) a mem h lt = ground arith
string_at-strcpy (c ∷ s) (suc fuel) a mem h lt =
    let here : (strcpy (a + 1) s (put mem a c)).0 a ≡ c =
      strcpy-below s (a + 1) a (put mem a c) (omega arith) ∙ ground arith in
    let nonzero : (c == 0) ≡ false = ground arith in
    rw (here, nonzero, string_at-strcpy s fuel (a + 1) (put mem a c) (ground arith) (omega arith))
      refl

abbrev pub byte_of : ℕ → ℕ
byte_of c = u8 c

pub bochs_debug_output-append :
    (s written : List ℕ) → bochs_debug_output s written ≡ written ++ map byte_of s
unfolding bochs_debug_output
bochs_debug_output-append [] written = sym (append-nil written)
bochs_debug_output-append (c ∷ s) written =
    bochs_debug_output-append s (written ++ (u8 c ∷ []))
    ∙ append_assoc written (u8 c ∷ []) (map byte_of s)

fits : (s : List ℕ) → length s < 1024 → ltb (length s) buf_size ≡ true
fits s h = ground arith

too_long : (s : List ℕ) → 1024 ≤ length s → ltb (length s) buf_size ≡ false
too_long s h = ground arith

-- A format with no `%` goes to the console as it is when it has less than 1024 characters; a longer
-- one is written past the end of the buffer.
pub debug_printf-length :
    (buf : ℕ) (fmt : List ℕ) (args : List Arg) (mem : ℕ → ℕ) (written : List ℕ)
    → has_percent fmt ≡ false
    → has_zero fmt ≡ false
    → debug_printf buf fmt args mem written
      ≡ (if ltb (length fmt) 1024 then some (written ++ map byte_of fmt) else none)
unfolding debug_printf
debug_printf-length buf fmt args mem written plain h = elim (Bool-cases (ltb (length fmt) 1024)) [
  | inl e ↦
      rw
        (
          vsprintf-strcpy fmt args buf mem plain,
          e,
          string_at-strcpy fmt buf_size buf mem h (ground arith),
          bochs_debug_output-append fmt written,
        )
        refl
  | inr e ↦ rw (vsprintf-strcpy fmt args buf mem plain, e) refl
]
