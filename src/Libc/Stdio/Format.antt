-- ===== src/Libc/Stdio/Format.antt =====
-- What formats print.
use java_script_os.Base.{
  ℕ, ◌+◌, ◌-◌, ◌≡◌, refl, Bool, false, ◌||◌, some, List, [], ◌∷◌, ◌==◌, arith, length, ◌∙◌, ap,
}
use java_script_os.Libc.Stdio.{put, strcpy, Arg, num, str, format, vsprintf, from_start}

abbrev pub has_percent : List ℕ → Bool
has_percent [] = false
has_percent (c ∷ s) = (c == 37) || has_percent s

format-strcpy :
    (fmt : List ℕ) (args : List Arg) (buf : ℕ) (mem : ℕ → ℕ)
    → has_percent fmt ≡ false
    → format fmt args buf mem ≡ some (strcpy buf fmt mem)
unfolding format strcpy
format-strcpy [] args buf mem h = refl
format-strcpy (c ∷ []) args buf mem h = ground arith
format-strcpy (c ∷ d ∷ fmt) [] buf mem h =
    ground (arith, format-strcpy (d ∷ fmt) [] (buf + 1) (put mem buf c))
format-strcpy (c ∷ d ∷ fmt) (num n ∷ args) buf mem h =
    ground (arith, format-strcpy (d ∷ fmt) (num n ∷ args) (buf + 1) (put mem buf c))
format-strcpy (c ∷ d ∷ fmt) (str s ∷ args) buf mem h =
    ground (arith, format-strcpy (d ∷ fmt) (str s ∷ args) (buf + 1) (put mem buf c))

strcpy-length : (s : List ℕ) (buf : ℕ) (mem : ℕ → ℕ) → (strcpy buf s mem).1 ≡ buf + length s
unfolding strcpy
strcpy-length [] buf mem = omega arith
strcpy-length (c ∷ s) buf mem = omega (arith, strcpy-length s (buf + 1) (put mem buf c))

-- A format with no `%` in it is printed as `strcpy` copies it, whatever the arguments, and the result
-- is its length.
pub vsprintf-strcpy :
    (fmt : List ℕ) (args : List Arg) (buf : ℕ) (mem : ℕ → ℕ)
    → has_percent fmt ≡ false
    → vsprintf buf fmt args mem ≡ some ((strcpy buf fmt mem).0, length fmt)
unfolding vsprintf
vsprintf-strcpy fmt args buf mem h =
    let long : (strcpy buf fmt mem).1 - buf ≡ length fmt =
      omega (arith, strcpy-length fmt buf mem) in
    ap (from_start buf) (format-strcpy fmt args buf mem h)
    ∙ ap (λ n. some ((strcpy buf fmt mem).0, n)) long
