-- ===== src/Libc/Stdio/Tests.antt =====
-- Concrete numbers and formats.
use java_script_os.Base.{ℕ, ◌≡◌, refl, arith}
use java_script_os.Libc.Stdio.{sprintbase, put_digits, reverse_loop, sprintbase_within}
use java_script_os.Libc.Stdio.Digits.{Printed, sprintbase-Printed}

abbrev blank : ℕ → ℕ
blank q = 0

sprintbase-Printed_example : Printed 64 100 48879 16 blank (sprintbase 100 48879 16 blank)
sprintbase-Printed_example =
    sprintbase-Printed 100 48879 16 blank (omega arith) (omega arith) (omega arith)

-- `beef` in hexadecimal starts with a `b` and ends with an `f`.
first_digit : (sprintbase 100 48879 16 blank).0 100 ≡ 98
unfolding sprintbase sprintbase_within put_digits reverse_loop
first_digit = refl

last_digit : (sprintbase 100 48879 16 blank).0 103 ≡ 102
unfolding sprintbase sprintbase_within put_digits reverse_loop
last_digit = refl
