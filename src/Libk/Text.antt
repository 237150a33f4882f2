-- ===== src/Libk/Text.antt =====
-- kernel/libk/string.c, on characters in memory by address. A string that is read is the list of its
-- nonzero characters; the one that is written does not overlap it.
pub mod Laws
mod Tests
use java_script_os.Base.{ℕ, zero, suc, ◌+◌, Option, none, some, List, [], ◌∷◌, ◌==◌, if◌then◌else◌}

abbrev pub put : (ℕ → ℕ) → ℕ → ℕ → ℕ → ℕ
put mem a c q = if q == a then c else mem q

-- `strlen`
unfoldable pub strlen : List ℕ → ℕ
strlen [] = 0
strlen (c ∷ s) = suc (strlen s)

-- the loop of `strncpy` at index `i` of `dst`, with `n` characters of room left, and what follows it
unfoldable pub strncpy_from : (dst : ℕ) → List ℕ → (n i : ℕ) → (ℕ → ℕ) → (ℕ → ℕ) × ℕ
strncpy_from dst s zero i mem = (mem, i)
strncpy_from dst [] (suc n) i mem = (put mem (dst + i) 0, i)
strncpy_from dst (c ∷ s) (suc n) i mem = strncpy_from dst s n (i + 1) (put mem (dst + i) c)

unfoldable pub strncpy : (dst : ℕ) → List ℕ → (n : ℕ) → (ℕ → ℕ) → (ℕ → ℕ) × ℕ
unfolding strncpy_from
strncpy dst src n mem = strncpy_from dst src n 0 mem

-- `strchr`: the index of the character, or `none` for null, also when it is the terminator's
unfoldable pub strchr : List ℕ → ℕ → Option ℕ
strchr [] c = none
strchr (x ∷ s) c =
    let rest = strchr s c in
    if x == c then some 0 else elim rest [ none ↦ none | some i ↦ some (suc i) ]
