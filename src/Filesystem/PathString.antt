-- ===== src/Filesystem/PathString.antt =====
-- kernel/filesystem/PathString.h: the iterator over the parts of a path. A pointer into the path is
-- what the string holds from there on; the null pointer is `none`. The result `none` is undefined
-- behaviour, a read through null. `strchr` and `strncpy` are those of kernel/libk/string.c.
pub mod Laws
pub mod Iteration
mod Tests
use java_script_os.Base.{
  ℕ, zero, suc, Bool, true, false, Option, none, some, List, [], ◌∷◌, ◌==◌, ◌-◌, leb, if◌then◌else◌,
  length, ◌>>=◌,
}
use java_script_os.Libk.Text.{put, strncpy, strchr}

abbrev pub slash : ℕ
slash = 47

abbrev pub drop : ℕ → List ℕ → List ℕ
drop zero s = s
drop (suc n) [] = []
drop (suc n) (c ∷ s) = drop n s

-- `while (*start == '/') start++;`
unfoldable pub skip_slashes : List ℕ → List ℕ
skip_slashes [] = []
skip_slashes (c ∷ s) = let rest = skip_slashes s in if c == slash then rest else c ∷ s

-- the pointer that `strchr` returns, from the index that it has
abbrev pub pointer_at : List ℕ → Option ℕ → Option (List ℕ)
pointer_at s none = none
pointer_at s (some i) = some (drop i s)

-- `pos == pathend`, for two pointers into one string
abbrev pub same_pointer : List ℕ → Option (List ℕ) → Bool
same_pointer pos none = false
same_pointer pos (some end) = length pos == length end

-- `PathString::Iterator`; `part` is the array by index
pub record Iterator : Type 0 where
  pub pos : List ℕ
  pub pathend : Option (List ℕ)
  pub part : ℕ → ℕ

-- `sizeof(part)`
abbrev pub part_size : ℕ
part_size = 128

-- `extractNext` from the first character of the part on, for the index of the next slash, which is
-- `none` when there is none: then `pos` gets the null pointer, and is read.
unfoldable pub extract_part : List ℕ → Option ℕ → Iterator → Option Iterator
unfolding strncpy skip_slashes
extract_part start none it = none
extract_part start (some i) it =
    let len = if leb part_size i then part_size - 1 else i in
    some (record it {
      part = put (strncpy 0 start len it.part).0 len 0;
      pos = skip_slashes (drop i start);
    })

-- The test `if (!start)` is of the pointer, which is not null.
unfoldable pub extract_next : Iterator → Option Iterator
unfolding extract_part strchr skip_slashes
extract_next it = let start = skip_slashes it.pos in extract_part start (strchr start slash) it

-- the body that the constructor and `operator++` share
unfoldable pub advance : Iterator → Option Iterator
unfolding extract_next
advance it = let next = extract_next it in if same_pointer it.pos it.pathend then some it else next

-- the constructor, for what the array holds before
unfoldable pub iterator : List ℕ → (ℕ → ℕ) → Option Iterator
unfolding advance strchr
iterator path part =
    advance (record { pos = path; pathend = pointer_at path (strchr path 0); part = part })

unfoldable pub is_last : Iterator → Bool
is_last it = same_pointer it.pos it.pathend

unfoldable pub begin : List ℕ → (ℕ → ℕ) → Option Iterator
unfolding iterator
begin str part = iterator str part

unfoldable pub end : List ℕ → (ℕ → ℕ) → Option Iterator
unfolding iterator strchr
end str part = do end ← pointer_at str (strchr str 0); iterator end part
