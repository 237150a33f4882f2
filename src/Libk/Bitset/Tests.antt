-- ===== src/Libk/Bitset/Tests.antt =====
-- A set of 70 bits, which takes two blocks.
use java_script_os.Base.{ℕ, ◌≡◌, refl, true, false, some, List, [], ◌∷◌, arith, Bool}
use java_script_os.Libk.Bitset.{bitset, read, set_bit}
use java_script_os.Libk.Bitset.Laws.{accepted, set_all, set_all-latest}

abbrev ops : List (ℕ × Bool)
ops = (65, true) ∷ (3, true) ∷ (65, false) ∷ (65, true) ∷ []

set_all-latest_example :
    (after : List ℕ) × (set_all ops (bitset 70 (7 ∷ 9 ∷ [])) ≡ some after)
    × (read after 65 ≡ some true)
    × (accepted (set_bit 65 true after) ≡ true)
set_all-latest_example =
    set_all-latest 70 (7 ∷ 9 ∷ []) ops 65 true refl
      (omega arith, (omega arith, (omega arith, (omega arith, tt))))
