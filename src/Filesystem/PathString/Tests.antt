-- ===== src/Filesystem/PathString/Tests.antt =====
-- The path `//ab/c//d`.
use java_script_os.Base.{ℕ, ◌≡◌, none, List, [], ◌∷◌, refl, arith}
use java_script_os.Filesystem.PathString.{begin}
use java_script_os.Filesystem.PathString.Laws.{AtPart}
use java_script_os.Filesystem.PathString.Iteration.{advance_times, begin-parts}

abbrev path : List ℕ
path = 47 ∷ 47 ∷ 97 ∷ 98 ∷ 47 ∷ 99 ∷ 47 ∷ 47 ∷ 100 ∷ []

begin-parts_example :
    ((rest : List ℕ) × AtPart (99 ∷ []) rest (advance_times 1 (begin path (λ j. 7))))
    × (advance_times 2 (begin path (λ j. 7)) ≡ none)
begin-parts_example =
    begin-parts 2 ((97 ∷ 98 ∷ [], 0) ∷ (99 ∷ [], 1) ∷ []) (100 ∷ []) (λ j. 7) 1 1 (99 ∷ []) refl
      (refl, omega arith, (refl, omega arith, tt)) refl refl
