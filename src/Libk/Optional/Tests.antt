-- ===== src/Libk/Optional/Tests.antt =====
-- An optional number, assigned, emptied and assigned again.
use java_script_os.Base.{ℕ, ◌≡◌, some, List, [], ◌∷◌}
use java_script_os.Libk.Optional.{Optional}
use java_script_os.Libk.Optional.Laws.{
  Op, assign_of, reset_of, make, perform_all, Holds, Copied, Moved, perform_all-left_by,
}

abbrev ops : List (Op ℕ)
ops = assign_of 5 ∷ assign_of 6 ∷ reset_of ∷ assign_of 7 ∷ []

perform_all-left_by_example :
    (o : Optional ℕ) × (perform_all ops (make (some 4)) ≡ some o)
    × Holds (some 7) o
    × Copied (some 7) o
    × Moved (some 7) o
perform_all-left_by_example = perform_all-left_by (some 4) ops
