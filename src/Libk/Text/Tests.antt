-- ===== src/Libk/Text/Tests.antt =====
-- `OK` into four bytes.
use java_script_os.Base.{[], ◌∷◌}
use java_script_os.Libk.Text.{strncpy}
use java_script_os.Libk.Text.Laws.{Copied, strncpy-Copied}

strncpy-Copied_example :
    Copied 100 0 (79 ∷ 75 ∷ []) 4 (λ q. 7) (strncpy 100 (79 ∷ 75 ∷ []) 4 (λ q. 7))
strncpy-Copied_example = strncpy-Copied 100 (79 ∷ 75 ∷ []) 4 (λ q. 7)
