-- ===== src/Boot/Madt/Tests.antt =====
-- A table with two local APICs, of type 0, and an I/O APIC, of type 1, between them.
use java_script_os.Base.{◌≡◌, refl, true, some, [], ◌∷◌, ◌==◌, if◌then◌else◌, arith}
use java_script_os.Boot.Madt.{Table, get_madt_item}
use java_script_os.Boot.Madt.Items.{IsFilled, get_madt_item-nth_of_type}

abbrev table : Table
table = record {
  is_madt = true;
  length_of = 72;
  item_type = λ a. if a == 4104 then 1 else 0;
  item_length = λ a. if a == 4104 then 12 else 8;
  apic_structures = 4096;
  madt_base = 4096;
}

table-IsFilled : IsFilled table ((0, 8) ∷ (1, 12) ∷ (0, 8) ∷ [])
table-IsFilled = record {
  first = refl;
  filled = refl;
  fits = omega arith;
  has_items = (refl, refl, omega arith, (refl, refl, omega arith, (refl, refl, omega arith, tt)));
}

get_madt_item-nth_of_type_example : get_madt_item table 0 1 4 ≡ some (some 4116)
get_madt_item-nth_of_type_example =
    get_madt_item-nth_of_type table 0 1 4 ((0, 8) ∷ (1, 12) ∷ (0, 8) ∷ []) table-IsFilled
      (omega arith) (omega arith)
