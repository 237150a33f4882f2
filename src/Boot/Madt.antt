-- ===== src/Boot/Madt.antt =====
-- `get_MADT_item` of kernel/boot/madt.c, and the structures of kernel/boot/acpi.h that it reads. It
-- names an item type, a member and an address that are declared nowhere: the address of the first
-- item, `madt_base`, and the type and length at the address of an item are arguments, and so is what
-- `strncmp` makes of the signature.
pub mod Items
mod Tests
use java_script_os.Base.{
  ℕ, zero, suc, ◌+◌, Bool, true, false, ◌&&◌, Option, none, some, ◌==◌, ltb, leb, if◌then◌else◌, u8,
  u64,
}

-- the size of the packed `SDTHeader`
abbrev pub sdt_header_size : ℕ
sdt_header_size = 4 + 4 + 1 + 1 + 6 + 8 + 4 + 4 + 4

-- `sizeof(MADT)`
abbrev pub madt_size : ℕ
madt_size = sdt_header_size + 4 + 4

-- the table as the code reads it: whether its signature is that of an MADT, the length in its header,
-- and the members `type` and `length` of the item at an address
pub record Table : Type 0 where
  pub is_madt : Bool
  pub length_of : ℕ
  pub item_type : ℕ → ℕ
  pub item_length : ℕ → ℕ
  pub apic_structures : ℕ
  pub madt_base : ℕ

module _ (t : Table) (type offset : ℕ) where
  -- the loop, from an item on; the inner `Option` is `none` for null, the outer one when the fuel runs
  -- out
  unfoldable pub item_loop : (fuel total_length counter item : ℕ) → Option (Option ℕ)
  item_loop zero total_length counter item = none
  item_loop (suc fuel) total_length counter item =
      let is_type = t.item_type item == type in
      let total = u64 (total_length + t.item_length item) in
      let rest =
        item_loop fuel total (if is_type then u8 (counter + 1) else counter)
          (u64 (t.madt_base + total)) in
      if ltb (total_length + madt_size) t.length_of && leb counter offset
      then (if is_type && (counter == offset) then some (some item) else rest)
      else some none

  unfoldable pub get_madt_item : ℕ → Option (Option ℕ)
  unfolding item_loop
  get_madt_item fuel =
      let found = item_loop fuel 0 0 t.apic_structures in if t.is_madt then found else some none
