-- ===== src/Boot/Madt/Items.antt =====
-- Which item `get_MADT_item` finds.
use java_script_os.Base.{
  ℕ, zero, suc, ◌+◌, ◌^◌, ◌≤◌, ◌<◌, ◌≡◌, refl, Bool, true, false, Option, none, some, List, [], ◌∷◌,
  ◌==◌, ltb, leb, if◌then◌else◌, u8, u64, length, arith, ap, sym, ◌∙◌, subst, Bool-cases, inl, inr,
}
use java_script_os.Boot.Madt.{Table, madt_size, item_loop, get_madt_item}

-- an item: its type and its length
abbrev pub Item : Type 0
Item = ℕ × ℕ

abbrev pub size_of : List Item → ℕ
size_of [] = 0
size_of ((k, n) ∷ items) = n + size_of items

-- From an address on the table has these items, one behind the other, and each has a length.
abbrev pub HasItems : Table → ℕ → List Item → Type 0
HasItems t a [] = Unit {0}
HasItems t a ((k, n) ∷ items) =
    (t.item_type a ≡ k) × (t.item_length a ≡ n) × (0 < n) × HasItems t (a + n) items

-- the address of item number `i` among those of a type, from an address on
abbrev pub nth_of_type : (type i : ℕ) → ℕ → List Item → Option ℕ
nth_of_type type i a [] = none
nth_of_type type i a ((k, n) ∷ items) =
    if k == type
    then elim i [ zero ↦ some a | suc j ↦ nth_of_type type j (a + n) items ]
    else nth_of_type type i (a + n) items

-- one round at an item
module _ (t : Table) (type offset fuel total counter item : ℕ) where
  round-found :
      total + madt_size < t.length_of
      → counter ≡ offset
      → (t.item_type item == type) ≡ true
      → item_loop t type offset (suc fuel) total counter item ≡ some (some item)
  unfolding item_loop
  round-found inside c k =
      let i : ltb (total + madt_size) t.length_of ≡ true = ground arith in
      let le : leb counter offset ≡ true = ground arith in
      let e : (counter == offset) ≡ true = ground arith in rw (i, le, k, e) refl

  round-counted :
      total + madt_size < t.length_of
      → counter < offset
      → (t.item_type item == type) ≡ true
      → item_loop t type offset (suc fuel) total counter item
        ≡ item_loop t type offset fuel
            (u64 (total + t.item_length item))
            (u8 (counter + 1))
            (u64 (t.madt_base + u64 (total + t.item_length item)))
  unfolding item_loop
  round-counted inside c k =
      let i : ltb (total + madt_size) t.length_of ≡ true = ground arith in
      let le : leb counter offset ≡ true = ground arith in
      let e : (counter == offset) ≡ false = ground arith in rw (i, le, k, e) refl

  round-other :
      total + madt_size < t.length_of
      → counter ≤ offset
      → (t.item_type item == type) ≡ false
      → item_loop t type offset (suc fuel) total counter item
        ≡ item_loop t type offset fuel
            (u64 (total + t.item_length item))
            counter
            (u64 (t.madt_base + u64 (total + t.item_length item)))
  unfolding item_loop
  round-other inside c k =
      let i : ltb (total + madt_size) t.length_of ≡ true = ground arith in
      let le : leb counter offset ≡ true = ground arith in rw (i, le, k) refl

  round-end :
      t.length_of ≤ total + madt_size
      → item_loop t type offset (suc fuel) total counter item ≡ some none
  unfolding item_loop
  round-end out = let i : ltb (total + madt_size) t.length_of ≡ false = ground arith in rw i refl

-- The table fits the address space, and the items fill it up to its length.
pub record IsFilled (t : Table) (items : List Item) : Type 0 where
  pub first : t.apic_structures ≡ t.madt_base
  pub filled : t.length_of ≡ madt_size + size_of items
  pub fits : t.madt_base + t.length_of < 2 ^ 64
  pub has_items : HasItems t t.madt_base items

module _ (t : Table) (type offset : ℕ) (fits : t.madt_base + t.length_of < 2 ^ 64)
    (byte : offset < 2 ^ 8) where
  -- the arguments of the next round, without wrap
  next_round :
      (fuel total counter n : ℕ)
      → t.item_length (t.madt_base + total) ≡ n
      → total + n ≤ t.length_of
      → item_loop t type offset fuel
          (u64 (total + t.item_length (t.madt_base + total)))
          counter
          (u64 (t.madt_base + u64 (total + t.item_length (t.madt_base + total))))
        ≡ item_loop t type offset fuel (total + n) counter (t.madt_base + (total + n))
  next_round fuel total counter n en le =
      let e : u64 (total + n) ≡ total + n = omega arith in
      let e' : u64 (t.madt_base + (total + n)) ≡ t.madt_base + (total + n) = omega arith in
      rw (en, e, e') refl

  item_loop-nth_of_type :
      (fuel total counter left : ℕ) (items : List Item)
      → t.length_of ≡ total + madt_size + size_of items
      → counter + left ≡ offset
      → HasItems t (t.madt_base + total) items
      → length items < fuel
      → item_loop t type offset fuel total counter (t.madt_base + total)
        ≡ some (nth_of_type type left (t.madt_base + total) items)
  item_loop-nth_of_type zero total counter left items filled count has lt = absurd (omega arith)
  item_loop-nth_of_type (suc fuel) total counter left [] filled count has lt =
      round-end t type offset fuel total counter (t.madt_base + total) (omega arith)
  item_loop-nth_of_type (suc fuel) total counter zero ((k, n) ∷ items) filled count
        (ek, en, pos, has) lt =
      let a = t.madt_base + total in
      let place : t.madt_base + (total + n) ≡ a + n = omega arith in
      elim (Bool-cases (k == type)) [
        | inl e ↦
            round-found t type offset fuel total counter a (omega arith) (omega arith)
              (ap (λ (x : ℕ). x == type) ek ∙ e)
            ∙ sym
                (ap (λ (b : Bool). some (if b then some a else nth_of_type type 0 (a + n) items)) e)
        | inr e ↦
            round-other t type offset fuel total counter a (omega arith) (omega arith)
              (ap (λ (x : ℕ). x == type) ek ∙ e)
            ∙ next_round fuel total counter n en (omega arith)
            ∙ item_loop-nth_of_type fuel (total + n) counter 0 items (omega arith) count
                (subst (λ (x : ℕ). HasItems t x items) (sym place) has) (omega arith)
            ∙ ap (λ (x : ℕ). some (nth_of_type type 0 x items)) place
            ∙ sym
                (ap (λ (b : Bool). some (if b then some a else nth_of_type type 0 (a + n) items)) e)
      ]
  item_loop-nth_of_type (suc fuel) total counter (suc left) ((k, n) ∷ items) filled count
        (ek, en, pos, has) lt =
      let a = t.madt_base + total in
      let place : t.madt_base + (total + n) ≡ a + n = omega arith in
      elim (Bool-cases (k == type)) [
        | inl e ↦
            let wraps : u8 (counter + 1) ≡ counter + 1 = omega arith in
            round-counted t type offset fuel total counter a (omega arith) (omega arith)
              (ap (λ (x : ℕ). x == type) ek ∙ e)
            ∙ next_round fuel total (u8 (counter + 1)) n en (omega arith)
            ∙ ap (λ (c : ℕ). item_loop t type offset fuel (total + n) c (t.madt_base + (total + n)))
                wraps
            ∙ item_loop-nth_of_type fuel (total + n) (counter + 1) left items (omega arith)
                (omega arith) (subst (λ (x : ℕ). HasItems t x items) (sym place) has) (omega arith)
            ∙ ap (λ (x : ℕ). some (nth_of_type type left x items)) place
            ∙ sym (
                ap
                  (λ (b : Bool). some (
                    if b
                    then nth_of_type type left (a + n) items
                    else nth_of_type type (suc left) (a + n) items))
                  e)
        | inr e ↦
            round-other t type offset fuel total counter a (omega arith) (omega arith)
              (ap (λ (x : ℕ). x == type) ek ∙ e)
            ∙ next_round fuel total counter n en (omega arith)
            ∙ item_loop-nth_of_type fuel (total + n) counter (suc left) items (omega arith) count
                (subst (λ (x : ℕ). HasItems t x items) (sym place) has) (omega arith)
            ∙ ap (λ (x : ℕ). some (nth_of_type type (suc left) x items)) place
            ∙ sym (
                ap
                  (λ (b : Bool). some (
                    if b
                    then nth_of_type type left (a + n) items
                    else nth_of_type type (suc left) (a + n) items))
                  e)
      ]

-- In a table whose items begin at `madt_base` and fill it up to its length, `get_MADT_item` with more
-- fuel than there are items finds the item of the given type with the given number, counted from 0,
-- or null when the type has no more items; without the signature of an MADT it finds null.
pub get_madt_item-nth_of_type :
    (t : Table) (type offset fuel : ℕ) (items : List Item)
    → IsFilled t items
    → offset < 2 ^ 8
    → length items < fuel
    → get_madt_item t type offset fuel
      ≡ some (if t.is_madt then nth_of_type type offset t.madt_base items else none)
unfolding get_madt_item
get_madt_item-nth_of_type t type offset fuel items i byte lt = elim (Bool-cases t.is_madt) [
  | inl e ↦
      let start : t.madt_base + 0 ≡ t.madt_base = omega arith in
      rw e (
        ap (λ (a : ℕ). item_loop t type offset fuel 0 0 a) (i.first ∙ sym start)
        ∙ item_loop-nth_of_type t type offset i.fits byte fuel 0 0 offset items
            (i.filled ∙ omega arith) (omega arith)
            (subst (λ (a : ℕ). HasItems t a items) (sym start) i.has_items) lt
        ∙ ap (λ (a : ℕ). some (nth_of_type type offset a items)) start)
  | inr e ↦ rw e refl
]
