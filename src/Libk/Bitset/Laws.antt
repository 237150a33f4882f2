-- ===== src/Libk/Bitset/Laws.antt =====
-- A bit set holds a map from positions to truth values.
use java_script_os.Base.{
  ℕ, ◌*◌, ◌/◌, ◌%◌, ◌<◌, ◌≤◌, ◌≡◌, refl, Bool, true, false, Option, none, some, List, [], ◌∷◌, ◌==◌,
  if◌then◌else◌, length, ltb, arith, ap, sym, ◌∙◌, ◌>>=◌, Bool-cases, inl, inr,
}
use java_script_os.Base.Bitwise.{shift_right, bit-zero}
use java_script_os.Libk.Bitset.{fill, num_blocks, bitset, read, set_bit}
use java_script_os.Libk.Bitset.Blocks.{
  set_bit-Set, read-none, read-bit, set_bit-none, if-some, length-fill_from, get_elem?-fill_from,
  shown,
}

-- the writes one after the other
abbrev pub set_all : List (ℕ × Bool) → List ℕ → Option (List ℕ)
set_all [] blocks = some blocks
set_all ((p, value) ∷ ops) blocks = set_bit p value blocks >>= set_all ops

-- the value that was written last to a position, or the one before all writes
abbrev pub latest : Bool → ℕ → List (ℕ × Bool) → Bool
latest before q [] = before
latest before q ((p, value) ∷ ops) = latest (if p == q then value else before) q ops

-- All positions are below a bound.
abbrev pub AllBelow : ℕ → List (ℕ × Bool) → Type 0
AllBelow n [] = Unit {0}
AllBelow n ((p, value) ∷ ops) = (p < n) × AllBelow n ops

-- What the writes leave of the blocks.
pub record Latest (ops : List (ℕ × Bool)) (blocks : List ℕ) : Type 0 where
  pub after : List ℕ
  pub done : set_all ops blocks ≡ some after
  pub long : length after ≡ length blocks
  pub reads :
      (q : ℕ) (before : Bool)
      → read blocks q ≡ some before
      → read after q ≡ some (latest before q ops)

set_all-Latest :
    (ops : List (ℕ × Bool)) (blocks : List ℕ)
    → AllBelow (64 * length blocks) ops
    → Latest ops blocks
set_all-Latest [] blocks below = record {
  after = blocks;
  done = refl;
  long = refl;
  reads = λ q before e. e;
}
set_all-Latest ((p, value) ∷ ops) blocks (lt, below) =
    let s = set_bit-Set p value blocks (omega arith) in
    let rest = set_all-Latest ops s.after (rw s.long below) in
    record {
      after = rest.after;
      done = rw s.done rest.done;
      long = rest.long ∙ s.long;
      reads = λ q before e. rest.reads q (if p == q then value else before) (
          s.reads q
          ∙ ap (λ (o : Option Bool). if p == q then some value else o) e
          ∙ sym (if-some (p == q) value before));
    }

bitset-read :
    (n : ℕ) (blocks : List ℕ) (q : ℕ)
    → length blocks ≡ num_blocks n
    → q < 64 * num_blocks n
    → read (bitset n blocks) q ≡ some false
unfolding bitset shift_right
bitset-read n blocks q long lt =
    read-bit (fill (num_blocks n) 0 blocks) q 0 (
      get_elem?-fill_from (num_blocks n) 0 0 (q / 64) blocks (omega arith) (inr (omega arith))
        (omega arith))
    ∙ ap some (ap shown (bit-zero (q % 64)))

-- The write stays inside the blocks.
abbrev pub accepted : Option (List ℕ) → Bool
accepted none = false
accepted (some blocks) = true

set_bit-accepted :
    (blocks : List ℕ) (p : ℕ) (value : Bool)
    → p / 64 < length blocks
    → accepted (set_bit p value blocks) ≡ true
set_bit-accepted blocks p value h = ap accepted ((set_bit-Set p value blocks h).done)

-- On a set of `N` bits, whatever its memory held before the constructor: after any writes at
-- positions in its blocks, a position in them reads as the value that was written to it last, or as
-- false when there was none; a position outside them is an access outside the array, also for a
-- write. Positions from `N` on that the last block holds are not refused.
pub set_all-latest :
    (n : ℕ) (blocks : List ℕ) (ops : List (ℕ × Bool)) (q : ℕ) (value : Bool)
    → length blocks ≡ num_blocks n
    → AllBelow (64 * num_blocks n) ops
    → (after : List ℕ) × (set_all ops (bitset n blocks) ≡ some after)
      × (read after q ≡ (if ltb q (64 * num_blocks n) then some (latest false q ops) else none))
      × (accepted (set_bit q value after) ≡ ltb q (64 * num_blocks n))
unfolding bitset set_bit
set_all-latest n blocks ops q value long below =
    let start = fill (num_blocks n) 0 blocks in
    let kept : length start ≡ num_blocks n = length-fill_from (num_blocks n) 0 0 blocks ∙ long in
    let l = set_all-Latest ops start (rw kept below) in
    let size : length l.after ≡ num_blocks n = l.long ∙ kept in
    (
      l.after,
      l.done,
      elim (Bool-cases (ltb q (64 * num_blocks n))) [
        | inl e ↦
            l.reads q false (bitset-read n blocks q long (ground arith))
            ∙ sym (ap (λ (b : Bool). if b then some (latest false q ops) else none) e)
        | inr e ↦
            let out : 64 * num_blocks n ≤ q = ground arith in
            read-none l.after q (omega arith)
            ∙ sym (ap (λ (b : Bool). if b then some (latest false q ops) else none) e)
      ],
      elim (Bool-cases (ltb q (64 * num_blocks n))) [
        | inl e ↦ set_bit-accepted l.after q value (ground arith) ∙ sym e
        | inr e ↦
            let out : 64 * num_blocks n ≤ q = ground arith in
            ap accepted (set_bit-none l.after q value (omega arith)) ∙ sym e
      ],
    )
