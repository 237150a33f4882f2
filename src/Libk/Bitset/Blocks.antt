-- ===== src/Libk/Bitset/Blocks.antt =====
-- The bits of a block, and what one write to them changes.
use java_script_os.Base.{
  ℕ, zero, suc, ◌+◌, ◌-◌, ◌/◌, ◌%◌, ◌<◌, ◌≤◌, ◌≡◌, ◌≢◌, ◌⊎◌, refl, Bool, true, false, none, some,
  List, [], ◌∷◌, ◌==◌, if◌then◌else◌, not, get_elem?, set, length, length-set, get_elem?-set_self,
  get_elem?-set_ne, ℕ_discrete, arith, ap, sym, ◌∙◌, Bool-cases, inl, inr,
}
use java_script_os.Base.Bitwise.{
  shift_left, bitwise, or_digit, and_digit, complement, bit, bit-lt, bit-shift_left, bit-complement,
  bit-bitwise,
}
use java_script_os.Libk.Bitset.{fill_from, read, set_bit}

or_small : (a b : ℕ) → a < 2 → b < 2 → or_digit a b < 2
or_small zero b h k = omega arith
or_small (suc zero) b h k = omega arith
or_small (suc (suc a)) b h k = absurd (omega arith)

and_small : (a b : ℕ) → a < 2 → b < 2 → and_digit a b < 2
and_small zero b h k = omega arith
and_small (suc zero) b h k = omega arith
and_small (suc (suc a)) b h k = absurd (omega arith)

-- the block after the write of a bit
abbrev written : Bool → (block b : ℕ) → ℕ
written value block b =
    if value
    then bitwise or_digit 64 block (shift_left 1 b)
    else bitwise and_digit 64 block (complement 64 (shift_left 1 b))

-- what is shown of a bit
abbrev pub shown : ℕ → Bool
shown x = not (x == 0)

or_shown :
    (x b c : ℕ)
    → x < 2
    → shown (or_digit x (if b == c then 1 else 0)) ≡ (if b == c then true else shown x)
or_shown zero b c h = ground arith
or_shown (suc zero) b c h = ground arith
or_shown (suc (suc x)) b c h = absurd (omega arith)

and_shown :
    (x b c : ℕ)
    → x < 2
    → shown (and_digit x (1 - (if b == c then 1 else 0))) ≡ (if b == c then false else shown x)
and_shown zero b c h = ground arith
and_shown (suc zero) b c h = ground arith
and_shown (suc (suc x)) b c h = absurd (omega arith)

shown-written :
    (value : Bool) (block b c : ℕ)
    → c < 64
    → shown (bit (written value block b) c) ≡ (if b == c then value else shown (bit block c))
shown-written true block b c h =
    ap shown (
      bit-bitwise or_digit or_small 64 block (shift_left 1 b) c h
      ∙ ap (or_digit (bit block c)) (bit-shift_left b c))
    ∙ or_shown (bit block c) b c (bit-lt block c)
shown-written false block b c h =
    ap shown (
      bit-bitwise and_digit and_small 64 block (complement 64 (shift_left 1 b)) c h
      ∙ ap (and_digit (bit block c))
          (bit-complement 64 (shift_left 1 b) c h ∙ ap (λ x. 1 - x) (bit-shift_left b c)))
    ∙ and_shown (bit block c) b c (bit-lt block c)

get_elem?-some : (xs : List ℕ) (i : ℕ) → i < length xs → (w : ℕ) × (get_elem? xs i ≡ some w)
get_elem?-some [] i h = absurd (omega arith)
get_elem?-some (x ∷ xs) zero h = (x, refl)
get_elem?-some (x ∷ xs) (suc i) h = get_elem?-some xs i (omega arith)

get_elem?-none : (xs : List ℕ) (i : ℕ) → length xs ≤ i → get_elem? xs i ≡ none
get_elem?-none [] i h = refl
get_elem?-none (x ∷ xs) zero h = absurd (omega arith)
get_elem?-none (x ∷ xs) (suc i) h = get_elem?-none xs i (omega arith)

pub length-fill_from :
    (left i value : ℕ) (xs : List ℕ) → length (fill_from left i value xs) ≡ length xs
unfolding fill_from
length-fill_from zero i value xs = refl
length-fill_from (suc left) i value xs =
    length-fill_from left (i + 1) value (set xs i value) ∙ length-set xs i value

-- The loop writes the value to each index that it passes.
pub get_elem?-fill_from :
    (left i value j : ℕ) (xs : List ℕ)
    → j < length xs
    → (get_elem? xs j ≡ some value) ⊎ (i ≤ j)
    → j < i + left
    → get_elem? (fill_from left i value xs) j ≡ some value
unfolding fill_from
get_elem?-fill_from zero i value j xs h (inl e) lt = e
get_elem?-fill_from zero i value j xs h (inr le) lt = absurd (omega arith)
get_elem?-fill_from (suc left) i value j xs h before lt =
    let long : j < length (set xs i value) = omega (arith, length-set xs i value) in
    get_elem?-fill_from left (i + 1) value j (set xs i value) long (passed before) (omega arith)
  where
    passed :
        (get_elem? xs j ≡ some value) ⊎ (i ≤ j)
        → (get_elem? (set xs i value) j ≡ some value) ⊎ (i + 1 ≤ j)
    passed before = elim (ℕ_discrete i j) [
      | yes e ↦ inl (ap (λ k. get_elem? (set xs k value) j) e ∙ get_elem?-set_self xs j value h)
      | no ne ↦ elim before [
        | inl e ↦ inl (get_elem?-set_ne xs i j value ne ∙ e)
        | inr le ↦ inr (omega arith)
      ]
    ]

pub read-bit :
    (blocks : List ℕ) (pos w : ℕ)
    → get_elem? blocks (pos / 64) ≡ some w
    → read blocks pos ≡ some (shown (bit w (pos % 64)))
unfolding read
read-bit blocks pos w e = rw e refl

pub read-none : (blocks : List ℕ) (pos : ℕ) → length blocks ≤ pos / 64 → read blocks pos ≡ none
unfolding read
read-none blocks pos h = rw (get_elem?-none blocks (pos / 64) h) refl

read-same :
    (xs ys : List ℕ) (q : ℕ) → get_elem? xs (q / 64) ≡ get_elem? ys (q / 64) → read xs q ≡ read ys q
unfolding read
read-same xs ys q e = rw e refl

different : (p q : ℕ) → p / 64 ≢ q / 64 → (p == q) ≡ false
different p q h = elim (Bool-cases (p == q)) [
  | inl e ↦ let eq : p ≡ q = ground arith in absurd (h (ap (λ x. x / 64) eq))
  | inr e ↦ e
]

pub set_bit-none :
    (blocks : List ℕ) (p : ℕ) (value : Bool)
    → length blocks ≤ p / 64
    → set_bit p value blocks ≡ none
unfolding set_bit
set_bit-none blocks p value h = rw (get_elem?-none blocks (p / 64) h) refl

same_block : (p q : ℕ) → p / 64 ≡ q / 64 → (p % 64 == q % 64) ≡ (p == q)
same_block p q e = ground arith

-- What a write of a bit changes.
pub record Set (p : ℕ) (value : Bool) (blocks : List ℕ) : Type 0 where
  pub after : List ℕ
  pub done : set_bit p value blocks ≡ some after
  pub long : length after ≡ length blocks
  pub reads : (q : ℕ) → read after q ≡ (if p == q then some value else read blocks q)

pub if-some :
    {A : Type 0} (b : Bool) (x y : A) → some (if b then x else y) ≡ (if b then some x else some y)
if-some true x y = refl
if-some false x y = refl

pub set_bit-Set :
    (p : ℕ) (value : Bool) (blocks : List ℕ) → p / 64 < length blocks → Set p value blocks
unfolding set_bit
set_bit-Set p value blocks h =
    let (w, e) = get_elem?-some blocks (p / 64) h in
    let new = written value w (p % 64) in
    record {
      after = set blocks (p / 64) new;
      done = rw e refl;
      long = length-set blocks (p / 64) new;
      reads = λ q. elim (ℕ_discrete (p / 64) (q / 64)) [
        | yes same ↦
            read-bit (set blocks (p / 64) new) q new (
              ap (get_elem? (set blocks (p / 64) new)) (sym same)
              ∙ get_elem?-set_self blocks (p / 64) new h)
            ∙ ap some (shown-written value w (p % 64) (q % 64) (omega arith))
            ∙ if-some (p % 64 == q % 64) value (shown (bit w (q % 64)))
            ∙ rw (same_block p q same, read-bit blocks q w (ap (get_elem? blocks) (sym same) ∙ e))
                refl
        | no other ↦
            let ne : (p == q) ≡ false = different p q other in
            read-same (set blocks (p / 64) new) blocks q
              (get_elem?-set_ne blocks (p / 64) (q / 64) new other)
            ∙ rw ne refl
      ];
    }
