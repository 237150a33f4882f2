-- ===== src/Pci/Header/Laws.antt =====
-- The registers of a header do not overlap, and a write to one of them leaves the others as they
-- are.
use java_script_os.Base.{
  ℕ, zero, suc, ◌+◌, ◌/◌, ◌%◌, ◌^◌, u8, u16, ◌<◌, ◌≤◌, ◌≡◌, ◌≢◌, ◌⊎◌, inl, inr, ◌&&◌, ◌==◌, Bool,
  true, false, leb, List, [], ◌∷◌, map, some, get_elem?, arith, refl, sym, ◌∙◌, subst, Bool-cases,
  ==_iff,
}
use java_script_os.Pci.Address.{ConfigSpaceAddress, raw, add_offset}
use java_script_os.Pci.Register.{
  Ports, Size, byte, word, dword, proxy_write, write_register8, write_register16, write_register32,
  read_register,
}
use java_script_os.Pci.Register.Laws.{byte_at, write_register8-byte_at, write_register16-byte_at}
use java_script_os.Pci.Header.{
  Header, general, bridge, cardbus, Register, place, Place, at, start, size,
}
use java_script_os.Pci.Header.Order.{order, rank, order-rank}

abbrev bytes : Size → ℕ
bytes byte = 1
bytes word = 2
bytes dword = 4

-- the first offset behind a register
abbrev stop : Place → ℕ
stop p = start p + bytes (size p)

-- a register does not cross a 32-bit boundary, and lies in the 256 bytes of a function
abbrev pub fits : Place → Bool
fits p = leb (start p % 4 + bytes (size p)) 4 && leb (stop p) 256

-- Each register ends before the next one of the list starts.
chained : List Place → Bool
chained [] = true
chained (p ∷ []) = fits p
chained (p ∷ q ∷ ps) = fits p && leb (stop p) (start q) && chained (q ∷ ps)

chained-fits :
    (ps : List Place) (i : ℕ) (p : Place)
    → chained ps ≡ true
    → get_elem? ps i ≡ some p
    → fits p ≡ true
unfolding chained
chained-fits [] i p h e = ground arith
chained-fits (a ∷ []) zero p h e = ground arith
chained-fits (a ∷ []) (suc i) p h e = ground arith
chained-fits (a ∷ b ∷ ps) zero p h e = ground arith
chained-fits (a ∷ b ∷ ps) (suc i) p h e = ground (arith, chained-fits (b ∷ ps) i p)

chained-after :
    (p : Place) (ps : List Place) (j : ℕ) (q : Place)
    → chained (p ∷ ps) ≡ true
    → get_elem? ps j ≡ some q
    → stop p ≤ start q
unfolding chained
chained-after p [] j q h e = ground arith
chained-after p (a ∷ ps) zero q h e = ground arith
chained-after p (a ∷ ps) (suc j) q h e = ground (arith, chained-after a ps j q)

chained-ordered :
    (ps : List Place) (i j : ℕ) (p q : Place)
    → chained ps ≡ true
    → i < j
    → get_elem? ps i ≡ some p
    → get_elem? ps j ≡ some q
    → stop p ≤ start q
unfolding chained
chained-ordered [] i j p q h lt ei ej = ground arith
chained-ordered (a ∷ ps) zero zero p q h lt ei ej = ground arith
chained-ordered (a ∷ ps) zero (suc j) p q h lt ei ej = ground (arith, chained-after a ps j q)
chained-ordered (a ∷ ps) (suc i) zero p q h lt ei ej = ground arith
chained-ordered (a ∷ []) (suc i) (suc j) p q h lt ei ej = ground arith
chained-ordered (a ∷ b ∷ ps) (suc i) (suc j) p q h lt ei ej =
    ground (arith, chained-ordered (b ∷ ps) i j p q)

order-chained : (h : Header) → chained (map (place h) (order h)) ≡ true
unfolding chained place
order-chained general = refl
order-chained bridge = refl
order-chained cardbus = refl

get_elem?-map {ℓ κ} :
    {A : Type ℓ} {B : Type κ} (f : A → B) (xs : List A) (i : ℕ) (x : A)
    → get_elem? xs i ≡ some x
    → get_elem? (map f xs) i ≡ some (f x)
get_elem?-map f [] i x h = ground arith
get_elem?-map f (a ∷ xs) zero x h = cc
get_elem?-map f (a ∷ xs) (suc i) x h = get_elem?-map f xs i x h

place-at_rank :
    (h : Header) (r : Register h)
    → get_elem? (map (place h) (order h)) (rank h r) ≡ some (place h r)
place-at_rank h r = get_elem?-map (place h) (order h) (rank h r) r (order-rank h r)

rank-injective : (h : Header) (r r' : Register h) → rank h r ≡ rank h r' → r ≡ r'
rank-injective h r r' e =
    let same = subst (λ i. get_elem? (order h) i ≡ some r') (sym e) (order-rank h r') in
    some-injective (sym (order-rank h r) ∙ same)
  where
    some-injective : some r ≡ some r' → r ≡ r'
    some-injective q = cc

place-fits : (h : Header) (r : Register h) → fits (place h r) ≡ true
place-fits h r = chained-fits _ _ _ (order-chained h) (place-at_rank h r)

fits-bound : (pl : Place) (i : ℕ) → fits pl ≡ true → i < stop pl → i < 256
fits-bound pl i h lt = ground arith

-- Two different registers of a header have no byte in common.
pub place-apart :
    (h : Header) (r r' : Register h)
    → r ≢ r'
    → (stop (place h r) ≤ start (place h r')) ⊎ (stop (place h r') ≤ start (place h r))
place-apart h r r' ne = elim (lt-cases (rank h r) (rank h r') (λ e. ne (rank-injective h r r' e))) [
  | inl lt ↦
      inl (chained-ordered _ _ _ _ _ (order-chained h) lt (place-at_rank h r) (place-at_rank h r'))
  | inr lt ↦
      inr (chained-ordered _ _ _ _ _ (order-chained h) lt (place-at_rank h r') (place-at_rank h r))
]
  where
    lt-cases : (i j : ℕ) → i ≢ j → (i < j) ⊎ (j < i)
    lt-cases i j ne = ground arith

-- The addresses of two offsets are the same exactly when they lie in the same 32 bits.
raw-same_dword :
    (base : ConfigSpaceAddress) (o i : ℕ)
    → base.offset ≡ 0
    → o < 256
    → i < 256
    → raw (add_offset base i) ≡ raw (add_offset base o)
    → i / 4 ≡ o / 4
unfolding raw add_offset
raw-same_dword base o i z ho hi e = omega arith

write_register32-byte_at :
    (a o v : ℕ) (p : Ports) (b i : ℕ)
    → (b == a) ≡ false
    → byte_at (write_register32 a o v p) b i ≡ byte_at p b i
unfolding write_register32 read_register
write_register32-byte_at a o v p b i ne = rw ne

idem8 : (v : ℕ) → u8 (u8 v) ≡ u8 v
idem8 v = omega arith

idem16 : (v : ℕ) → u16 (u16 v) ≡ u16 v
idem16 v = omega arith

write_register8-u8 :
    (a o v : ℕ) (p : Ports) → write_register8 a o v p ≡ write_register8 a o (u8 v) p
unfolding write_register8
write_register8-u8 a o v p = rw (idem8 v)

write_register16-u16 :
    (a o v : ℕ) (p : Ports) → write_register16 a o v p ≡ write_register16 a o (u16 v) p
unfolding write_register16
write_register16-u16 a o v p = rw (idem16 v)

-- the byte of a function's configuration space at an offset
abbrev pub byte_of : ConfigSpaceAddress → Ports → ℕ → ℕ
byte_of base q i = byte_at q (raw (add_offset base i)) i

and-left : (b : Bool) (i : ℕ) → (b && (i == i)) ≡ false → b ≡ false
and-left b i h = ground arith

module _ (base : ConfigSpaceAddress) (p : Ports) (z : base.offset ≡ 0)
    (words : (a : ℕ) → p.config a < 2 ^ 32) where
  -- Two offsets with the same address and the same place in their 32 bits are the same.
  same_byte :
      (o i k : ℕ)
      → o < 256
      → i < 256
      → (i / 4 ≢ o / 4) ⊎ (i % 4 ≢ k)
      → ((raw (add_offset base i) == raw (add_offset base o)) && (i % 4 == k)) ≡ false
  same_byte o i k ho hi ne =
      elim (Bool-cases (raw (add_offset base i) == raw (add_offset base o))) [
        | inl e ↦ rw e (ground (arith, raw-same_dword base o i z ho hi ((==_iff _ _).0 e)))
        | inr e ↦ rw e
      ]

  proxy_write-byte_of :
      (pl : Place) (v i : ℕ)
      → fits pl ≡ true
      → i < 256
      → (i < start pl) ⊎ (stop pl ≤ i)
      → byte_of base (proxy_write base (start pl) (size pl) v p) i ≡ byte_of base p i
  unfolding proxy_write
  proxy_write-byte_of (at o byte) v i f hi out =
      rw (write_register8-u8 (raw (add_offset base o)) o v p) (
        write_register8-byte_at (raw (add_offset base o)) o (u8 v) p (raw (add_offset base i)) i
          (words _) (omega arith)
        ∙ rw (same_byte o i (o % 4) (ground arith) hi (ground arith)))
  proxy_write-byte_of (at o word) v i f hi out =
      rw (write_register16-u16 (raw (add_offset base o)) o v p) (
        write_register16-byte_at (raw (add_offset base o)) o (u16 v) p (raw (add_offset base i)) i
          (words _) (omega arith) (ground arith)
        ∙ rw (
          same_byte o i (o % 4) (ground arith) hi (ground arith),
          same_byte o i (o % 4 + 1) (ground arith) hi (ground arith),
        ))
  proxy_write-byte_of (at o dword) v i f hi out =
      write_register32-byte_at (raw (add_offset base o)) o v p (raw (add_offset base i)) i
        (and-left _ (i % 4) (same_byte o i (i % 4) (ground arith) hi (ground arith)))

  -- In a function whose 32-bit registers keep what is written to them, a write to one register of
  -- the function's header leaves every byte of each other register of that header as it was.
  pub proxy_write-other :
      (h : Header) (r r' : Register h) (v i : ℕ)
      → r ≢ r'
      → start (place h r') ≤ i
      → i < stop (place h r')
      → byte_of base (proxy_write base (start (place h r)) (size (place h r)) v p) i
        ≡ byte_of base p i
  proxy_write-other h r r' v i ne from to =
      proxy_write-byte_of (place h r) v i (place-fits h r)
        (fits-bound (place h r') i (place-fits h r') to) (outside (place-apart h r r' ne))
    where
      outside :
          (stop (place h r) ≤ start (place h r')) ⊎ (stop (place h r') ≤ start (place h r))
          → (i < start (place h r)) ⊎ (stop (place h r) ≤ i)
      outside e = ground arith
