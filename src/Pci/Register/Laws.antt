-- ===== src/Pci/Register/Laws.antt =====
-- What a write to a configuration register changes.
use java_script_os.Base.{
  ℕ, ◌+◌, ◌/◌, ◌%◌, ◌^◌, ◌<◌, ◌≡◌, ◌≢◌, ◌&&◌, ◌==◌, if◌then◌else◌, u8, arith, Bool-cases, true, inl,
  inr, ◌∙◌, ap, ==_iff,
}
use native.Mathlib.Nat.{mod-eq_of_lt}
use java_script_os.Pci.Register.{
  Ports, lane, replace, read_register, write_register8, write_register16, pci_read_register16,
  pci_write_register16,
}
use java_script_os.Pci.Address.{pci_config_address}

-- the byte that a one-byte read at address `a` and register offset `offset` returns
abbrev pub byte_at : Ports → ℕ → ℕ → ℕ
byte_at p a offset = u8 (read_register a offset p).1

-- A byte of a register after one of its bytes was replaced.
replace8-byte :
    (o o' cur v : ℕ)
    → cur < 2 ^ 32
    → v < 2 ^ 8
    → u8 (replace (2 ^ 8) (lane o) cur v / lane o')
      ≡ (if o' % 4 == o % 4 then v else u8 (cur / lane o'))
replace8-byte o o' cur v h hv = ground arith

-- A byte of a register after two of its bytes were replaced.
replace16-byte :
    (o o' cur v : ℕ)
    → cur < 2 ^ 32
    → v < 2 ^ 16
    → o % 4 ≢ 3
    → u8 (replace (2 ^ 16) (lane o) cur v / lane o') ≡ (
        if o' % 4 == o % 4
        then v % 2 ^ 8
        else if o' % 4 == o % 4 + 1
        then v / 2 ^ 8
        else u8 (cur / lane o'))
replace16-byte o o' cur v h hv ne = ground arith

-- A one-byte write is read back at its register, and changes no other byte of the configuration
-- space.
pub write_register8-byte_at :
    (a o v : ℕ) (p : Ports) (b o' : ℕ)
    → p.config a < 2 ^ 32
    → v < 2 ^ 8
    → byte_at (write_register8 a o v p) b o'
      ≡ (if (b == a) && (o' % 4 == o % 4) then v else byte_at p b o')
unfolding write_register8 read_register
write_register8-byte_at a o v p b o' h hv = elim (Bool-cases (b == a)) [
  | inl e ↦ rw (e, mod-eq_of_lt hv) (replace8-byte o o' (p.config a) v h hv ∙ same e)
  | inr e ↦ rw e
]
  where
    same :
        (b == a) ≡ true
        → (if o' % 4 == o % 4 then v else u8 (p.config a / lane o'))
          ≡ (if o' % 4 == o % 4 then v else u8 (p.config b / lane o'))
    same e =
        ap (λ x. if o' % 4 == o % 4 then v else u8 (p.config x / lane o'))
          (omega (arith, (==_iff b a).0 e))

-- A two-byte write that does not start at the last byte of its register is read back by the two
-- bytes, and changes no other byte of the configuration space.
pub write_register16-byte_at :
    (a o v : ℕ) (p : Ports) (b o' : ℕ)
    → p.config a < 2 ^ 32
    → v < 2 ^ 16
    → o % 4 ≢ 3
    → byte_at (write_register16 a o v p) b o' ≡ (
        if (b == a) && (o' % 4 == o % 4)
        then v % 2 ^ 8
        else if (b == a) && (o' % 4 == o % 4 + 1)
        then v / 2 ^ 8
        else byte_at p b o')
unfolding write_register16 read_register
write_register16-byte_at a o v p b o' h hv ne = elim (Bool-cases (b == a)) [
  | inl e ↦ rw (e, mod-eq_of_lt hv) (replace16-byte o o' (p.config a) v h hv ne ∙ same e)
  | inr e ↦ rw e
]
  where
    bytes : ℕ → ℕ
    bytes x =
        if o' % 4 == o % 4
        then v % 2 ^ 8
        else if o' % 4 == o % 4 + 1
        then v / 2 ^ 8
        else u8 (p.config x / lane o')

    same : (b == a) ≡ true → bytes a ≡ bytes b
    same e = ap bytes (omega (arith, (==_iff b a).0 e))

-- In the C code, a two-byte write at an even offset is read back by a two-byte read there.
pub pci_write_register16-read :
    (bus device function o v : ℕ) (p : Ports)
    → p.config (pci_config_address bus device function o) < 2 ^ 32
    → v < 2 ^ 16
    → o % 2 ≡ 0
    → (pci_read_register16 bus device function o (pci_write_register16 bus device function o v p)).1
      ≡ v
unfolding pci_read_register16 pci_write_register16 write_register16 read_register
pci_write_register16-read bus device function o v p h hv even = ground arith

-- Writing a byte back that was just read there leaves the configuration space as it was.
pub write_register8-read :
    (a o : ℕ) (p : Ports) (b : ℕ)
    → p.config a < 2 ^ 32
    → (write_register8 a o (read_register a o p).1 p).config b ≡ p.config b
unfolding write_register8 read_register
write_register8-read a o p b h = elim (Bool-cases (b == a)) [
  | inl e ↦ rw e (same (p.config a) h ∙ ap p.config (omega (arith, (==_iff b a).0 e)))
  | inr e ↦ rw e
]
  where
    same : (cur : ℕ) → cur < 2 ^ 32 → replace (2 ^ 8) (lane o) cur (u8 (cur / lane o)) ≡ cur
    same cur lt = ground arith
