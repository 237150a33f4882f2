-- ===== src/Pci/EnableMsix/Walk.antt =====
-- What the walk over the capability list finds, and what `enable_msix` leaves.
use java_script_os.Base.{
  ℕ, zero, suc, ◌+◌, ◌<◌, ◌≡◌, ◌≢◌, refl, Bool, true, false, Option, none, some, List, [], ◌∷◌,
  ◌==◌, if◌then◌else◌, u8, length, arith, Bool-cases, inl, inr, sym, ap, ◌∙◌, subst, ◌>>=◌,
}
use java_script_os.Pci.Register.{
  Ports, pci_read_register8, pci_read_register16, pci_read_register32, read_register,
}
use java_script_os.Pci.EnableMsix.{
  MsixDef, Outcome, no_capabilities_list, no_msix_capability, io_space_bar, bar_not_64_bit,
  usable_bar, walk, examine_bar, enable_msix,
}

module _ (def : MsixDef) (bus device function : ℕ) where
  -- registers of the function, by the configuration space behind the ports
  abbrev pub reg8 : (ℕ → ℕ) → ℕ → ℕ
  reg8 config o =
      (pci_read_register8 bus device function o (record { latch = 0; config = config })).1

  abbrev pub reg16 : (ℕ → ℕ) → ℕ → ℕ
  reg16 config o =
      (pci_read_register16 bus device function o (record { latch = 0; config = config })).1

  read8-reg8 :
      (o : ℕ) (p : Ports) → (pci_read_register8 bus device function o p).1 ≡ reg8 p.config o
  unfolding pci_read_register8 read_register
  read8-reg8 o p = refl

  read16-reg16 :
      (o : ℕ) (p : Ports) → (pci_read_register16 bus device function o p).1 ≡ reg16 p.config o
  unfolding pci_read_register16 read_register
  read16-reg16 o p = refl

  read8-config :
      (o : ℕ) (p : Ports) → (pci_read_register8 bus device function o p).0.config ≡ p.config
  unfolding pci_read_register8 read_register
  read8-config o p = refl

  read16-config :
      (o : ℕ) (p : Ports) → (pci_read_register16 bus device function o p).0.config ≡ p.config
  unfolding pci_read_register16 read_register
  read16-config o p = refl

  -- the pointer that the capability at `o` holds, and whether that capability is MSI-X
  abbrev pub next_of : (ℕ → ℕ) → ℕ → ℕ
  next_of config o = u8 (def.next_capability_pointer (reg16 config o))

  abbrev pub is_msix : (ℕ → ℕ) → ℕ → Bool
  is_msix config o = def.capability_id (reg16 config o) == def.msix

  -- From `o` on the pointers lead through the offsets of the list to 0.
  abbrev pub Chain : (ℕ → ℕ) → ℕ → List ℕ → Type 0
  Chain config o [] = o ≡ 0
  Chain config o (c ∷ cs) = (o ≡ c) × (o ≢ 0) × Chain config (next_of config o) cs

  -- the first MSI-X capability of the list, or 0
  abbrev pub first_msix : (ℕ → ℕ) → List ℕ → ℕ
  first_msix config [] = 0
  first_msix config (c ∷ cs) = if is_msix config c then c else first_msix config cs

  -- what the walk ends with that leaves the configuration space as it was
  abbrev pub Walked : Ports → ℕ → Option (Ports × ℕ) → Type 0
  Walked p found result = (p' : Ports) × (result ≡ some (p', found)) × (p'.config ≡ p.config)

  -- one round of the walk
  walk-suc :
      (fuel o : ℕ) (p : Ports)
      → (o == 0) ≡ false
      → walk def bus device function (suc fuel) o p ≡ (
          if is_msix p.config o
          then some ((pci_read_register16 bus device function o p).0, o)
          else walk def bus device function fuel
              (next_of p.config o)
              (pci_read_register16 bus device function o p).0)
  unfolding walk read_register
  walk-suc fuel o p h =
      ap
        (λ (b : Bool).
          if b
          then some (p, 0)
          else if is_msix p.config o
          then some ((pci_read_register16 bus device function o p).0, o)
          else walk def bus device function fuel (next_of p.config o)
              (pci_read_register16 bus device function o p).0)
        h

  not_zero : (o : ℕ) → o ≢ 0 → (o == 0) ≡ false
  not_zero o h = ground arith

  pub walk-first :
      (fuel o : ℕ) (p : Ports) (cs : List ℕ)
      → Chain p.config o cs
      → length cs < fuel
      → Walked p (first_msix p.config cs) (walk def bus device function fuel o p)
  unfolding walk
  walk-first zero o p cs chain h = absurd (omega arith)
  walk-first (suc fuel) o p [] chain h = (p, rw chain refl, refl)
  walk-first (suc fuel) o p (c ∷ cs) (e, ne, chain) h =
      let p' = (pci_read_register16 bus device function o p).0 in
      elim (Bool-cases (is_msix p.config o)) [
        | inl m ↦ (
          p',
          walk-suc fuel o p (not_zero o ne)
              ∙ ap
                  (λ (b : Bool).
                    if b
                    then some (p', o)
                    else walk def bus device function fuel (next_of p.config o) p')
                  m
              ∙ ap (λ (x : ℕ). some (p', x))
                  (e
                    ∙ sym (ap (λ (b : Bool). if b then c else first_msix p.config cs) (at_head m))),
          read16-config o p,
        )
        | inr m ↦
            let (q, returns, same) =
              walk-first fuel (next_of p.config o) p' cs
                (subst (λ (f : ℕ → ℕ). Chain f (next_of p.config o) cs) (sym (read16-config o p))
                  chain)
                (omega arith) in
            (
              q,
              walk-suc fuel o p (not_zero o ne)
                  ∙ ap
                      (λ (b : Bool).
                        if b
                        then some (p', o)
                        else walk def bus device function fuel (next_of p.config o) p')
                      m
                  ∙ returns
                  ∙ ap (λ (x : ℕ). some (q, x))
                      (ap (λ (f : ℕ → ℕ). first_msix f cs) (read16-config o p)
                        ∙ sym (
                            ap (λ (b : Bool). if b then c else first_msix p.config cs)
                              (at_head m))),
              same ∙ read16-config o p,
            )
      ]
    where
      at_head : {b : Bool} → is_msix p.config o ≡ b → is_msix p.config c ≡ b
      at_head m = ap (is_msix p.config) (sym e) ∙ m

  -- A set of offsets that the pointers do not leave, with no end of the list and no MSI-X in it.
  abbrev pub IsLoop : (ℕ → ℕ) → (ℕ → Bool) → Type 0
  IsLoop config within =
      (o : ℕ)
      → within o ≡ true
      → (o ≢ 0) × (is_msix config o ≡ false) × (within (next_of config o) ≡ true)

  walk-IsLoop :
      (fuel o : ℕ) (p : Ports) (within : ℕ → Bool)
      → IsLoop p.config within
      → within o ≡ true
      → walk def bus device function fuel o p ≡ none
  unfolding walk
  walk-IsLoop zero o p within loop h = refl
  walk-IsLoop (suc fuel) o p within loop h =
      let (ne, other, inside) = loop o h in
      let p' = (pci_read_register16 bus device function o p).0 in
      walk-suc fuel o p (not_zero o ne)
      ∙ ap
          (λ (b : Bool).
            if b then some (p', o) else walk def bus device function fuel (next_of p.config o) p')
          other
      ∙ walk-IsLoop fuel (next_of p.config o) p' within
          (subst (λ (f : ℕ → ℕ). IsLoop f within) (sym (read16-config o p)) loop) inside

  abbrev pub reg32 : (ℕ → ℕ) → ℕ → ℕ
  reg32 config o =
      (pci_read_register32 bus device function o (record { latch = 0; config = config })).1

  -- The register that `enable_msix` examines: as many bytes behind the first base address register as
  -- the whole byte of the capability says that has the index of its base address register, with
  -- neither a mask for its 3 bits nor a factor of 4.
  abbrev pub examined : (ℕ → ℕ) → ℕ → ℕ
  examined config c =
      reg32 config (u8 (def.bar0_offset + reg8 config (u8 (c + def.msix_bir_offset))))

  -- what it says of that register
  abbrev pub bar_outcome : (ℕ → ℕ) → ℕ → Outcome
  bar_outcome config c =
      if def.is_io_space (examined config c)
      then io_space_bar
      else if def.bar_type (examined config c) == def.memory_space_bar_64_bit
      then usable_bar
      else bar_not_64_bit

  -- how it ends when the walk finds `found`
  abbrev pub outcome : (ℕ → ℕ) → ℕ → Outcome
  outcome config found = if found == 0 then no_msix_capability else bar_outcome config found

  -- what `enable_msix` ends with
  abbrev pub Ended : Ports → Outcome → Option (Ports × Outcome) → Type 0
  Ended p o result = (p' : Ports) × (result ≡ some (p', o)) × (p'.config ≡ p.config)

  -- the registers that `enable_msix` starts from
  abbrev pub has_list : (ℕ → ℕ) → Bool
  has_list config = def.capabilities_list (reg16 config def.status_reg_offset)

  abbrev pub first_pointer : (ℕ → ℕ) → ℕ
  first_pointer config = reg8 config def.capabilities_pointer_reg_offset

  -- the ports before the walk
  abbrev start : Ports → Ports
  start p =
      (pci_read_register8 bus device function def.capabilities_pointer_reg_offset
        (pci_read_register16 bus device function def.status_reg_offset p).0).0

  start-config : (p : Ports) → (start p).config ≡ p.config
  start-config p =
      read8-config def.capabilities_pointer_reg_offset
        (pci_read_register16 bus device function def.status_reg_offset p).0
      ∙ read16-config def.status_reg_offset p

  finish : Ports × ℕ → Option (Ports × Outcome)
  finish r =
      some (
        if r.1 == 0 then (r.0, no_msix_capability) else examine_bar def bus device function r.1 r.0)

  enable_msix-start :
      (fuel : ℕ) (p : Ports)
      → has_list p.config ≡ true
      → enable_msix def bus device function fuel p
        ≡ (walk def bus device function fuel (first_pointer p.config) (start p) >>= finish)
  unfolding enable_msix finish pci_read_register8 pci_read_register16 read_register
  enable_msix-start fuel p h =
      ap
        (λ (b : Bool).
          if b
          then walk def bus device function fuel (first_pointer p.config) (start p) >>= finish
          else some (
            (pci_read_register16 bus device function def.status_reg_offset p).0,
            no_capabilities_list,
          ))
        h

  -- When the pointers from the first capability on stay in a loop without MSI-X, `enable_msix` does
  -- not return, whatever the fuel.
  pub enable_msix-IsLoop :
      (fuel : ℕ) (p : Ports) (within : ℕ → Bool)
      → has_list p.config ≡ true
      → IsLoop p.config within
      → within (first_pointer p.config) ≡ true
      → enable_msix def bus device function fuel p ≡ none
  enable_msix-IsLoop fuel p within h loop inside =
      enable_msix-start fuel p h
      ∙ ap (λ (r : Option (Ports × ℕ)). r >>= finish)
          (walk-IsLoop fuel (first_pointer p.config) (start p) within
            (subst (λ (f : ℕ → ℕ). IsLoop f within) (sym (start-config p)) loop) inside)
