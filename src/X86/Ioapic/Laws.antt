-- ===== src/X86/Ioapic/Laws.antt =====
-- What the redirection table holds afterwards.
use java_script_os.Base.{
  ℕ, zero, suc, ◌+◌, ◌-◌, ◌*◌, ◌/◌, ◌%◌, ◌^◌, ◌<◌, ◌≤◌, ◌≡◌, ◌&&◌, ◌==◌, if◌then◌else◌, ltb, leb,
  arith,
}
use java_script_os.X86.Ioapic.{
  Ioapic, raw_lo, lo_of_raw, raw_hi, max_irq, ioapic_route, mask_from, init_ioapic, ioapic_setmask,
  ioapic_read_register, ioapic_write_register,
}

-- The low word of an entry is determined by its fields, and determines them.
pub raw_lo-lo_of_raw : (r : ℕ) → r < 2 ^ 32 → raw_lo (lo_of_raw r) ≡ r
unfolding raw_lo lo_of_raw
raw_lo-lo_of_raw r h = omega arith

module _ (off : ℕ) where
  -- Routing an interrupt below 120 writes the two words of its entry, and no other register: the
  -- low one has the vector and the mask bit, is edge-triggered, active high and in fixed, physical
  -- mode; the high one has the local APIC's id in its top byte.
  pub ioapic_route-reg :
      (irq lapicid masked : ℕ) (s : Ioapic) (r : ℕ)
      → irq < 120
      → (ioapic_route off irq lapicid masked s).reg r ≡ (
          if r == 16 + 2 * irq
          then (off + irq) % 256 + 2 ^ 15 + masked % 2 * 2 ^ 16
          else if r == 17 + 2 * irq
          then lapicid % 256 * 2 ^ 24
          else s.reg r)
  unfolding ioapic_route ioapic_write_register raw_lo raw_hi
  ioapic_route-reg irq lapicid masked s r h = ground arith

  -- what the entries from `irq` on, `left` of them, hold when they are masked
  abbrev masked_reg : ℕ → ℕ → (ℕ → ℕ) → ℕ → ℕ
  masked_reg left irq old r =
      if leb (16 + 2 * irq) r && ltb r (16 + 2 * (irq + left))
      then if r % 2 == 0 then (off + (r - 16) / 2) % 256 + 2 ^ 15 + 2 ^ 16 else 0
      else old r

  mask_from-reg :
      (left irq : ℕ) (s : Ioapic) (r : ℕ)
      → irq + left ≤ 120
      → (mask_from off left irq s).reg r ≡ masked_reg left irq s.reg r
  unfolding mask_from
  mask_from-reg zero irq s r h = ground arith
  mask_from-reg (suc left) irq s r h = ground (
    arith,
    mask_from-reg left (irq + 1) (ioapic_route off irq 0 1 s) r,
    ioapic_route-reg irq 0 1 s r,
  )

  -- On a device with at most 120 pins, whichever the read of the address has led to, the rest of
  -- `init_ioapic` masks every entry of the redirection table, gives entry `irq` the vector that the routing gives it and destination 0, and changes no other
  -- register.
  pub init_ioapic-reg :
      (s : Ioapic) (r : ℕ)
      → max_irq s ≤ 120
      → (init_ioapic off s).reg r ≡ (
          if leb 16 r && ltb r (16 + 2 * max_irq s)
          then if r % 2 == 0 then (off + (r - 16) / 2) % 256 + 2 ^ 15 + 2 ^ 16 else 0
          else s.reg r)
  unfolding init_ioapic ioapic_read_register
  init_ioapic-reg s r h =
      ground (arith, mask_from-reg (max_irq s) 0 (record s { ioregsel = 1 }) r (omega arith))

-- `ioapic_setmask` sets bit 16 of the low word of the one entry, and changes no other bit and no
-- other register.
pub ioapic_setmask-reg :
    (irq mask : ℕ) (s : Ioapic) (r : ℕ)
    → irq < 120
    → mask < 2
    → s.reg (16 + 2 * irq) < 2 ^ 32
    → ((ioapic_setmask irq mask s).reg r / 2 ^ 16 % 2
        ≡ (if r == 16 + 2 * irq then mask else s.reg r / 2 ^ 16 % 2))
      × ((ioapic_setmask irq mask s).reg r % 2 ^ 16 ≡ s.reg r % 2 ^ 16)
      × ((ioapic_setmask irq mask s).reg r / 2 ^ 17 ≡ s.reg r / 2 ^ 17)
unfolding ioapic_setmask ioapic_read_register ioapic_write_register raw_lo lo_of_raw
ioapic_setmask-reg irq mask s r h hm lt = ground arith
