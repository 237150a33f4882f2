-- ===== src/X86/Ioapic.antt =====
-- kernel/arch/x86/ioapic.c and ioapic.h. The registers of the I/O APIC keep what is written to them.
-- `IRQ_INTERRUPT_OFFSET` is declared nowhere and is a parameter; the address of the device, from the
-- MADT, is left out.
pub mod Laws
mod Tests
use java_script_os.Base.{ℕ, zero, suc, ◌+◌, ◌*◌, ◌/◌, ◌%◌, ◌^◌, ◌==◌, if◌then◌else◌, u8, u32}

-- `mmap_ioapic_t`: `ioregsel` selects the register that `iowin` reads and writes.
pub record Ioapic : Type 0 where
  pub ioregsel : ℕ
  pub reg : ℕ → ℕ

unfoldable pub ioapic_read_register : ℕ → Ioapic → Ioapic × ℕ
ioapic_read_register offset s = (record s { ioregsel = u8 offset }, s.reg (u8 offset))

unfoldable pub ioapic_write_register : ℕ → ℕ → Ioapic → Ioapic
ioapic_write_register offset value s = record {
  ioregsel = u8 offset;
  reg = λ r. if r == u8 offset then u32 value else s.reg r;
}

abbrev pub ioapic_ver_reg_offset : ℕ
ioapic_ver_reg_offset = 1

abbrev pub ioapic_redirect_table_offset : ℕ
ioapic_redirect_table_offset = 16

-- `ioapic_redir_entry_lo`, the lowest field first
pub record RedirEntryLo : Type 0 where
  pub vector : ℕ
  pub delivery_mode : ℕ
  pub destination_mode : ℕ
  pub delivery_status : ℕ
  pub polarity : ℕ
  pub remote_irr : ℕ
  pub trigger_mode : ℕ
  pub mask : ℕ
  pub rsrv : ℕ

-- its `raw` member, on 32 bits: a bit field keeps the low bits of what is stored in it
unfoldable pub raw_lo : RedirEntryLo → ℕ
raw_lo e =
    e.vector % 2 ^ 8
    + e.delivery_mode % 2 ^ 3 * 2 ^ 8
    + e.destination_mode % 2 * 2 ^ 11
    + e.delivery_status % 2 * 2 ^ 12
    + e.polarity % 2 * 2 ^ 13
    + e.remote_irr % 2 * 2 ^ 14
    + e.trigger_mode % 2 * 2 ^ 15
    + e.mask % 2 * 2 ^ 16
    + e.rsrv % 2 ^ 15 * 2 ^ 17

unfoldable pub lo_of_raw : ℕ → RedirEntryLo
lo_of_raw r = record {
  vector = r % 2 ^ 8;
  delivery_mode = r / 2 ^ 8 % 2 ^ 3;
  destination_mode = r / 2 ^ 11 % 2;
  delivery_status = r / 2 ^ 12 % 2;
  polarity = r / 2 ^ 13 % 2;
  remote_irr = r / 2 ^ 14 % 2;
  trigger_mode = r / 2 ^ 15 % 2;
  mask = r / 2 ^ 16 % 2;
  rsrv = r / 2 ^ 17 % 2 ^ 15;
}

-- the `raw` member of an `ioapic_redir_entry_hi` with this destination
unfoldable pub raw_hi : ℕ → ℕ
raw_hi destination = u8 destination * 2 ^ 24

-- `max_redir_entry + 1`, from the version register
unfoldable pub max_irq : Ioapic → ℕ
unfolding ioapic_read_register
max_irq s = (ioapic_read_register ioapic_ver_reg_offset s).1 / 2 ^ 16 % 2 ^ 8 + 1

module _ (irq_interrupt_offset : ℕ) where
  -- edge-triggered, active high, to this vector
  abbrev pub entry : ℕ → ℕ → RedirEntryLo
  entry irq mask = record {
    vector = irq_interrupt_offset + irq;
    delivery_mode = 0;
    destination_mode = 0;
    delivery_status = 0;
    polarity = 0;
    remote_irr = 0;
    trigger_mode = 1;
    mask = mask;
    rsrv = 0;
  }

  unfoldable pub ioapic_route : ℕ → ℕ → ℕ → Ioapic → Ioapic
  unfolding ioapic_write_register raw_lo raw_hi
  ioapic_route irq lapicid masked s =
      let s1 =
        ioapic_write_register (ioapic_redirect_table_offset + 2 * irq) (raw_lo (entry irq masked))
          s in
      ioapic_write_register (ioapic_redirect_table_offset + 2 * irq + 1) (raw_hi lapicid) s1

  -- The loop of `init_ioapic` from `irq` on, with `left` rounds to go; its body is what
  -- `ioapic_route` does with the mask bit set and destination 0.
  unfoldable pub mask_from : ℕ → ℕ → Ioapic → Ioapic
  unfolding ioapic_route
  mask_from zero irq s = s
  mask_from (suc left) irq s = mask_from left (irq + 1) (ioapic_route irq 0 1 s)

  -- `init_ioapic` from line 28 on. The lines before it take the address of the device through
  -- `ioapicdesc_header`, which is not initialised: the device that this read happens to lead to is the
  -- one given here.
  unfoldable pub init_ioapic : Ioapic → Ioapic
  unfolding mask_from max_irq
  init_ioapic s = mask_from (max_irq s) 0 (ioapic_read_register ioapic_ver_reg_offset s).0

unfoldable pub ioapic_setmask : ℕ → ℕ → Ioapic → Ioapic
unfolding ioapic_read_register ioapic_write_register raw_lo lo_of_raw
ioapic_setmask irq mask s =
    let (s1, r) = ioapic_read_register (ioapic_redirect_table_offset + 2 * irq) s in
    ioapic_write_register (ioapic_redirect_table_offset + 2 * irq)
      (raw_lo (record (lo_of_raw r) { mask = mask })) s1
