-- ===== src/X86/Descriptor/Laws.antt =====
-- What the fields of the descriptors hold.
use java_script_os.Base.{
  ℕ, zero, suc, ◌+◌, ◌*◌, ◌^◌, ◌<◌, ◌≡◌, ◌==◌, if◌then◌else◌, refl, arith, Bool-cases, inl, inr,
  ==_iff,
}
use java_script_os.X86.Descriptor.{
  IdtDesc, setidtdesc, set_gate, gates_from, init_idt, segdesc_raw, segdesc_of_raw, load_tss,
  segsel, int_gate, trap_gate, dpl_kernel, dpl_user, segidx_kcode,
}

-- the address of the handler in a gate
abbrev pub handler : IdtDesc → ℕ
handler g = g.offset_low + g.offset_mid * 2 ^ 16 + g.offset_high * 2 ^ 32

-- A present gate of this type and privilege to this address in the kernel's code segment.
pub record IsGate (t d off : ℕ) (g : IdtDesc) : Type 0 where
  pub target : handler g ≡ off
  pub kind : g.type ≡ t
  pub privilege : g.dpl ≡ d
  pub present : g.p ≡ 1
  pub code : g.cs ≡ 8

setidtdesc-IsGate :
    (gate : IdtDesc) (type off dpl : ℕ)
    → type < 2 ^ 4
    → dpl < 2 ^ 2
    → off < 2 ^ 64
    → IsGate type dpl off (setidtdesc gate type (segsel 0 0 segidx_kcode) off dpl)
unfolding setidtdesc segsel
setidtdesc-IsGate gate type off dpl ht hd ho = record {
  target = omega arith;
  kind = omega arith;
  privilege = omega arith;
  present = refl;
  code = refl;
}

module _ (vectors : ℕ → ℕ) (small : (i : ℕ) → vectors i < 2 ^ 64) where
  -- The loop makes the gates from `i` on, and no others.
  gates_from-IsGate :
      (left i : ℕ) (idt : ℕ → IdtDesc) (j : ℕ)
      → j < i + left
      → (j < i → IsGate int_gate dpl_kernel (vectors j) (idt j))
      → IsGate int_gate dpl_kernel (vectors j) (gates_from vectors left i idt j)
  unfolding gates_from
  gates_from-IsGate zero i idt j h before = before (omega arith)
  gates_from-IsGate (suc left) i idt j h before =
      gates_from-IsGate left (i + 1) _ j (omega arith) (λ lt. here lt)
    where
      here :
          j < i + 1
          → IsGate int_gate dpl_kernel (vectors j) (
              set_gate idt i
                (setidtdesc (idt i) int_gate (segsel 0 0 segidx_kcode) (vectors i) dpl_kernel)
                j)
      here lt = elim (Bool-cases (j == i)) [
        | inl e ↦
            rw (e, (==_iff j i).0 e)
              (setidtdesc-IsGate (idt i) int_gate (vectors i) dpl_kernel (omega arith) (omega arith)
                (small i))
        | inr e ↦ rw e (before (ground arith))
      ]

  -- With the addresses of the stubs within 64 bits, `init_idt` leaves at every vector below the
  -- number of vectors a present gate in the kernel's code segment to that vector's stub: for the
  -- system call a trap gate that user code may use, for any other vector an interrupt gate for the
  -- kernel only.
  pub init_idt-IsGate :
      (n t : ℕ) (idt : ℕ → IdtDesc) (j : ℕ)
      → j < n
      → t < n
      → IsGate
          (if j == t then trap_gate else int_gate)
          (if j == t then dpl_user else dpl_kernel)
          (vectors j)
          (init_idt vectors n t idt j)
  unfolding init_idt
  init_idt-IsGate n t idt j h ht = elim (Bool-cases (j == t)) [
    | inl e ↦
        rw (e, (==_iff j t).0 e)
          (setidtdesc-IsGate (gates_from vectors n 0 idt t) trap_gate (vectors t) dpl_user
            (omega arith) (omega arith) (small t))
    | inr e ↦ rw e (gates_from-IsGate n 0 idt j (omega arith) (λ lt. absurd (omega arith)))
  ]

-- Every field of a segment descriptor is read back from its 64 bits, and every 64-bit number is the
-- form of the descriptor read from it.
pub segdesc_raw-segdesc_of_raw : (r : ℕ) → r < 2 ^ 64 → segdesc_raw (segdesc_of_raw r) ≡ r
unfolding segdesc_raw segdesc_of_raw
segdesc_raw-segdesc_of_raw r h = omega arith

-- For a task state segment below 64 bits of at most 2 ^ 20 - 1 bytes, the base spread over the two
-- descriptors is its address, and the limit is its size.
pub load_tss-base :
    (size addr : ℕ)
    → size < 2 ^ 20
    → addr < 2 ^ 64
    → let (lo, hi) = load_tss size addr in
      (lo.base_23_0 + lo.base_31_24 * 2 ^ 24 + segdesc_raw hi * 2 ^ 32 ≡ addr)
      × (lo.lim_15_0 + lo.lim_19_16 * 2 ^ 16 ≡ size)
unfolding load_tss segdesc_raw segdesc_of_raw
load_tss-base size addr hs ha = omega arith
