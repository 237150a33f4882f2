-- ===== src/Devices/Uart/Laws.antt =====
-- The serial line sends what it is given, in order, once the device is ready for each character.
use java_script_os.Base.{
  append-nil, append_assoc, ℕ, suc, ◌+◌, ◌≤◌, ◌≡◌, Bool, true, not, ◌>>=◌, Option, some, List, [],
  ◌∷◌, ◌++◌, map, ◌==◌, if◌then◌else◌, length, u8, refl, arith, ap, sym, ◌∙◌, Bool-cases, inl, inr,
  subst,
}
use java_script_os.X86.Ioapic.{ioapic_route}
use java_script_os.Devices.Uart.Registers.{line_status_of_raw}
use java_script_os.Devices.Uart.{
  Uart, com1_port, data_reg, irq_com1, uart_write_reg, send, uart_putc, put_all, configure,
  initialized, init_uart,
}

-- whether a line status has the bit `transmitter_buffer_empty`
abbrev pub is_full : ℕ → Bool
is_full status = (line_status_of_raw status).transmitter_buffer_empty == 0

-- how many of the line statuses say that a character can be sent
abbrev pub ready_in : List ℕ → ℕ
ready_in [] = 0
ready_in (status ∷ later) = if is_full status then ready_in later else suc (ready_in later)

-- what a call ends with that used `n` of the statuses that are ready
abbrev pub Sent : (n : ℕ) → List ℕ → Uart → Option (List ℕ × Uart) → Type 0
Sent n statuses s result =
    (later : List ℕ) × (result ≡ some (later, s)) × (ready_in later + n ≡ ready_in statuses)

send-Sent :
    (statuses : List ℕ) (c : ℕ) (s : Uart)
    → 1 ≤ ready_in statuses
    → Sent 1 statuses (uart_write_reg data_reg c s) (send statuses c s)
unfolding send
send-Sent [] c s h = absurd (omega arith)
send-Sent (status ∷ later) c s h = elim (Bool-cases (is_full status)) [
  | inl e ↦ rw e (send-Sent later c s (ground (arith, e)))
  | inr e ↦ rw e (later, refl, omega arith)
]

-- the write of a character to the port
abbrev pub at_port : ℕ → ℕ × ℕ
at_port c = (com1_port, u8 c)

-- the line after it has sent the characters
abbrev pub after : List ℕ → Uart → Uart
after cs s = record s { written = s.written ++ map at_port cs }

after-cons :
    (c : ℕ) (cs : List ℕ) (s : Uart) → after cs (uart_write_reg data_reg c s) ≡ after (c ∷ cs) s
unfolding uart_write_reg
after-cons c cs s =
    ap (λ w. record s { written = w }) (append_assoc s.written (at_port c ∷ []) (map at_port cs))

uart_write_reg-present : (o v : ℕ) (s : Uart) → (uart_write_reg o v s).present ≡ s.present
unfolding uart_write_reg
uart_write_reg-present o v s = refl

uart_putc-present :
    (statuses : List ℕ) (c : ℕ) (s : Uart)
    → s.present ≡ true
    → uart_putc statuses c s ≡ send statuses c s
unfolding uart_putc
uart_putc-present statuses c s p =
    ap (λ b. if not b then some (statuses, s) else send statuses c s) p

put_all-cons :
    (statuses later : List ℕ) (c : ℕ) (cs : List ℕ) (s s' : Uart)
    → s.present ≡ true
    → send statuses c s ≡ some (later, s')
    → put_all statuses (c ∷ cs) s ≡ put_all later cs s'
unfolding put_all
put_all-cons statuses later c cs s s' p e =
    ap (λ r. r >>= λ x. put_all x.0 cs x.1) (uart_putc-present statuses c s p ∙ e)

-- A present line sends a string character by character, in order and nothing else, when the
-- device is found ready at least as often as the string has characters.
pub put_all-Sent :
    (statuses cs : List ℕ) (s : Uart)
    → s.present ≡ true
    → length cs ≤ ready_in statuses
    → Sent (length cs) statuses (after cs s) (put_all statuses cs s)
unfolding put_all
put_all-Sent statuses [] s p h = (
  statuses,
  ap (λ w. some (statuses, record s { written = w })) (sym (append-nil s.written)),
  omega arith,
)
put_all-Sent statuses (c ∷ cs) s p h =
    let (later, e, n) = send-Sent statuses c s (omega arith) in
    let (last, e', n') =
      put_all-Sent later cs (uart_write_reg data_reg c s) (uart_write_reg-present data_reg c s ∙ p)
        (omega arith) in
    (
      last,
      put_all-cons statuses later c cs s _ p e ∙ e' ∙ ap (λ t. some (last, t)) (after-cons c cs s),
      omega arith,
    )

-- the writes of `init_uart` before the message: the first eight end with the byte of the loopback
-- test
abbrev pub setup : List (ℕ × ℕ)
setup =
    (0x3fa, 0)
    ∷ (0x3fb, 0x80)
    ∷ (0x3f8, 12)
    ∷ (0x3f9, 0)
    ∷ (0x3fb, 3)
    ∷ (0x3f9, 1)
    ∷ (0x3fc, 0x1e)
    ∷ (0x3f8, 0xae)
    ∷ []

-- eight writes one after the other
append_eight :
    {A : Type 0} (w : List A) (a b c d e f g h : A)
    → ((((((((w ++ (a ∷ [])) ++ (b ∷ [])) ++ (c ∷ [])) ++ (d ∷ [])) ++ (e ∷ [])) ++ (f ∷ []))
          ++ (g ∷ []))
        ++ (h ∷ []))
      ≡ w ++ (a ∷ b ∷ c ∷ d ∷ e ∷ f ∷ g ∷ h ∷ [])
append_eight [] a b c d e f g h = refl
append_eight (x ∷ w) a b c d e f g h = ap (λ l. x ∷ l) (append_eight w a b c d e f g h)

configure-setup : (s : Uart) → configure s ≡ record s { written = s.written ++ setup }
unfolding configure uart_write_reg
configure-setup s =
    ap (λ w. record s { written = w })
      (append_eight s.written (0x3fa, 0) (0x3fb, 0x80) (0x3f8, 12) (0x3f9, 0) (0x3fb, 3) (0x3f9, 1)
        (0x3fc, 0x1e) (0x3f8, 0xae))

-- what `init_uart` ends with on a device that passes the loopback test
abbrev pub started : ℕ → Uart → Uart
started off s = record {
  present = true;
  written = s.written ++ (setup ++ ((0x3fc, 0) ∷ map at_port initialized));
  ioapic = ioapic_route off irq_com1 0 0 s.ioapic;
}

-- the line before the message, from the one that `configure` leaves
abbrev begun : ℕ → Uart → Uart
begun off t = record {
  present = true;
  written = t.written ++ ((0x3fc, 0) ∷ []);
  ioapic = ioapic_route off irq_com1 0 0 t.ioapic;
}

after-begun : (off : ℕ) (s : Uart) → after initialized (begun off (configure s)) ≡ started off s
after-begun off s =
    ap (λ t. after initialized (begun off t)) (configure-setup s)
    ∙ ap (λ w. record (started off s) { written = w })
        (append_assoc (s.written ++ setup) _ _ ∙ append_assoc s.written setup _)

-- When the loopback test reads the byte 0xae back, and the device is found ready 17 times, then
-- `init_uart` ends with the line present, programmed to 12 as its divisor and to 8 data bits, its
-- interrupt routed to the first processor and not masked, and its message sent; when the test reads
-- another byte, no more than the setup was written and the line stays as present as it was.
pub init_uart-Sent :
    (off echo : ℕ) (statuses : List ℕ) (s : Uart)
    → 17 ≤ ready_in statuses
    → Sent
        (if u8 echo == 0xae then 17 else 0)
        statuses
        (if u8 echo == 0xae then started off s else record s { written = s.written ++ setup })
        (init_uart off echo statuses s)
unfolding init_uart uart_write_reg
init_uart-Sent off echo statuses s h = elim (Bool-cases (u8 echo == 0xae)) [
  | inl e ↦ rw e (
      subst (λ t. Sent 17 statuses t (put_all statuses initialized (begun off (configure s))))
        (after-begun off s) (put_all-Sent statuses initialized (begun off (configure s)) refl h))
  | inr e ↦ rw e (statuses, ap (λ t. some (statuses, t)) (configure-setup s), omega arith)
]
