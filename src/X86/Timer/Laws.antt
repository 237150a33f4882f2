-- ===== src/X86/Timer/Laws.antt =====
-- The calibration ends after 30 interrupts of the interval timer, with the rate of the local APIC's
-- timer; and the registers that start the timer.
use java_script_os.Base.{
  ℕ, suc, ◌+◌, ◌-◌, ◌*◌, ◌/◌, ◌%◌, ◌^◌, ◌≤◌, ◌<◌, ◌≡◌, ◌==◌, Bool, true, false, Option, some, List,
  [], ◌∷◌, ltb, u8, u32, if◌then◌else◌, arith, refl, ap, ◌∙◌, subst, sym, Bool-cases, inl, inr,
}
use java_script_os.X86.Lapic.{Lapic, lapid_read_register, lapic_write_register, out8, wrmsr}
use java_script_os.X86.Lapic.Laws.{lapic_write_register-read}
use java_script_os.X86.Timer.{
  Timer, wait, pit_irq_handler, calibrate_lapic_timer, start_calibration, end_calibration, write,
  start_lapic_timer, divider_value, LapicTimerDivider, timer_lvt_raw, timer_current_count,
  timer_initial_count, timer_divide_config, timer_lvt,
}

-- how many interrupts come
abbrev pub interrupts_in : List Bool → ℕ
interrupts_in [] = 0
interrupts_in (true ∷ l) = suc (interrupts_in l)
interrupts_in (false ∷ l) = interrupts_in l

at_ticks : (s : Timer) (m n : ℕ) → m ≡ n → record s { pit_ticks = m } ≡ record s { pit_ticks = n }
at_ticks s m n e = ap (λ k. record s { pit_ticks = k }) e

-- The loop ends when the count of interrupts reaches 30, and changes nothing else.
pub wait-ends :
    (l : List Bool) (s : Timer)
    → s.pit_ticks < 30
    → 30 ≤ s.pit_ticks + interrupts_in l
    → wait l s ≡ some (record s { pit_ticks = 30 })
unfolding wait pit_irq_handler
wait-ends [] s lt enough = absurd (omega arith)
wait-ends (true ∷ l) s lt enough = elim (Bool-cases (ltb (u32 (s.pit_ticks + 1)) 30)) [
  | inl e ↦
      rw e
        (wait-ends l (record s { pit_ticks = u32 (s.pit_ticks + 1) }) (ground arith) (ground arith))
  | inr e ↦ rw e (ap some (at_ticks s _ _ (ground arith)))
]
wait-ends (false ∷ l) s lt enough = elim (Bool-cases (ltb s.pit_ticks 30)) [
  | inl e ↦ rw e (wait-ends l s lt enough)
  | inr e ↦ absurd (ground arith)
]

lapic_write_register-base :
    (o v : ℕ) (s : Lapic) → (lapic_write_register o v s).apic_mmio_base ≡ s.apic_mmio_base
unfolding lapic_write_register wrmsr
lapic_write_register-base o v s = ground arith

start_calibration-ticks : (s : Timer) → (start_calibration s).pit_ticks ≡ 0
unfolding start_calibration
start_calibration-ticks s = refl

start_calibration-base :
    (s : Timer) → (start_calibration s).lapic.apic_mmio_base ≡ s.lapic.apic_mmio_base
unfolding start_calibration out8
start_calibration-base s =
    rw (lapic_write_register-base, lapic_write_register-base, lapic_write_register-base)

end_calibration-rate :
    (s : Timer) (count : ℕ)
    → lapid_read_register timer_current_count s.lapic ≡ count
    → (end_calibration s).lapic_timer_ticks_per_ms ≡ u32 (2 ^ 32 - 1 - count) / 30
unfolding end_calibration
end_calibration-rate s count e = rw e

end_calibration-stopped :
    (s : Timer)
    → s.lapic.apic_mmio_base + 4096 < 2 ^ 64
    → lapid_read_register timer_initial_count (end_calibration s).lapic ≡ 0
unfolding end_calibration
end_calibration-stopped s fit =
    lapic_write_register-read timer_initial_count timer_initial_count 0 s.lapic refl refl
      (omega arith) (omega arith) fit

-- what a calibration ends with: the ticks in a millisecond, and the timer stopped
pub record Calibrated (rate : ℕ) (result : Option Timer) : Type 0 where
  pub timer : Timer
  pub returns : result ≡ some timer
  pub ticks : timer.lapic_timer_ticks_per_ms ≡ rate
  pub stopped : lapid_read_register timer_initial_count timer.lapic ≡ 0

-- When 30 interrupts of the interval timer come, the calibration returns. When the timer has by then
-- counted down by `rate` for each of them and by less than 30 more, without reaching 0, the
-- rate is what the calibration stores; and the timer is stopped.
pub calibrate_lapic_timer-Calibrated :
    (interrupts : List Bool) (s : Timer) (rate rest : ℕ)
    → 30 ≤ interrupts_in interrupts
    → rest < 30
    → 30 * rate + rest < 2 ^ 32
    → s.lapic.apic_mmio_base + 4096 < 2 ^ 64
    → Calibrated rate (calibrate_lapic_timer interrupts (2 ^ 32 - 1 - (30 * rate + rest)) s)
unfolding calibrate_lapic_timer
calibrate_lapic_timer-Calibrated interrupts s rate rest enough small fit page =
    let count = 2 ^ 32 - 1 - (30 * rate + rest) in
    let t = record (start_calibration s) { pit_ticks = 30 } in
    let waited =
      wait-ends interrupts (start_calibration s) (omega (arith, start_calibration-ticks s))
        (omega (arith, start_calibration-ticks s)) in
    let here = subst (λ b. b + 4096 < 2 ^ 64) (sym (start_calibration-base s)) page in
    let reads =
      lapic_write_register-read timer_current_count timer_current_count count t.lapic refl refl
        (omega arith) (omega arith) here in
    record {
      timer = end_calibration (write timer_current_count count t);
      returns = rw waited;
      ticks =
          end_calibration-rate (write timer_current_count count t) (u32 count) reads ∙ omega arith;
      stopped = end_calibration-stopped (write timer_current_count count t) (
          subst (λ b. b + 4096 < 2 ^ 64)
            (sym (lapic_write_register-base timer_current_count count t.lapic)) here);
    }

divider_value-bound : (d : LapicTimerDivider) → divider_value d < 2 ^ 32
unfolding divider_value
divider_value-bound d = ground arith

-- reading a register of a timer after one of its registers was written
write-read :
    (o o' v : ℕ) (s : Timer)
    → o % 16 ≡ 0
    → o' % 16 ≡ 0
    → o < 4096
    → o' < 4096
    → s.lapic.apic_mmio_base + 4096 < 2 ^ 64
    → lapid_read_register o' (write o v s).lapic
      ≡ (if o' == o then u32 v else lapid_read_register o' s.lapic)
write-read o o' v s = lapic_write_register-read o o' v s.lapic

-- After `start_lapic_timer` the timer's registers hold the initial count, the number of the
-- divider, and an entry that is not masked, is periodic and has the low byte of the vector.
pub start_lapic_timer-read :
    (off count : ℕ) (d : LapicTimerDivider) (s : Timer)
    → s.lapic.apic_mmio_base + 4096 < 2 ^ 64
    → (lapid_read_register timer_initial_count (start_lapic_timer off count d s).lapic ≡ u32 count)
      × (lapid_read_register timer_divide_config (start_lapic_timer off count d s).lapic
          ≡ divider_value d)
      × (lapid_read_register timer_lvt (start_lapic_timer off count d s).lapic
          ≡ off % 2 ^ 8 + 2 ^ 17)
unfolding start_lapic_timer timer_lvt_raw
start_lapic_timer-read off count d s fit =
    let s1 = write timer_initial_count count s in
    let s2 = write timer_divide_config (divider_value d) s1 in
    let fit1 = kept timer_initial_count count s.lapic fit in
    let fit2 = kept timer_divide_config (divider_value d) s1.lapic fit1 in
    let lvt = u8 (off + 0) + 0 + 0 + 0 + 0 + 1 * 2 ^ 17 + 0 in
    (
      write-read timer_lvt timer_initial_count lvt s2 refl refl (omega arith) (omega arith) fit2
          ∙ write-read timer_divide_config timer_initial_count (divider_value d) s1 refl refl
              (omega arith) (omega arith) fit1
          ∙ write-read timer_initial_count timer_initial_count count s refl refl (omega arith)
              (omega arith) fit,
      write-read timer_lvt timer_divide_config lvt s2 refl refl (omega arith) (omega arith) fit2
          ∙ write-read timer_divide_config timer_divide_config (divider_value d) s1 refl refl
              (omega arith) (omega arith) fit1
          ∙ omega (arith, divider_value-bound d),
      write-read timer_lvt timer_lvt lvt s2 refl refl (omega arith) (omega arith) fit2
          ∙ omega arith,
    )
  where
    kept :
        (o v : ℕ) (l : Lapic)
        → l.apic_mmio_base + 4096 < 2 ^ 64
        → (lapic_write_register o v l).apic_mmio_base + 4096 < 2 ^ 64
    kept o v l = subst (λ b. b + 4096 < 2 ^ 64) (sym (lapic_write_register-base o v l))
