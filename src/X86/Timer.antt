-- ===== src/X86/Timer.antt =====
-- kernel/arch/x86/timer.c and pit.h: the calibration of the timer of the local APIC against the
-- interval timer, and the start of that timer. What happens while the code waits is an argument: a
-- list with an entry for each test of the loop, true when an interrupt of the interval timer has
-- come since the test before, and the count that the local APIC has reached by then. `none` means
-- that the list ended before the loop.
pub mod Laws
mod Tests
use java_script_os.Base.{
  ℕ, zero, suc, ◌+◌, ◌-◌, ◌*◌, ◌/◌, ◌%◌, ◌^◌, Bool, true, false, Option, none, some, List, [], ◌∷◌,
  ◌==◌, ltb, if◌then◌else◌, u8, u32, ◌>>=◌,
}
use java_script_os.X86.Ioapic.{Ioapic, ioapic_setmask}
use java_script_os.X86.Lapic.{Lapic, lapid_read_register, lapic_write_register, out8}

-- `pit_config`, the bit fields of a byte
pub record PitConfig : Type 0 where
  pub bcd : ℕ
  pub mode : ℕ
  pub access_mode : ℕ
  pub channel : ℕ

unfoldable pub pit_config_raw : PitConfig → ℕ
pit_config_raw c = c.bcd + c.mode * 2 + c.access_mode * 2 ^ 4 + c.channel * 2 ^ 6

abbrev pub pit_channel_0_data_port : ℕ
pit_channel_0_data_port = 0x40

abbrev pub pit_mode_command_port : ℕ
pit_mode_command_port = 0x43

abbrev pub pit_frequency : ℕ
pit_frequency = 1193182

abbrev pub pit_mode_periodic : ℕ
pit_mode_periodic = 2

abbrev pub pit_access_lohibyte : ℕ
pit_access_lohibyte = 3

abbrev pub pit_calibration_reload_value : ℕ
pit_calibration_reload_value = 1139

abbrev pub calibration_ms_to_wait : ℕ
calibration_ms_to_wait = 30

-- `LAPIC_TIMER_…_REG_OFFSET` of lapic.h
abbrev pub timer_lvt : ℕ
timer_lvt = 0x320

abbrev pub timer_initial_count : ℕ
timer_initial_count = 0x380

abbrev pub timer_current_count : ℕ
timer_current_count = 0x390

abbrev pub timer_divide_config : ℕ
timer_divide_config = 0x3e0

-- `enum lapic_timer_divider`
pub data LapicTimerDivider : Type 0 where
  divider_2 divider_4 divider_8 divider_16 divider_32 divider_64 divider_128 divider_1 :
      LapicTimerDivider

unfoldable pub divider_value : LapicTimerDivider → ℕ
divider_value divider_2 = 0
divider_value divider_4 = 1
divider_value divider_8 = 2
divider_value divider_16 = 3
divider_value divider_32 = 8
divider_value divider_64 = 9
divider_value divider_128 = 10
divider_value divider_1 = 11

-- `lapic_timer_lvt_reg_t`
pub record TimerLvt : Type 0 where
  pub vector : ℕ
  pub rsrv0 : ℕ
  pub delivery_status : ℕ
  pub rsrv1 : ℕ
  pub mask : ℕ
  pub mode : ℕ
  pub rsrv2 : ℕ

unfoldable pub timer_lvt_raw : TimerLvt → ℕ
timer_lvt_raw r =
    u8 r.vector
    + r.rsrv0 * 2 ^ 8
    + r.delivery_status * 2 ^ 12
    + r.rsrv1 * 2 ^ 13
    + r.mask * 2 ^ 16
    + r.mode * 2 ^ 17
    + r.rsrv2 * 2 ^ 19

abbrev pub lapic_timer_mode_periodic : ℕ
lapic_timer_mode_periodic = 1

-- the globals of timer.c and the devices that it uses
pub record Timer : Type 0 where
  pub pit_ticks : ℕ
  pub lapic_timer_ticks_per_ms : ℕ
  pub lapic_timer_divider : ℕ
  pub lapic : Lapic
  pub ioapic : Ioapic

abbrev pub irq_pit : ℕ
irq_pit = 2

unfoldable pub pit_irq_handler : Timer → Timer
pit_irq_handler s = record s { pit_ticks = u32 (s.pit_ticks + 1) }

-- `while (pitTicks < CALIBRATION_MS_TO_WAIT);`
unfoldable pub wait : List Bool → Timer → Option Timer
unfolding pit_irq_handler
wait [] s = none
wait (interrupt ∷ later) s =
    let s' = if interrupt then pit_irq_handler s else s in
    let rest = wait later s' in if ltb s'.pit_ticks calibration_ms_to_wait then rest else some s'

abbrev pub write : ℕ → ℕ → Timer → Timer
write offset value s = record s { lapic = lapic_write_register offset value s.lapic }

-- `calibrate_lapic_timer` before the wait
unfoldable pub start_calibration : Timer → Timer
unfolding pit_config_raw out8 lapic_write_register ioapic_setmask divider_value
start_calibration s =
    let cfg = pit_config_raw (record {
      bcd = 0;
      mode = pit_mode_periodic;
      access_mode = pit_access_lohibyte;
      channel = 0;
    }) in
    let l1 = out8 pit_mode_command_port cfg s.lapic in
    let l2 = out8 pit_channel_0_data_port (u8 pit_calibration_reload_value) l1 in
    let l3 = out8 pit_channel_0_data_port (u8 (pit_calibration_reload_value / 2 ^ 8)) l2 in
    let l4 = lapic_write_register timer_initial_count 0 l3 in
    let l5 = lapic_write_register timer_divide_config (divider_value divider_2) l4 in
    record s {
      pit_ticks = 0;
      ioapic = ioapic_setmask irq_pit 0 s.ioapic;
      lapic = lapic_write_register timer_initial_count (2 ^ 32 - 1) l5;
    }

-- `calibrate_lapic_timer` after the wait
unfoldable pub end_calibration : Timer → Timer
unfolding lapid_read_register lapic_write_register ioapic_setmask divider_value
end_calibration s =
    let current_lapic_count = lapid_read_register timer_current_count s.lapic in
    let lapic_timer_ticks_elapsed = u32 (2 ^ 32 - 1 - current_lapic_count) in
    record s {
      ioapic = ioapic_setmask irq_pit 1 s.ioapic;
      lapic = lapic_write_register timer_initial_count 0 s.lapic;
      lapic_timer_ticks_per_ms = lapic_timer_ticks_elapsed / calibration_ms_to_wait;
      lapic_timer_divider = divider_value divider_2;
    }

-- `calibrate_lapic_timer`: at the end of the wait the register of the current count holds `count`.
unfoldable pub calibrate_lapic_timer : List Bool → (count : ℕ) → Timer → Option Timer
unfolding start_calibration wait end_calibration lapic_write_register
calibrate_lapic_timer interrupts count s = do
  s' ← wait interrupts (start_calibration s)
  some (end_calibration (write timer_current_count count s'))

-- `IRQ_INTERRUPT_OFFSET` is declared nowhere, and `IRQ_LAPIC_TIMER` is 0.
unfoldable pub start_lapic_timer :
    (irq_interrupt_offset : ℕ) → ℕ → LapicTimerDivider → Timer → Timer
unfolding lapic_write_register divider_value timer_lvt_raw
start_lapic_timer irq_interrupt_offset initial_count divider s =
    let lvt = timer_lvt_raw (record {
      vector = irq_interrupt_offset + 0;
      rsrv0 = 0;
      delivery_status = 0;
      rsrv1 = 0;
      mask = 0;
      mode = lapic_timer_mode_periodic;
      rsrv2 = 0;
    }) in
    write timer_lvt lvt (
      write timer_divide_config (divider_value divider) (write timer_initial_count initial_count s))
