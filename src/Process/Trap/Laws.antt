-- ===== src/Process/Trap/Laws.antt =====
-- Which interrupts are acknowledged, and which make a process yield.
use java_script_os.Base.{
  ℕ, ◌+◌, ◌≡◌, ◌⊎◌, refl, Bool, true, false, ◌||◌, ◌&&◌, Option, List, [], ◌∷◌, ◌==◌, if◌then◌else◌,
  arith,
}
use java_script_os.Process.Table.{ProcState}
use java_script_os.Process.Trap.{
  TrapFrame, Action, eoi, yielded, interrupt_dispatch, is_running, apic_timer_interrupt_num,
  apic_spurious_interrupt_num, general_protection, page_fault,
}

abbrev pub is_eoi : Action → Bool
is_eoi eoi = true
is_eoi _ = false

abbrev pub is_yield : Action → Bool
is_yield yielded = true
is_yield _ = false

abbrev pub count : (Action → Bool) → List Action → ℕ
count f [] = 0
count f (x ∷ xs) = (if f x then 1 else 0) + count f xs

module _ (kb pit sys : ℕ) where
  -- The dispatcher returns the frame that it was given. It sends one end-of-interrupt for a timer,
  -- spurious, keyboard or PIT interrupt that is not an exception which it takes first, none for any
  -- other vector, and never two.
  pub eoi-count :
      (proc : Option ProcState) (tf : TrapFrame)
      → let n = tf.interrupt_num in
        let (acts, tf') = interrupt_dispatch kb pit sys proc tf in
        (tf' ≡ tf)
        × (count is_eoi acts ≡ (
            if (n == page_fault) || (n == general_protection)
            then 0
            else if (n == apic_timer_interrupt_num)
                || (n == apic_spurious_interrupt_num)
                || (n == kb)
                || (n == pit)
            then 1
            else 0))
  unfolding interrupt_dispatch
  eoi-count proc tf = (refl, ground arith)

  -- A process yields exactly on a timer interrupt while it is RUNNING; it does so once, and then the
  -- end-of-interrupt goes out first.
  pub yield-after_eoi :
      (proc : Option ProcState) (tf : TrapFrame)
      → let acts = (interrupt_dispatch kb pit sys proc tf).0 in
        (count is_yield acts
          ≡ (if (tf.interrupt_num == apic_timer_interrupt_num) && is_running proc then 1 else 0))
        × ((acts ≡ eoi ∷ yielded ∷ []) ⊎ (count is_yield acts ≡ 0))
  unfolding interrupt_dispatch
  yield-after_eoi proc tf = (ground arith, ground arith)
