-- ===== src/Process/Trap.antt =====
-- `trapframe` of kernel/arch/x86/idt.h and `interrupt_dispatch` of kernel/syscall/trap.c.
-- `KEYBOARD_INTERRUPT_NUM`, `PIT_INTERRUPT_NUM` and `SYSCALL_INTERRUPT_NUM` are declared nowhere in
-- the repository and are parameters.
pub mod Laws
pub mod Tests
use java_script_os.Base.{
  ℕ, Bool, true, false, Option, none, some, List, [], ◌∷◌, ◌==◌, if◌then◌else◌,
}
use java_script_os.Process.Table.{ProcState, running}

-- `trapframe`: the saved registers, what the vector stub pushed, and the CPU's own frame
pub record TrapFrame : Type 0 where
  pub r15 : ℕ
  pub r14 : ℕ
  pub r13 : ℕ
  pub r12 : ℕ
  pub r11 : ℕ
  pub r10 : ℕ
  pub r9 : ℕ
  pub r8 : ℕ
  pub rdi : ℕ
  pub rsi : ℕ
  pub rbp : ℕ
  pub rdx : ℕ
  pub rcx : ℕ
  pub rbx : ℕ
  pub rax : ℕ
  pub gs : ℕ
  pub fs : ℕ
  pub es : ℕ
  pub ds : ℕ
  pub interrupt_num : ℕ
  pub error_code : ℕ
  pub rip : ℕ
  pub cs : ℕ
  pub rflags : ℕ
  pub rsp : ℕ
  pub ss : ℕ

-- The vectors of kernel/arch/x86/idt.h that the dispatcher tests.
abbrev pub general_protection : ℕ
general_protection = 13

abbrev pub page_fault : ℕ
page_fault = 14

abbrev pub apic_timer_interrupt_num : ℕ
apic_timer_interrupt_num = 32

abbrev pub apic_spurious_interrupt_num : ℕ
apic_spurious_interrupt_num = 255

-- What a handler does to the machine, in order: halt until the next interrupt, `lapic_eoi`,
-- `pit_irq_handler`, `yield`.
pub data Action : Type 0 where
  hlt eoi pit_tick yielded : Action

abbrev pub is_running : Option ProcState → Bool
is_running (some running) = true
is_running _ = false

module _ (keyboard_interrupt_num pit_interrupt_num syscall_interrupt_num : ℕ) where
  -- the actions of `interrupt_dispatch`, with the state of `myproc()`
  pub actions : Option ProcState → ℕ → List Action
  actions proc n =
      if n == page_fault
      then []
      else if n == general_protection
      then hlt ∷ []
      else if n == apic_timer_interrupt_num
      then (eoi ∷ (if is_running proc then yielded ∷ [] else []))
      else if n == apic_spurious_interrupt_num
      then eoi ∷ []
      else if n == keyboard_interrupt_num
      then eoi ∷ []
      else if n == pit_interrupt_num
      then pit_tick ∷ eoi ∷ []
      else if n == syscall_interrupt_num
      then []
      else hlt ∷ []

  pub interrupt_dispatch : Option ProcState → TrapFrame → List Action × TrapFrame
  unfolding actions
  interrupt_dispatch proc tf = (actions proc tf.interrupt_num, tf)
