-- ===== src/Process/Trap/Tests.antt =====
-- The dispatcher on a timer interrupt.
use java_script_os.Base.{ℕ, ◌≡◌, ◌⊎◌, some, List, [], ◌∷◌}
use java_script_os.Process.Table.{running}
use java_script_os.Process.Trap.{TrapFrame, Action, eoi, yielded, interrupt_dispatch}
use java_script_os.Process.Trap.Laws.{count, is_yield, yield-after_eoi}

abbrev pub frame : ℕ → ℕ → TrapFrame
frame n call = record {
  r15 = 0;
  r14 = 0;
  r13 = 0;
  r12 = 0;
  r11 = 0;
  r10 = 0;
  r9 = 0;
  r8 = 0;
  rdi = 0;
  rsi = call;
  rbp = 0;
  rdx = 0;
  rcx = 0;
  rbx = 0;
  rax = 0;
  gs = 0;
  fs = 0;
  es = 0;
  ds = 0;
  interrupt_num = n;
  error_code = 0;
  rip = 0;
  cs = 0;
  rflags = 0;
  rsp = 0;
  ss = 0;
}

abbrev acts : List Action
acts = (interrupt_dispatch 33 34 128 (some running) (frame 32 0)).0

yield-after_eoi_example :
    (count is_yield acts ≡ 1) × ((acts ≡ eoi ∷ yielded ∷ []) ⊎ (count is_yield acts ≡ 0))
yield-after_eoi_example = yield-after_eoi 33 34 128 (some running) (frame 32 0)
