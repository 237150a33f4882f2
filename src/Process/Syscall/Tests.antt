-- ===== src/Process/Syscall/Tests.antt =====
-- Calls whose effect is a count of the calls made.
use java_script_os.Base.{ℕ, ◌+◌, ◌≡◌, ◌≤◌, ◌⊎◌, ◌-◌, ◌^◌}
use java_script_os.Process.Trap.{TrapFrame}
use java_script_os.Process.Trap.Tests.{frame}
use java_script_os.Process.Syscall.{Name, number, syscall_dispatch}
use java_script_os.Process.Syscall.Laws.{syscall_dispatch-number}

-- each call is counted, and clears `rdi` in the frame
abbrev sys : Name → ℕ → TrapFrame → ℕ × TrapFrame × ℕ
sys f s tf = (s + 1, record tf { rdi = 0 }, 7)

syscall_dispatch-number_example :
    ((f : Name) × (10 ≡ number f)
      × (syscall_dispatch sys 4 (frame 128 10) ≡ (5, record (frame 128 10) { rdi = 0; rax = 7 })))
    ⊎ ((21 ≤ 10)
        × (syscall_dispatch sys 4 (frame 128 10) ≡ (4, record (frame 128 10) { rax = 2 ^ 64 - 1 })))
syscall_dispatch-number_example = syscall_dispatch-number sys 4 (frame 128 10)
