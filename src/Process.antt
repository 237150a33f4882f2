-- ===== src/Process.antt =====
-- kernel/process and kernel/syscall: the process table, the scheduler, traps and system calls.
pub mod Table
pub mod Scheduler
pub mod Trap
pub mod Syscall
