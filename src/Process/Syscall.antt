-- ===== src/Process/Syscall.antt =====
-- kernel/syscall/syscalls.h and kernel/syscall/syscalls.c. The functions `sys_fork`, … are declared
-- there and defined nowhere: what each does to the kernel's state and to the frame, which it reaches as
-- that of the current process, with the `int` that it returns as its 32 bits, is the parameter `sys`.
pub mod Laws
mod Tests
use java_script_os.Base.{
  ℕ, ◌+◌, ◌-◌, ◌^◌, Option, none, some, List, [], ◌∷◌, ltb, if◌then◌else◌, get_elem?,
}
use java_script_os.Process.Trap.{TrapFrame}

-- `SYSCALL_LIST`
pub data Name : Type 0 where
  fork exit wait pipe read kill exec fstat chdir dup getpid sbrk sleep uptime : Name
  open_file write mknod unlink link mkdir close : Name

-- the enumeration `SYS_fork`, …
pub number : Name → ℕ
number fork = 0
number exit = 1
number wait = 2
number pipe = 3
number read = 4
number kill = 5
number exec = 6
number fstat = 7
number chdir = 8
number dup = 9
number getpid = 10
number sbrk = 11
number sleep = 12
number uptime = 13
number open_file = 14
number write = 15
number mknod = 16
number unlink = 17
number link = 18
number mkdir = 19
number close = 20

-- the table `syscalls`, whose entry `SYS_name` is `sys_name`
abbrev pub syscalls : List Name
syscalls =
    fork ∷ exit ∷ wait ∷ pipe ∷ read ∷ kill ∷ exec ∷ fstat ∷ chdir ∷ dup ∷ getpid ∷ sbrk ∷ sleep
    ∷ uptime ∷ open_file ∷ write ∷ mknod ∷ unlink ∷ link ∷ mkdir ∷ close ∷ []

-- an `int` of 32 bits stored into a `u64`: the sign is copied upwards
abbrev pub sign_extend : ℕ → ℕ
sign_extend x = if ltb x (2 ^ 31) then x else x + (2 ^ 64 - 2 ^ 32)

module _ {S : Type 0} (sys : Name → S → TrapFrame → S × TrapFrame × ℕ) where
  -- what `syscall_dispatch` does with the entry that it found
  pub answer : Option Name → S → TrapFrame → S × TrapFrame
  answer none s tf = (s, record tf { rax = 2 ^ 64 - 1 })
  answer (some f) s tf = let (s', tf', r) = sys f s tf in (s', record tf' { rax = sign_extend r })

  -- The number comes in `rsi`. The test against `NELEM(syscalls)` is the one of `get_elem?`; no
  -- entry of the table is null.
  pub syscall_dispatch : S → TrapFrame → S × TrapFrame
  unfolding answer
  syscall_dispatch s tf = answer (get_elem? syscalls tf.rsi) s tf
