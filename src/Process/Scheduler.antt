-- ===== src/Process/Scheduler.antt =====
-- kernel/process/scheduler.c as a step relation of several CPUs over one process table.
-- `acquire`, `release` and `swtch` are assembly or undeclared code: a lock is had by one CPU at a
-- time, a switch goes to the context that it names. `switchuvm` and `switchkvm`, which are undeclared
-- too, are parameters. As in the code, where these calls are commented out, `yield` does not acquire
-- the lock and a process that begins to run does not release it: it runs with the lock held.
pub mod Invariant
pub mod Fair
mod Tests
use java_script_os.Base.{
  ℕ, ◌+◌, ◌<◌, ◌≡◌, ◌≢◌, Bool, true, false, Option, none, some, ◌==◌, if◌then◌else◌,
}
use java_script_os.Process.Table.{ProcState, embryo, sleeping, runnable, running}

-- Where a CPU is: outside the lock in `scheduler`, in its loop at a slot, or in the process of a slot.
pub data Pc : Type 0 where
  idle : Pc
  scan : ℕ → Pc
  run : ℕ → Pc

-- `struct cpu`: `proc`, the process whose page tables are loaded (`none` for none), and where
-- the CPU is.
pub record Cpu : Type 0 where
  pub proc : Option ℕ
  pub space : Option ℕ
  pub pc : Pc

-- The holder of `ptable.lock`, the states of the slots, and the CPUs.
pub record System : Type 0 where
  pub lock : Option ℕ
  pub state : ℕ → ProcState
  pub cpu : ℕ → Cpu

abbrev pub update {ℓ} : {A : Type ℓ} → (ℕ → A) → ℕ → A → ℕ → A
update f i a j = if j == i then a else f j

-- `acquire(&ptable.lock)` and the start of the loop over the table
pub enter : ℕ → System → System
enter c s = record s { lock = some c; cpu = update s.cpu c (record (s.cpu c) { pc = scan 0 }) }

-- `continue` in the loop
pub skip : ℕ → ℕ → System → System
skip c i s = record s { cpu = update s.cpu c (record (s.cpu c) { pc = scan (i + 1) }) }

-- whose page tables `switchuvm(p)` and `switchkvm()` leave loaded
pub record Switches : Type 0 where
  pub switchuvm : ℕ → Option ℕ
  pub switchkvm : Option ℕ

-- the body of the loop up to `swtch`
pub dispatch : Switches → ℕ → ℕ → System → System
dispatch sw c i s = record s {
  state = update s.state i running;
  cpu = update s.cpu c (record { proc = some i; space = sw.switchuvm i; pc = run i });
}

-- `yield` of the process in slot `i`, `sched`, and the body of the loop after `swtch`
pub yield : Switches → ℕ → ℕ → System → System
yield sw c i s = record s {
  state = update s.state i runnable;
  cpu = update s.cpu c (record { proc = none; space = sw.switchkvm; pc = scan (i + 1) });
}

-- `release(&ptable.lock)` after the loop
pub leave : ℕ → System → System
leave c s = record s { lock = none; cpu = update s.cpu c (record (s.cpu c) { pc = idle }) }

-- A process that was set up becomes RUNNABLE, as at the end of `userinit`.
pub ready : ℕ → System → System
ready i s = record s { state = update s.state i runnable }

module _ (sw : Switches) (nproc : ℕ) where
  pub data Step (s : System) : System → Type 0 where
    entering : (c : ℕ) → (s.cpu c).pc ≡ idle → s.lock ≡ none → Step s (enter c s)
    skipping :
        (c i : ℕ) → (s.cpu c).pc ≡ scan i → i < nproc → s.state i ≢ runnable → Step s (skip c i s)
    dispatching :
        (c i : ℕ)
        → (s.cpu c).pc ≡ scan i
        → i < nproc
        → s.state i ≡ runnable
        → Step s (dispatch sw c i s)
    yielding : (c i : ℕ) → (s.cpu c).pc ≡ run i → Step s (yield sw c i s)
    leaving : (c : ℕ) → (s.cpu c).pc ≡ scan nproc → Step s (leave c s)
    readying : (i : ℕ) → s.state i ≡ embryo → Step s (ready i s)

  pub data Reach (s : System) : System → Type 0 where
    here : Reach s s
    next : {t u : System} → Reach s t → Step t u → Reach s u

-- Every CPU starts in `scheduler` with `c->proc = 0`; no process is running.
pub record IsInitial (s : System) : Type 0 where
  pub free : s.lock ≡ none
  pub cpus : (c : ℕ) → s.cpu c ≡ record { proc = none; space = none; pc = idle }
  pub stopped : (i : ℕ) → s.state i ≢ running
