-- ===== src/Process/Scheduler/Tests.antt =====
-- The scheduler on a table of three slots with one process, in slot 1.
use java_script_os.Base.{ℕ, ◌≡◌, ◌≢◌, refl, none, some, arith, ◌==◌, if◌then◌else◌}
use java_script_os.Process.Table.{ProcState, unused, runnable, running}
use java_script_os.Process.Scheduler.{
  idle, run, scan, Switches, System, enter, skip, dispatch, entering, skipping, dispatching, Reach,
  here, next, IsInitial,
}
use java_script_os.Process.Scheduler.Invariant.{one_running, running_is_current}
use java_script_os.Process.Scheduler.Fair.{Moved, runnable_is_reached}

abbrev table : ℕ → ProcState
table i = if i == 1 then runnable else unused

abbrev switches : Switches
switches = record { switchuvm = λ i. some i; switchkvm = none }

abbrev start : System
start = record {
  lock = none;
  state = table;
  cpu = λ c. record { proc = none; space = none; pc = idle };
}

start-IsInitial : IsInitial start
start-IsInitial = record { free = refl; cpus = λ c. refl; stopped = λ i e. ground arith }

abbrev started : System
started = dispatch switches 0 1 (skip 0 0 (enter 0 start))

path : Reach switches 3 start started
unfolding enter skip dispatch
path =
    next (next (next here (entering 0 refl refl)) (skipping 0 0 refl (omega arith) (λ e. cc)))
      (dispatching 0 1 refl (omega arith) refl)

slot_runs : started.state 1 ≡ running
unfolding enter skip dispatch
slot_runs = refl

abbrev slot : ℕ
slot = 1

one_running_example : slot ≡ slot
one_running_example = one_running start-IsInitial path 1 1 slot_runs slot_runs

running_is_current_example :
    (c : ℕ) × (started.lock ≡ some c)
    × ((started.cpu c).proc ≡ some 1)
    × ((started.cpu c).space ≡ some 1)
running_is_current_example = running_is_current start-IsInitial path 1 slot_runs

scanning : ((enter 0 start).cpu 0).pc ≡ scan 0
unfolding enter
scanning = refl

waiting : (enter 0 start).state 1 ≡ runnable
unfolding enter
waiting = refl

not_runnable : (enter 0 start).state 0 ≢ runnable
unfolding enter
not_runnable e = cc

runnable_is_reached_example :
    ((t : System) × Reach switches 3 (enter 0 start) t × ((t.cpu 0).pc ≡ run 1))
    × Moved 0 0 1 (skip 0 0 (enter 0 start))
runnable_is_reached_example =
    runnable_is_reached switches 3 0 0 1 (enter 0 start) (skip 0 0 (enter 0 start)) scanning
      (omega arith) (omega arith) waiting (skipping 0 0 scanning (omega arith) not_runnable)
